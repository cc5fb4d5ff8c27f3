-- ===== src/Rpc/Lists.antt =====
-- The loop that `xdr_rpcblist_ptr` and `xdr_rpcb_entry_list_ptr` (libsrc/rpcb_prot.c) and
-- `xdr_pmaplist` (libsrc/pmap_prot2.c) share: a linked list, sent as a boolean before each element
-- and a last FALSE.
pub mod Laws
use oncrpc4_win.Common.{
  ℕ, zero, suc, Bool, true, false, Option, none, some, List, [], ◌∷◌, ◌==◌, if◌then◌else◌,
}
use oncrpc4_win.Xdr.Stream.{XdrOp, encode, decode, free, XdrOps, Filter}
use oncrpc4_win.Xdr.Scalar.{xdr_bool}
use oncrpc4_win.Xdr.Reference.{xdr_reference}

module _ {A : Type 0} where
  -- `*rp != NULL`, the element at `*rp`, and `(*rp)->next`. A node that was just allocated is
  -- zeroed: nothing follows it.
  abbrev pub more : List A → ℕ
  more [] = 0
  more (_ ∷ _) = 1

  abbrev pub first : List A → Option A
  first [] = none
  first (a ∷ _) = some a

  abbrev pub next : List A → List A
  next [] = []
  next (_ ∷ l) = l

  -- The list from `*rp` on, when the pointer is what `xdr_reference` has left.
  abbrev pub relink : Option A → List A → List A
  relink none l = []
  relink (some a) l = a ∷ l

abbrev pub linked :
    {S A : Type 0} → Option A → Option (Bool × List A × S) → Option (Bool × List A × S)
linked p none = none
linked p (some (r, l, s)) = some (r, relink p l, s)

module _ {S A : Type 0} (x : XdrOps S) (mem_alloc : ℕ → Bool) (blank : A) (size : ℕ)
    (proc : Filter S A) (reread : List A → List A) where
  -- Once the element is done: freeing goes on with the pointer to the next node as it is then read,
  -- `reread`, and the others with the node's own.
  abbrev pub after_element :
      (List A → S → Option (Bool × List A × S))
      → XdrOp
      → List A
      → Bool × Option A × S
      → Option (Bool × List A × S)
  after_element rest op l (false, p, s) = some (false, relink p l, s)
  after_element rest free l (true, p, s) = linked p (rest (reread l) s)
  after_element rest op l (true, p, s) = linked p (rest l s)

  abbrev pub after_more :
      (List A → S → Option (Bool × List A × S))
      → XdrOp
      → List A
      → Bool × ℕ × S
      → Option (Bool × List A × S)
  after_more rest op l (false, more_elements, s) = some (false, l, s)
  after_more rest op l (true, more_elements, s) =
      if more_elements == 0
      then some (true, l, s)
      else after_element rest op (next l) (xdr_reference mem_alloc blank size proc op (first l) s)

  -- The loop, for at most `fuel` rounds; `none` if it has not returned by then.
  unfoldable pub list_loop : ℕ → XdrOp → List A → S → Option (Bool × List A × S)
  list_loop zero op l s = none
  list_loop (suc fuel) op l s = after_more (list_loop fuel op) op l (xdr_bool x op (more l) s)
