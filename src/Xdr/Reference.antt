-- ===== src/Xdr/Reference.antt =====
-- libsrc/xdr_reference.c: objects behind a pointer, and optional objects.
pub mod Laws
use oncrpc4_win.Common.{ℕ, Bool, true, false, Option, none, some, ◌==◌, if◌then◌else◌}
use oncrpc4_win.Xdr.Stream.{XdrOp, encode, decode, free, XdrOps, Filter}
use oncrpc4_win.Xdr.Scalar.{xdr_bool}

-- The pointer after the call: still to the object, or NULL after XDR_FREE.
abbrev pub after_proc : {S A : Type 0} → XdrOp → Bool × A × S → Bool × Option A × S
after_proc free (r, a, s) = (r, none, s)
after_proc _ (r, a, s) = (r, some a, s)

module _ {S A : Type 0} (mem_alloc : ℕ → Bool) (blank : A) (size : ℕ) (proc : Filter S A) where
  -- Encoding through a null pointer hands NULL to `proc`, which the model does not follow: it
  -- reports a failure.
  unfoldable pub xdr_reference : Filter S (Option A)
  xdr_reference free none s = (true, none, s)
  xdr_reference decode none s =
      if mem_alloc size then after_proc decode (proc decode blank s) else (false, none, s)
  xdr_reference encode none s = (false, none, s)
  xdr_reference op (some loc) s = after_proc op (proc op loc s)

  -- `more_data = (*objpp != NULL)`.
  abbrev pub is_some : Option A → ℕ
  is_some none = 0
  is_some (some _) = 1

  abbrev pub if_more : XdrOp → Option A → Bool × ℕ × S → Bool × Option A × S
  if_more op p (false, more_data, s) = (false, p, s)
  if_more op p (true, more_data, s) =
      if more_data == 0 then (true, none, s) else xdr_reference op p s

  unfoldable pub xdr_pointer : XdrOps S → Filter S (Option A)
  xdr_pointer x op p s = if_more op p (xdr_bool x op (is_some p) s)
