-- ===== src/Xdr/Union/Laws.antt =====
-- `xdr_union`: the discriminant's four bytes, then those of the arm that it chooses.
use mathlib.Core.Path.{subst}
use oncrpc4_win.Common.{
  sym, [], ◌∷◌, ◌==◌, All, ==→eq, ==_refl, Bool-cases, inl, inr, if_true, if_false, ℕ, ◌+◌, ◌≡◌,
  ◌≢◌, refl, ap, ◌∙◌, Bool, true, false, Option, none, some, List, ◌++◌, length, arith,
  append_assoc, length-append,
}
use oncrpc4_win.Common.Words.{IsU32, be32}
use oncrpc4_win.Xdr.Stream.{XdrOp, encode, decode, XdrOps, XdrLaws, Filter}
use oncrpc4_win.Xdr.Codec.{Encoded, Decoded, Encodes, Decodes}
use oncrpc4_win.Xdr.Scalar.{xdr_enum}
use oncrpc4_win.Xdr.Scalar.Laws.{xdr_enum-Encodes, xdr_enum-Decodes}
use oncrpc4_win.Xdr.Union.{Discrim, choose, run_choice, chosen, xdr_union}

module _ {S U : Type 0} {x : XdrOps S} (laws : XdrLaws x) (choices : List (Discrim S U))
    (dfault : Option (Filter S U)) (f : Filter S U) (d : ℕ)
    (arm : choose d choices dfault ≡ some f) where
  chosen-Encoded :
      (u : U) (bs : List ℕ) (s : S) (n : ℕ)
      → Encodes laws f u bs
      → (r : Bool × ℕ × S) → Encoded laws d (be32 d) s (length bs + n) r
      → Encoded laws (d, u) (be32 d ++ bs) s n (chosen x choices dfault encode u r)
  chosen-Encoded u bs s n h (false, d', s') (ok, keep, out, room) = cc
  chosen-Encoded u bs s n h (true, d', s') (ok, keep, out, room) =
      let (ok', keep', out', room') = h s' n room in
      rw (keep, arm)
        (
          ok',
          ap (λ (v : U). (d, v)) keep',
          out' ∙ rw out (laws.append-append (laws.output s) (be32 d) bs),
          room',
        )

  pub xdr_union-Encodes :
      (u : U) (bs : List ℕ)
      → Encodes laws f u bs
      → Encodes laws (xdr_union x choices dfault) (d, u) (be32 d ++ bs)
  unfolding xdr_union
  xdr_union-Encodes u bs h s n room = chosen-Encoded u bs s n h (xdr_enum x encode d s) (
      xdr_enum-Encodes laws d s (length bs + n)
        (subst (laws.Room s) (omega (arith, length-append (be32 d) bs)) room))

  chosen-Decoded :
      (old u : U) (bs rest : List ℕ)
      → Decodes laws f old u bs
      → (r : Bool × ℕ × S) → Decoded laws d (bs ++ rest) r
      → Decoded laws (d, u) rest (chosen x choices dfault decode old r)
  chosen-Decoded old u bs rest h (false, d', s') (ok, got, left) = cc
  chosen-Decoded old u bs rest h (true, d', s') (ok, got, left) =
      let (ok', got', left') = h s' rest left in
      rw (got, arm) (ok', ap (λ (v : U). (d, v)) got', left')

  pub xdr_union-Decodes :
      (old_d : ℕ) (old u : U) (bs : List ℕ)
      → IsU32 d
      → Decodes laws f old u bs
      → Decodes laws (xdr_union x choices dfault) (old_d, old) (d, u) (be32 d ++ bs)
  unfolding xdr_union
  xdr_union-Decodes old_d old u bs hd h s rest input =
      chosen-Decoded old u bs rest h (xdr_enum x decode old_d s)
        (xdr_enum-Decodes laws old_d d hd s (bs ++ rest) (rw append_assoc at input))

module _ {S U : Type 0} where
  -- `f` is the filter of the first choice that names `d`.
  abbrev First : ℕ → List (Discrim S U) → Option (Filter S U) → Type 0
  First d choices none = Unit
  First d choices (some f) =
      (before : List (Discrim S U)) × (c : Discrim S U) × (after : List (Discrim S U)) × (choices
        ≡ before ++ (c ∷ after))
      × (c.value ≡ d)
      × All (λ (c : Discrim S U). c.value ≢ d) before
      × (c.proc ≡ f)

  next_First :
      (d : ℕ) (c : Discrim S U) (cs : List (Discrim S U)) (o : Option (Filter S U))
      → c.value ≢ d
      → First d cs o
      → First d (c ∷ cs) o
  next_First d c cs none ne h = tt
  next_First d c cs (some f) ne (before, k, after, listed, named, others, ef) =
      (c ∷ before, k, after, ap (λ t. c ∷ t) listed, named, (ne, others), ef)

  choose-First : (d : ℕ) (choices : List (Discrim S U)) → First d choices (choose d choices none)
  unfolding choose
  choose-First d [] = tt
  choose-First d (c ∷ cs) = elim (Bool-cases (c.value == d)) [
    | inl e ↦
        if_true (First d (c ∷ cs)) (c.value == d) (some c.proc) (choose d cs none) e
          ([], c, cs, refl, ==→eq c.value d e, tt, refl)
    | inr e ↦ if_false (First d (c ∷ cs)) (c.value == d) (some c.proc) (choose d cs none) e (
        next_First d c cs (choose d cs none)
          (λ same. let t : (c.value == d) ≡ true = rw same (==_refl d) in cc) (choose-First d cs))
  ]

module _ {S U : Type 0} (x : XdrOps S) (choices : List (Discrim S U)) where
  -- A choice of the list ran: the first that names the discriminant `d`, which the filter of
  -- enumerations has answered in `r`.
  pub record Chosen (op : XdrOp) (u : U) (r : Bool × ℕ × S) (result : Bool × (ℕ × U) × S)
      : Type 0 where
    pub before : List (Discrim S U)
    pub choice : Discrim S U
    pub after : List (Discrim S U)
    pub read : r.0 ≡ true
    pub listed : choices ≡ before ++ (choice ∷ after)
    pub named : choice.value ≡ r.1
    pub others : All (λ (c : Discrim S U). c.value ≢ r.1) before
    pub ran : result ≡ (let (ok, u', s') = choice.proc op u r.2 in (ok, (r.1, u'), s'))

  run_Chosen :
      (op : XdrOp) (u : U) (d : ℕ) (s : S) (o : Option (Filter S U))
      → First d choices o
      → (run_choice x o op (d, u) s).0 ≡ true
      → Chosen op u (true, d, s) (run_choice x o op (d, u) s)
  run_Chosen op u d s none h ok = cc
  run_Chosen op u d s (some f) (before, c, after, listed, named, others, ef) ok = record {
    before = before;
    choice = c;
    after = after;
    read = refl;
    listed = listed;
    named = named;
    others = others;
    ran = ap (λ g. run_choice x (some g) op (d, u) s) (sym ef);
  }

  chosen-Chosen :
      (op : XdrOp) (u : U) (r : Bool × ℕ × S)
      → (chosen x choices none op u r).0 ≡ true
      → Chosen op u r (chosen x choices none op u r)
  chosen-Chosen op u (false, d, s) ok = cc
  chosen-Chosen op u (true, d, s) ok =
      run_Chosen op u d s (choose d choices none) (choose-First d choices) ok

  -- With no default, whatever the operation and the stream: a union that is accepted has a
  -- discriminant that a choice of the list names, and what is returned is what the filter of the
  -- first such choice made of the union.
  pub xdr_union-Chosen :
      (op : XdrOp) (v : ℕ × U) (s : S)
      → (xdr_union x choices none op v s).0 ≡ true
      → Chosen op v.1 (xdr_enum x op v.0 s) (xdr_union x choices none op v s)
  unfolding xdr_union
  xdr_union-Chosen op v s ok = chosen-Chosen op v.1 (xdr_enum x op v.0 s) ok
