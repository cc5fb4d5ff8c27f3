-- ===== src/Xdr/Array/Laws.antt =====
-- The bytes of arrays: the elements' bytes one after the other, behind the count if it is sent.
use mathlib.Core.Path.{subst, ap₂}
use native.Mathlib.Nat.{zero-add}
use oncrpc4_win.Common.{
  ℕ, ◌+◌, ◌-◌, ◌/◌, ◌^◌, ◌≤◌, ◌≡◌, refl, sym, ap, ◌∙◌, Bool, true, false, Option, some, List, [],
  ◌∷◌, ◌++◌, length, arith, append_assoc, length-append, ltb-false, All,
}
use oncrpc4_win.Common.Words.{be32}
use oncrpc4_win.Xdr.Stream.{encode, decode, XdrOps, XdrLaws, Filter}
use oncrpc4_win.Xdr.Codec.{Encoded, Decoded, Encodes, Decodes}
use oncrpc4_win.Xdr.Scalar.{xdr_u_int}
use oncrpc4_win.Xdr.Scalar.Laws.{xdr_u_int-Encodes}
use oncrpc4_win.Xdr.Array.{CountedArray, then_rest, elements, array_sized, xdr_array}

-- The bytes of all elements.
abbrev pub flat : {A : Type 0} → (A → List ℕ) → List A → List ℕ
flat wire [] = []
flat wire (a ∷ rest) = wire a ++ flat wire rest

abbrev pub counted_array : {A : Type 0} → Option (List A) → ℕ → CountedArray A
counted_array base c = record { base = base; count = c }

module _ {S A : Type 0} {x : XdrOps S} (laws : XdrLaws x) (elproc : Filter S A)
    (wire : A → List ℕ) where
  then_rest-Encoded :
      (c n : ℕ) (a : A) (later : List A) (bs cs : List ℕ) (s : S)
      → Encodes laws (λ op. elements elproc c op) later cs
      → (r : Bool × A × S) → Encoded laws a bs s (length cs + n) r
      → Encoded laws (a ∷ later) (bs ++ cs) s n (then_rest (elements elproc c encode later) later r)
  then_rest-Encoded c n a later bs cs s h (false, a', s') (ok, keep, out, room) = cc
  then_rest-Encoded c n a later bs cs s h (true, a', s') (ok, keep, out, room) =
      let (ok', keep', out', room') = h s' n room in
      (
        ok',
        ap₂ (λ (b : A) (l : List A). b ∷ l) keep keep',
        out' ∙ rw out (laws.append-append (laws.output s) bs cs),
        room',
      )

  pub elements-Encodes :
      (elems : List A)
      → All (λ a. Encodes laws elproc a (wire a)) elems
      → Encodes laws (λ op. elements elproc (length elems) op) elems (flat wire elems)
  unfolding elements
  elements-Encodes [] h s n room = (refl, refl, sym (laws.append-nil s), rw zero-add at room)
  elements-Encodes (a ∷ later) h s n room =
      then_rest-Encoded (length later) n a later (wire a) (flat wire later) s
        (elements-Encodes later h.1) (elproc encode a s)
        (h.0 s (length (flat wire later) + n)
          (subst (laws.Room s) (omega (arith, length-append (wire a) (flat wire later))) room))

  then_rest-Decoded :
      (c : ℕ) (a : A) (olds later : List A) (cs rest : List ℕ)
      → Decodes laws (λ op. elements elproc c op) olds later cs
      → (r : Bool × A × S) → Decoded laws a (cs ++ rest) r
      → Decoded laws (a ∷ later) rest (then_rest (elements elproc c decode olds) olds r)
  then_rest-Decoded c a olds later cs rest h (false, a', s') (ok, got, left) = cc
  then_rest-Decoded c a olds later cs rest h (true, a', s') (ok, got, left) =
      let (ok', got', left') = h s' rest left in
      (ok', ap₂ (λ (b : A) (l : List A). b ∷ l) got got', left')

  pub elements-Decodes :
      (elems olds : List A)
      → length olds ≡ length elems
      → All (λ a. (old : A) → Decodes laws elproc old a (wire a)) elems
      → Decodes laws (λ op. elements elproc (length elems) op) olds elems (flat wire elems)
  unfolding elements
  elements-Decodes [] [] e h s rest input = (refl, refl, input)
  elements-Decodes [] (o ∷ olds) e h s rest input = absurd (omega arith)
  elements-Decodes (a ∷ later) [] e h s rest input = absurd (omega arith)
  elements-Decodes (a ∷ later) (o ∷ olds) e h s rest input =
      then_rest-Decoded (length later) a olds later (flat wire later) rest
        (elements-Decodes later olds (omega arith) h.1) (elproc decode o s)
        (h.0 o s (flat wire later ++ rest) (rw append_assoc at input))

  module _ (mem_alloc : ℕ → Bool) (blank : A) (elsize : ℕ) where
    array_sized-Encoded :
        (maxsize : ℕ) (elems : List A) (s : S) (k : ℕ)
        → length elems ≤ maxsize
        → length elems ≤ (2 ^ 32 - 1) / elsize
        → All (λ a. Encodes laws elproc a (wire a)) elems
        → (r : Bool × ℕ × S)
        → Encoded laws (length elems) (be32 (length elems)) s (length (flat wire elems) + k) r
        → Encoded laws
            (counted_array (some elems) (length elems))
            (be32 (length elems) ++ flat wire elems)
            s
            k
            (array_sized x mem_alloc blank elsize elproc maxsize encode (some elems) r)
    array_sized-Encoded maxsize elems s k hm he h (false, c, s') (ok, keep, out, room) = cc
    array_sized-Encoded maxsize elems s k hm he h (true, c, s') (ok, keep, out, room) =
        let (ok', keep', out', room') = elements-Encodes elems h s' k room in
        rw
          (
            keep,
            ltb-false maxsize (length elems) hm,
            ltb-false ((2 ^ 32 - 1) / elsize) (length elems) he,
          )
          (
            ok',
            ap (λ e. counted_array (some e) (length elems)) keep',
            out'
                ∙ rw out
                    (laws.append-append (laws.output s) (be32 (length elems)) (flat wire elems)),
            room',
          )

    -- The count, then the elements.
    pub xdr_array-Encodes :
        (maxsize : ℕ) (elems : List A)
        → length elems ≤ maxsize
        → length elems ≤ (2 ^ 32 - 1) / elsize
        → All (λ a. Encodes laws elproc a (wire a)) elems
        → Encodes laws
            (xdr_array x mem_alloc blank elsize elproc maxsize)
            (counted_array (some elems) (length elems))
            (be32 (length elems) ++ flat wire elems)
    unfolding xdr_array
    xdr_array-Encodes maxsize elems hm he h s k room =
        array_sized-Encoded maxsize elems s k hm he h (xdr_u_int x encode (length elems) s) (
          xdr_u_int-Encodes laws (length elems) s (length (flat wire elems) + k) (
            subst (laws.Room s)
              (omega (arith, length-append (be32 (length elems)) (flat wire elems))) room))
