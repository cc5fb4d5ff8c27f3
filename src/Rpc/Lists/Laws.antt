-- ===== src/Rpc/Lists/Laws.antt =====
-- The loop over a linked list returns, and what it sends it also receives.
use mathlib.Core.Path.{subst}
use oncrpc4_win.Common.{
  ℕ, zero, suc, ◌+◌, ◌<◌, ◌≡◌, refl, ap, ◌∙◌, Bool, true, false, Option, none, some, List, [], ◌∷◌,
  ◌++◌, length, All, arith, length-append, append_assoc,
}
use oncrpc4_win.Common.Words.{be32}
use oncrpc4_win.Xdr.Stream.{encode, decode, XdrOps, Filter, XdrLaws}
use oncrpc4_win.Xdr.Codec.{Encoded, Decoded, Codec}
use oncrpc4_win.Xdr.Scalar.{xdr_bool}
use oncrpc4_win.Xdr.Scalar.Laws.{xdr_bool-Encodes, xdr_bool-Decodes}
use oncrpc4_win.Xdr.Reference.{xdr_reference}
use oncrpc4_win.Xdr.Reference.Laws.{xdr_reference-Encodes, xdr_reference-Decodes_new}
use oncrpc4_win.Rpc.Lists.{linked, after_element, after_more, list_loop}

-- TRUE before each element, and FALSE at the end.
unfoldable pub list_wire : {A : Type 0} → (A → List ℕ) → List A → List ℕ
list_wire wire [] = be32 0
list_wire wire (a ∷ l) = be32 1 ++ (wire a ++ list_wire wire l)

module _ {S A : Type 0} {x : XdrOps S} (laws : XdrLaws x) where
  -- The loop has returned, with an outcome that is the one meant.
  abbrev pub EncodedSome : List A → List ℕ → S → ℕ → Option (Bool × List A × S) → Type 0
  EncodedSome l bs s n none = ⊥
  EncodedSome l bs s n (some r) = Encoded laws l bs s n r

  abbrev pub DecodedSome : List A → List ℕ → Option (Bool × List A × S) → Type 0
  DecodedSome l rest none = ⊥
  DecodedSome l rest (some r) = Decoded laws l rest r

  -- Bytes written before.
  behind-Encoded :
      (l : List A) (bs cs : List ℕ) (s s' : S) (n : ℕ)
      → laws.output s' ≡ laws.append (laws.output s) bs
      → (r : Option (Bool × List A × S)) → EncodedSome l cs s' n r
      → EncodedSome l (bs ++ cs) s n r
  behind-Encoded l bs cs s s' n h none e = e
  behind-Encoded l bs cs s s' n h (some (b, l', t)) (ok, keep, out, room) =
      (ok, keep, out ∙ rw h (laws.append-append (laws.output s) bs cs), room)

  linked-Encoded :
      (a : A) (l : List A) (cs : List ℕ) (s : S) (n : ℕ) (r : Option (Bool × List A × S))
      → EncodedSome l cs s n r
      → EncodedSome (a ∷ l) cs s n (linked (some a) r)
  linked-Encoded a l cs s n none e = e
  linked-Encoded a l cs s n (some (b, l', t)) (ok, keep, out, room) =
      (ok, ap (λ l. a ∷ l) keep, out, room)

  linked-Decoded :
      (a : A) (l : List A) (rest : List ℕ) (r : Option (Bool × List A × S))
      → DecodedSome l rest r
      → DecodedSome (a ∷ l) rest (linked (some a) r)
  linked-Decoded a l rest none e = e
  linked-Decoded a l rest (some (b, l', t)) (ok, got, left) = (ok, ap (λ l. a ∷ l) got, left)

module _ {S A : Type 0} {x : XdrOps S} (laws : XdrLaws x) {proc : Filter S A} (c : Codec laws proc)
    (mem_alloc : ℕ → Bool) (blank : A) (size : ℕ) (reread : List A → List A) where
  ended-Encoded :
      (go : List A → S → Option (Bool × List A × S)) (s : S) (n : ℕ) (r : Bool × ℕ × S)
      → Encoded laws 0 (be32 0) s n r
      → EncodedSome laws []
          (be32 0)
          s
          n
          (after_more x mem_alloc blank size proc reread go encode [] r)
  ended-Encoded go s n (false, m, s') (ok, keep, out, room) = cc
  ended-Encoded go s n (true, m, s') (ok, keep, out, room) = rw keep (refl, refl, out, room)

  element-Encoded :
      (go : List A → S → Option (Bool × List A × S)) (a : A) (l : List A) (cs : List ℕ) (s : S)
      (n : ℕ)
      → ((t : S) → laws.Room t (length cs + n) → EncodedSome laws l cs t n (go l t))
      → (r : Bool × Option A × S) → Encoded laws (some a) (c.wire a) s (length cs + n) r
      → EncodedSome laws
          (a ∷ l)
          (c.wire a ++ cs)
          s
          n
          (after_element x mem_alloc blank size proc reread go encode l r)
  element-Encoded go a l cs s n h (false, p, t) (ok, keep, out, room) = cc
  element-Encoded go a l cs s n h (true, p, t) (ok, keep, out, room) = rw keep (
      behind-Encoded laws (a ∷ l) (c.wire a) cs s t n out _
        (linked-Encoded laws a l cs t n (go l t) (h t room)))

  more-Encoded :
      (go : List A → S → Option (Bool × List A × S)) (a : A) (l : List A) (cs : List ℕ) (s : S)
      (n : ℕ)
      → c.IsValid a
      → ((t : S) → laws.Room t (length cs + n) → EncodedSome laws l cs t n (go l t))
      → (r : Bool × ℕ × S) → Encoded laws 1 (be32 1) s (length (c.wire a ++ cs) + n) r
      → EncodedSome laws
          (a ∷ l)
          (be32 1 ++ (c.wire a ++ cs))
          s
          n
          (after_more x mem_alloc blank size proc reread go encode (a ∷ l) r)
  more-Encoded go a l cs s n ha h (false, m, t) (ok, keep, out, room) = cc
  more-Encoded go a l cs s n ha h (true, m, t) (ok, keep, out, room) = rw keep (
      behind-Encoded laws (a ∷ l) (be32 1) (c.wire a ++ cs) s t n out _ (
        element-Encoded go a l cs t n h (xdr_reference mem_alloc blank size proc encode (some a) t)
          (xdr_reference-Encodes laws mem_alloc blank size proc a (c.wire a) (c.encodes a ha) t
            (length cs + n)
            (subst (laws.Room t) (omega (arith, length-append (c.wire a) cs)) room))))

  pub list_loop-Encodes :
      (l : List A) (fuel : ℕ) (s : S) (n : ℕ)
      → length l < fuel
      → All c.IsValid l
      → laws.Room s (length (list_wire c.wire l) + n)
      → EncodedSome laws l
          (list_wire c.wire l)
          s
          n
          (list_loop x mem_alloc blank size proc reread fuel encode l s)
  unfolding list_loop list_wire
  list_loop-Encodes l zero s n hf h room = absurd (omega arith)
  list_loop-Encodes [] (suc fuel) s n hf h room =
      ended-Encoded (list_loop x mem_alloc blank size proc reread fuel encode) s n
        (xdr_bool x encode 0 s) (xdr_bool-Encodes laws 0 s n room)
  list_loop-Encodes (a ∷ l) (suc fuel) s n hf (ha, h) room =
      more-Encoded (list_loop x mem_alloc blank size proc reread fuel encode) a l
        (list_wire c.wire l) s n ha (λ t room. list_loop-Encodes l fuel t n (omega arith) h room)
        (xdr_bool x encode 1 s)
        (xdr_bool-Encodes laws 1 s (length (c.wire a ++ list_wire c.wire l) + n) (
          subst (laws.Room s)
            (omega (arith, length-append (be32 1) (c.wire a ++ list_wire c.wire l))) room))

  ended-Decoded :
      (go : List A → S → Option (Bool × List A × S)) (rest : List ℕ) (r : Bool × ℕ × S)
      → Decoded laws 0 rest r
      → DecodedSome laws [] rest (after_more x mem_alloc blank size proc reread go decode [] r)
  ended-Decoded go rest (false, m, t) (ok, got, left) = cc
  ended-Decoded go rest (true, m, t) (ok, got, left) = rw got (refl, refl, left)

  element-Decoded :
      (go : List A → S → Option (Bool × List A × S)) (a : A) (l : List A) (bs rest : List ℕ)
      → ((t : S) → laws.Input t (bs ++ rest) → DecodedSome laws l rest (go [] t))
      → (r : Bool × Option A × S) → Decoded laws (some a) (bs ++ rest) r
      → DecodedSome laws
          (a ∷ l)
          rest
          (after_element x mem_alloc blank size proc reread go decode [] r)
  element-Decoded go a l bs rest h (false, p, t) (ok, got, left) = cc
  element-Decoded go a l bs rest h (true, p, t) (ok, got, left) =
      rw got (linked-Decoded laws a l rest (go [] t) (h t left))

  more-Decoded :
      (go : List A → S → Option (Bool × List A × S)) (a : A) (l : List A) (bs rest : List ℕ)
      → mem_alloc size ≡ true
      → c.IsValid a
      → ((t : S) → laws.Input t (bs ++ rest) → DecodedSome laws l rest (go [] t))
      → (r : Bool × ℕ × S) → Decoded laws 1 ((c.wire a ++ bs) ++ rest) r
      → DecodedSome laws (a ∷ l) rest (after_more x mem_alloc blank size proc reread go decode [] r)
  more-Decoded go a l bs rest hm ha h (false, m, t) (ok, got, left) = cc
  more-Decoded go a l bs rest hm ha h (true, m, t) (ok, got, left) = rw got (
      element-Decoded go a l bs rest h (xdr_reference mem_alloc blank size proc decode none t) (
        xdr_reference-Decodes_new laws mem_alloc blank size proc a (c.wire a) hm
          (c.decodes blank a ha) t (bs ++ rest) (rw append_assoc at left)))

  pub list_loop-Decodes :
      (l : List A) (fuel : ℕ) (s : S) (rest : List ℕ)
      → length l < fuel
      → mem_alloc size ≡ true
      → All c.IsValid l
      → laws.Input s (list_wire c.wire l ++ rest)
      → DecodedSome laws l rest (list_loop x mem_alloc blank size proc reread fuel decode [] s)
  unfolding list_loop list_wire
  list_loop-Decodes l zero s rest hf hm h input = absurd (omega arith)
  list_loop-Decodes [] (suc fuel) s rest hf hm h input =
      ended-Decoded (list_loop x mem_alloc blank size proc reread fuel decode) rest
        (xdr_bool x decode 0 s) (xdr_bool-Decodes laws 0 0 (omega arith) s rest input)
  list_loop-Decodes (a ∷ l) (suc fuel) s rest hf hm (ha, h) input =
      more-Decoded (list_loop x mem_alloc blank size proc reread fuel decode) a l
        (list_wire c.wire l) rest hm ha
        (λ t input. list_loop-Decodes l fuel t rest (omega arith) hm h input)
        (xdr_bool x decode 0 s)
        (xdr_bool-Decodes laws 0 1 (omega arith) s ((c.wire a ++ list_wire c.wire l) ++ rest)
          (rw append_assoc at input))
