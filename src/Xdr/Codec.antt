-- ===== src/Xdr/Codec.antt =====
-- What a filter promises over any stream that keeps the interface's laws.
use mathlib.Core.Path.{subst}
use native.Mathlib.Nat.{zero-add}
use oncrpc4_win.Common.{
  ℕ, ◌+◌, ◌≡◌, Bool, true, false, refl, sym, ap, [], ◌∙◌, Option, none, some, List, ◌++◌, length,
  append_assoc, arith, length-append,
}
use oncrpc4_win.Xdr.Stream.{
  XdrOp, encode, decode, XdrOps, Filter, Wrote, Took, and_put, and_get, on_field, and_run, ◌&&&◌,
  holds, XdrLaws,
}

module _ {S : Type 0} {x : XdrOps S} (laws : XdrLaws x) where
  -- An encoding of `v` at `s` returned TRUE, left the object as it was, wrote the bytes `bs`, and
  -- left room for `n` more.
  abbrev pub Encoded : {A : Type 0} → A → List ℕ → S → ℕ → Bool × A × S → Type 0
  Encoded v bs s n (r, v', s') =
      (r ≡ true) × (v' ≡ v) × (laws.output s' ≡ laws.append (laws.output s) bs) × laws.Room s' n

  -- A decoding returned TRUE, made the object `v` and left the input `rest`.
  abbrev pub Decoded : {A : Type 0} → A → List ℕ → Bool × A × S → Type 0
  Decoded v rest (r, v', s') = (r ≡ true) × (v' ≡ v) × laws.Input s' rest

  -- The bytes of `v` under `f`: wherever they fit they are written,
  abbrev pub Encodes : {A : Type 0} → Filter S A → A → List ℕ → Type 0
  Encodes f v bs = (s : S) (n : ℕ) → laws.Room s (length bs + n) → Encoded v bs s n (f encode v s)

  -- and from them the object `old` becomes `v`.
  abbrev pub Decodes : {A : Type 0} → Filter S A → A → A → List ℕ → Type 0
  Decodes f old v bs =
      (s : S) (rest : List ℕ) → laws.Input s (bs ++ rest) → Decoded v rest (f decode old s)

  pub and_put-Wrote :
      (s : S) (bs cs : List ℕ) (n : ℕ) (r : Bool × S) (k : S → Bool × S)
      → Wrote laws.Room laws.append laws.output s bs (length cs + n) r
      → ((s' : S)
          → laws.Room s' (length cs + n)
          → Wrote laws.Room laws.append laws.output s' cs n (k s'))
      → Wrote laws.Room laws.append laws.output s (bs ++ cs) n (and_put r k)
  and_put-Wrote s bs cs n (false, s') k (ok, out, room) next = cc
  and_put-Wrote s bs cs n (true, s') k (ok, out, room) next =
      let (ok', out', room') = next s' room in
      (ok', out' ∙ rw out (laws.append-append (laws.output s) bs cs), room')

  pub and_get-Took :
      {A B : Type 0} (a : A) (b : B) (mid rest : List ℕ) (r : Option A × S)
      (k : A → S → Option B × S)
      → Took laws.Input a mid r
      → ((s' : S) → laws.Input s' mid → Took laws.Input b rest (k a s'))
      → Took laws.Input b rest (and_get r k)
  and_get-Took a b mid rest (none, s') k (ok, left) next = cc
  and_get-Took a b mid rest (some c, s') k (ok, left) next =
      let same : a ≡ c = cc in subst (λ c. Took laws.Input b rest (k c s')) same (next s' left)

  module _ {R : Type 0} where
    pub on_field-Encodes :
        {A : Type 0} (get : R → A) (set : R → A → R) (f : Filter S A) (r : R) (bs : List ℕ)
        → set r (get r) ≡ r
        → Encodes f (get r) bs
        → Encodes (on_field get set f) r bs
    unfolding on_field
    on_field-Encodes get set f r bs same h s n room =
        let (ok, keep, out, left) = h s n room in (ok, ap (set r) keep ∙ same, out, left)

    pub on_field-Decodes :
        {A : Type 0} (get : R → A) (set : R → A → R) (f : Filter S A) (old : R) (a : A)
        (bs : List ℕ)
        → Decodes f (get old) a bs
        → Decodes (on_field get set f) old (set old a) bs
    unfolding on_field
    on_field-Decodes get set f old a bs h s rest input =
        let (ok, got, left) = h s rest input in (ok, ap (set old) got, left)

    and_run-Encoded :
        (g : Filter S R) (v : R) (bs cs : List ℕ) (s : S) (n : ℕ)
        → Encodes g v cs
        → (r : Bool × R × S) → Encoded v bs s (length cs + n) r
        → Encoded v (bs ++ cs) s n (and_run g encode r)
    and_run-Encoded g v bs cs s n h (false, v', s') (ok, keep, out, room) = cc
    and_run-Encoded g v bs cs s n h (true, v', s') (ok, keep, out, room) =
        let (ok', keep', out', room') = h s' n room in
        rw keep (ok', keep', out' ∙ rw out (laws.append-append (laws.output s) bs cs), room')

    and_run-Decoded :
        (g : Filter S R) (mid v : R) (cs rest : List ℕ)
        → Decodes g mid v cs
        → (r : Bool × R × S) → Decoded mid (cs ++ rest) r
        → Decoded v rest (and_run g decode r)
    and_run-Decoded g mid v cs rest h (false, v', s') (ok, got, input) = cc
    and_run-Decoded g mid v cs rest h (true, v', s') (ok, got, input) = rw got (h s' rest input)

    pub &&&-Encodes :
        (f g : Filter S R) (v : R) (bs cs : List ℕ)
        → Encodes f v bs
        → Encodes g v cs
        → Encodes (f &&& g) v (bs ++ cs)
    unfolding ◌&&&◌
    &&&-Encodes f g v bs cs hf hg s n room =
        let e : length (bs ++ cs) + n ≡ length bs + (length cs + n) =
          omega (arith, length-append bs cs) in
        and_run-Encoded g v bs cs s n hg (f encode v s) (hf s (length cs + n) (rw e at room))

    pub &&&-Decodes :
        (f g : Filter S R) (old mid v : R) (bs cs : List ℕ)
        → Decodes f old mid bs
        → Decodes g mid v cs
        → Decodes (f &&& g) old v (bs ++ cs)
    unfolding ◌&&&◌
    &&&-Decodes f g old mid v bs cs hf hg s rest input =
        and_run-Decoded g mid v cs rest hg (f decode old s)
          (hf s (cs ++ rest) (rw append_assoc at input))

    pub holds-Encodes : (test : R → Bool) (v : R) → test v ≡ true → Encodes (holds test) v []
    unfolding holds
    holds-Encodes test v h s n room = (h, refl, sym (laws.append-nil s), rw zero-add at room)

    pub holds-Decodes : (test : R → Bool) (v : R) → test v ≡ true → Decodes (holds test) v v []
    unfolding holds
    holds-Decodes test v h s rest input = (h, refl, input)

-- A filter that encodes every valid object, and decodes it into any object.
pub record Codec {S A : Type 0} {x : XdrOps S} (laws : XdrLaws x) (f : Filter S A) : Type 1 where
  pub IsValid : A → Type 0
  pub wire : A → List ℕ
  pub encodes : (a : A) → IsValid a → Encodes laws f a (wire a)
  pub decodes : (old a : A) → IsValid a → Decodes laws f old a (wire a)

-- Whatever its operation and outcome, the filter keeps what the stream's operations keep.
abbrev pub Keeps : {S A : Type 0} → (S → Type 0) → Filter S A → Type 0
Keeps {A} P f = (op : XdrOp) (v : A) (s : _) → P s → P (f op v s).2

module _ {S : Type 0} {P : S → Type 0} {R : Type 0} where
  pub on_field-Keeps :
      {A : Type 0} (get : R → A) (set : R → A → R) (f : Filter S A)
      → Keeps P f
      → Keeps P (on_field get set f)
  unfolding on_field
  on_field-Keeps get set f h op r s p = h op (get r) s p

  and_run-Keeps :
      (g : Filter S R) (op : XdrOp) (r : Bool × R × S) → Keeps P g → P r.2 → P (and_run g op r).2
  and_run-Keeps g op (false, v, s) h p = p
  and_run-Keeps g op (true, v, s) h p = h op v s p

  pub &&&-Keeps : (f g : Filter S R) → Keeps P f → Keeps P g → Keeps P (f &&& g)
  unfolding ◌&&&◌
  &&&-Keeps f g hf hg op v s p = and_run-Keeps g op (f op v s) hg (hf op v s p)

pub holds-Keeps : {S R : Type 0} (P : S → Type 0) (test : R → Bool) → Keeps P (holds {S = S} test)
unfolding holds
holds-Keeps P test op v s p = p
