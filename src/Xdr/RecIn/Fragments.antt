-- ===== src/Xdr/RecIn/Fragments.antt =====
-- Records on the wire, and where a stream stands in one.
use mathlib.Core.Path.{subst}
use oncrpc4_win.Common.{
  ℕ, ◌+◌, ◌%◌, ◌^◌, ◌<◌, ◌≡◌, refl, sym, ap, ◌∙◌, Bool, true, false, Option, none, some, List, [],
  ◌++◌, length, leb, ◌==◌, if◌then◌else◌, arith, ==_false, leb-true, leb-false, append-nil,
}
use oncrpc4_win.Common.Words.{be32, word_of, word_be32}
use oncrpc4_win.Xdr.RecIn.{InStream, Reads, with_header, set_input_fragment, get_input_bytes}
use oncrpc4_win.Xdr.RecIn.Input.{Transport, At, Got, get_input_bytes_lem}

word_of-be32 : (v : ℕ) → v < 2 ^ 32 → word_of (be32 v) ≡ v
unfolding be32 word_of
word_of-be32 v h = word_be32 v h

shorter :
    (before stream : List ℕ) (v : ℕ) → before ≡ be32 v ++ stream → length stream < length before
unfolding be32
shorter before stream v e = omega (arith, ap length e)

-- `Frags stream bs more`: the stream holds a record of the bytes `bs`, in fragments each with its
-- header, and `more` behind it. Only the last fragment may be empty.
pub data Frags : List ℕ → List ℕ → List ℕ → Type 0 where
  last_fragment :
      {stream bs more : List ℕ}
      → length bs < 2 ^ 31
      → stream ≡ be32 (2 ^ 31 + length bs) ++ (bs ++ more)
      → Frags stream bs more
  fragment :
      {stream bs more : List ℕ} (f later rest : List ℕ)
      → 0 < length f
      → length f < 2 ^ 31
      → stream ≡ be32 (length f) ++ (f ++ rest)
      → bs ≡ f ++ later
      → Frags rest later more
      → Frags stream bs more

abbrev pub After : Bool → List ℕ → List ℕ → List ℕ → Type 0
After true rest later more = (later ≡ []) × (rest ≡ more)
After false rest later more = Frags rest later more

-- In a fragment of which `k` bytes are left, and that is the last if `l`: the stream holds the rest
-- `bs` of the record, and `more` behind it.
pub record Pending (k : ℕ) (l : Bool) (stream bs more : List ℕ) : Type 0 where
  pub now : List ℕ
  pub later : List ℕ
  pub rest : List ℕ
  pub wire : stream ≡ now ++ rest
  pub count : k ≡ length now
  pub bytes : bs ≡ now ++ later
  pub after : After l rest later more

module _ {C : Type 0} {readit : C → ℕ → Option (List ℕ) × C} (t : Transport readit) where
  -- The stream is before the rest `bs` of a record, and `more` is behind that.
  pub record Held (s : InStream C) (bs more : List ℕ) : Type 0 where
    pub at_stream : List ℕ
    pub k : ℕ
    pub l : Bool
    pub at : At t s at_stream k l
    pub pending : Pending k l at_stream bs more

  abbrev pub Entered : List ℕ → ℕ → Option (Bool × InStream C) → Type 0
  Entered stream v none = ⊥
  Entered stream v (some (ok, s)) = (ok ≡ true) × At t s stream (v % 2 ^ 31) (leb (2 ^ 31) v)

  header_read :
      (stream : List ℕ) (v : ℕ) (k : ℕ) (l : Bool) (s : InStream C) (w : ℕ)
      → w ≡ v
      → 0 < v
      → At t s stream k l
      → Entered stream v (
          if w == 0
          then some (false, record s { last_frag = leb (2 ^ 31) w })
          else some (true, record s { last_frag = leb (2 ^ 31) w; fbtbc = w % 2 ^ 31 }))
  header_read stream v k l s w e h at_s =
      subst
        (λ q. Entered stream v (
          if q
          then some (false, record s { last_frag = leb (2 ^ 31) w })
          else some (true, record s { last_frag = leb (2 ^ 31) w; fbtbc = w % 2 ^ 31 })))
        (sym (==_false w 0 (omega (arith, e))))
        (
          refl,
          record {
            blocking = at_s.blocking;
            roomy = at_s.roomy;
            left = ap (λ x. x % 2 ^ 31) e;
            is_last = ap (leb (2 ^ 31)) e;
            coming = at_s.coming;
            split = at_s.split;
            delivers = at_s.delivers;
          },
        )

  with_header-Entered :
      (stream : List ℕ) (k v : ℕ) (l : Bool) (r : Reads readit)
      → v < 2 ^ 32
      → 0 < v
      → Got t stream k l (be32 v) r
      → Entered stream v (with_header readit r)
  with_header-Entered stream k v l none hv h g = g
  with_header-Entered stream k v l (some (none, s)) hv h g = absurd g
  with_header-Entered stream k v l (some (some bs, s)) hv h (e, at_s) =
      header_read stream v k l s (word_of bs) (ap word_of e ∙ word_of-be32 v hv) h at_s

  pub set_input_fragment_lem :
      (s : InStream C) (stream : List ℕ) (k v : ℕ) (l : Bool)
      → v < 2 ^ 32
      → 0 < v
      → At t s (be32 v ++ stream) k l
      → Entered stream v (set_input_fragment readit s)
  unfolding set_input_fragment
  set_input_fragment_lem s stream k v l hv h at_s =
      subst
        (λ q.
          Entered stream v
            (if q then some (false, s) else with_header readit (get_input_bytes readit 10 s 4)))
        (sym at_s.blocking)
        (with_header-Entered stream k v l (get_input_bytes readit 10 s 4) hv h (
          unfold be32 in
          get_input_bytes_lem t 10 s (be32 v) stream k l (unfold be32 in omega arith) at_s))

  -- A header read at the end of a fragment that is not the last.
  abbrev pub Opened : List ℕ → List ℕ → List ℕ → Option (Bool × InStream C) → Type 0
  Opened before bs more none = ⊥
  Opened before bs more (some (ok, s)) =
      (ok ≡ true)
      × ((stream : List ℕ) × (k : ℕ) × (l : Bool) × At t s stream k l
          × Pending k l stream bs more
          × (k ≡ 0 → l ≡ true)
          × (length stream < length before))

  opened :
      (before stream bs more : List ℕ) (v : ℕ)
      → before ≡ be32 v ++ stream
      → Pending (v % 2 ^ 31) (leb (2 ^ 31) v) stream bs more
      → (v % 2 ^ 31 ≡ 0 → leb (2 ^ 31) v ≡ true)
      → (r : Option (Bool × InStream C)) → Entered stream v r
      → Opened before bs more r
  opened before stream bs more v eb p h none g = g
  opened before stream bs more v eb p h (some (ok, s)) (e, at_s) =
      (e, (stream, v % 2 ^ 31, leb (2 ^ 31) v, at_s, p, h, shorter before stream v eb))

  pub set_input_fragment-Opened :
      (s : InStream C) (stream bs more : List ℕ) (k : ℕ) (l : Bool)
      → At t s stream k l
      → Frags stream bs more
      → Opened stream bs more (set_input_fragment readit s)
  set_input_fragment-Opened s stream bs more k l at_s (last_fragment small e) =
      let v : ℕ = 2 ^ 31 + length bs in
      let is_last : leb (2 ^ 31) v ≡ true = leb-true (2 ^ 31) v (omega arith) in
      opened stream (bs ++ more) bs more v e
        (record {
          now = bs;
          later = [];
          rest = more;
          wire = refl;
          count = omega (arith, small);
          bytes = sym (append-nil bs);
          after = subst (λ q. After q more [] more) (sym is_last) (refl, refl);
        })
        (λ z. is_last) (set_input_fragment readit s)
        (set_input_fragment_lem s (bs ++ more) k v l (omega (arith, small)) (omega arith)
          (subst (λ w. At t s w k l) e at_s))
  set_input_fragment-Opened s stream bs more k l at_s
        (fragment f later rest some_bytes small e eb fs) =
      let v : ℕ = length f in
      let not_last : leb (2 ^ 31) v ≡ false = leb-false (2 ^ 31) v small in
      opened stream (f ++ rest) bs more v e
        (record {
          now = f;
          later = later;
          rest = rest;
          wire = refl;
          count = omega (arith, small);
          bytes = eb;
          after = subst (λ q. After q rest later more) (sym not_last) fs;
        })
        (λ z. absurd (omega (arith, some_bytes, small, z))) (set_input_fragment readit s)
        (set_input_fragment_lem s (f ++ rest) k v l (omega (arith, small)) some_bytes
          (subst (λ w. At t s w k l) e at_s))
