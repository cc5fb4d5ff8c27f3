-- ===== src/Xdr/RecIn/Laws.antt =====
-- What a routine reads of a record, however it is fragmented and delivered.
use mathlib.Core.Path.{subst}
use oncrpc4_win.Common.{
  ℕ, zero, suc, ◌+◌, ◌-◌, ◌*◌, ◌≤◌, ◌<◌, ◌≡◌, refl, sym, ap, ◌∙◌, Bool, true, false, Option, none,
  some, List, [], ◌∷◌, ◌++◌, length, take, drop, ltb, if◌then◌else◌, arith, length-drop,
  length-append, length-take, drop-append, take-append, take-append-drop, drop-drop, take_nil,
}
use oncrpc4_win.Xdr.RecIn.{
  InStream, Reads, behind, set_input_fragment, get_input_bytes, after_fragment, after_bytes,
  from_fragment, xdrrec_getbytes,
}
use oncrpc4_win.Xdr.RecIn.Input.{Transport, At, Got, get_input_bytes_lem, min_lem}
use oncrpc4_win.Xdr.RecIn.Fragments.{Frags, Pending, Held, Opened, set_input_fragment-Opened}

pub take-split : (c n : ℕ) (xs : List ℕ) → c ≤ n → take c xs ++ take (n - c) (drop c xs) ≡ take n xs
take-split zero n xs h = let e : n - 0 ≡ n = omega arith in rw e refl
take-split (suc c) zero xs h = absurd (omega arith)
take-split (suc c) (suc n) [] h = sym (take_nil (suc n - suc c))
take-split (suc c) (suc n) (x ∷ xs) h =
    let e : suc n - suc c ≡ n - c = omega arith in
    rw e (ap (λ t. x ∷ t) (take-split c n xs (omega arith)))

-- Part of the fragment has been read.
pub used :
    (c k : ℕ) (l : Bool) (stream bs more : List ℕ)
    → c ≤ k
    → Pending k l stream bs more
    → (c ≤ length bs)
      × (c ≤ length stream)
      × (take c stream ≡ take c bs)
      × Pending (k - c) l (drop c stream) (drop c bs) more
used c k l stream bs more h p =
    let fits : c ≤ length p.now = omega (arith, p.count) in
    (
      omega (arith, length-append p.now p.later, ap length p.bytes),
      omega (arith, length-append p.now p.rest, ap length p.wire),
      ap (take c) p.wire
          ∙ take-append c p.now p.rest fits
          ∙ sym (take-append c p.now p.later fits)
          ∙ ap (take c) (sym p.bytes),
      record {
        now = drop c p.now;
        later = p.later;
        rest = p.rest;
        wire = ap (drop c) p.wire ∙ drop-append c p.now p.rest fits;
        count = omega (arith, length-drop c p.now, p.count);
        bytes = ap (drop c) p.bytes ∙ drop-append c p.now p.later fits;
        after = p.after;
      },
    )

pub no_bytes : (xs : List ℕ) → 0 ≡ length xs → xs ≡ []
no_bytes [] h = refl
no_bytes (x ∷ xs) h = absurd (omega arith)

-- Between two fragments.
pub between : {stream bs more : List ℕ} → Pending 0 false stream bs more → Frags stream bs more
between {stream} {bs} {more} p =
    let at_end : p.now ≡ [] = no_bytes p.now p.count in
    subst (λ w. Frags w bs more) (sym (p.wire ∙ ap (λ w. w ++ p.rest) at_end))
      (subst (λ w. Frags p.rest w more) (sym (p.bytes ∙ ap (λ w. w ++ p.later) at_end)) p.after)

-- At the end of a fragment a header has to be read, unless it was the last.
abbrev pub wait : ℕ → Bool → ℕ
wait zero false = 1
wait zero true = 0
wait (suc k) l = 0

pub wait_le : (k : ℕ) (l : Bool) → wait k l ≤ 1
wait_le zero false = omega arith
wait_le zero true = omega arith
wait_le (suc k) l = omega arith

wait_none : (k : ℕ) (l : Bool) → (k ≡ 0 → l ≡ true) → wait k l ≡ 0
wait_none zero false h = let e : false ≡ true = h refl in cc
wait_none zero true h = refl
wait_none (suc k) l h = refl

module _ {C : Type 0} {readit : C → ℕ → Option (List ℕ) × C} (t : Transport readit) where
  -- A read of `n` bytes gives the next `n` bytes of the record, and is refused exactly when the
  -- record has fewer.
  abbrev pub Next : List ℕ → ℕ → List ℕ → Reads readit → Type 0
  Next more n bs none = ⊥
  Next more n bs (some (none, s)) = length bs < n
  Next more n bs (some (some cs, s)) =
      (n ≤ length bs) × (cs ≡ take n bs) × Held t s (drop n bs) more

  behind-Next :
      (more : List ℕ) (c n : ℕ) (bs : List ℕ) (r : Reads readit)
      → c ≤ n
      → c ≤ length bs
      → Next more (n - c) (drop c bs) r
      → Next more n bs (behind readit (take c bs) r)
  behind-Next more c n bs none hn hb g = g
  behind-Next more c n bs (some (none, s)) hn hb g = omega (arith, length-drop c bs, g)
  behind-Next more c n bs (some (some cs, s)) hn hb (few, e, held) =
      let whole : c + (n - c) ≡ n = omega (arith, hn) in
      (
        omega (arith, length-drop c bs, few, hn, hb),
        ap (λ x. take c bs ++ x) e ∙ take-split c n bs hn,
        subst (λ x. Held t s x more) (drop-drop (n - c) c bs ∙ ap (λ x. drop x bs) whole) held,
      )

  after_bytes-Next :
      (go : InStream C → ℕ → Reads readit) (c n k : ℕ) (l : Bool) (stream bs more : List ℕ)
      → c ≤ n
      → c ≤ k
      → Pending k l stream bs more
      → ((s : InStream C)
          → At t s (drop c stream) (k - c) l
          → Next more (n - c) (drop c bs) (go s (n - c)))
      → (r : Reads readit) → Got t (drop c stream) k l (take c bs) r
      → Next more n bs (after_bytes readit go c n r)
  after_bytes-Next go c n k l stream bs more hn hk p call none g = g
  after_bytes-Next go c n k l stream bs more hn hk p call (some (none, s)) g = absurd g
  after_bytes-Next go c n k l stream bs more hn hk p call (some (some cs, s)) (e, at_s) =
      let (some_left, _, _, _) = used c k l stream bs more hk p in
      subst (λ x. Next more n bs (behind readit x (go (record s { fbtbc = s.fbtbc - c }) (n - c))))
        (sym e)
        (behind-Next more c n bs (go (record s { fbtbc = s.fbtbc - c }) (n - c)) hn some_left (
          call (record s { fbtbc = s.fbtbc - c })
            (record {
              blocking = at_s.blocking;
              roomy = at_s.roomy;
              left = ap (λ x. x - c) at_s.left;
              is_last = at_s.is_last;
              coming = at_s.coming;
              split = at_s.split;
              delivers = at_s.delivers;
            })))

  after_fragment-Next :
      (go : InStream C → ℕ → Reads readit) (n : ℕ) (before bs more : List ℕ)
      → ((s : InStream C) (stream : List ℕ) (k : ℕ) (l : Bool)
          → wait k l < 1
          → At t s stream k l
          → Pending k l stream bs more
          → Next more n bs (go s n))
      → (r : Option (Bool × InStream C)) → Opened t before bs more r
      → Next more n bs (after_fragment readit go n r)
  after_fragment-Next go n before bs more call none g = g
  after_fragment-Next go n before bs more call (some (false, s)) (e, g) = absurd (cc)
  after_fragment-Next go n before bs more call (some (true, s)) (e, (stream, k, l, at_s, p, h, _)) =
      call s stream k l (omega (arith, wait_none k l h)) at_s p

  get_input_bytes-take :
      (c : ℕ) (s : InStream C) (stream : List ℕ) (k : ℕ) (l : Bool) (bs : List ℕ)
      → At t s stream k l
      → c ≤ length stream
      → take c stream ≡ bs
      → Got t (drop c stream) k l bs (get_input_bytes readit (2 * c + 2) s c)
  get_input_bytes-take c s stream k l bs at_s h e =
      let counted : length (take c stream) ≡ c = length-take c stream h in
      subst (λ w. Got t (drop c stream) k l w (get_input_bytes readit (2 * c + 2) s c)) e
        (subst
          (λ n. Got t (drop c stream) k l (take c stream) (get_input_bytes readit (2 * c + 2) s n))
          counted
          (get_input_bytes_lem t (2 * c + 2) s (take c stream) (drop c stream) k l
            (omega (arith, counted))
            (subst (λ w. At t s w k l) (sym (take-append-drop c stream)) at_s)))

  from_fragment-Next :
      (go : InStream C → ℕ → Reads readit) (s : InStream C) (n k : ℕ) (l : Bool)
      (stream bs more : List ℕ)
      → 0 < n
      → At t s stream k l
      → Pending k l stream bs more
      → ((s' : InStream C) (stream' : List ℕ) (k' : ℕ) (l' : Bool) (n' : ℕ) (bs' : List ℕ)
          → 2 * n' + wait k' l' < 2 * n + wait k l
          → At t s' stream' k' l'
          → Pending k' l' stream' bs' more
          → Next more n' bs' (go s' n'))
      → Next more n bs (from_fragment readit go s n k)
  from_fragment-Next go s n zero true stream bs more h at_s p call =
      subst
        (λ q.
          Next more n bs (
            if q then some (none, s) else after_fragment readit go n (set_input_fragment readit s)))
        (sym at_s.is_last)
        (omega
          (arith, ap length p.bytes, length-append p.now p.later, p.count, ap length (p.after.0)))
  from_fragment-Next go s n zero false stream bs more h at_s p call =
      subst
        (λ q.
          Next more n bs (
            if q then some (none, s) else after_fragment readit go n (set_input_fragment readit s)))
        (sym at_s.is_last)
        (after_fragment-Next go n stream bs more
          (λ s' stream' k' l' now at_s' p'.
            call s' stream' k' l' n bs (omega (arith, now)) at_s' p')
          (set_input_fragment readit s)
          (set_input_fragment-Opened t s stream bs more 0 false at_s (between p)))
  from_fragment-Next go s n (suc k) l stream bs more h at_s p call =
      let c : ℕ = if ltb n (suc k) then n else suc k in
      let (hn, hk, some_read) = min_lem n (suc k) in
      let (_, in_stream, same, p') = used c (suc k) l stream bs more hk p in
      after_bytes-Next go c n (suc k) l stream bs more hn hk p
        (λ s' at_s'.
          call s' (drop c stream) (suc k - c) l (n - c) (drop c bs)
            (omega (arith, some_read h (omega arith), wait_le (suc k - c) l, hn)) at_s' p')
        (get_input_bytes readit (2 * c + 2) s c)
        (get_input_bytes-take c s stream (suc k) l (take c bs) at_s in_stream same)

  pub xdrrec_getbytes_lem :
      (fuel : ℕ) (s : InStream C) (n k : ℕ) (l : Bool) (stream bs more : List ℕ)
      → 2 * n + wait k l < fuel
      → At t s stream k l
      → Pending k l stream bs more
      → Next more n bs (xdrrec_getbytes readit fuel s n)
  unfolding xdrrec_getbytes
  xdrrec_getbytes_lem zero s n k l stream bs more h at_s p = absurd (omega arith)
  xdrrec_getbytes_lem (suc fuel) s zero k l stream bs more h at_s p =
      (omega arith, refl, record { at_stream = stream; k = k; l = l; at = at_s; pending = p })
  xdrrec_getbytes_lem (suc fuel) s (suc n) k l stream bs more h at_s p =
      subst
        (λ w. Next more (suc n) bs (from_fragment readit (xdrrec_getbytes readit fuel) s (suc n) w))
        (sym at_s.left)
        (from_fragment-Next (xdrrec_getbytes readit fuel) s (suc n) k l stream bs more (omega arith)
          at_s p
          (λ s' stream' k' l' n' bs' less at_s' p'.
            xdrrec_getbytes_lem fuel s' n' k' l' stream' bs' more (omega (arith, less, h)) at_s'
              p'))
