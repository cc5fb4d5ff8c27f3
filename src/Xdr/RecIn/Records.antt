-- ===== src/Xdr/RecIn/Records.antt =====
-- What a client of the input of a record stream may rely on.
use oncrpc4_win.Common.{
  ℕ, ◌+◌, ◌-◌, ◌*◌, ◌≤◌, ◌<◌, ◌≡◌, refl, sym, ap, ◌∙◌, true, false, ◌&&◌, Option, none, some, List,
  [], ◌∷◌, ◌++◌, length, take, drop, leb, arith, drop-append, Bool-cases, inl, inr,
}
use oncrpc4_win.Common.Words.{word_of}
use oncrpc4_win.Xdr.RecIn.{InStream, Reads, xdrrec_getbytes, long_of, xdrrec_getlong}
use oncrpc4_win.Xdr.RecIn.Input.{Transport, At}
use oncrpc4_win.Xdr.RecIn.Fragments.{Frags, Held}
use oncrpc4_win.Xdr.RecIn.Laws.{Next, used, wait_le, xdrrec_getbytes_lem}
use oncrpc4_win.Xdr.RecIn.Skip.{Moves, skipped, to_record_end, xdrrec_skiprecord}
use oncrpc4_win.Xdr.RecIn.Ends.{Moved, to_record_end_lem}

pub word_of-append : (xs ys : List ℕ) → 4 ≤ length xs → word_of (xs ++ ys) ≡ word_of xs
unfolding word_of
word_of-append (a ∷ b ∷ c ∷ d ∷ xs) ys h = refl
word_of-append (a ∷ b ∷ c ∷ []) ys h = absurd (omega arith)
word_of-append (a ∷ b ∷ []) ys h = absurd (omega arith)
word_of-append (a ∷ []) ys h = absurd (omega arith)
word_of-append [] ys h = absurd (omega arith)

word_of-take : (xs : List ℕ) → 4 ≤ length xs → word_of (take 4 xs) ≡ word_of xs
unfolding word_of
word_of-take (a ∷ b ∷ c ∷ d ∷ xs) h = refl
word_of-take (a ∷ b ∷ c ∷ []) h = absurd (omega arith)
word_of-take (a ∷ b ∷ []) h = absurd (omega arith)
word_of-take (a ∷ []) h = absurd (omega arith)
word_of-take [] h = absurd (omega arith)

both : (a b : ℕ) → (leb 4 a && leb 4 b) ≡ true → (4 ≤ a) × (4 ≤ b)
both a b e = (ground arith, ground arith)

module _ {C : Type 0} {readit : C → ℕ → Option (List ℕ) × C} (t : Transport readit) where
  -- From a blocking stream that holds a record, `xdrrec_getbytes` of `n` bytes returns the next `n`
  -- bytes of the record, however it is cut into fragments and however the transport delivers these,
  -- and leaves the rest of the record; it returns FALSE exactly when the record has fewer bytes
  -- left. It makes at most `2 n + 1` rounds.
  pub xdrrec_getbytes-Next :
      (s : InStream C) (n : ℕ) (bs more : List ℕ)
      → Held t s bs more
      → Next t more n bs (xdrrec_getbytes readit (2 * n + 2) s n)
  xdrrec_getbytes-Next s n bs more held =
      xdrrec_getbytes_lem t (2 * n + 2) s n held.k held.l held.at_stream bs more
        (omega (arith, wait_le held.k held.l)) held.at held.pending

  -- A word that was read, and the rest of the record.
  abbrev pub NextLong : List ℕ → List ℕ → Option (Option ℕ × InStream C) → Type 0
  NextLong more bs none = ⊥
  NextLong more bs (some (none, s)) = length bs < 4
  NextLong more bs (some (some v, s)) =
      (4 ≤ length bs) × (v ≡ word_of bs) × Held t s (drop 4 bs) more

  long_of-Next :
      (more bs : List ℕ) (r : Reads readit)
      → Next t more 4 bs r
      → NextLong more bs (long_of readit r)
  long_of-Next more bs none g = g
  long_of-Next more bs (some (none, s)) g = g
  long_of-Next more bs (some (some cs, s)) (h, e, held) =
      (h, ap word_of e ∙ word_of-take bs h, held)

  fast :
      (s : InStream C) (bs more : List ℕ) (held : Held t s bs more)
      → 4 ≤ s.fbtbc
      → 4 ≤ length s.unread
      → NextLong more bs (
          some
            (some (word_of s.unread), record s { fbtbc = s.fbtbc - 4; unread = drop 4 s.unread }))
  fast s bs more held h hu =
      let p = held.pending in
      let at_s = held.at in
      let in_frag : 4 ≤ length p.now = omega (arith, p.count, at_s.left, h) in
      let (enough, _, _, p') =
        used 4 held.k held.l held.at_stream bs more (omega (arith, at_s.left, h)) p in
      (
        enough,
        sym (word_of-append s.unread at_s.coming hu)
            ∙ ap word_of (at_s.split ∙ p.wire)
            ∙ word_of-append p.now p.rest in_frag
            ∙ sym (word_of-append p.now p.later in_frag)
            ∙ ap word_of (sym p.bytes),
        record {
          at_stream = drop 4 held.at_stream;
          k = held.k - 4;
          l = held.l;
          at = record {
            blocking = at_s.blocking;
            roomy = at_s.roomy;
            left = ap (λ x. x - 4) at_s.left;
            is_last = at_s.is_last;
            coming = at_s.coming;
            split = sym (drop-append 4 s.unread at_s.coming hu) ∙ ap (drop 4) at_s.split;
            delivers = at_s.delivers;
          };
          pending = p';
        },
      )

  -- From a blocking stream that holds a record, `xdrrec_getlong` returns the word of the record's
  -- next four bytes, whether they stand in one fragment and in the buffer or not, and leaves the
  -- rest of the record; it returns FALSE exactly when the record has fewer than four bytes left.
  pub xdrrec_getlong-Next :
      (s : InStream C) (bs more : List ℕ)
      → Held t s bs more
      → NextLong more bs (xdrrec_getlong readit s)
  unfolding xdrrec_getlong
  xdrrec_getlong-Next s bs more held =
      elim (Bool-cases (leb 4 s.fbtbc && leb 4 (length s.unread))) [
        | inl e ↦ rw e (let (h, hu) = both s.fbtbc (length s.unread) e in fast s bs more held h hu)
        | inr e ↦ rw e (
            long_of-Next more bs (xdrrec_getbytes readit 10 s 4)
              (xdrrec_getbytes-Next s 4 bs more held))
      ]

  -- The stream stands before `more`, at the start of a record.
  abbrev pub Before : List ℕ → Moves readit → Type 0
  Before more none = ⊥
  Before more (some (ok, s)) =
      (ok ≡ true)
      × At t s more 0 false
      × ((bs rest : List ℕ) → Frags more bs rest → Held t s bs rest)

  before_next :
      (s : InStream C) (more : List ℕ)
      → At t s more 0 false
      → (bs rest : List ℕ) → Frags more bs rest
      → Held t s bs rest
  before_next s more at_s bs rest frags = record {
    at_stream = more;
    k = 0;
    l = false;
    at = at_s;
    pending = record {
      now = [];
      later = bs;
      rest = more;
      wire = refl;
      count = refl;
      bytes = refl;
      after = frags;
    };
  }

  skipped-Before :
      (more : List ℕ) (r : Moves readit) → Moved t more 0 true r → Before more (skipped readit r)
  skipped-Before more none g = g
  skipped-Before more (some (false, s)) (e, at_s) = let f : false ≡ true = e in absurd (cc)
  skipped-Before more (some (true, s)) (e, at_s) =
      let z = record s { last_frag = false } in
      let at_z : At t z more 0 false = record {
        blocking = at_s.blocking;
        roomy = at_s.roomy;
        left = at_s.left;
        is_last = refl;
        coming = at_s.coming;
        split = at_s.split;
        delivers = at_s.delivers;
      } in
      (refl, at_z, before_next z more at_z)

  -- From a blocking stream that holds the rest of a record, `xdrrec_skiprecord` returns TRUE and
  -- leaves the stream at the first byte behind the record, whatever was read of it: if a record
  -- stands there, the stream holds that record. The rounds are bounded by the bytes to
  -- come.
  pub xdrrec_skiprecord-Before :
      (fuel : ℕ) (s : InStream C) (bs more : List ℕ) (held : Held t s bs more)
      → length held.at_stream < fuel
      → Before more (xdrrec_skiprecord readit fuel s)
  unfolding xdrrec_skiprecord
  xdrrec_skiprecord-Before fuel s bs more held h =
      skipped-Before more (to_record_end readit fuel s)
        (to_record_end_lem t fuel s held.k held.l held.at_stream bs more h held.at held.pending)
