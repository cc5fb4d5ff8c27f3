-- ===== src/Xdr/RecIn/Skip.antt =====
-- The end of a record: `xdrrec_skiprecord` and `xdrrec_eof` of a blocking stream.
use oncrpc4_win.Common.{
  ℕ, zero, suc, ◌+◌, ◌-◌, ◌*◌, ◌≡◌, refl, sym, ◌∙◌, Bool, true, false, not, ◌||◌, Option, none,
  some, List, [], ◌∷◌, length, take, drop, ltb, if◌then◌else◌,
}
use oncrpc4_win.Xdr.RecIn.{
  InStream, Reads, behind, fill_input_buf, after_fill, from_buffer, get_loop, set_input_fragment,
}

module _ {C : Type 0} (readit : C → ℕ → Option (List ℕ) × C) where
  abbrev pub Moves : Type 0
  Moves = Option (Bool × InStream C)

  abbrev pub skip_fill : (InStream C → ℕ → Moves) → ℕ → Bool × InStream C → Moves
  skip_fill rest cnt (false, s) = some (false, s)
  skip_fill rest cnt (true, s) = rest s cnt

  abbrev pub skip_buffer : (InStream C → ℕ → Moves) → InStream C → ℕ → List ℕ → Moves
  skip_buffer rest s cnt [] = skip_fill rest cnt (fill_input_buf readit s)
  skip_buffer rest s cnt (b ∷ bs) =
      let d = length (b ∷ bs) in
      let current = if ltb cnt d then cnt else d in
      rest (record s { unread = drop current (b ∷ bs) }) (cnt - current)

  -- `while (cnt > 0)`, for at most `fuel` rounds.
  unfoldable pub skip_input_bytes : ℕ → InStream C → ℕ → Moves
  skip_input_bytes zero s cnt = none
  skip_input_bytes (suc fuel) s zero = some (true, s)
  skip_input_bytes (suc fuel) s (suc n) = skip_buffer (skip_input_bytes fuel) s (suc n) s.unread

  abbrev pub after_header : (InStream C → Moves) → Moves → Moves
  after_header rest none = none
  after_header rest (some (false, s)) = some (false, s)
  after_header rest (some (true, s)) = rest s

  -- What follows the skip of the fragment's bytes, in a round.
  abbrev pub after_skip : (InStream C → Moves) → Moves → Moves
  after_skip rest none = none
  after_skip rest (some (false, s)) = some (false, s)
  after_skip rest (some (true, s)) =
      let t = record s { fbtbc = 0 } in
      if t.last_frag then rest t else after_header rest (set_input_fragment readit t)

  -- The loop of both routines, for at most `fuel` rounds: TRUE at the end of the record, FALSE
  -- where the input fails.
  unfoldable pub to_record_end : ℕ → InStream C → Moves
  to_record_end zero s = none
  to_record_end (suc fuel) s =
      if ltb 0 s.fbtbc || not s.last_frag
      then after_skip (to_record_end fuel) (skip_input_bytes (2 * s.fbtbc + 2) s s.fbtbc)
      else some (true, s)

  abbrev pub skipped : Moves → Moves
  skipped none = none
  skipped (some (false, s)) = some (false, s)
  skipped (some (true, s)) = some (true, record s { last_frag = false })

  unfoldable pub xdrrec_skiprecord : ℕ → InStream C → Moves
  xdrrec_skiprecord fuel s = skipped (to_record_end fuel s)

  abbrev pub is_nil : List ℕ → Bool
  is_nil [] = true
  is_nil (_ ∷ _) = false

  abbrev pub no_more : Moves → Moves
  no_more none = none
  no_more (some (false, s)) = some (true, s)
  no_more (some (true, s)) = some (is_nil s.unread, s)

  unfoldable pub xdrrec_eof : ℕ → InStream C → Moves
  xdrrec_eof fuel s = no_more (to_record_end fuel s)

  -- A skip is a read whose bytes are dropped.
  abbrev pub dropped : Reads readit → Moves
  dropped none = none
  dropped (some (none, s)) = some (false, s)
  dropped (some (some bs, s)) = some (true, s)

  dropped-behind : (bs : List ℕ) (r : Reads readit) → dropped (behind readit bs r) ≡ dropped r
  dropped-behind bs none = refl
  dropped-behind bs (some (none, s)) = refl
  dropped-behind bs (some (some cs, s)) = refl

  skip_fill_lem :
      (go : InStream C → ℕ → Reads readit) (skip : InStream C → ℕ → Moves) (n : ℕ)
      (r : Bool × InStream C)
      → ((s : InStream C) → skip s n ≡ dropped (go s n))
      → skip_fill skip n r ≡ dropped (after_fill readit go n r)
  skip_fill_lem go skip n (false, s) h = refl
  skip_fill_lem go skip n (true, s) h = h s

  skip_buffer_lem :
      (go : InStream C → ℕ → Reads readit) (skip : InStream C → ℕ → Moves) (s : InStream C) (n : ℕ)
      (u : List ℕ)
      → ((s : InStream C) (n : ℕ) → skip s n ≡ dropped (go s n))
      → skip_buffer skip s n u ≡ dropped (from_buffer readit go s n u)
  skip_buffer_lem go skip s n [] h =
      skip_fill_lem go skip n (fill_input_buf readit s) (λ s'. h s' n)
  skip_buffer_lem go skip s n (b ∷ bs) h =
      let c : ℕ = if ltb n (length (b ∷ bs)) then n else length (b ∷ bs) in
      h (record s { unread = drop c (b ∷ bs) }) (n - c)
      ∙ sym (dropped-behind (take c (b ∷ bs)) (go (record s { unread = drop c (b ∷ bs) }) (n - c)))

  pub skip_input_bytes_lem :
      (fuel : ℕ) (s : InStream C) (n : ℕ)
      → skip_input_bytes fuel s n ≡ dropped (get_loop readit fuel s n)
  unfolding skip_input_bytes get_loop
  skip_input_bytes_lem zero s n = refl
  skip_input_bytes_lem (suc fuel) s zero = refl
  skip_input_bytes_lem (suc fuel) s (suc n) =
      skip_buffer_lem (get_loop readit fuel) (skip_input_bytes fuel) s (suc n) s.unread
        (λ s' n'. skip_input_bytes_lem fuel s' n')
