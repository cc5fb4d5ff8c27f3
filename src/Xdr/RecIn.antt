-- ===== src/Xdr/RecIn.antt =====
-- libsrc/xdr_rec.c, the input of a record stream: records arrive in fragments, and fragments in
-- whatever pieces the transport delivers.
pub mod Input
pub mod Fragments
pub mod Laws
pub mod Skip
pub mod Ends
pub mod Records
pub mod Sizes
pub mod Nonblock
pub mod Getrec
use oncrpc4_win.Common.{
  ℕ, zero, suc, ◌+◌, ◌-◌, ◌*◌, ◌%◌, ◌^◌, Bool, true, false, not, ◌&&◌, Option, none, some, List, [],
  ◌∷◌, ◌++◌, length, take, drop, ltb, leb, ◌==◌, if◌then◌else◌,
}
use oncrpc4_win.Common.Words.{word_of}

-- The input side of `RECSTREAM`, over a connection `C`. `unread` is what stands from `in_finger` to
-- `in_boundry`, `boundry` is `in_boundry - in_base`, where `in_base` is aligned.
pub record InStream (C : Type 0) : Type 0 where
  pub conn : C
  pub unread : List ℕ
  pub boundry : ℕ
  pub in_size : ℕ
  pub fbtbc : ℕ
  pub last_frag : Bool
  pub nonblock : Bool

-- A loop that has not returned within its fuel is `none`; a routine that returns FALSE is
-- `some (none, s)`. `readit` returns -1, `none`, or the bytes that it has put into the buffer.
module _ {C : Type 0} (readit : C → ℕ → Option (List ℕ) × C) where
  abbrev pub filled : InStream C → ℕ → Option (List ℕ) × C → Bool × InStream C
  filled s i (none, c) = (false, record s { conn = c })
  filled s i (some bs, c) = (true, record s { conn = c; unread = bs; boundry = i + length bs })

  -- The buffer is filled from the offset that continues the alignment of what came before.
  unfoldable pub fill_input_buf : InStream C → Bool × InStream C
  fill_input_buf s =
      if s.nonblock
      then (false, s)
      else let i = s.boundry % 4 in filled s i (readit s.conn (s.in_size - i))

  abbrev pub Reads : Type 0
  Reads = Option (Option (List ℕ) × InStream C)

  abbrev pub behind : List ℕ → Reads → Reads
  behind bs none = none
  behind bs (some (none, s)) = some (none, s)
  behind bs (some (some cs, s)) = some (some (bs ++ cs), s)

  abbrev pub after_fill : (InStream C → ℕ → Reads) → ℕ → Bool × InStream C → Reads
  after_fill rest len (false, s) = some (none, s)
  after_fill rest len (true, s) = rest s len

  -- A round of the loop: what is in the buffer is used up before it is filled again.
  abbrev pub from_buffer : (InStream C → ℕ → Reads) → InStream C → ℕ → List ℕ → Reads
  from_buffer rest s len [] = after_fill rest len (fill_input_buf s)
  from_buffer rest s len (b ∷ bs) =
      let d = length (b ∷ bs) in
      let current = if ltb len d then len else d in
      behind (take current (b ∷ bs))
        (rest (record s { unread = drop current (b ∷ bs) }) (len - current))

  -- `while (len > 0)`, for at most `fuel` rounds.
  unfoldable pub get_loop : ℕ → InStream C → ℕ → Reads
  get_loop zero s len = none
  get_loop (suc fuel) s zero = some (some [], s)
  get_loop (suc fuel) s (suc n) = from_buffer (get_loop fuel) s (suc n) s.unread

  unfoldable pub get_input_bytes : ℕ → InStream C → ℕ → Reads
  get_input_bytes fuel s len =
      if s.nonblock
      then (if ltb (length s.unread) len
          then some (none, s)
          else some (some (take len s.unread), record s { unread = drop len s.unread }))
      else get_loop fuel s len

  -- The header is refused if it is 0; its highest bit says whether the fragment is the last.
  abbrev pub with_header : Reads → Option (Bool × InStream C)
  with_header none = none
  with_header (some (none, s)) = some (false, s)
  with_header (some (some bs, s)) =
      let header = word_of bs in
      let t = record s { last_frag = leb (2 ^ 31) header } in
      if header == 0 then some (false, t) else some (true, record t { fbtbc = header % 2 ^ 31 })

  -- Ten rounds are enough for the four bytes of a header.
  unfoldable pub set_input_fragment : InStream C → Option (Bool × InStream C)
  set_input_fragment s =
      if s.nonblock then some (false, s) else with_header (get_input_bytes 10 s 4)

  abbrev pub after_fragment : (InStream C → ℕ → Reads) → ℕ → Option (Bool × InStream C) → Reads
  after_fragment rest len none = none
  after_fragment rest len (some (false, s)) = some (none, s)
  after_fragment rest len (some (true, s)) = rest s len

  abbrev pub after_bytes : (InStream C → ℕ → Reads) → ℕ → ℕ → Reads → Reads
  after_bytes rest current len none = none
  after_bytes rest current len (some (none, s)) = some (none, s)
  after_bytes rest current len (some (some bs, s)) =
      behind bs (rest (record s { fbtbc = s.fbtbc - current }) (len - current))

  -- A round of `xdrrec_getbytes`.
  abbrev pub from_fragment : (InStream C → ℕ → Reads) → InStream C → ℕ → ℕ → Reads
  from_fragment rest s len zero =
      if s.last_frag then some (none, s) else after_fragment rest len (set_input_fragment s)
  from_fragment rest s len (suc k) =
      let current = if ltb len (suc k) then len else suc k in
      after_bytes rest current len (get_input_bytes (2 * current + 2) s current)

  unfoldable pub xdrrec_getbytes : ℕ → InStream C → ℕ → Reads
  xdrrec_getbytes zero s len = none
  xdrrec_getbytes (suc fuel) s zero = some (some [], s)
  xdrrec_getbytes (suc fuel) s (suc n) = from_fragment (xdrrec_getbytes fuel) s (suc n) s.fbtbc

  abbrev pub long_of : Reads → Option (Option ℕ × InStream C)
  long_of none = none
  long_of (some (none, s)) = some (none, s)
  long_of (some (some bs, s)) = some (some (word_of bs), s)

  -- The fast case: the word is in the fragment and in the buffer.
  unfoldable pub xdrrec_getlong : InStream C → Option (Option ℕ × InStream C)
  xdrrec_getlong s =
      if leb 4 s.fbtbc && leb 4 (length s.unread)
      then some
          (some (word_of s.unread), record s { fbtbc = s.fbtbc - 4; unread = drop 4 s.unread })
      else long_of (xdrrec_getbytes 10 s 4)
