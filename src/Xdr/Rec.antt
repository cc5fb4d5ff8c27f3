-- ===== src/Xdr/Rec.antt =====
-- libsrc/xdr_rec.c, the output of a record stream: a record is sent as fragments, each behind a
-- word with its length and, in the highest bit, whether it is the last.
pub mod Output
pub mod Bytes
use oncrpc4_win.Common.{
  ℕ, zero, suc, ◌+◌, ◌-◌, ◌%◌, ◌^◌, Bool, true, false, ◌||◌, Option, none, some, List, [], ◌∷◌,
  ◌++◌, length, take, drop, ltb, leb, ◌==◌, if◌then◌else◌,
}
use oncrpc4_win.Common.Words.{be32}
use oncrpc4_win.Xdr.Stream.{and_put}

-- The output side of `RECSTREAM`. The buffer from `out_base` on holds the fragments that are
-- complete, `ready`, then the word at `frag_header`, and behind it the bytes of the open fragment,
-- `frag`, up to `out_finger`. `sendsize` is `out_boundry - out_base`, and `sent` what `writeit` has
-- taken so far.
pub record OutStream : Type 0 where
  pub sent : List ℕ
  pub ready : List ℕ
  pub frag : List ℕ
  pub sendsize : ℕ
  pub frag_sent : Bool

-- `out_finger - out_base`.
abbrev pub out_finger : OutStream → ℕ
out_finger s = length s.ready + 4 + length s.frag

-- `len | LAST_FRAG`, and the header of a fragment.
abbrev pub last_frag : ℕ → ℕ
last_frag len = len % 2 ^ 31 + 2 ^ 31

unfoldable pub frag_header : Bool → List ℕ → List ℕ
frag_header eor frag = let len = length frag % 2 ^ 32 in be32 (if eor then last_frag len else len)

-- `writeit`, given what was sent before, takes all the bytes or fails. What a failing call may have
-- sent is not followed.
module _ (writeit : List ℕ → List ℕ → Bool) where
  unfoldable pub flush_out : OutStream → Bool → Bool × OutStream
  flush_out s eor =
      let bytes = s.ready ++ (frag_header eor s.frag ++ s.frag) in
      if writeit s.sent bytes
      then (true, record s { sent = s.sent ++ bytes; ready = []; frag = [] })
      else (false, s)

  abbrev pub append_frag : List ℕ → OutStream → OutStream
  append_frag bs s = record s { frag = s.frag ++ bs }

  unfoldable pub xdrrec_putlong : OutStream → ℕ → Bool × OutStream
  xdrrec_putlong s v =
      if ltb s.sendsize (out_finger s + 4)
      then and_put (flush_out (record s { frag_sent = true }) false)
          (λ t. (true, append_frag (be32 v) t))
      else (true, append_frag (be32 v) s)

  -- One round: as many bytes as there is room for, and a flush if the buffer is then full.
  abbrev pub put_some : OutStream → List ℕ → Bool × OutStream
  put_some s bs =
      let t = append_frag (take (s.sendsize - out_finger s) bs) s in
      if out_finger t == s.sendsize
      then flush_out (record t { frag_sent = true }) false
      else (true, t)

  abbrev pub go_on :
      (OutStream → List ℕ → Option (Bool × OutStream))
      → List ℕ
      → Bool × OutStream
      → Option (Bool × OutStream)
  go_on rest bs (false, s) = some (false, s)
  go_on rest bs (true, s) = rest s bs

  -- The loop, for at most `fuel` rounds.
  unfoldable pub xdrrec_putbytes : ℕ → OutStream → List ℕ → Option (Bool × OutStream)
  xdrrec_putbytes zero s bs = none
  xdrrec_putbytes (suc fuel) s [] = some (true, s)
  xdrrec_putbytes (suc fuel) s (b ∷ bs) =
      go_on (xdrrec_putbytes fuel) (drop (s.sendsize - out_finger s) (b ∷ bs)) (put_some s (b ∷ bs))

  unfoldable pub xdrrec_endofrecord : OutStream → Bool → Bool × OutStream
  xdrrec_endofrecord s sendnow =
      if (sendnow || s.frag_sent) || leb s.sendsize (out_finger s + 4)
      then flush_out (record s { frag_sent = false }) true
      else (true, record s { ready = s.ready ++ (frag_header true s.frag ++ s.frag); frag = [] })
