-- ===== src/Xdr/Mem/Laws.antt =====
-- xdr_mem.c keeps within its buffer, and serves filters as the stream interface asks.
use oncrpc4_win.Common.{
  ◌<◌, ◌^◌, ℕ, ◌+◌, ◌≤◌, ◌≡◌, refl, sym, ap, some, List, [], ◌∷◌, ◌++◌, append_assoc, append-nil,
  arith, ltb-false, length, take, drop, write_at, length-append, length-take, length-write_at,
  window_split, take-append_length, drop-drop,
}
use oncrpc4_win.Common.Words.{IsU32, be32, word_of, word_be32}
use oncrpc4_win.Xdr.Stream.{Wrote, Took, XdrLaws, IsKept}
use oncrpc4_win.Xdr.Mem.{
  MemStream, inline_aligned, inline_unaligned, getbytes, putbytes, setpos, mem_ops,
}

-- The window that is left lies in the buffer, whose end is at the offset `end`.
pub record InBounds (end : ℕ) (s : MemStream) : Type 0 where
  pub window : s.private + s.handy ≡ end
  pub fits : end ≤ length s.mem

getbytes-InBounds :
    {end : ℕ} (s : MemStream) (n : ℕ) → InBounds end s → InBounds end (getbytes s n).1
unfolding getbytes
getbytes-InBounds s n h = ground arith

putbytes-InBounds :
    {end : ℕ} (s : MemStream) (bs : List ℕ) → InBounds end s → InBounds end (putbytes s bs).1
unfolding putbytes
putbytes-InBounds s bs h = ground (arith, length-write_at s.mem s.private bs)

getlong-InBounds : {end : ℕ} (s : MemStream) → InBounds end s → InBounds end (mem_ops.getlong s).1
unfolding mem_ops
getlong-InBounds s h = ground arith

putlong-InBounds :
    {end : ℕ} (s : MemStream) (v : ℕ) → InBounds end s → InBounds end (mem_ops.putlong s v).1
unfolding mem_ops be32
putlong-InBounds s v h = ground (arith, length-write_at s.mem s.private (be32 v))

pub mem-IsKept : (end : ℕ) → IsKept mem_ops (InBounds end)
unfolding mem_ops
mem-IsKept end = record {
  getlong_kept = getlong-InBounds;
  putlong_kept = putlong-InBounds;
  getbytes_kept = getbytes-InBounds;
  putbytes_kept = putbytes-InBounds;
}

-- What `mem_laws` says of a memory stream: room is `x_handy`, the output is the memory before
-- `x_private`, the input the `x_handy` bytes from there on.
abbrev pub MemRoom : MemStream → ℕ → Type 0
MemRoom s n = (n ≤ s.handy) × (s.private + s.handy ≤ length s.mem)

abbrev pub mem_output : MemStream → List ℕ
mem_output s = take s.private s.mem

abbrev pub MemInput : MemStream → List ℕ → Type 0
MemInput s bs = (take s.handy (drop s.private s.mem) ≡ bs) × (s.private + s.handy ≤ length s.mem)

take-write_at :
    (mem : List ℕ) (p : ℕ) (bs : List ℕ)
    → p + length bs ≤ length mem
    → take (p + length bs) (write_at mem p bs) ≡ take p mem ++ bs
take-write_at mem p bs h = rw (sym (append_assoc (take p mem) bs (drop (p + length bs) mem))) (
    take-append_length (take p mem ++ bs) _ _
      (omega (arith, length-append (take p mem) bs, length-take p mem (omega arith))))

putbytes_lem :
    (s : MemStream) (bs : List ℕ) (n : ℕ)
    → MemRoom s (length bs + n)
    → Wrote MemRoom ◌++◌ mem_output s bs n (putbytes s bs)
unfolding putbytes
putbytes_lem s bs n h = rw (ltb-false s.handy (length bs) (omega arith)) (
  refl,
  take-write_at s.mem s.private bs (omega arith),
  (omega arith, omega (arith, length-write_at s.mem s.private bs (omega arith))),
)

putlong-putbytes : (s : MemStream) (v : ℕ) → mem_ops.putlong s v ≡ putbytes s (be32 v)
unfolding mem_ops putbytes be32
putlong-putbytes s v = ground arith

pub putlong_lem :
    (s : MemStream) (v n : ℕ)
    → MemRoom s (4 + n)
    → Wrote MemRoom ◌++◌ mem_output s (be32 v) n (mem_ops.putlong s v)
putlong_lem s v n h = rw putlong-putbytes (putbytes_lem s (be32 v) n (unfold be32 in h))

getbytes_lem :
    (s : MemStream) (bs rest : List ℕ)
    → MemInput s (bs ++ rest)
    → Took MemInput bs rest (getbytes s (length bs))
unfolding getbytes
getbytes_lem s bs rest h =
    let (le, front, left) =
      window_split (length bs) s.handy (drop s.private s.mem) bs rest h.0 refl in
    rw (ltb-false s.handy (length bs) le)
      (ap some front, (rw (← drop-drop (length bs) s.private s.mem) left, omega arith))

word_of-take : (bs : List ℕ) → word_of (take 4 bs) ≡ word_of bs
unfolding word_of
word_of-take [] = refl
word_of-take (a ∷ []) = refl
word_of-take (a ∷ b ∷ []) = refl
word_of-take (a ∷ b ∷ c ∷ []) = refl
word_of-take (a ∷ b ∷ c ∷ d ∷ rest) = refl

getlong-getbytes :
    (s : MemStream)
    → 4 ≤ s.handy
    → mem_ops.getlong s ≡ (some (word_of (take 4 (drop s.private s.mem))), (getbytes s 4).1)
unfolding mem_ops getbytes
getlong-getbytes s h = ground (arith, word_of-take (drop s.private s.mem))

pub getlong_lem :
    (s : MemStream) (v : ℕ) (rest : List ℕ)
    → IsU32 v
    → MemInput s (be32 v ++ rest)
    → Took MemInput v rest (mem_ops.getlong s)
unfolding be32 getbytes word_of
getlong_lem s v rest hv h =
    let (le, front, left) = window_split 4 s.handy (drop s.private s.mem) (be32 v) rest h.0 refl in
    rw (getlong-getbytes s le, ltb-false s.handy 4 le)
      (rw front (ap some (word_be32 v hv)), (rw (← drop-drop 4 s.private s.mem) left, omega arith))

pub mem_putbytes_lem :
    (s : MemStream) (bs : List ℕ) (n : ℕ)
    → MemRoom s (length bs + n)
    → Wrote MemRoom ◌++◌ mem_output s bs n (mem_ops.putbytes s bs)
unfolding mem_ops
mem_putbytes_lem = putbytes_lem

pub mem_getbytes_lem :
    (s : MemStream) (bs rest : List ℕ)
    → MemInput s (bs ++ rest)
    → Took MemInput bs rest (mem_ops.getbytes s (length bs))
unfolding mem_ops
mem_getbytes_lem = getbytes_lem

-- The memory stream serves every filter.
abbrev pub mem_laws : XdrLaws mem_ops
mem_laws = record {
  Room = MemRoom;
  Sink = List ℕ;
  append = ◌++◌;
  output = mem_output;
  append-nil = λ s. append-nil (mem_output s);
  append-append = append_assoc;
  Input = MemInput;
  putlong_lem = putlong_lem;
  putbytes_lem = mem_putbytes_lem;
  getlong_lem = getlong_lem;
  getbytes_lem = mem_getbytes_lem;
}

setpos-InBounds :
    (base end : ℕ) (s : MemStream) (pos : ℕ)
    → base + end < 2 ^ 31
    → base + pos < 2 ^ 31
    → InBounds end s
    → InBounds end (setpos base s pos).1
unfolding setpos
setpos-InBounds base end s pos he hp h = ground (arith, h.window, h.fits)

-- Where the window of a memory stream lies in its buffer and ends at `end`, and the buffer ends
-- below the address 2^31: whichever of its operations is called, and whether it succeeds or fails,
-- the window stays in the buffer and ends at `end`. For xdr_setpos the address of the new position
-- is also below 2^31.
pub mem-InBounds :
    (base end : ℕ) (s : MemStream) (v n pos : ℕ) (bs : List ℕ)
    → base + end < 2 ^ 31
    → base + pos < 2 ^ 31
    → InBounds end s
    → InBounds end (mem_ops.getlong s).1
      × InBounds end (mem_ops.putlong s v).1
      × InBounds end (mem_ops.getbytes s n).1
      × InBounds end (mem_ops.putbytes s bs).1
      × InBounds end (mem_ops.inline s n).1
      × InBounds end (setpos base s pos).1
unfolding mem_ops setpos inline_aligned inline_unaligned
mem-InBounds base end s v n pos bs he hp h = (
  getlong-InBounds s h,
  putlong-InBounds s v h,
  getbytes-InBounds s n h,
  putbytes-InBounds s bs h,
  ground arith,
  setpos-InBounds base end s pos he hp h,
)
