-- ===== src/Xdr/Mem.antt =====
-- libsrc/xdr_mem.c: XDR streams over a memory buffer.
pub mod Laws
use oncrpc4_win.Common.{
  ℕ, ◌+◌, ◌-◌, ◌%◌, ◌^◌, Bool, true, false, Option, none, some, List, ltb, leb, ◌==◌, not,
  if◌then◌else◌, length, take, drop, write_at,
}
use oncrpc4_win.Common.Words.{be32, word_of}
use oncrpc4_win.Xdr.Stream.{XdrOps}

-- The part of `XDR` that xdr_mem.c uses. `mem` is the memory from `x_base` on; `private` is
-- `x_private - x_base`; `handy` is `x_handy`; `aligned` says which operations `x_ops` points to.
pub record MemStream : Type 0 where
  pub mem : List ℕ
  pub private : ℕ
  pub handy : ℕ
  pub aligned : Bool

-- `xdrmem_create` at an address `addr` where `mem` begins.
unfoldable pub xdrmem_create : ℕ → List ℕ → ℕ → MemStream
xdrmem_create addr mem size = record {
  mem = mem;
  private = 0;
  handy = size;
  aligned = addr % 4 == 0;
}

-- `x_handy -= len` and `x_private += len`.
abbrev pub advance : MemStream → ℕ → MemStream
advance s len = record s { private = s.private + len; handy = s.handy - len }

unfoldable pub getlong_aligned : MemStream → Option ℕ × MemStream
getlong_aligned s =
    if ltb s.handy 4 then (none, s) else (some (word_of (drop s.private s.mem)), advance s 4)

unfoldable pub putlong_aligned : MemStream → ℕ → Bool × MemStream
putlong_aligned s v = if ltb s.handy 4 then (false, s) else (
  true,
  record s {
    mem = write_at s.mem s.private (be32 v);
    private = s.private + 4;
    handy = s.handy - 4;
  },
)

-- The word is first moved to a local variable.
unfoldable pub getlong_unaligned : MemStream → Option ℕ × MemStream
getlong_unaligned s =
    if ltb s.handy 4
    then (none, s)
    else let l = take 4 (drop s.private s.mem) in (some (word_of l), advance s 4)

unfoldable pub putlong_unaligned : MemStream → ℕ → Bool × MemStream
putlong_unaligned s v =
    if ltb s.handy 4
    then (false, s)
    else let l = be32 v in
      (
        true,
        record s { mem = write_at s.mem s.private l; private = s.private + 4; handy = s.handy - 4 },
      )

unfoldable pub getbytes : MemStream → ℕ → Option (List ℕ) × MemStream
getbytes s len =
    if ltb s.handy len then (none, s) else (some (take len (drop s.private s.mem)), advance s len)

unfoldable pub putbytes : MemStream → List ℕ → Bool × MemStream
putbytes s bs = if ltb s.handy (length bs) then (false, s) else (
  true,
  record s {
    mem = write_at s.mem s.private bs;
    private = s.private + length bs;
    handy = s.handy - length bs;
  },
)

unfoldable pub getpos : MemStream → ℕ
getpos s = s.private

-- The order of two addresses that are cast to `long`.
abbrev pub signed_ltb : ℕ → ℕ → Bool
signed_ltb a b = ltb ((a + 2 ^ 31) % 2 ^ 32) ((b + 2 ^ 31) % 2 ^ 32)

-- `base` is the address `x_base`. Addresses have 32 bits and wrap around; where they do, `x_private`
-- may lie below `x_base`, and `private` is its distance modulo 2^32.
unfoldable pub setpos : ℕ → MemStream → ℕ → Bool × MemStream
setpos base s pos =
    let newaddr = (base + pos) % 2 ^ 32 in
    let lastaddr = (base + (s.private + s.handy)) % 2 ^ 32 in
    if signed_ltb lastaddr newaddr
    then (false, s)
    else (true, record s { private = pos; handy = (lastaddr + 2 ^ 32 - newaddr) % 2 ^ 32 })

unfoldable pub inline_aligned : MemStream → ℕ → Option ℕ × MemStream
inline_aligned s len = if leb len s.handy then (some s.private, advance s len) else (none, s)

unfoldable pub inline_unaligned : MemStream → ℕ → Option ℕ × MemStream
inline_unaligned s len = (none, s)

-- `XDR_GET_BYTES_AVAIL` is the only request; the answer is `xc_num_avail`, always of a last record.
unfoldable pub control : MemStream → ℕ → Option (ℕ × Bool)
control s request = if request == 1 then some (s.handy, true) else none

-- `x_ops` points to `xdrmem_ops_aligned` or to `xdrmem_ops_unaligned`.
unfoldable pub mem_ops : XdrOps MemStream
unfolding getlong_aligned getlong_unaligned putlong_aligned putlong_unaligned getbytes putbytes
    inline_aligned inline_unaligned
mem_ops = record {
  getlong = λ s. if s.aligned then getlong_aligned s else getlong_unaligned s;
  putlong = λ s v. if s.aligned then putlong_aligned s v else putlong_unaligned s v;
  getbytes = getbytes;
  putbytes = putbytes;
  inline = λ s len. if s.aligned then inline_aligned s len else inline_unaligned s len;
  peek = λ s p len. take len (drop p s.mem);
  poke = λ s p bs. record s { mem = write_at s.mem p bs };
}
