-- ===== src/Xdr/RoundTrip/Buffer.antt =====
-- Encoding into a memory buffer and decoding from what the buffer then holds.
use oncrpc4_win.Common.{
  ℕ, ◌≤◌, ◌≡◌, sym, ap, ◌∙◌, Bool, true, List, [], ◌++◌, length, arith, append-nil, length-take,
}
use oncrpc4_win.Xdr.Stream.{encode, decode, Filter}
use oncrpc4_win.Xdr.Codec.{Encoded, Codec}
use oncrpc4_win.Xdr.Mem.{MemStream, xdrmem_create, getpos}
use oncrpc4_win.Xdr.Mem.Laws.{MemInput, mem_laws}

-- What was written from the start of a buffer can be read from its start.
written-read :
    {A : Type 0} (addr : ℕ) (v : A) (bs mem : List ℕ) (size : ℕ) (r : Bool × A × MemStream)
    → Encoded mem_laws v bs (xdrmem_create addr mem size) 0 r
    → (getpos r.2 ≡ length bs) × MemInput (xdrmem_create addr r.2.mem (getpos r.2)) (bs ++ [])
unfolding xdrmem_create getpos
written-read addr v bs mem size (b, v', s') (ok, keep, out, room) =
    let len : s'.private ≡ length bs =
      sym (length-take s'.private s'.mem (omega arith)) ∙ ap length out in
    (len, (out ∙ sym (append-nil bs), omega arith))

module _ {A : Type 0} {f : Filter MemStream A} (c : Codec mem_laws f) where
  -- A valid object whose bytes fit the buffer is encoded into it; `xdr_getpos` is then the number
  -- of bytes written, and decoding from the start of the buffer, over that many bytes, succeeds
  -- into any object and yields the one that was encoded.
  pub mem_roundtrip :
      (addr size : ℕ) (mem : List ℕ) (old v : A)
      → c.IsValid v
      → length (c.wire v) ≤ size
      → size ≤ length mem
      → let r = f encode v (xdrmem_create addr mem size) in
        let d = f decode old (xdrmem_create addr r.2.mem (getpos r.2)) in
        (r.0 ≡ true) × (getpos r.2 ≡ length (c.wire v)) × (d.0 ≡ true) × (d.1 ≡ v)
  mem_roundtrip addr size mem old v h hl hs =
      let e =
        c.encodes v h (xdrmem_create addr mem size) 0
          (unfold xdrmem_create in (omega arith, omega arith)) in
      let (len, input) =
        written-read addr v (c.wire v) mem size (f encode v (xdrmem_create addr mem size)) e in
      let (ok, got, left) = c.decodes old v h _ [] input in (e.0, len, ok, got)
