-- ===== src/Tests/Composite.antt =====
-- Runs of the filters that hold other objects, and of the limits that the filters keep.
use oncrpc4_win.Common.{
  ℕ, ◌+◌, ◌≤◌, ◌≡◌, refl, Bool, true, Option, none, some, List, [], ◌∷◌, ◌++◌, length, replicate,
  arith,
}
use oncrpc4_win.Common.Words.{IsU32, be32}
use oncrpc4_win.Xdr.Stream.{encode, decode}
use oncrpc4_win.Xdr.Mem.{MemStream, mem_ops, xdrmem_create, getpos, setpos}
use oncrpc4_win.Xdr.Mem.Laws.{mem_laws, InBounds, mem-InBounds}
use oncrpc4_win.Xdr.Codec.{Encoded, Decoded, Codec}
use oncrpc4_win.Xdr.Scalar.{xdr_u_int}
use oncrpc4_win.Xdr.Scalar.Laws.{xdr_u_int-Encodes, xdr_u_int-Decodes}
use oncrpc4_win.Xdr.Opaque.{rndup}
use oncrpc4_win.Xdr.Opaque.Laws.{units}
use oncrpc4_win.Xdr.CString.{xdr_string}
use oncrpc4_win.Xdr.Array.{xdr_array}
use oncrpc4_win.Xdr.Array.Laws.{flat, counted_array}
use oncrpc4_win.Xdr.Reference.{xdr_pointer}
use oncrpc4_win.Xdr.RoundTrip.{xdr_string_roundtrip}
use oncrpc4_win.Xdr.RoundTrip.Composite.{xdr_array_roundtrip, xdr_pointer_roundtrip}
use oncrpc4_win.Xdr.RoundTrip.Buffer.{mem_roundtrip}
use oncrpc4_win.Tests.{sink, source, sink-MemRoom, source-MemInput}

abbrev zeros : ℕ → Option (List ℕ)
zeros n = some (replicate n 0)

abbrev granted : ℕ → Bool
granted n = true

abbrev word_codec : Codec mem_laws (xdr_u_int mem_ops)
word_codec = record {
  IsValid = IsU32;
  wire = be32;
  encodes = λ v h. xdr_u_int-Encodes mem_laws v;
  decodes = λ old v h. xdr_u_int-Decodes mem_laws old v h;
}

-- "hi", in a buffer with more behind the terminator.
abbrev hi : List ℕ
hi = 104 ∷ 105 ∷ []

abbrev hi_wire : List ℕ
hi_wire = be32 2 ++ units 2 hi

hi-MemRoom : length hi_wire + 0 ≤ 64
unfolding be32 units rndup
hi-MemRoom = omega arith

xdr_string_roundtrip_example :
    Encoded mem_laws
      (some (hi ++ 0 ∷ 9 ∷ []))
      hi_wire
      sink
      0
      (xdr_string mem_ops zeros 16 encode (some (hi ++ 0 ∷ 9 ∷ [])) sink)
    × Decoded mem_laws
        (some (hi ++ 0 ∷ []))
        []
        (xdr_string mem_ops zeros 16 decode none (source hi_wire))
xdr_string_roundtrip_example =
    xdr_string_roundtrip mem_laws mem_laws zeros 16 hi (9 ∷ []) (replicate 3 0) sink 0
      (source hi_wire) [] (ground arith) (omega arith) (omega arith) refl refl
      (sink-MemRoom _ hi-MemRoom) (source-MemInput hi_wire)

abbrev pair : List ℕ
pair = 7 ∷ 9 ∷ []

abbrev pair_wire : List ℕ
pair_wire = be32 2 ++ flat be32 pair

pair-MemRoom : length pair_wire + 0 ≤ 64
unfolding be32
pair-MemRoom = omega arith

xdr_array_roundtrip_example :
    Encoded mem_laws (counted_array (some pair) 2) pair_wire sink 0 (
      xdr_array mem_ops granted 0 4
        (xdr_u_int mem_ops)
        16
        encode
        (counted_array (some pair) 2)
        sink)
    × Decoded mem_laws (counted_array (some pair) 2) [] (
        xdr_array mem_ops granted 0 4
          (xdr_u_int mem_ops)
          16
          decode
          (counted_array none 0)
          (source pair_wire))
xdr_array_roundtrip_example =
    xdr_array_roundtrip word_codec granted 0 4 16 0 1 pair sink 0 (source pair_wire) [] refl
      (omega arith) (omega arith) (omega arith) refl (omega arith, (omega arith, tt))
      (sink-MemRoom _ pair-MemRoom) (source-MemInput pair_wire)

abbrev seven_wire : List ℕ
seven_wire = be32 1 ++ be32 7

seven-MemRoom : length seven_wire + 0 ≤ 64
unfolding be32
seven-MemRoom = omega arith

xdr_pointer_roundtrip_example :
    Encoded mem_laws
      (some 7)
      seven_wire
      sink
      0
      (xdr_pointer granted 0 4 (xdr_u_int mem_ops) mem_ops encode (some 7) sink)
    × Decoded mem_laws
        (some 7)
        []
        (xdr_pointer granted 0 4 (xdr_u_int mem_ops) mem_ops decode none (source seven_wire))
xdr_pointer_roundtrip_example =
    xdr_pointer_roundtrip word_codec granted 0 4 (some 7) sink 0 (source seven_wire) [] refl
      (omega arith) (sink-MemRoom _ seven-MemRoom) (source-MemInput seven_wire)

word-fits : length (be32 258) ≤ 4
unfolding be32
word-fits = omega arith

-- 258 into a buffer of four bytes, and back.
mem_roundtrip_example :
    let r = xdr_u_int mem_ops encode 258 (xdrmem_create 0 (replicate 4 7) 4) in
    let d = xdr_u_int mem_ops decode 0 (xdrmem_create 0 r.2.mem (getpos r.2)) in
    (r.0 ≡ true) × (getpos r.2 ≡ length (be32 258)) × (d.0 ≡ true) × (d.1 ≡ 258)
mem_roundtrip_example =
    mem_roundtrip word_codec 0 4 (replicate 4 7) 0 258 (omega arith) word-fits (omega arith)

-- A write of a word and a read of nine bytes fail on a window of three bytes.
mem-InBounds_example :
    let s : MemStream = record { mem = replicate 8 1; private = 5; handy = 3; aligned = true } in
    InBounds 8 (mem_ops.getlong s).1
    × InBounds 8 (mem_ops.putlong s 6).1
    × InBounds 8 (mem_ops.getbytes s 9).1
    × InBounds 8 (mem_ops.putbytes s (4 ∷ [])).1
    × InBounds 8 (mem_ops.inline s 9).1
    × InBounds 8 (setpos 4096 s 0).1
mem-InBounds_example =
    mem-InBounds 4096 8 (record { mem = replicate 8 1; private = 5; handy = 3; aligned = true }) 6 9
      0 (4 ∷ []) (omega arith) (omega arith) (record { window = refl; fits = omega arith })
