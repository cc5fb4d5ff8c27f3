-- ===== src/Tests/Xdr.antt =====
-- Runs of the filters of libsrc/xdr.c, xdr_array.c, xdr_reference.c and xdr_sizeof.c.
use oncrpc4_win.Common.{
  ℕ, ◌+◌, ◌^◌, ◌≤◌, refl, Option, none, some, List, [], ◌∷◌, ◌++◌, length, replicate, arith,
}
use oncrpc4_win.Common.Words.{be32, sext16}
use oncrpc4_win.Xdr.Stream.{encode, decode}
use oncrpc4_win.Xdr.Mem.{mem_ops}
use oncrpc4_win.Xdr.Mem.Laws.{mem_laws}
use oncrpc4_win.Xdr.Codec.{Encoded, Decoded}
use oncrpc4_win.Xdr.Scalar.{xdr_bool, xdr_short, xdr_u_int64_t}
use oncrpc4_win.Xdr.Scalar.Hyper.{be64}
use oncrpc4_win.Xdr.Opaque.{xdr_bytes, rndup}
use oncrpc4_win.Xdr.Opaque.Laws.{units}
use oncrpc4_win.Xdr.Opaque.Bytes.{counted}
use oncrpc4_win.Xdr.RoundTrip.{xdr_scalars_roundtrip, xdr_bytes_roundtrip}
use oncrpc4_win.Tests.{sink, source, sink-MemRoom, source-MemInput}

abbrev zeros : ℕ → Option (List ℕ)
zeros n = some (replicate n 0)

-- The pattern of -2 in 16 bits, and 5, which is sent as 1.
xdr_scalars_roundtrip_example :
    (Encoded mem_laws
        (2 ^ 63 + 1)
        (be64 (2 ^ 63 + 1))
        sink
        0
        (xdr_u_int64_t mem_ops encode (2 ^ 63 + 1) sink)
      × Decoded mem_laws
          (2 ^ 63 + 1)
          []
          (xdr_u_int64_t mem_ops decode 0 (source (be64 (2 ^ 63 + 1)))))
    × (Encoded mem_laws 65534 (be32 (sext16 65534)) sink 0 (xdr_short mem_ops encode 65534 sink)
        × Decoded mem_laws 65534 [] (xdr_short mem_ops decode 0 (source (be32 (sext16 65534)))))
    × (Encoded mem_laws 5 (be32 1) sink 0 (xdr_bool mem_ops encode 5 sink)
        × Decoded mem_laws 1 [] (xdr_bool mem_ops decode 0 (source (be32 1))))
xdr_scalars_roundtrip_example =
    xdr_scalars_roundtrip mem_laws mem_laws (2 ^ 63 + 1) 65534 5 0 sink 0
      (source (be64 (2 ^ 63 + 1))) (source (be32 (sext16 65534))) (source (be32 1)) [] (omega arith)
      (omega arith) (sink-MemRoom 8 (omega arith)) (sink-MemRoom 4 (omega arith))
      (source-MemInput (be64 (2 ^ 63 + 1))) (source-MemInput (be32 (sext16 65534)))
      (source-MemInput (be32 1))

-- Five bytes, which take three bytes of padding.
abbrev five : List ℕ
five = 1 ∷ 2 ∷ 3 ∷ 4 ∷ 5 ∷ []

abbrev five_wire : List ℕ
five_wire = be32 5 ++ units 5 five

five-MemRoom : length five_wire + 0 ≤ 64
unfolding be32 units rndup
five-MemRoom = omega arith

xdr_bytes_roundtrip_example :
    Encoded mem_laws
      (counted (some five) 5)
      five_wire
      sink
      0
      (xdr_bytes mem_ops zeros 16 encode (counted (some five) 5) sink)
    × Decoded mem_laws
        (counted (some five) 5)
        []
        (xdr_bytes mem_ops zeros 16 decode (counted none 0) (source five_wire))
xdr_bytes_roundtrip_example =
    xdr_bytes_roundtrip mem_laws mem_laws zeros 16 0 five (replicate 5 0) sink 0 (source five_wire)
      [] (omega arith) (omega arith) (omega arith) refl refl (sink-MemRoom _ five-MemRoom)
      (source-MemInput five_wire)
