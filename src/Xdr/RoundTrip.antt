-- ===== src/Xdr/RoundTrip.antt =====
-- What is encoded onto one stream is decoded from another, where both keep the interface's laws:
-- filters of libsrc/xdr.c, and below it of xdr_array.c and xdr_reference.c.
pub mod Composite
pub mod Buffer
use native.Mathlib.Nat.{zero-add}
use oncrpc4_win.Common.{
  ℕ, suc, ◌+◌, ◌-◌, ◌*◌, ◌/◌, ◌%◌, ◌^◌, ◌≤◌, ◌<◌, ◌≡◌, refl, sym, ap, ◌∙◌, Bool, true, false,
  Option, none, some, List, [], ◌∷◌, ◌++◌, length, take, drop, replicate, All, arith,
  length-replicate, take_all, if◌then◌else◌, ◌==◌,
}
use oncrpc4_win.Common.Words.{IsU32, be32, sext16}
use oncrpc4_win.Xdr.Stream.{encode, decode, free, XdrOps, XdrLaws, Filter}
use oncrpc4_win.Xdr.Codec.{Encoded, Decoded, Codec}
use oncrpc4_win.Xdr.Scalar.{xdr_bool, xdr_short, xdr_u_int64_t}
use oncrpc4_win.Xdr.Scalar.Laws.{
  xdr_bool-Encodes, xdr_bool-Decodes, xdr_short-Encodes, xdr_short-Decodes,
}
use oncrpc4_win.Xdr.Scalar.Hyper.{be64, xdr_u_int64_t-Encodes, xdr_u_int64_t-Decodes}
use oncrpc4_win.Xdr.Opaque.{xdr_bytes, rndup}
use oncrpc4_win.Xdr.Opaque.Laws.{units}
use oncrpc4_win.Xdr.Opaque.Bytes.{counted, xdr_bytes-Encodes, xdr_bytes-Decodes_new}
use oncrpc4_win.Xdr.CString.{xdr_string}
use oncrpc4_win.Xdr.CString.Laws.{NoNul, xdr_string-Encodes, xdr_string-Decodes_new}
use oncrpc4_win.Xdr.Array.{xdr_array}
use oncrpc4_win.Xdr.Array.Laws.{flat, counted_array, xdr_array-Encodes}
use oncrpc4_win.Xdr.Array.Decode.{xdr_array-Decodes_new}

units_all : (cp : List ℕ) → units (length cp) cp ≡ cp ++ replicate (rndup (length cp)) 0
unfolding units
units_all cp = rw (take_all (length cp) cp (omega arith)) refl

module _ {S T : Type 0} {x : XdrOps S} {y : XdrOps T} (out : XdrLaws x) (into : XdrLaws y) where
  -- A C boolean is sent as 0 or 1, and any other value than 0 arrives as 1.
  xdr_bool_roundtrip :
      (v old : ℕ) (s : S) (n : ℕ) (t : T) (rest : List ℕ)
      → out.Room s (4 + n)
      → into.Input t (be32 (if v == 0 then 0 else 1) ++ rest)
      → Encoded out v (be32 (if v == 0 then 0 else 1)) s n (xdr_bool x encode v s)
        × Decoded into (if v == 0 then 0 else 1) rest (xdr_bool y decode old t)
  unfolding be32
  xdr_bool_roundtrip v old s n t rest room input = (
    xdr_bool-Encodes out v s n room,
    ground (
      arith,
      xdr_bool-Decodes into old 0 (omega arith) t rest,
      xdr_bool-Decodes into old 1 (omega arith) t rest,
    ),
  )

  -- A 16-bit integer is sent as a sign-extended word, and arrives as it was.
  xdr_short_roundtrip :
      (v old : ℕ) (s : S) (n : ℕ) (t : T) (rest : List ℕ)
      → v < 2 ^ 16
      → out.Room s (4 + n)
      → into.Input t (be32 (sext16 v) ++ rest)
      → Encoded out v (be32 (sext16 v)) s n (xdr_short x encode v s)
        × Decoded into v rest (xdr_short y decode old t)
  unfolding be32
  xdr_short_roundtrip v old s n t rest h room input =
      (xdr_short-Encodes out v s n room, xdr_short-Decodes into old v h t rest input)

  -- A 64-bit integer is sent as two words, the high one first, and arrives as it was.
  xdr_u_int64_t_roundtrip :
      (v old : ℕ) (s : S) (n : ℕ) (t : T) (rest : List ℕ)
      → v < 2 ^ 64
      → out.Room s (8 + n)
      → into.Input t (be64 v ++ rest)
      → Encoded out v (be64 v) s n (xdr_u_int64_t x encode v s)
        × Decoded into v rest (xdr_u_int64_t y decode old t)
  unfolding be64 be32
  xdr_u_int64_t_roundtrip v old s n t rest h room input =
      (xdr_u_int64_t-Encodes out v s n room, xdr_u_int64_t-Decodes into old v h t rest input)

  -- A 64-bit integer is sent as two words, the high one first, a 16-bit integer as a sign-extended
  -- word, and a C boolean as 0 or 1: the integers arrive as they were, and any boolean but 0 arrives
  -- as 1.
  pub xdr_scalars_roundtrip :
      (long short bool old : ℕ) (s : S) (n : ℕ) (t1 t2 t3 : T) (rest : List ℕ)
      → long < 2 ^ 64
      → short < 2 ^ 16
      → out.Room s (8 + n)
      → out.Room s (4 + n)
      → into.Input t1 (be64 long ++ rest)
      → into.Input t2 (be32 (sext16 short) ++ rest)
      → into.Input t3 (be32 (if bool == 0 then 0 else 1) ++ rest)
      → (Encoded out long (be64 long) s n (xdr_u_int64_t x encode long s)
          × Decoded into long rest (xdr_u_int64_t y decode old t1))
        × (Encoded out short (be32 (sext16 short)) s n (xdr_short x encode short s)
            × Decoded into short rest (xdr_short y decode old t2))
        × (Encoded out bool (be32 (if bool == 0 then 0 else 1)) s n (xdr_bool x encode bool s)
            × Decoded into (if bool == 0 then 0 else 1) rest (xdr_bool y decode old t3))
  xdr_scalars_roundtrip long short bool old s n t1 t2 t3 rest hl hs room8 room4 i1 i2 i3 = (
    xdr_u_int64_t_roundtrip long old s n t1 rest hl room8 i1,
    xdr_short_roundtrip short old s n t2 rest hs room4 i2,
    xdr_bool_roundtrip bool old s n t3 rest room4 i3,
  )

  module _ (mem_alloc : ℕ → Option (List ℕ)) where
    -- The bytes of a counted buffer, as many as its length says, are sent behind the length and
    -- padded with zeros to whole units. They arrive, in a buffer that the decoder allocates,
    -- whenever they are at least one and within the bound, and the allocator yields a buffer of
    -- that size.
    pub xdr_bytes_roundtrip :
        (maxsize old_len : ℕ) (cp fresh : List ℕ) (s : S) (n : ℕ) (t : T) (rest : List ℕ)
        → IsU32 (length cp)
        → 0 < length cp
        → length cp ≤ maxsize
        → mem_alloc (length cp) ≡ some fresh
        → length fresh ≡ length cp
        → out.Room s (length (be32 (length cp) ++ units (length cp) cp) + n)
        → into.Input t ((be32 (length cp) ++ units (length cp) cp) ++ rest)
        → Encoded out
            (counted (some cp) (length cp))
            (be32 (length cp) ++ units (length cp) cp)
            s
            n
            (xdr_bytes x mem_alloc maxsize encode (counted (some cp) (length cp)) s)
          × Decoded into
              (counted (some cp) (length cp))
              rest
              (xdr_bytes y mem_alloc maxsize decode (counted none old_len) t)
    xdr_bytes_roundtrip maxsize old_len cp fresh s n t rest hu hp hm ea ef room input = (
      xdr_bytes-Encodes out mem_alloc maxsize (length cp) cp hm (omega arith) s n room,
      xdr_bytes-Decodes_new into mem_alloc maxsize (length cp) old_len fresh cp
          (replicate (rndup (length cp)) 0) hu hp hm ea ef refl
          (length-replicate (rndup (length cp)) 0) t rest (rw (units_all cp) at input),
    )

    -- A string without null bytes is sent by its length, whatever stands behind its terminator,
    -- and arrives terminated, in a buffer of one byte more than its length.
    pub xdr_string_roundtrip :
        (maxsize : ℕ) (cs tail fresh : List ℕ) (s : S) (n : ℕ) (t : T) (rest : List ℕ)
        → NoNul cs
        → length cs < 2 ^ 32 - 1
        → length cs ≤ maxsize
        → mem_alloc (length cs + 1) ≡ some fresh
        → length fresh ≡ length cs + 1
        → out.Room s (length (be32 (length cs) ++ units (length cs) cs) + n)
        → into.Input t ((be32 (length cs) ++ units (length cs) cs) ++ rest)
        → Encoded out
            (some (cs ++ 0 ∷ tail))
            (be32 (length cs) ++ units (length cs) cs)
            s
            n
            (xdr_string x mem_alloc maxsize encode (some (cs ++ 0 ∷ tail)) s)
          × Decoded into (some (cs ++ 0 ∷ [])) rest (xdr_string y mem_alloc maxsize decode none t)
    xdr_string_roundtrip maxsize cs tail fresh s n t rest hz hu hm ea ef room input = (
      xdr_string-Encodes out mem_alloc maxsize cs tail hz (omega arith) hm s n room,
      xdr_string-Decodes_new into mem_alloc maxsize fresh cs (replicate (rndup (length cs)) 0) hu hm
          ea ef (length-replicate (rndup (length cs)) 0) t rest (rw (units_all cs) at input),
    )
