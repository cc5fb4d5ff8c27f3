-- ===== src/Tests/Limits.antt =====
-- Runs at the limits that the filters keep.
use oncrpc4_win.Common.{
  ℕ, ◌*◌, ◌^◌, ◌≤◌, ◌<◌, ◌≡◌, refl, Bool, true, false, Option, none, some, List, [], ◌∷◌, replicate,
  arith,
}
use oncrpc4_win.Common.Words.{word_of}
use oncrpc4_win.Xdr.Stream.{decode, free}
use oncrpc4_win.Xdr.Mem.{MemStream, mem_ops, getlong_aligned, getbytes}
use oncrpc4_win.Xdr.Scalar.{xdr_u_int, xdr_enum}
use oncrpc4_win.Xdr.Opaque.{xdr_opaque, xdr_bytes, rndup}
use oncrpc4_win.Xdr.Opaque.Bytes.{counted}
use oncrpc4_win.Xdr.CString.{xdr_string}
use oncrpc4_win.Xdr.Union.{Discrim, choose, xdr_union}
use oncrpc4_win.Xdr.Union.Laws.{Chosen, xdr_union-Chosen}
use oncrpc4_win.Xdr.Array.{elements, xdr_array}
use oncrpc4_win.Xdr.Array.Laws.{counted_array}
use oncrpc4_win.Xdr.Array.Decode.{xdr_array_bounded}
use oncrpc4_win.Xdr.Memory.{xdr_bytes_failed-free, xdr_string_failed-free}
use oncrpc4_win.Tests.{source}

abbrev zeros : ℕ → Option (List ℕ)
zeros n = some (replicate n 0)

abbrev granted : ℕ → Bool
granted n = true

-- A length of five, and no bytes.
cut_short :
    (xdr_bytes mem_ops zeros 16 decode (counted none 0) (source (0 ∷ 0 ∷ 0 ∷ 5 ∷ []))).0 ≡ false
unfolding xdr_bytes xdr_opaque xdr_u_int mem_ops getlong_aligned getbytes word_of
cut_short = refl

xdr_bytes_failed-free_example :
    let v = (xdr_bytes mem_ops zeros 16 decode (counted none 0) (source (0 ∷ 0 ∷ 0 ∷ 5 ∷ []))).1 in
    (v.base ≡ none) × (xdr_bytes mem_ops zeros 16 free v (source []) ≡ (true, v, source []))
xdr_bytes_failed-free_example =
    xdr_bytes_failed-free mem_ops zeros 16 0 (source (0 ∷ 0 ∷ 0 ∷ 5 ∷ [])) (source []) cut_short

string_cut_short : (xdr_string mem_ops zeros 16 decode none (source (0 ∷ 0 ∷ 0 ∷ 5 ∷ []))).0 ≡ false
unfolding xdr_string xdr_opaque xdr_u_int mem_ops getlong_aligned getbytes word_of
string_cut_short = refl

xdr_string_failed-free_example :
    let sp = (xdr_string mem_ops zeros 16 decode none (source (0 ∷ 0 ∷ 0 ∷ 5 ∷ []))).1 in
    (sp ≡ none) × (xdr_string mem_ops zeros 16 free sp (source []) ≡ (true, sp, source []))
xdr_string_failed-free_example =
    xdr_string_failed-free mem_ops zeros 16 (source (0 ∷ 0 ∷ 0 ∷ 5 ∷ [])) (source [])
      string_cut_short

abbrev one_byte : List ℕ
one_byte = 0 ∷ 0 ∷ 0 ∷ 1 ∷ 8 ∷ 0 ∷ 0 ∷ 0 ∷ []

one_byte_read : (xdr_bytes mem_ops zeros 16 decode (counted none 0) (source one_byte)).0 ≡ true
unfolding xdr_bytes xdr_opaque xdr_u_int mem_ops getlong_aligned getbytes word_of rndup
one_byte_read = refl

one_word_read :
    (xdr_array mem_ops granted 0 4
      (xdr_u_int mem_ops)
      16
      decode
      (counted_array none 0)
      (source one_byte)).0
    ≡ true
unfolding xdr_array elements xdr_u_int mem_ops getlong_aligned word_of
one_word_read = refl

xdr_array_bounded_example :
    let c =
      (xdr_array mem_ops granted 0 4
        (xdr_u_int mem_ops)
        16
        decode
        (counted_array none 0)
        (source one_byte)).1.count in
    (c ≤ 16) × (c * 4 < 2 ^ 32)
xdr_array_bounded_example =
    xdr_array_bounded mem_ops granted 0 4 (xdr_u_int mem_ops) 16 decode (counted_array none 0)
      (source one_byte) (λ e. cc) (omega arith) one_word_read

-- A union with the single choice 1.
abbrev choices : List (Discrim MemStream ℕ)
choices = record { value = 1; proc = xdr_u_int mem_ops } ∷ []

choice_read : (xdr_union mem_ops choices none decode (0, 0) (source one_byte)).0 ≡ true
unfolding xdr_union choose xdr_enum xdr_u_int mem_ops getlong_aligned word_of
choice_read = refl

xdr_union-Chosen_example :
    Chosen mem_ops choices decode 0
      (xdr_enum mem_ops decode 0 (source one_byte))
      (xdr_union mem_ops choices none decode (0, 0) (source one_byte))
xdr_union-Chosen_example =
    xdr_union-Chosen mem_ops choices decode (0, 0) (source one_byte) choice_read
