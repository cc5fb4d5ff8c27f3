-- ===== src/Xdr/Array/Decode.antt =====
-- Decoding a counted array into a null pointer.
use native.Mathlib.Nat.{div-add-mod}
use oncrpc4_win.Common.{
  not, ℕ, suc, ◌-◌, ◌*◌, ◌/◌, ◌%◌, ◌^◌, ◌<◌, ◌≤◌, ◌≡◌, ◌≢◌, refl, ap, Bool, true, false, Option,
  none, some, List, ◌++◌, length, arith, append_assoc, length-replicate, replicate, ltb-false,
  ==_false, All,
}
use oncrpc4_win.Common.Words.{IsU32, be32}
use oncrpc4_win.Xdr.Stream.{XdrOp, encode, decode, free, XdrOps, XdrLaws, Filter}
use oncrpc4_win.Xdr.Codec.{Decoded, Decodes}
use oncrpc4_win.Xdr.Scalar.{xdr_u_int}
use oncrpc4_win.Xdr.Scalar.Laws.{xdr_u_int-Decodes}
use oncrpc4_win.Xdr.Array.{CountedArray, same_array, array_body, array_sized, is_free, xdr_array}
use oncrpc4_win.Xdr.Array.Laws.{flat, counted_array, elements-Decodes}

-- `c <= UINT_MAX / elsize` keeps the product below 2^32.
div_bound : (c e : ℕ) → c ≤ (2 ^ 32 - 1) / e → c * e < 2 ^ 32
div_bound c e h = grind (arith, div-add-mod (2 ^ 32 - 1) e)

module _ {S A : Type 0} {x : XdrOps S} (laws : XdrLaws x) (elproc : Filter S A) (wire : A → List ℕ)
    (mem_alloc : ℕ → Bool) (blank : A) (elsize : ℕ) where
  same_array-Decoded :
      (elems : List A) (c : ℕ) (rest : List ℕ) (r : Bool × List A × S)
      → Decoded laws elems rest r
      → Decoded laws (counted_array (some elems) c) rest (same_array c r)
  same_array-Decoded elems c rest (b, got, s) (ok, same, left) =
      (ok, ap (λ e. counted_array (some e) c) same, left)

  array_sized-Decoded :
      (maxsize c : ℕ) (elems : List A) (rest : List ℕ)
      → length elems ≡ suc c
      → length elems ≤ maxsize
      → length elems ≤ (2 ^ 32 - 1) / elsize
      → mem_alloc (length elems * elsize % 2 ^ 32) ≡ true
      → All (λ a. (old : A) → Decodes laws elproc old a (wire a)) elems
      → (r : Bool × ℕ × S) → Decoded laws (length elems) (flat wire elems ++ rest) r
      → Decoded laws
          (counted_array (some elems) (length elems))
          rest
          (array_sized x mem_alloc blank elsize elproc maxsize decode none r)
  array_sized-Decoded maxsize c elems rest ec hm he ha h (false, c', s) (ok, got, left) = cc
  array_sized-Decoded maxsize c elems rest ec hm he ha h (true, c', s) (ok, got, left) =
      rw
        (
          got,
          ltb-false maxsize (length elems) hm,
          ltb-false ((2 ^ 32 - 1) / elsize) (length elems) he,
          ==_false (length elems) 0 (omega arith),
          ha,
        )
        (same_array-Decoded elems (length elems) rest _ (
          elements-Decodes laws elproc wire elems (replicate (length elems) blank)
            (length-replicate (length elems) blank) h s rest left))

  -- A non-empty array: a zeroed buffer is allocated, and every element decoded into it.
  pub xdr_array-Decodes_new :
      (maxsize old_count c : ℕ) (elems : List A)
      → length elems ≡ suc c
      → IsU32 (length elems)
      → length elems ≤ maxsize
      → length elems ≤ (2 ^ 32 - 1) / elsize
      → mem_alloc (length elems * elsize % 2 ^ 32) ≡ true
      → All (λ a. (old : A) → Decodes laws elproc old a (wire a)) elems
      → Decodes laws
          (xdr_array x mem_alloc blank elsize elproc maxsize)
          (counted_array none old_count)
          (counted_array (some elems) (length elems))
          (be32 (length elems) ++ flat wire elems)
  unfolding xdr_array
  xdr_array-Decodes_new maxsize old_count c elems ec hu hm he ha h s rest input =
      array_sized-Decoded maxsize c elems rest ec hm he ha h (xdr_u_int x decode old_count s) (
        xdr_u_int-Decodes laws old_count (length elems) hu s (flat wire elems ++ rest)
          (rw append_assoc at input))

module _ {S A : Type 0} (x : XdrOps S) (mem_alloc : ℕ → Bool) (blank : A) (elsize : ℕ)
    (elproc : Filter S A) where
  array_body-count :
      (op : XdrOp) (base : Option (List A)) (c : ℕ) (s : S)
      → (array_body x mem_alloc blank elsize elproc op base c s).1.count ≡ c
  array_body-count encode none c s = refl
  array_body-count encode (some elems) c s = refl
  array_body-count decode none c s = ground arith
  array_body-count decode (some elems) c s = refl
  array_body-count free none c s = refl
  array_body-count free (some elems) c s = refl

  not-is_free : (op : XdrOp) → op ≢ free → not (is_free op) ≡ true
  not-is_free encode h = refl
  not-is_free decode h = refl
  not-is_free free h = absurd (h refl)

  array_sized_bounded :
      (maxsize : ℕ) (op : XdrOp) (base : Option (List A)) (r : Bool × ℕ × S)
      → op ≢ free
      → (array_sized x mem_alloc blank elsize elproc maxsize op base r).0 ≡ true
      → let c = (array_sized x mem_alloc blank elsize elproc maxsize op base r).1.count in
        (c ≤ maxsize) × (c ≤ (2 ^ 32 - 1) / elsize)
  array_sized_bounded maxsize op base (false, c, s) ho ok = cc
  array_sized_bounded maxsize op base (true, c, s) ho ok =
      ground (arith, not-is_free op ho, array_body-count op base c s)

  -- On any stream, an array that was decoded or encoded has at most `maxsize` elements, and they
  -- fit 2^32 - 1 bytes: the size of the buffer has not wrapped.
  pub xdr_array_bounded :
      (maxsize : ℕ) (op : XdrOp) (v : CountedArray A) (s : S)
      → op ≢ free
      → 0 < elsize
      → (xdr_array x mem_alloc blank elsize elproc maxsize op v s).0 ≡ true
      → let c = (xdr_array x mem_alloc blank elsize elproc maxsize op v s).1.count in
        (c ≤ maxsize) × (c * elsize < 2 ^ 32)
  unfolding xdr_array
  xdr_array_bounded maxsize op v s ho he ok =
      let (hm, hd) = array_sized_bounded maxsize op v.base (xdr_u_int x op v.count s) ho ok in
      (hm, div_bound _ elsize hd)
