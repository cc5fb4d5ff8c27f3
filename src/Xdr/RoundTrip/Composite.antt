-- ===== src/Xdr/RoundTrip/Composite.antt =====
-- Arrays and optional objects between two streams, given the round trip of what they hold.
use oncrpc4_win.Common.{
  ℕ, suc, ◌+◌, ◌-◌, ◌*◌, ◌/◌, ◌%◌, ◌^◌, ◌≤◌, ◌≡◌, Bool, true, Option, none, some, List, [], ◌∷◌,
  ◌++◌, length, All,
}
use oncrpc4_win.Common.Words.{IsU32, be32}
use oncrpc4_win.Xdr.Stream.{encode, decode, XdrOps, XdrLaws, Filter}
use oncrpc4_win.Xdr.Codec.{Encoded, Decoded, Encodes, Decodes, Codec}
use oncrpc4_win.Xdr.Array.{xdr_array}
use oncrpc4_win.Xdr.Array.Laws.{flat, counted_array, xdr_array-Encodes}
use oncrpc4_win.Xdr.Array.Decode.{xdr_array-Decodes_new}
use oncrpc4_win.Xdr.Reference.{xdr_pointer}
use oncrpc4_win.Xdr.Reference.Laws.{
  xdr_pointer-Encodes-some, xdr_pointer-Encodes-none, xdr_pointer-Decodes-some,
  xdr_pointer-Decodes-none,
}

module _ {S A : Type 0} {x : XdrOps S} {laws : XdrLaws x} {f : Filter S A} (c : Codec laws f) where
  All-Encodes :
      (elems : List A) → All c.IsValid elems → All (λ a. Encodes laws f a (c.wire a)) elems
  All-Encodes [] h = tt
  All-Encodes (a ∷ elems) (h, hs) = (c.encodes a h, All-Encodes elems hs)

  All-Decodes :
      (elems : List A)
      → All c.IsValid elems
      → All (λ a. (old : A) → Decodes laws f old a (c.wire a)) elems
  All-Decodes [] h = tt
  All-Decodes (a ∷ elems) (h, hs) = (λ old. c.decodes old a h, All-Decodes elems hs)

module _ {S A : Type 0} {x : XdrOps S} {laws : XdrLaws x} {f : Filter S A} (c : Codec laws f)
    (mem_alloc : ℕ → Bool) (blank : A) (elsize : ℕ) where
  -- A non-empty array of valid elements, whose count is within the bound and whose size in bytes
  -- does not wrap, is sent as its count and its elements in order; from these bytes a null array
  -- becomes that array, whenever the allocator grants its size.
  pub xdr_array_roundtrip :
      (maxsize old_count k : ℕ) (elems : List A) (s : S) (n : ℕ) (t : S) (rest : List ℕ)
      → length elems ≡ suc k
      → IsU32 (length elems)
      → length elems ≤ maxsize
      → length elems ≤ (2 ^ 32 - 1) / elsize
      → mem_alloc (length elems * elsize % 2 ^ 32) ≡ true
      → All c.IsValid elems
      → laws.Room s (length (be32 (length elems) ++ flat c.wire elems) + n)
      → laws.Input t ((be32 (length elems) ++ flat c.wire elems) ++ rest)
      → Encoded laws
          (counted_array (some elems) (length elems))
          (be32 (length elems) ++ flat c.wire elems)
          s
          n
          (xdr_array x mem_alloc blank elsize f maxsize encode
            (counted_array (some elems) (length elems))
            s)
        × Decoded laws
            (counted_array (some elems) (length elems))
            rest
            (xdr_array x mem_alloc blank elsize f maxsize decode (counted_array none old_count) t)
  xdr_array_roundtrip maxsize old_count k elems s n t rest ek hu hm he ha h room input = (
    xdr_array-Encodes laws f c.wire mem_alloc blank elsize maxsize elems hm he
        (All-Encodes c elems h) s n room,
    xdr_array-Decodes_new laws f c.wire mem_alloc blank elsize maxsize old_count k elems ek hu hm he
        ha (All-Decodes c elems h) t rest input,
  )

  abbrev pub optional_wire : Option A → List ℕ
  optional_wire none = be32 0
  optional_wire (some a) = be32 1 ++ c.wire a

  abbrev pub IsOptional : Option A → Type 0
  IsOptional none = Unit {0}
  IsOptional (some a) = c.IsValid a

  -- An optional object, absent or valid, is sent as a boolean and the object if there is one; from
  -- these bytes a null pointer becomes that object, whenever the allocator grants its size.
  pub xdr_pointer_roundtrip :
      (p : Option A) (s : S) (n : ℕ) (t : S) (rest : List ℕ)
      → mem_alloc elsize ≡ true
      → IsOptional p
      → laws.Room s (length (optional_wire p) + n)
      → laws.Input t (optional_wire p ++ rest)
      → Encoded laws p (optional_wire p) s n (xdr_pointer mem_alloc blank elsize f x encode p s)
        × Decoded laws p rest (xdr_pointer mem_alloc blank elsize f x decode none t)
  xdr_pointer_roundtrip none s n t rest ha h room input = (
    xdr_pointer-Encodes-none laws mem_alloc blank elsize f s n room,
    xdr_pointer-Decodes-none laws mem_alloc blank elsize f none t rest input,
  )
  xdr_pointer_roundtrip (some a) s n t rest ha h room input = (
    xdr_pointer-Encodes-some laws mem_alloc blank elsize f a (c.wire a) (c.encodes a h) s n room,
    xdr_pointer-Decodes-some laws mem_alloc blank elsize f a (c.wire a) ha (c.decodes blank a h) t
        rest input,
  )
