-- ===== src/Xdr/Reference/Laws.antt =====
-- The bytes of an optional object: a boolean, and the object if it is there.
use mathlib.Core.Path.{subst}
use oncrpc4_win.Common.{
  ℕ, ◌+◌, ◌≡◌, refl, ap, ◌∙◌, Bool, true, false, Option, none, some, List, ◌++◌, length, arith,
  append_assoc, length-append,
}
use oncrpc4_win.Common.Words.{be32}
use oncrpc4_win.Xdr.Stream.{encode, decode, XdrOps, XdrLaws, Filter}
use oncrpc4_win.Xdr.Codec.{Encoded, Decoded, Encodes, Decodes}
use oncrpc4_win.Xdr.Scalar.{xdr_bool}
use oncrpc4_win.Xdr.Scalar.Laws.{xdr_bool-Encodes, xdr_bool-Decodes}
use oncrpc4_win.Xdr.Reference.{xdr_reference, is_some, if_more, xdr_pointer}

module _ {S A : Type 0} {x : XdrOps S} (laws : XdrLaws x) (mem_alloc : ℕ → Bool) (blank : A)
    (size : ℕ) (proc : Filter S A) where
  pub xdr_reference-Encodes :
      (a : A) (bs : List ℕ)
      → Encodes laws proc a bs
      → Encodes laws (xdr_reference mem_alloc blank size proc) (some a) bs
  unfolding xdr_reference
  xdr_reference-Encodes a bs h s n room =
      let (ok, keep, out, left) = h s n room in (ok, ap some keep, out, left)

  pub xdr_reference-Decodes_new :
      (a : A) (bs : List ℕ)
      → mem_alloc size ≡ true
      → Decodes laws proc blank a bs
      → Decodes laws (xdr_reference mem_alloc blank size proc) none (some a) bs
  unfolding xdr_reference
  xdr_reference-Decodes_new a bs ha h s rest input =
      let (ok, got, left) = h s rest input in rw ha (ok, ap some got, left)

  if_more-Encoded :
      (a : A) (bs : List ℕ) (s : S) (n : ℕ)
      → Encodes laws proc a bs
      → (r : Bool × ℕ × S) → Encoded laws 1 (be32 1) s (length bs + n) r
      → Encoded laws
          (some a)
          (be32 1 ++ bs)
          s
          n
          (if_more mem_alloc blank size proc encode (some a) r)
  if_more-Encoded a bs s n h (false, b, s') (ok, keep, out, room) = cc
  if_more-Encoded a bs s n h (true, b, s') (ok, keep, out, room) =
      let (ok', keep', out', room') = xdr_reference-Encodes a bs h s' n room in
      rw keep (ok', keep', out' ∙ rw out (laws.append-append (laws.output s) (be32 1) bs), room')

  pub xdr_pointer-Encodes-some :
      (a : A) (bs : List ℕ)
      → Encodes laws proc a bs
      → Encodes laws (xdr_pointer mem_alloc blank size proc x) (some a) (be32 1 ++ bs)
  unfolding xdr_pointer
  xdr_pointer-Encodes-some a bs h s n room = if_more-Encoded a bs s n h (xdr_bool x encode 1 s) (
      xdr_bool-Encodes laws 1 s (length bs + n)
        (subst (laws.Room s) (omega (arith, length-append (be32 1) bs)) room))

  if_more-Encoded-none :
      (s : S) (n : ℕ) (r : Bool × ℕ × S)
      → Encoded laws 0 (be32 0) s n r
      → Encoded laws none (be32 0) s n (if_more mem_alloc blank size proc encode none r)
  if_more-Encoded-none s n (false, b, s') (ok, keep, out, room) = cc
  if_more-Encoded-none s n (true, b, s') (ok, keep, out, room) = rw keep (refl, refl, out, room)

  pub xdr_pointer-Encodes-none :
      Encodes laws (xdr_pointer mem_alloc blank size proc x) none (be32 0)
  unfolding xdr_pointer
  xdr_pointer-Encodes-none s n room =
      if_more-Encoded-none s n (xdr_bool x encode 0 s) (xdr_bool-Encodes laws 0 s n room)

  if_more-Decoded :
      (a : A) (bs rest : List ℕ)
      → mem_alloc size ≡ true
      → Decodes laws proc blank a bs
      → (r : Bool × ℕ × S) → Decoded laws 1 (bs ++ rest) r
      → Decoded laws (some a) rest (if_more mem_alloc blank size proc decode none r)
  if_more-Decoded a bs rest ha h (false, b, s') (ok, got, left) = cc
  if_more-Decoded a bs rest ha h (true, b, s') (ok, got, left) =
      rw got (xdr_reference-Decodes_new a bs ha h s' rest left)

  pub xdr_pointer-Decodes-some :
      (a : A) (bs : List ℕ)
      → mem_alloc size ≡ true
      → Decodes laws proc blank a bs
      → Decodes laws (xdr_pointer mem_alloc blank size proc x) none (some a) (be32 1 ++ bs)
  unfolding xdr_pointer
  xdr_pointer-Decodes-some a bs ha h s rest input =
      if_more-Decoded a bs rest ha h (xdr_bool x decode 0 s)
        (xdr_bool-Decodes laws 0 1 (omega arith) s (bs ++ rest) (rw append_assoc at input))

  if_more-Decoded-none :
      (old : Option A) (rest : List ℕ) (r : Bool × ℕ × S)
      → Decoded laws 0 rest r
      → Decoded laws none rest (if_more mem_alloc blank size proc decode old r)
  if_more-Decoded-none old rest (false, b, s') (ok, got, left) = cc
  if_more-Decoded-none old rest (true, b, s') (ok, got, left) = rw got (refl, refl, left)

  pub xdr_pointer-Decodes-none :
      (old : Option A) → Decodes laws (xdr_pointer mem_alloc blank size proc x) old none (be32 0)
  unfolding xdr_pointer
  xdr_pointer-Decodes-none old s rest input =
      if_more-Decoded-none old rest (xdr_bool x decode (is_some mem_alloc blank size proc old) s)
        (xdr_bool-Decodes laws _ 0 (omega arith) s rest input)
