-- ===== src/Xdr/Scalar/Hyper.antt =====
-- The 64-bit integers of libsrc/xdr.c: two words, the high one first.
use oncrpc4_win.Common.{
  ℕ, ◌+◌, ◌*◌, ◌/◌, ◌%◌, ◌^◌, ◌<◌, ◌≡◌, refl, Option, none, some, List, ◌++◌, arith, append_assoc,
}
use oncrpc4_win.Common.Words.{IsU32, be32}
use oncrpc4_win.Xdr.Stream.{XdrOps, XdrLaws, Wrote, Took}
use oncrpc4_win.Xdr.Codec.{Decoded, Encodes, Decodes, and_put-Wrote, and_get-Took}
use oncrpc4_win.Xdr.Scalar.{put_halves, get_halves, from_halves, xdr_int64_t, xdr_u_int64_t}

-- The eight bytes of a 64-bit word, highest first.
unfoldable pub be64 : ℕ → List ℕ
be64 v = be32 (v / 2 ^ 32 % 2 ^ 32) ++ be32 (v % 2 ^ 32)

module _ {S : Type 0} {x : XdrOps S} (laws : XdrLaws x) where
  put_halves_lem :
      (s : S) (hi lo n : ℕ)
      → laws.Room s (8 + n)
      → Wrote laws.Room laws.append laws.output s (be32 hi ++ be32 lo) n (put_halves x hi lo s)
  unfolding be32
  put_halves_lem s hi lo n room =
      let e : 8 + n ≡ 4 + (4 + n) = omega arith in
      and_put-Wrote laws s (be32 hi) (be32 lo) n (x.putlong s hi) _
        (laws.putlong_lem s hi (4 + n) (rw e at room)) (λ s' room'. laws.putlong_lem s' lo n room')

  get_halves_lem :
      (s : S) (hi lo : ℕ) (rest : List ℕ)
      → IsU32 hi
      → IsU32 lo
      → laws.Input s ((be32 hi ++ be32 lo) ++ rest)
      → Took laws.Input (hi, lo) rest (get_halves x s)
  get_halves_lem s hi lo rest hh hl input =
      and_get-Took laws hi (hi, lo) (be32 lo ++ rest) rest (x.getlong s) _
        (laws.getlong_lem s hi (be32 lo ++ rest) hh (rw append_assoc at input))
        (λ s' left.
          and_get-Took laws lo (hi, lo) rest rest (x.getlong s') _
            (laws.getlong_lem s' lo rest hl left) (λ s'' done. (refl, done)))

  pub xdr_u_int64_t-Encodes : (v : ℕ) → Encodes laws (xdr_u_int64_t x) v (be64 v)
  unfolding xdr_u_int64_t be64
  xdr_u_int64_t-Encodes v s n room =
      let (ok, out, left) =
        put_halves_lem s (v / 2 ^ 32 % 2 ^ 32) (v % 2 ^ 32) n (unfold be32 in room) in
      (ok, refl, out, left)

  from_halves-Decoded :
      (old hi lo v : ℕ) (rest : List ℕ)
      → hi * 2 ^ 32 + lo ≡ v
      → (got : Option (ℕ × ℕ) × S) → Took laws.Input (hi, lo) rest got
      → Decoded laws v rest (from_halves old got)
  from_halves-Decoded old hi lo v rest e (none, s') (ok, left) = cc
  from_halves-Decoded old hi lo v rest e (some (h, l), s') (ok, left) = (refl, ground arith, left)

  pub xdr_u_int64_t-Decodes :
      (old v : ℕ) → v < 2 ^ 64 → Decodes laws (xdr_u_int64_t x) old v (be64 v)
  unfolding xdr_u_int64_t be64
  xdr_u_int64_t-Decodes old v h s rest input =
      from_halves-Decoded old (v / 2 ^ 32 % 2 ^ 32) (v % 2 ^ 32) v rest (omega arith) _
        (get_halves_lem s (v / 2 ^ 32 % 2 ^ 32) (v % 2 ^ 32) rest (omega arith) (omega arith) input)

  pub xdr_int64_t-Encodes : (v : ℕ) → Encodes laws (xdr_int64_t x) v (be64 v)
  unfolding xdr_u_int64_t xdr_int64_t
  xdr_int64_t-Encodes = xdr_u_int64_t-Encodes

  pub xdr_int64_t-Decodes : (old v : ℕ) → v < 2 ^ 64 → Decodes laws (xdr_int64_t x) old v (be64 v)
  unfolding xdr_u_int64_t xdr_int64_t
  xdr_int64_t-Decodes = xdr_u_int64_t-Decodes
