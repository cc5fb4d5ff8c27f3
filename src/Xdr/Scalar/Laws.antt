-- ===== src/Xdr/Scalar/Laws.antt =====
-- The bytes of filters of one word of libsrc/xdr.c, over every lawful stream.
use oncrpc4_win.Common.{
  ℕ, ◌%◌, ◌^◌, ◌<◌, ◌≡◌, refl, ap, ◌∙◌, Option, none, some, List, ◌==◌, if◌then◌else◌, arith,
}
use oncrpc4_win.Common.Words.{
  IsU32, be32, sext16, sext16-mod, sext16-IsU32, sext8, sext8-mod, sext8-IsU32,
}
use oncrpc4_win.Xdr.Stream.{XdrOps, XdrLaws}
use oncrpc4_win.Xdr.Codec.{Decoded, Encodes, Decodes}
use oncrpc4_win.Xdr.Scalar.{
  from_long, one_long, xdr_u_int, xdr_u_long, xdr_u_int32_t, xdr_short, xdr_char, xdr_bool,
  xdr_enum,
}

module _ {S : Type 0} {x : XdrOps S} (laws : XdrLaws x) where
  pub one_long-Encodes :
      {A : Type 0} (widen : A → ℕ) (cast : ℕ → A) (v : A)
      → Encodes laws (one_long x widen cast) v (be32 (widen v))
  one_long-Encodes widen cast v s n room =
      let (r, out, left) = laws.putlong_lem s (widen v) n (unfold be32 in room) in
      (r, refl, out, left)

  from_long-Decoded :
      {A : Type 0} (cast : ℕ → A) (old v : A) (l : ℕ) (rest : List ℕ)
      → cast l ≡ v
      → (got : Option ℕ × S) → got.0 ≡ some l
      → laws.Input got.1 rest
      → Decoded laws v rest (from_long cast old got)
  from_long-Decoded cast old v l rest e (none, s') r left = cc
  from_long-Decoded cast old v l rest e (some k, s') r left =
      let same : k ≡ l = cc in (refl, ap cast same ∙ e, left)

  pub one_long-Decodes :
      {A : Type 0} (widen : A → ℕ) (cast : ℕ → A) (old v : A) (l : ℕ)
      → IsU32 l
      → cast l ≡ v
      → Decodes laws (one_long x widen cast) old v (be32 l)
  one_long-Decodes widen cast old v l hl e s rest h =
      let (r, left) = laws.getlong_lem s l rest hl h in
      from_long-Decoded cast old v l rest e (x.getlong s) r left

  pub xdr_u_int-Encodes : (v : ℕ) → Encodes laws (xdr_u_int x) v (be32 v)
  unfolding xdr_u_int
  xdr_u_int-Encodes v = one_long-Encodes (λ v. v) (λ l. l) v

  pub xdr_u_int-Decodes : (old v : ℕ) → IsU32 v → Decodes laws (xdr_u_int x) old v (be32 v)
  unfolding xdr_u_int
  xdr_u_int-Decodes old v h = one_long-Decodes (λ v. v) (λ l. l) old v v h refl

  pub xdr_u_long-Encodes : (v : ℕ) → Encodes laws (xdr_u_long x) v (be32 v)
  unfolding xdr_u_long
  xdr_u_long-Encodes v = one_long-Encodes (λ v. v) (λ l. l) v

  pub xdr_u_long-Decodes : (old v : ℕ) → IsU32 v → Decodes laws (xdr_u_long x) old v (be32 v)
  unfolding xdr_u_long
  xdr_u_long-Decodes old v h = one_long-Decodes (λ v. v) (λ l. l) old v v h refl

  pub xdr_enum-Encodes : (v : ℕ) → Encodes laws (xdr_enum x) v (be32 v)
  unfolding xdr_enum
  xdr_enum-Encodes v = one_long-Encodes (λ v. v) (λ l. l) v

  pub xdr_enum-Decodes : (old v : ℕ) → IsU32 v → Decodes laws (xdr_enum x) old v (be32 v)
  unfolding xdr_enum
  xdr_enum-Decodes old v h = one_long-Decodes (λ v. v) (λ l. l) old v v h refl

  pub xdr_u_int32_t-Encodes : (v : ℕ) → Encodes laws (xdr_u_int32_t x) v (be32 v)
  unfolding xdr_u_int32_t
  xdr_u_int32_t-Encodes v = one_long-Encodes (λ v. v) (λ l. l) v

  pub xdr_u_int32_t-Decodes : (old v : ℕ) → IsU32 v → Decodes laws (xdr_u_int32_t x) old v (be32 v)
  unfolding xdr_u_int32_t
  xdr_u_int32_t-Decodes old v h = one_long-Decodes (λ v. v) (λ l. l) old v v h refl

  pub xdr_short-Encodes : (v : ℕ) → Encodes laws (xdr_short x) v (be32 (sext16 v))
  unfolding xdr_short
  xdr_short-Encodes v = one_long-Encodes sext16 (λ l. l % 2 ^ 16) v

  pub xdr_short-Decodes :
      (old v : ℕ) → v < 2 ^ 16 → Decodes laws (xdr_short x) old v (be32 (sext16 v))
  unfolding xdr_short
  xdr_short-Decodes old v h =
      one_long-Decodes sext16 (λ l. l % 2 ^ 16) old v (sext16 v) (sext16-IsU32 v h) (sext16-mod v h)

  pub xdr_bool-Encodes : (v : ℕ) → Encodes laws (xdr_bool x) v (be32 (if v == 0 then 0 else 1))
  unfolding xdr_bool
  xdr_bool-Encodes v =
      one_long-Encodes (λ v. if v == 0 then 0 else 1) (λ l. if l == 0 then 0 else 1) v

  -- Any word is read: 0 as FALSE and all others as TRUE.
  pub xdr_bool-Decodes :
      (old l : ℕ) → IsU32 l → Decodes laws (xdr_bool x) old (if l == 0 then 0 else 1) (be32 l)
  unfolding xdr_bool
  xdr_bool-Decodes old l h =
      one_long-Decodes (λ v. if v == 0 then 0 else 1) (λ l. if l == 0 then 0 else 1) old _ l h refl

  pub xdr_char-Encodes : (v : ℕ) → v < 2 ^ 8 → Encodes laws (xdr_char x) v (be32 (sext8 v))
  unfolding xdr_char
  xdr_char-Encodes v h s n room =
      ground (arith, one_long-Encodes (λ v. v) (λ l. l) (sext8 v) s n room, sext8-mod v h)

  pub xdr_char-Decodes : (old v : ℕ) → v < 2 ^ 8 → Decodes laws (xdr_char x) old v (be32 (sext8 v))
  unfolding xdr_char
  xdr_char-Decodes old v h s rest input = ground (
    arith,
    one_long-Decodes (λ v. v) (λ l. l) (sext8 old) (sext8 v) (sext8 v) (sext8-IsU32 v h) refl s rest
        input,
    sext8-mod v h,
  )
