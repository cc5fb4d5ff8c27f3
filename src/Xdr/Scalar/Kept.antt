-- ===== src/Xdr/Scalar/Kept.antt =====
-- `xdr_u_int`, `xdr_u_int32_t`, `xdr_enum` and `xdr_bool` keep every invariant that the stream's
-- operations keep, on success and on failure, for each of the three operations.
use oncrpc4_win.Common.{ℕ, Option, none, some, ◌==◌, if◌then◌else◌}
use oncrpc4_win.Xdr.Stream.{encode, decode, free, XdrOps, IsKept}
use oncrpc4_win.Xdr.Codec.{Keeps}
use oncrpc4_win.Xdr.Scalar.{from_long, one_long, xdr_u_int, xdr_u_int32_t, xdr_bool, xdr_enum}

module _ {S : Type 0} {x : XdrOps S} {P : S → Type 0} (k : IsKept x P) where
  from_long-Keeps :
      {A : Type 0} (cast : ℕ → A) (v : A) (got : Option ℕ × S)
      → P got.1
      → P (from_long cast v got).2
  from_long-Keeps cast v (none, s) p = p
  from_long-Keeps cast v (some l, s) p = p

  pub one_long-Keeps : {A : Type 0} (widen : A → ℕ) (cast : ℕ → A) → Keeps P (one_long x widen cast)
  one_long-Keeps widen cast encode v s p = k.putlong_kept s (widen v) p
  one_long-Keeps widen cast decode v s p = from_long-Keeps cast v (x.getlong s) (k.getlong_kept s p)
  one_long-Keeps widen cast free v s p = p

  pub xdr_u_int-Keeps : Keeps P (xdr_u_int x)
  unfolding xdr_u_int
  xdr_u_int-Keeps = one_long-Keeps (λ v. v) (λ l. l)

  pub xdr_u_int32_t-Keeps : Keeps P (xdr_u_int32_t x)
  unfolding xdr_u_int32_t
  xdr_u_int32_t-Keeps = one_long-Keeps (λ v. v) (λ l. l)

  pub xdr_enum-Keeps : Keeps P (xdr_enum x)
  unfolding xdr_enum
  xdr_enum-Keeps = one_long-Keeps (λ v. v) (λ l. l)

  pub xdr_bool-Keeps : Keeps P (xdr_bool x)
  unfolding xdr_bool
  xdr_bool-Keeps = one_long-Keeps (λ v. if v == 0 then 0 else 1) (λ l. if l == 0 then 0 else 1)
