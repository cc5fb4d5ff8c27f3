-- ===== src/Xdr/Union.antt =====
-- libsrc/xdr.c, discriminated unions.
pub mod Laws
use oncrpc4_win.Common.{
  suc, not, ◌&&◌, ℕ, ◌+◌, ◌-◌, ◌%◌, ◌^◌, Bool, true, false, Option, none, some, List, [], ◌∷◌, ◌++◌,
  ltb, ◌==◌, if◌then◌else◌, length, take, drop, replicate, write_at,
}
use oncrpc4_win.Xdr.Stream.{XdrOp, encode, decode, free, XdrOps, Filter, and_put, and_get}
use oncrpc4_win.Xdr.Scalar.{xdr_u_int, xdr_enum}

-- `struct xdr_discrim`; the list ends where `proc` is NULL.
pub record Discrim (S U : Type 0) : Type 0 where
  pub value : ℕ
  pub proc : Filter S U

-- The loop over `choices`, and the default.
unfoldable pub choose :
    {S U : Type 0} → ℕ → List (Discrim S U) → Option (Filter S U) → Option (Filter S U)
choose dscm [] dfault = dfault
choose dscm (c ∷ cs) dfault = if c.value == dscm then some c.proc else choose dscm cs dfault

module _ {S : Type 0} (x : XdrOps S) where
  abbrev pub run_choice :
      {U : Type 0} → Option (Filter S U) → XdrOp → ℕ × U → S → Bool × (ℕ × U) × S
  run_choice none op u s = (false, u, s)
  run_choice (some f) op (d, u) s = let (r, u', s') = f op u s in (r, (d, u'), s')

  abbrev pub chosen :
      {U : Type 0}
      → List (Discrim S U)
      → Option (Filter S U)
      → XdrOp
      → U
      → Bool × ℕ × S
      → Bool × (ℕ × U) × S
  chosen choices dfault op u (false, d, s) = (false, (d, u), s)
  chosen choices dfault op u (true, d, s) = run_choice (choose d choices dfault) op (d, u) s

  -- The object is the discriminant and the union.
  unfoldable pub xdr_union :
      {U : Type 0} → List (Discrim S U) → Option (Filter S U) → Filter S (ℕ × U)
  unfolding xdr_enum choose
  xdr_union choices dfault op v s = chosen choices dfault op v.1 (xdr_enum x op v.0 s)
