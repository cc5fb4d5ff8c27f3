-- ===== src/Xdr/Scalar.antt =====
-- libsrc/xdr.c, the filters of one or two words: integers of every width, characters, booleans and
-- enumerations. An object of a signed type is its bit pattern at the type's width.
pub mod Laws
pub mod Hyper
pub mod Kept
use oncrpc4_win.Common.{
  ℕ, ◌+◌, ◌*◌, ◌/◌, ◌%◌, ◌^◌, Bool, true, false, Option, none, some, ◌==◌, if◌then◌else◌,
}
use oncrpc4_win.Common.Words.{sext16, sext8}
use oncrpc4_win.Xdr.Stream.{XdrOp, encode, decode, free, XdrOps, Filter, and_put, and_get}

-- `xdr_void` takes no stream and no object.
unfoldable pub xdr_void : {S A : Type 0} → Filter S A
xdr_void op v s = (true, v, s)

-- `if (!XDR_GETLONG(xdrs, &l)) return FALSE; *p = (T)l; return TRUE;`
abbrev pub from_long : {S A : Type 0} → (ℕ → A) → A → Option ℕ × S → Bool × A × S
from_long cast v (none, s) = (false, v, s)
from_long cast v (some l, s) = (true, cast l, s)

-- `if (!f(xdrs, &i)) return FALSE; *cp = i;`, with `i` an integer made from `*cp`.
abbrev pub through_int : {S : Type 0} → ℕ → Bool × ℕ × S → Bool × ℕ × S
through_int v (true, i, s) = (true, i % 2 ^ 8, s)
through_int v (false, i, s) = (false, v, s)

-- `*llp = ((uint64_t)ul[0] << 32) | ul[1]`.
abbrev pub from_halves : {S : Type 0} → ℕ → Option (ℕ × ℕ) × S → Bool × ℕ × S
from_halves v (none, s) = (false, v, s)
from_halves v (some (hi, lo), s) = (true, hi * 2 ^ 32 + lo, s)

module _ {S : Type 0} (x : XdrOps S) where
  -- The switch that the one-word filters have in common: `l = (long)*p` and `XDR_PUTLONG`,
  -- `XDR_GETLONG` and `*p = (T)l`, nothing to free.
  abbrev pub one_long : {A : Type 0} → (A → ℕ) → (ℕ → A) → Filter S A
  one_long widen cast encode v s = let (r, s') = x.putlong s (widen v) in (r, v, s')
  one_long widen cast decode v s = from_long cast v (x.getlong s)
  one_long widen cast free v s = (true, v, s)

  -- An `int` and a `long` have the same 32 bits.
  unfoldable pub xdr_int : Filter S ℕ
  xdr_int = one_long (λ v. v) (λ l. l)

  unfoldable pub xdr_u_int : Filter S ℕ
  xdr_u_int = one_long (λ v. v) (λ l. l)

  unfoldable pub xdr_long : Filter S ℕ
  xdr_long = one_long (λ v. v) (λ l. l)

  unfoldable pub xdr_u_long : Filter S ℕ
  xdr_u_long = one_long (λ v. v) (λ l. l)

  unfoldable pub xdr_int32_t : Filter S ℕ
  xdr_int32_t = one_long (λ v. v) (λ l. l)

  unfoldable pub xdr_u_int32_t : Filter S ℕ
  xdr_u_int32_t = one_long (λ v. v) (λ l. l)

  -- `(long)` of a short extends its sign; `(short)l` keeps the low 16 bits.
  unfoldable pub xdr_short : Filter S ℕ
  unfolding sext16
  xdr_short = one_long sext16 (λ l. l % 2 ^ 16)

  unfoldable pub xdr_u_short : Filter S ℕ
  xdr_u_short = one_long (λ v. v) (λ l. l % 2 ^ 16)

  unfoldable pub xdr_int16_t : Filter S ℕ
  unfolding sext16
  xdr_int16_t = one_long sext16 (λ l. l % 2 ^ 16)

  unfoldable pub xdr_u_int16_t : Filter S ℕ
  xdr_u_int16_t = one_long (λ v. v) (λ l. l % 2 ^ 16)

  -- A plain `char` is signed.
  unfoldable pub xdr_char : Filter S ℕ
  unfolding xdr_int sext8
  xdr_char op v s = through_int v (xdr_int op (sext8 v) s)

  unfoldable pub xdr_u_char : Filter S ℕ
  unfolding xdr_u_int
  xdr_u_char op v s = through_int v (xdr_u_int op v s)

  -- A `bool_t` is an int: anything but 0 is sent as 1, and anything but 0 is read as `TRUE`.
  unfoldable pub xdr_bool : Filter S ℕ
  xdr_bool = one_long (λ v. if v == 0 then 0 else 1) (λ l. if l == 0 then 0 else 1)

  unfoldable pub xdr_enum : Filter S ℕ
  xdr_enum = one_long (λ v. v) (λ l. l)

  -- `(long)ul[0]`, then `ul[1]`; a failure of the first leaves the second out.
  abbrev pub put_halves : ℕ → ℕ → S → Bool × S
  put_halves hi lo s = and_put (x.putlong s hi) (λ s'. x.putlong s' lo)

  abbrev pub get_halves : S → Option (ℕ × ℕ) × S
  get_halves s =
      and_get (x.getlong s) (λ hi s'. and_get (x.getlong s') (λ lo s''. (some (hi, lo), s'')))

  unfoldable pub xdr_int64_t : Filter S ℕ
  xdr_int64_t encode v s =
      let (r, s') = put_halves (v / 2 ^ 32 % 2 ^ 32) (v % 2 ^ 32) s in (r, v, s')
  xdr_int64_t decode v s = from_halves v (get_halves s)
  xdr_int64_t free v s = (true, v, s)

  unfoldable pub xdr_u_int64_t : Filter S ℕ
  xdr_u_int64_t encode v s =
      let (r, s') = put_halves (v / 2 ^ 32 % 2 ^ 32) (v % 2 ^ 32) s in (r, v, s')
  xdr_u_int64_t decode v s = from_halves v (get_halves s)
  xdr_u_int64_t free v s = (true, v, s)

  unfoldable pub xdr_hyper : Filter S ℕ
  unfolding xdr_int64_t
  xdr_hyper = xdr_int64_t

  unfoldable pub xdr_u_hyper : Filter S ℕ
  unfolding xdr_u_int64_t
  xdr_u_hyper = xdr_u_int64_t

  unfoldable pub xdr_longlong_t : Filter S ℕ
  unfolding xdr_int64_t
  xdr_longlong_t = xdr_int64_t

  unfoldable pub xdr_u_longlong_t : Filter S ℕ
  unfolding xdr_u_int64_t
  xdr_u_longlong_t = xdr_u_int64_t
