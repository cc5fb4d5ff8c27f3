-- ===== src/Xdr/Opaque.antt =====
-- libsrc/xdr.c, the filters of bytes: opaque data and counted bytes.
-- A buffer that a pointer refers to is the list of its bytes, NULL is `none`; a buffer that is read
-- or written must be as long as the count says, which C leaves to the caller.
pub mod Laws
pub mod Bytes
use oncrpc4_win.Common.{
  suc, not, ◌&&◌, ℕ, ◌+◌, ◌-◌, ◌%◌, ◌^◌, Bool, true, false, Option, none, some, List, [], ◌∷◌, ◌++◌,
  ltb, ◌==◌, if◌then◌else◌, length, take, drop, replicate, write_at,
}
use oncrpc4_win.Xdr.Stream.{XdrOp, encode, decode, free, XdrOps, Filter, and_put, and_get}
use oncrpc4_win.Xdr.Scalar.{xdr_u_int, xdr_enum}

-- The bytes that fill `cnt` up to a multiple of BYTES_PER_XDR_UNIT: `rndup`.
unfoldable pub rndup : ℕ → ℕ
rndup cnt = if cnt % 4 == 0 then 0 else 4 - cnt % 4

-- The padding is read into `crud`, after the data have reached `cp`.
abbrev pub skipped : {S A : Type 0} → List ℕ → Option A × S → Bool × List ℕ × S
skipped cp (none, s) = (false, cp, s)
skipped cp (some _, s) = (true, cp, s)

-- `if (rndup == 0) return TRUE; return XDR_GETBYTES(xdrs, crud, rndup);`
abbrev pub skip_pad : {S : Type 0} → XdrOps S → ℕ → List ℕ → S → Bool × List ℕ × S
skip_pad x n cp s = if n == 0 then (true, cp, s) else skipped cp (x.getbytes s n)

-- The data replace the first bytes at `cp`. Where this read fails, C leaves the bytes at `cp`
-- undetermined.
abbrev pub filled : {S : Type 0} → XdrOps S → ℕ → List ℕ → Option (List ℕ) × S → Bool × List ℕ × S
filled x n cp (none, s) = (false, cp, s)
filled x n cp (some bs, s) = skip_pad x n (write_at cp 0 bs) s

abbrev pub unless_zero : {S : Type 0} → ℕ → (S → Bool × S) → S → Bool × S
unless_zero n put s = if n == 0 then (true, s) else put s

-- A pointer to bytes and their count: `*cpp` and `*sizep`, and the fields of `struct netobj`.
pub record Counted : Type 0 where
  pub base : Option (List ℕ)
  pub len : ℕ

-- The bytes behind the pointer.
abbrev pub bytes_at : Option (List ℕ) → List ℕ
bytes_at none = []
bytes_at (some bs) = bs

-- After the opaque data are read: what was allocated here is freed if that failed. `mem_free` and
-- `*cpp = NULL` are one step: the allocator's own state is not modelled.
abbrev pub keep_or_free : {S : Type 0} → Bool → ℕ → Bool × List ℕ × S → Bool × Counted × S
keep_or_free allocated n (true, cp, s) = (true, record { base = some cp; len = n }, s)
keep_or_free allocated n (false, cp, s) =
    (false, record { base = if allocated then none else some cp; len = n }, s)

abbrev pub is_free : XdrOp → Bool
is_free free = true
is_free _ = false

module _ {S : Type 0} (x : XdrOps S) where
  -- `if (!XDR_PUTBYTES(xdrs, cp, cnt)) return FALSE;`, then the padding, out of `xdr_zero`.
  abbrev pub put_units : ℕ → List ℕ → S → Bool × S
  put_units cnt cp s =
      and_put (x.putbytes s (take cnt cp))
        (unless_zero (rndup cnt) (λ t. x.putbytes t (replicate (rndup cnt) 0)))

  unfoldable pub xdr_opaque : ℕ → Filter S (List ℕ)
  xdr_opaque cnt encode cp s =
      if cnt == 0 then (true, cp, s) else let (r, s') = put_units cnt cp s in (r, cp, s')
  xdr_opaque cnt decode cp s =
      if cnt == 0 then (true, cp, s) else filled x (rndup cnt) cp (x.getbytes s cnt)
  xdr_opaque cnt free cp s = (true, cp, s)

  -- `mem_alloc n` returns NULL, or a buffer of `n` bytes.
  module _ (mem_alloc : ℕ → Option (List ℕ)) where
    abbrev pub read_into : Bool → ℕ → Option (List ℕ) → S → Bool × Counted × S
    read_into allocated n none s = (false, record { base = none; len = n }, s)
    read_into allocated n (some cp) s = keep_or_free allocated n (xdr_opaque n decode cp s)

    abbrev pub fill_base : ℕ → Option (List ℕ) → S → Bool × Counted × S
    fill_base n none s = read_into true n (mem_alloc n) s
    fill_base n (some cp) s = read_into false n (some cp) s

    -- The switch of `xdr_bytes`, once the count is known.
    abbrev pub counted_bytes : XdrOp → Option (List ℕ) → ℕ → S → Bool × Counted × S
    counted_bytes encode base n s =
        let (r, cp, s') = xdr_opaque n encode (bytes_at base) s in
        (r, record { base = base; len = n }, s')
    counted_bytes decode base n s =
        if n == 0 then (true, record { base = base; len = n }, s) else fill_base n base s
    counted_bytes free base n s = (true, record { base = none; len = n }, s)

    abbrev pub sized : ℕ → XdrOp → Option (List ℕ) → Bool × ℕ × S → Bool × Counted × S
    sized maxsize op base (false, n, s) = (false, record { base = base; len = n }, s)
    sized maxsize op base (true, n, s) =
        if ltb maxsize n && not (is_free op)
        then (false, record { base = base; len = n }, s)
        else counted_bytes op base n s

    unfoldable pub xdr_bytes : ℕ → Filter S Counted
    unfolding xdr_u_int xdr_opaque
    xdr_bytes maxsize op v s = sized maxsize op v.base (xdr_u_int x op v.len s)

    -- MAX_NETOBJ_SZ.
    unfoldable pub xdr_netobj : Filter S Counted
    unfolding xdr_bytes
    xdr_netobj = xdr_bytes 1024
