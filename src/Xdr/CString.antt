-- ===== src/Xdr/CString.antt =====
-- libsrc/xdr.c, the filter of null-terminated strings: `xdr_string` and `xdr_wrapstring`. A `char *`
-- is NULL, `none`, or the bytes from it to the end of its buffer, the terminator among them.
pub mod Laws
use oncrpc4_win.Common.{
  suc, not, ◌&&◌, ℕ, ◌+◌, ◌-◌, ◌%◌, ◌^◌, Bool, true, false, Option, none, some, List, [], ◌∷◌, ◌++◌,
  ltb, ◌==◌, if◌then◌else◌, length, take, drop, replicate, write_at,
}
use oncrpc4_win.Xdr.Stream.{XdrOp, encode, decode, free, XdrOps, Filter, and_put, and_get}
use oncrpc4_win.Xdr.Scalar.{xdr_u_int, xdr_enum}
use oncrpc4_win.Xdr.Opaque.{xdr_opaque, bytes_at}

-- `strlen`.
unfoldable pub strlen : List ℕ → ℕ
strlen [] = 0
strlen (c ∷ cs) = if c == 0 then 0 else suc (strlen cs)

abbrev pub keep_or_free_string :
    {S : Type 0} → Bool → Bool × List ℕ × S → Bool × Option (List ℕ) × S
keep_or_free_string allocated (true, cp, s) = (true, some cp, s)
keep_or_free_string allocated (false, cp, s) = (false, if allocated then none else some cp, s)

module _ {S : Type 0} (x : XdrOps S) (mem_alloc : ℕ → Option (List ℕ)) where
  -- `sp[size] = 0`, and the `size` bytes before it.
  abbrev pub read_string : Bool → ℕ → Option (List ℕ) → S → Bool × Option (List ℕ) × S
  read_string allocated size none s = (false, none, s)
  read_string allocated size (some sp) s =
      keep_or_free_string allocated (xdr_opaque x size decode (write_at sp size (0 ∷ [])) s)

  abbrev pub fill_string : ℕ → Option (List ℕ) → S → Bool × Option (List ℕ) × S
  fill_string size none s = read_string true size (mem_alloc ((size + 1) % 2 ^ 32)) s
  fill_string size (some sp) s = read_string false size (some sp) s

  -- The switch of `xdr_string`, once the size is known; `nodesize = size + 1` may wrap to 0.
  abbrev pub string_bytes : XdrOp → Option (List ℕ) → ℕ → S → Bool × Option (List ℕ) × S
  string_bytes encode base size s =
      let (r, cp, s') = xdr_opaque x size encode (bytes_at base) s in (r, base, s')
  string_bytes decode base size s =
      if (size + 1) % 2 ^ 32 == 0 then (true, base, s) else fill_string size base s
  string_bytes free base size s = (true, none, s)

  abbrev pub sized_string : ℕ → XdrOp → Option (List ℕ) → Bool × ℕ × S → Bool × Option (List ℕ) × S
  sized_string maxsize op base (false, size, s) = (false, base, s)
  sized_string maxsize op base (true, size, s) =
      if ltb maxsize size then (false, base, s) else string_bytes op base size s

  unfoldable pub xdr_string : ℕ → Filter S (Option (List ℕ))
  xdr_string maxsize free none s = (true, none, s)
  xdr_string maxsize free (some sp) s =
      sized_string maxsize free (some sp) (xdr_u_int x free (strlen sp % 2 ^ 32) s)
  xdr_string maxsize encode base s =
      sized_string maxsize encode base (xdr_u_int x encode (strlen (bytes_at base) % 2 ^ 32) s)
  xdr_string maxsize decode base s = sized_string maxsize decode base (xdr_u_int x decode 0 s)

  -- RPC_MAXDATASIZE.
  unfoldable pub xdr_wrapstring : Filter S (Option (List ℕ))
  unfolding xdr_string
  xdr_wrapstring = xdr_string 9000
