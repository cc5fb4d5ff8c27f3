-- ===== src/Xdr/Array.antt =====
-- libsrc/xdr_array.c: counted and fixed-length arrays. An array in memory is the list of its
-- elements.
pub mod Laws
pub mod Decode
use oncrpc4_win.Common.{
  ℕ, zero, suc, ◌+◌, ◌-◌, ◌*◌, ◌/◌, ◌%◌, ◌^◌, Bool, true, false, Option, none, some, List, [], ◌∷◌,
  ltb, ◌==◌, ◌&&◌, ◌||◌, not, if◌then◌else◌, replicate,
}
use oncrpc4_win.Xdr.Stream.{XdrOp, encode, decode, free, XdrOps, Filter}
use oncrpc4_win.Xdr.Scalar.{xdr_u_int}

-- `*addrp` and `*sizep`.
pub record CountedArray (A : Type 0) : Type 0 where
  pub base : Option (List A)
  pub count : ℕ

-- After one element, the rest of the loop, unless the element failed.
abbrev pub then_rest :
    {S A : Type 0} → (S → Bool × List A × S) → List A → Bool × A × S → Bool × List A × S
then_rest rest later (false, a, s) = (false, a ∷ later, s)
then_rest rest later (true, a, s) = let (r, later', s') = rest s in (r, a ∷ later', s')

-- `for (i = 0; (i < c) && stat; i++) stat = (*elproc)(xdrs, target)`, from the element at which
-- `target` points. Running off the end of the array is left to the caller.
unfoldable pub elements : {S A : Type 0} → Filter S A → ℕ → XdrOp → List A → S → Bool × List A × S
elements elproc zero op target s = (true, target, s)
elements elproc (suc c) op [] s = (true, [], s)
elements elproc (suc c) op (a ∷ target) s =
    then_rest (elements elproc c op target) target (elproc op a s)

abbrev pub is_free : XdrOp → Bool
is_free free = true
is_free _ = false

abbrev pub same_array : {S A : Type 0} → ℕ → Bool × List A × S → Bool × CountedArray A × S
same_array c (r, elems, s) = (r, record { base = some elems; count = c }, s)

-- `mem_free(*addrp, nodesize); *addrp = NULL;`
abbrev pub freed_array : {S A : Type 0} → ℕ → Bool × List A × S → Bool × CountedArray A × S
freed_array c (r, elems, s) = (r, record { base = none; count = c }, s)

module _ {S A : Type 0} (x : XdrOps S) where
  -- `mem_alloc n` says whether it returns a buffer; `blank` is the element that `memset` leaves.
  module _ (mem_alloc : ℕ → Bool) (blank : A) (elsize : ℕ) (elproc : Filter S A) where
    -- What is done once the count is known and accepted.
    abbrev pub array_body : XdrOp → Option (List A) → ℕ → S → Bool × CountedArray A × S
    array_body decode none c s =
        if c == 0
        then (true, record { base = none; count = c }, s)
        else if mem_alloc (c * elsize % 2 ^ 32)
        then same_array c (elements elproc c decode (replicate c blank) s)
        else (false, record { base = none; count = c }, s)
    array_body free none c s = (true, record { base = none; count = c }, s)
    array_body encode none c s =
        let (r, _, s') = elements elproc c encode [] s in (r, record { base = none; count = c }, s')
    array_body free (some elems) c s = freed_array c (elements elproc c free elems s)
    array_body op (some elems) c s = same_array c (elements elproc c op elems s)

    -- `(c > maxsize || UINT_MAX / elsize < c) && xdrs->x_op != XDR_FREE`.
    abbrev pub array_sized : ℕ → XdrOp → Option (List A) → Bool × ℕ × S → Bool × CountedArray A × S
    array_sized maxsize op base (false, c, s) = (false, record { base = base; count = c }, s)
    array_sized maxsize op base (true, c, s) =
        if (ltb maxsize c || ltb ((2 ^ 32 - 1) / elsize) c) && not (is_free op)
        then (false, record { base = base; count = c }, s)
        else array_body op base c s

    unfoldable pub xdr_array : ℕ → Filter S (CountedArray A)
    xdr_array maxsize op v s = array_sized maxsize op v.base (xdr_u_int x op v.count s)

-- `xdr_vector` has a loop of its own that returns at the first failure, which is the same loop.
unfoldable pub xdr_vector : {S A : Type 0} → ℕ → Filter S A → Filter S (List A)
xdr_vector nelem xdr_elem op elems s = elements xdr_elem nelem op elems s
