-- ===== src/Xdr/Sizeof/Laws.antt =====
-- `xdr_sizeof` returns the number of bytes that the filter writes.
use oncrpc4_win.Common.{
  ℕ, ◌+◌, ◌%◌, ◌^◌, ◌≡◌, refl, ◌∙◌, true, Option, none, List, ◌++◌, length, arith, length-append,
}
use oncrpc4_win.Common.Words.{be32}
use oncrpc4_win.Xdr.Stream.{XdrOps, XdrLaws, Filter}
use oncrpc4_win.Xdr.Codec.{Encodes}
use oncrpc4_win.Xdr.Sizeof.{SizeStream, size_ops, xdr_sizeof}

abbrev pub start : SizeStream
start = record { handy = 0; private = none; base = 0 }

module _ (mem_alloc : ℕ → Option (List ℕ)) where
  from_zero : (n : ℕ) → (0 % 2 ^ 32 + n) % 2 ^ 32 ≡ n % 2 ^ 32
  from_zero n = omega arith

  append-append_mod :
      (o : ℕ) (bs cs : List ℕ)
      → ((o + length bs) % 2 ^ 32 + length cs) % 2 ^ 32 ≡ (o + length (bs ++ cs)) % 2 ^ 32
  append-append_mod o bs cs = omega (arith, length-append bs cs)

  size_putlong_lem :
      (s : SizeStream) (v n : ℕ)
      → Unit {0}
      → ((size_ops mem_alloc).putlong s v).0 ≡ true
        × (((size_ops mem_alloc).putlong s v).1.handy % 2 ^ 32
            ≡ (s.handy % 2 ^ 32 + length (be32 v)) % 2 ^ 32)
        × Unit {0}
  unfolding size_ops be32
  size_putlong_lem s v n h = (refl, omega arith, tt)

  size_putbytes_lem :
      (s : SizeStream) (bs : List ℕ) (n : ℕ)
      → Unit {0}
      → ((size_ops mem_alloc).putbytes s bs).0 ≡ true
        × (((size_ops mem_alloc).putbytes s bs).1.handy % 2 ^ 32
            ≡ (s.handy % 2 ^ 32 + length bs) % 2 ^ 32)
        × Unit {0}
  unfolding size_ops
  size_putbytes_lem s bs n h = (refl, omega arith, tt)

  -- All writes fit; what is kept of them is their number, modulo 2^32. There is no input.
  unfoldable pub size_laws : XdrLaws (size_ops mem_alloc)
  unfolding append-append_mod size_putlong_lem size_putbytes_lem
  size_laws = record {
    Room = λ s n. Unit {0};
    Sink = ℕ;
    append = λ o bs. (o + length bs) % 2 ^ 32;
    output = λ s. s.handy % 2 ^ 32;
    Input = λ s bs. ⊥;
    append-nil = λ s. omega arith;
    append-append = append-append_mod;
    putlong_lem = size_putlong_lem;
    putbytes_lem = size_putbytes_lem;
    getlong_lem = λ s v rest hv h. absurd h;
    getbytes_lem = λ s bs rest h. absurd h;
  }

  -- `x.x_handy` of a filter that has succeeded.
  xdr_sizeof_wire :
      {A : Type 0} (func : XdrOps SizeStream → Filter SizeStream A) (v : A) (bs : List ℕ)
      → Encodes size_laws (func (size_ops mem_alloc)) v bs
      → xdr_sizeof mem_alloc func v % 2 ^ 32 ≡ length bs % 2 ^ 32
  unfolding xdr_sizeof size_laws
  xdr_sizeof_wire func v bs h =
      let (ok, keep, out, room) = h start 0 tt in rw ok (out ∙ from_zero (length bs))
