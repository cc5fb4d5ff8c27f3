-- ===== src/Xdr/Kept.antt =====
-- `xdr_opaque` and `xdr_bytes` keep every invariant that the stream's operations keep: for each of
-- the three operations, on success and on failure.
use oncrpc4_win.Common.{
  ℕ, Bool, true, false, Option, none, some, List, ◌==◌, ltb, if◌then◌else◌, take, replicate,
  Bool-cases, inl, inr, not, ◌&&◌,
}
use oncrpc4_win.Xdr.Stream.{XdrOp, encode, decode, free, XdrOps, IsKept, and_put}
use oncrpc4_win.Xdr.Codec.{Keeps}
use oncrpc4_win.Xdr.Scalar.{xdr_u_int}
use oncrpc4_win.Xdr.Scalar.Kept.{xdr_u_int-Keeps}
use oncrpc4_win.Xdr.Opaque.{
  rndup, unless_zero, skipped, filled, put_units, xdr_opaque, keep_or_free, read_into, fill_base,
  counted_bytes, sized, is_free, xdr_bytes,
}

-- A branch on a test keeps what both sides keep.
module _ {S B : Type 0} (P : S → Type 0) where
  if-keeps : (t : Bool) (u v : Bool × B × S) → P u.2 → P v.2 → P (if t then u else v).2
  if-keeps true u v p q = p
  if-keeps false u v p q = q

module _ {S : Type 0} {x : XdrOps S} {P : S → Type 0} (k : IsKept x P) where
  and_put-keeps :
      (r : Bool × S) (f : S → Bool × S) → P r.1 → ((s : S) → P s → P (f s).1) → P (and_put r f).1
  and_put-keeps (false, s) f p h = p
  and_put-keeps (true, s) f p h = h s p

  unless_zero-keeps :
      (n : ℕ) (f : S → Bool × S) (s : S)
      → P s
      → ((s : S) → P s → P (f s).1)
      → P (unless_zero n f s).1
  unless_zero-keeps n f s p h = elim (Bool-cases (n == 0)) [ inl z ↦ rw z p | inr z ↦ rw z (h s p) ]

  put_units-keeps : (cnt : ℕ) (cp : List ℕ) (s : S) → P s → P (put_units x cnt cp s).1
  put_units-keeps cnt cp s p =
      and_put-keeps (x.putbytes s (take cnt cp)) _ (k.putbytes_kept s (take cnt cp) p) (λ t q.
        unless_zero-keeps (rndup cnt) (λ t. x.putbytes t (replicate (rndup cnt) 0)) t q
          (λ u q'. k.putbytes_kept u (replicate (rndup cnt) 0) q'))

  skipped-keeps : {A : Type 0} (cp : List ℕ) (r : Option A × S) → P r.1 → P (skipped cp r).2
  skipped-keeps cp (none, s) p = p
  skipped-keeps cp (some _, s) p = p

  filled-keeps : (n : ℕ) (cp : List ℕ) (r : Option (List ℕ) × S) → P r.1 → P (filled x n cp r).2
  filled-keeps n cp (none, s) p = p
  filled-keeps n cp (some bs, s) p =
      if-keeps P (n == 0) _ _ p (skipped-keeps _ (x.getbytes s n) (k.getbytes_kept s n p))

  pub xdr_opaque-Keeps : (cnt : ℕ) → Keeps P (xdr_opaque x cnt)
  unfolding xdr_opaque
  xdr_opaque-Keeps cnt encode cp s p = if-keeps P (cnt == 0) _ _ p (put_units-keeps cnt cp s p)
  xdr_opaque-Keeps cnt decode cp s p =
      if-keeps P (cnt == 0) _ _ p
        (filled-keeps (rndup cnt) cp (x.getbytes s cnt) (k.getbytes_kept s cnt p))
  xdr_opaque-Keeps cnt free cp s p = p

  module _ (mem_alloc : ℕ → Option (List ℕ)) where
    keep_or_free-keeps :
        (a : Bool) (n : ℕ) (r : Bool × List ℕ × S) → P r.2 → P (keep_or_free a n r).2
    keep_or_free-keeps a n (false, cp, s) p = p
    keep_or_free-keeps a n (true, cp, s) p = p

    read_into-keeps :
        (a : Bool) (n : ℕ) (o : Option (List ℕ)) (s : S) → P s → P (read_into x mem_alloc a n o s).2
    read_into-keeps a n none s p = p
    read_into-keeps a n (some cp) s p =
        keep_or_free-keeps a n (xdr_opaque x n decode cp s) (xdr_opaque-Keeps n decode cp s p)

    fill_base-keeps :
        (n : ℕ) (o : Option (List ℕ)) (s : S) → P s → P (fill_base x mem_alloc n o s).2
    fill_base-keeps n none s p = read_into-keeps true n (mem_alloc n) s p
    fill_base-keeps n (some cp) s p = read_into-keeps false n (some cp) s p

    counted_bytes-keeps :
        (op : XdrOp) (o : Option (List ℕ)) (n : ℕ) (s : S)
        → P s
        → P (counted_bytes x mem_alloc op o n s).2
    counted_bytes-keeps encode o n s p = xdr_opaque-Keeps n encode _ s p
    counted_bytes-keeps decode o n s p = if-keeps P (n == 0) _ _ p (fill_base-keeps n o s p)
    counted_bytes-keeps free o n s p = p

    sized-keeps :
        (maxsize : ℕ) (op : XdrOp) (o : Option (List ℕ)) (r : Bool × ℕ × S)
        → P r.2
        → P (sized x mem_alloc maxsize op o r).2
    sized-keeps maxsize op o (false, n, s) p = p
    sized-keeps maxsize op o (true, n, s) p =
        if-keeps P (ltb maxsize n && not (is_free op)) _ _ p (counted_bytes-keeps op o n s p)

    pub xdr_bytes-Keeps : (maxsize : ℕ) → Keeps P (xdr_bytes x mem_alloc maxsize)
    unfolding xdr_bytes
    xdr_bytes-Keeps maxsize op v s p =
        sized-keeps maxsize op v.base (xdr_u_int x op v.len s) (xdr_u_int-Keeps k op v.len s p)
