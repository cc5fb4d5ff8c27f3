-- ===== src/Xdr/Opaque/Laws.antt =====
-- The bytes of `xdr_opaque` and `xdr_bytes`, over every lawful stream.
use mathlib.Core.Path.{subst}
use native.Mathlib.Nat.{zero-add}
use oncrpc4_win.Common.{
  ℕ, zero, suc, ◌+◌, ◌%◌, ◌<◌, ◌≤◌, ◌≡◌, refl, sym, ap, ◌∙◌, Option, none, some, List, [], ◌∷◌,
  ◌++◌, length, arith, append_assoc, length-append, length-take, length-replicate, take, replicate,
  write_at, ==_false,
}
use oncrpc4_win.Xdr.Stream.{XdrOps, XdrLaws, Wrote, Took}
use oncrpc4_win.Xdr.Codec.{Decoded, Encodes, Decodes, and_put-Wrote}
use oncrpc4_win.Xdr.Opaque.{rndup, unless_zero, put_units, skip_pad, skipped, filled, xdr_opaque}

-- `cnt` bytes, rounded up, fill whole units: the result is a multiple of four, less than four above.
pub rndup_lem : (cnt : ℕ) → ((cnt + rndup cnt) % 4 ≡ 0) × (rndup cnt < 4)
unfolding rndup
rndup_lem cnt = ground arith

-- The first `cnt` bytes of a buffer, and zeros up to a multiple of four.
unfoldable pub units : ℕ → List ℕ → List ℕ
units cnt cp = take cnt cp ++ replicate (rndup cnt) 0

pub length-units :
    (cnt : ℕ) (cp : List ℕ) → cnt ≤ length cp → length (units cnt cp) ≡ cnt + rndup cnt
unfolding units
length-units cnt cp h = omega (
  arith,
  length-append (take cnt cp) (replicate (rndup cnt) 0),
  length-take cnt cp h,
  length-replicate {A = ℕ} (rndup cnt) 0,
)

module _ {S : Type 0} {x : XdrOps S} (laws : XdrLaws x) where
  put_pad :
      (s : S) (k n : ℕ)
      → laws.Room s (k + n)
      → Wrote laws.Room laws.append laws.output s
          (replicate k 0)
          n
          (unless_zero k (λ t. x.putbytes t (replicate k 0)) s)
  put_pad s zero n room = (refl, sym (laws.append-nil s), rw zero-add at room)
  put_pad s (suc k) n room = rw (==_false (suc k) 0 (omega arith)) (
      laws.putbytes_lem s (replicate (suc k) 0) n
        (subst (laws.Room s) (omega (arith, length-replicate {A = ℕ} (suc k) 0)) room))

  put_units_lem :
      (cnt : ℕ) (cp : List ℕ) (s : S) (n : ℕ)
      → cnt ≤ length cp
      → laws.Room s (length (units cnt cp) + n)
      → Wrote laws.Room laws.append laws.output s (units cnt cp) n (put_units x cnt cp s)
  unfolding units
  put_units_lem cnt cp s n h room =
      and_put-Wrote laws s (take cnt cp) (replicate (rndup cnt) 0) n (x.putbytes s (take cnt cp)) _
        (laws.putbytes_lem s (take cnt cp) (length (replicate (rndup cnt) 0) + n) (
          subst (laws.Room s) (omega (arith, length-append (take cnt cp) (replicate (rndup cnt) 0)))
            room))
        (λ s' room'.
          put_pad s' (rndup cnt) n (rw (length-replicate {A = ℕ} (rndup cnt) 0) at room'))

  -- The bytes at `cp`, and zeros up to a whole unit.
  pub xdr_opaque-Encodes :
      (cnt : ℕ) (cp : List ℕ) → cnt ≤ length cp → Encodes laws (xdr_opaque x cnt) cp (units cnt cp)
  unfolding xdr_opaque
  xdr_opaque-Encodes zero cp h s n room =
      unfold units rndup in (refl, refl, sym (laws.append-nil s), rw zero-add at room)
  xdr_opaque-Encodes (suc c) cp h s n room =
      let (ok, out, left) = put_units_lem (suc c) cp s n h room in
      rw (==_false (suc c) 0 (omega arith)) (ok, refl, out, left)

  skipped-Decoded :
      (cp pad rest : List ℕ) (r : Option (List ℕ) × S)
      → Took laws.Input pad rest r
      → Decoded laws cp rest (skipped cp r)
  skipped-Decoded cp pad rest (none, s) (ok, left) = cc
  skipped-Decoded cp pad rest (some bs, s) (ok, left) = (refl, refl, left)

  skip_pad-Decoded :
      (k : ℕ) (cp pad rest : List ℕ) (s : S)
      → length pad ≡ k
      → laws.Input s (pad ++ rest)
      → Decoded laws cp rest (skip_pad x k cp s)
  skip_pad-Decoded zero cp [] rest s e input = (refl, refl, input)
  skip_pad-Decoded zero cp (b ∷ pad) rest s e input = absurd (omega arith)
  skip_pad-Decoded (suc k) cp pad rest s e input =
      rw (==_false (suc k) 0 (omega arith), ← e)
        (skipped-Decoded cp pad rest (x.getbytes s (length pad))
          (laws.getbytes_lem s pad rest input))

  filled-Decoded :
      (k : ℕ) (old bs pad rest : List ℕ) (r : Option (List ℕ) × S)
      → length pad ≡ k
      → Took laws.Input bs (pad ++ rest) r
      → Decoded laws (write_at old 0 bs) rest (filled x k old r)
  filled-Decoded k old bs pad rest (none, s) e (ok, left) = cc
  filled-Decoded k old bs pad rest (some got, s) e (ok, left) =
      let same : got ≡ bs = cc in rw same (skip_pad-Decoded k (write_at old 0 bs) pad rest s e left)

  -- The data replace the front of the buffer; the padding may be anything.
  pub xdr_opaque-Decodes :
      (cnt : ℕ) (old bs pad : List ℕ)
      → length bs ≡ cnt
      → length pad ≡ rndup cnt
      → Decodes laws (xdr_opaque x cnt) old (write_at old 0 bs) (bs ++ pad)
  unfolding xdr_opaque
  xdr_opaque-Decodes zero old [] [] eb ep s rest input = (refl, refl, input)
  xdr_opaque-Decodes zero old [] (p ∷ pad) eb ep s rest input = absurd (unfold rndup in omega arith)
  xdr_opaque-Decodes zero old (b ∷ bs) pad eb ep s rest input = absurd (omega arith)
  xdr_opaque-Decodes (suc c) old bs pad eb ep s rest input =
      rw (==_false (suc c) 0 (omega arith), ← eb)
        (filled-Decoded (rndup (length bs)) old bs pad rest (x.getbytes s (length bs))
          (ep ∙ ap rndup (sym eb))
          (laws.getbytes_lem s bs (pad ++ rest) (rw append_assoc at input)))
