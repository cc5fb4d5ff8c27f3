-- ===== src/Xdr/Opaque/Bytes.antt =====
-- `xdr_bytes`: the bytes that it sends, and what it makes of them with a buffer, with a new one, and
-- without memory for one.
use mathlib.Core.Path.{subst}
use oncrpc4_win.Common.{
  ℕ, zero, suc, ◌+◌, ◌-◌, ◌<◌, ◌≤◌, ◌≡◌, refl, ap, ◌∙◌, Bool, true, false, Option, none, some, List,
  [], ◌∷◌, ◌++◌, length, arith, append_assoc, append-nil, length-append, write_at, ltb-false,
  ==_false, drop_all,
}
use oncrpc4_win.Common.Words.{IsU32, be32}
use oncrpc4_win.Xdr.Stream.{encode, decode, XdrOps, XdrLaws}
use oncrpc4_win.Xdr.Codec.{Encoded, Decoded, Encodes, Decodes}
use oncrpc4_win.Xdr.Scalar.{xdr_u_int}
use oncrpc4_win.Xdr.Scalar.Laws.{xdr_u_int-Encodes, xdr_u_int-Decodes}
use oncrpc4_win.Xdr.Opaque.{rndup, xdr_opaque, Counted, xdr_bytes, keep_or_free, read_into, sized}
use oncrpc4_win.Xdr.Opaque.Laws.{units, xdr_opaque-Encodes, xdr_opaque-Decodes}

abbrev pub counted : Option (List ℕ) → ℕ → Counted
counted base n = record { base = base; len = n }

module _ {S : Type 0} {x : XdrOps S} (laws : XdrLaws x) (mem_alloc : ℕ → Option (List ℕ)) where
  sized-Encoded :
      (maxsize n : ℕ) (cp : List ℕ) (s : S) (k : ℕ)
      → n ≤ maxsize
      → n ≤ length cp
      → (r : Bool × ℕ × S) → Encoded laws n (be32 n) s (length (units n cp) + k) r
      → Encoded laws
          (counted (some cp) n)
          (be32 n ++ units n cp)
          s
          k
          (sized x mem_alloc maxsize encode (some cp) r)
  sized-Encoded maxsize n cp s k hm hl (false, n', s') (ok, keep, out, room) = cc
  sized-Encoded maxsize n cp s k hm hl (true, n', s') (ok, keep, out, room) =
      let (ok', keep', out', room') = xdr_opaque-Encodes laws n cp hl s' k room in
      rw (keep, ltb-false maxsize n hm)
        (ok', refl, out' ∙ rw out (laws.append-append (laws.output s) (be32 n) (units n cp)), room')

  -- The count, then the bytes and zeros up to a whole unit.
  pub xdr_bytes-Encodes :
      (maxsize n : ℕ) (cp : List ℕ)
      → n ≤ maxsize
      → n ≤ length cp
      → Encodes laws (xdr_bytes x mem_alloc maxsize) (counted (some cp) n) (be32 n ++ units n cp)
  unfolding xdr_bytes
  xdr_bytes-Encodes maxsize n cp hm hl s k room =
      sized-Encoded maxsize n cp s k hm hl (xdr_u_int x encode n s) (
        xdr_u_int-Encodes laws n s (length (units n cp) + k)
          (subst (laws.Room s) (omega (arith, length-append (be32 n) (units n cp))) room))

  keep_or_free-Decoded :
      (allocated : Bool) (n : ℕ) (got rest : List ℕ) (r : Bool × List ℕ × S)
      → Decoded laws got rest r
      → Decoded laws (counted (some got) n) rest (keep_or_free allocated n r)
  keep_or_free-Decoded allocated n got rest (false, cp, s) (ok, same, left) = cc
  keep_or_free-Decoded allocated n got rest (true, cp, s) (ok, same, left) = (refl, rw same, left)

  read_into-Decoded :
      (allocated : Bool) (n : ℕ) (old bs pad rest : List ℕ) (s : S)
      → length bs ≡ n
      → length pad ≡ rndup n
      → laws.Input s ((bs ++ pad) ++ rest)
      → Decoded laws
          (counted (some (write_at old 0 bs)) n)
          rest
          (read_into x mem_alloc allocated n (some old) s)
  read_into-Decoded allocated n old bs pad rest s eb ep input =
      keep_or_free-Decoded allocated n (write_at old 0 bs) rest (xdr_opaque x n decode old s)
        (xdr_opaque-Decodes laws n old bs pad eb ep s rest input)

  sized-Decoded_new :
      (maxsize n c : ℕ) (fresh bs pad rest : List ℕ)
      → suc c ≡ n
      → n ≤ maxsize
      → mem_alloc n ≡ some fresh
      → length bs ≡ n
      → length pad ≡ rndup n
      → (r : Bool × ℕ × S) → Decoded laws n ((bs ++ pad) ++ rest) r
      → Decoded laws
          (counted (some (write_at fresh 0 bs)) n)
          rest
          (sized x mem_alloc maxsize decode none r)
  sized-Decoded_new maxsize n c fresh bs pad rest en hm ea eb ep (false, n', s') (ok, got, left) =
      cc
  sized-Decoded_new maxsize n c fresh bs pad rest en hm ea eb ep (true, n', s') (ok, got, left) =
      rw (got, ltb-false maxsize n hm, ==_false n 0 (omega arith), ea)
        (read_into-Decoded true n fresh bs pad rest s' eb ep left)

  -- Into a null pointer: a buffer is allocated, and holds the data where it was as long as asked.
  pub xdr_bytes-Decodes_new :
      (maxsize n old_len : ℕ) (fresh bs pad : List ℕ)
      → IsU32 n
      → 0 < n
      → n ≤ maxsize
      → mem_alloc n ≡ some fresh
      → length fresh ≡ n
      → length bs ≡ n
      → length pad ≡ rndup n
      → Decodes laws
          (xdr_bytes x mem_alloc maxsize)
          (counted none old_len)
          (counted (some bs) n)
          (be32 n ++ (bs ++ pad))
  unfolding xdr_bytes
  xdr_bytes-Decodes_new maxsize n old_len fresh bs pad hu hp hm ea ef eb ep s rest input =
      let whole : write_at fresh 0 bs ≡ bs =
        ap (λ t. bs ++ t) (drop_all (0 + length bs) fresh (omega arith)) ∙ append-nil bs in
      subst
        (λ w.
          Decoded laws (counted (some w) n) rest
            (sized x mem_alloc maxsize decode none (xdr_u_int x decode old_len s)))
        whole
        (sized-Decoded_new maxsize n (n - 1) fresh bs pad rest (omega arith) hm ea eb ep
          (xdr_u_int x decode old_len s)
          (xdr_u_int-Decodes laws old_len n hu s ((bs ++ pad) ++ rest) (rw append_assoc at input)))

  sized-Decoded_into :
      (maxsize n : ℕ) (old bs pad rest : List ℕ)
      → n ≤ maxsize
      → length bs ≡ n
      → length pad ≡ rndup n
      → (r : Bool × ℕ × S) → Decoded laws n ((bs ++ pad) ++ rest) r
      → Decoded laws
          (counted (some (write_at old 0 bs)) n)
          rest
          (sized x mem_alloc maxsize decode (some old) r)
  sized-Decoded_into maxsize n old bs pad rest hm eb ep (false, n', s') (ok, got, left) = cc
  sized-Decoded_into maxsize zero old [] [] rest hm eb ep (true, n', s') (ok, got, left) =
      rw (got, ltb-false maxsize 0 hm) (refl, refl, left)
  sized-Decoded_into maxsize zero old (b ∷ bs) pad rest hm eb ep (true, n', s') (ok, got, left) =
      absurd (omega arith)
  sized-Decoded_into maxsize zero old [] (p ∷ pad) rest hm eb ep (true, n', s') (ok, got, left) =
      absurd (unfold rndup in omega arith)
  sized-Decoded_into maxsize (suc c) old bs pad rest hm eb ep (true, n', s') (ok, got, left) =
      rw (got, ltb-false maxsize (suc c) hm, ==_false (suc c) 0 (omega arith))
        (read_into-Decoded false (suc c) old bs pad rest s' eb ep left)

  -- Into a buffer: its first bytes are replaced, and what stands behind them stays.
  pub xdr_bytes-Decodes_into :
      (maxsize n old_len : ℕ) (old bs pad : List ℕ)
      → IsU32 n
      → n ≤ maxsize
      → length bs ≡ n
      → length pad ≡ rndup n
      → Decodes laws
          (xdr_bytes x mem_alloc maxsize)
          (counted (some old) old_len)
          (counted (some (write_at old 0 bs)) n)
          (be32 n ++ (bs ++ pad))
  unfolding xdr_bytes
  xdr_bytes-Decodes_into maxsize n old_len old bs pad hu hm eb ep s rest input =
      sized-Decoded_into maxsize n old bs pad rest hm eb ep (xdr_u_int x decode old_len s)
        (xdr_u_int-Decodes laws old_len n hu s ((bs ++ pad) ++ rest) (rw append_assoc at input))

  sized-Decoded-none :
      (maxsize : ℕ) (rest : List ℕ) (r : Bool × ℕ × S)
      → Decoded laws 0 rest r
      → Decoded laws (counted none 0) rest (sized x mem_alloc maxsize decode none r)
  sized-Decoded-none maxsize rest (false, n', s') (ok, got, left) = cc
  sized-Decoded-none maxsize rest (true, n', s') (ok, got, left) =
      rw (got, ltb-false maxsize 0 (omega arith)) (refl, refl, left)

  -- No bytes, into a null pointer: it stays null.
  pub xdr_bytes-Decodes-none :
      (maxsize old_len : ℕ)
      → Decodes laws
          (xdr_bytes x mem_alloc maxsize)
          (counted none old_len)
          (counted none 0)
          (be32 0 ++ [])
  unfolding xdr_bytes
  xdr_bytes-Decodes-none maxsize old_len s rest input =
      sized-Decoded-none maxsize rest (xdr_u_int x decode old_len s)
        (xdr_u_int-Decodes laws old_len 0 (omega arith) s rest (rw append-nil at input))
