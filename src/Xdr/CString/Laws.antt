-- ===== src/Xdr/CString/Laws.antt =====
-- `xdr_string`: the bytes of a C string, and the string that comes back from them.
use mathlib.Core.Path.{subst}
use oncrpc4_win.Common.{
  ℕ, suc, ◌+◌, ◌-◌, ◌%◌, ◌^◌, ◌<◌, ◌≤◌, ◌≡◌, ◌≢◌, refl, ap, ◌∙◌, Bool, true, false, Option, none,
  some, List, [], ◌∷◌, ◌++◌, length, arith, append_assoc, length-append, length-take, take,
  write_at, ltb-false, ==_false, drop_all, take-append, drop-append_length, All,
}
use oncrpc4_win.Common.Words.{IsU32, be32}
use oncrpc4_win.Xdr.Stream.{encode, decode, XdrOps, XdrLaws}
use oncrpc4_win.Xdr.Codec.{Encoded, Decoded, Encodes, Decodes}
use oncrpc4_win.Xdr.Scalar.{xdr_u_int}
use oncrpc4_win.Xdr.Scalar.Laws.{xdr_u_int-Encodes, xdr_u_int-Decodes}
use oncrpc4_win.Xdr.Opaque.{rndup, xdr_opaque}
use oncrpc4_win.Xdr.Opaque.Laws.{units, xdr_opaque-Encodes, xdr_opaque-Decodes}
use oncrpc4_win.Xdr.CString.{strlen, keep_or_free_string, sized_string, xdr_string}

-- A string's characters: bytes other than the terminator.
abbrev pub NoNul : List ℕ → Type 0
NoNul = All (λ c. c ≢ 0)

-- The terminator ends the string, whatever stands behind it.
pub strlen-terminated : (cs tail : List ℕ) → NoNul cs → strlen (cs ++ 0 ∷ tail) ≡ length cs
unfolding strlen
strlen-terminated [] tail h = refl
strlen-terminated (c ∷ cs) tail h = rw (==_false c 0 h.0) (ap suc (strlen-terminated cs tail h.1))

units-string : (cs tail : List ℕ) → units (length cs) (cs ++ tail) ≡ units (length cs) cs
unfolding units
units-string cs tail = rw (take-append (length cs) cs tail (omega arith))

module _ {S : Type 0} {x : XdrOps S} (laws : XdrLaws x) (mem_alloc : ℕ → Option (List ℕ)) where
  sized_string-Encoded :
      (maxsize : ℕ) (cs tail : List ℕ) (s : S) (k : ℕ)
      → length cs ≤ maxsize
      → (r : Bool × ℕ × S)
      → Encoded laws (length cs) (be32 (length cs)) s (length (units (length cs) cs) + k) r
      → Encoded laws
          (some (cs ++ tail))
          (be32 (length cs) ++ units (length cs) cs)
          s
          k
          (sized_string x mem_alloc maxsize encode (some (cs ++ tail)) r)
  sized_string-Encoded maxsize cs tail s k hm (false, n', s') (ok, keep, out, room) = cc
  sized_string-Encoded maxsize cs tail s k hm (true, n', s') (ok, keep, out, room) =
      let n = length cs in
      let le : n ≤ length (cs ++ tail) = omega (arith, length-append cs tail) in
      let (ok', keep', out', room') =
        xdr_opaque-Encodes laws n (cs ++ tail) le s' k (rw (← units-string cs tail) at room) in
      let all : laws.append (laws.output s') (units n (cs ++ tail))
          ≡ laws.append (laws.output s) (be32 n ++ units n cs) =
        rw (out, units-string cs tail) (laws.append-append (laws.output s) (be32 n) (units n cs)) in
      rw (keep, ltb-false maxsize n hm) (ok', refl, out' ∙ all, room')

  -- The length, then the characters and zeros up to a whole unit; the terminator is not sent.
  pub xdr_string-Encodes :
      (maxsize : ℕ) (cs tail : List ℕ)
      → NoNul cs
      → IsU32 (length cs)
      → length cs ≤ maxsize
      → Encodes laws
          (xdr_string x mem_alloc maxsize)
          (some (cs ++ 0 ∷ tail))
          (be32 (length cs) ++ units (length cs) cs)
  unfolding xdr_string
  xdr_string-Encodes maxsize cs tail hz hu hm s k room =
      let len : strlen (cs ++ 0 ∷ tail) % 2 ^ 32 ≡ length cs =
        rw (strlen-terminated cs tail hz) (omega arith) in
      rw len (
        sized_string-Encoded maxsize cs (0 ∷ tail) s k hm (xdr_u_int x encode (length cs) s) (
          xdr_u_int-Encodes laws (length cs) s (length (units (length cs) cs) + k) (
            subst (laws.Room s)
              (omega (arith, length-append (be32 (length cs)) (units (length cs) cs))) room)))

  keep_or_free_string-Decoded :
      (allocated : Bool) (got rest : List ℕ) (r : Bool × List ℕ × S)
      → Decoded laws got rest r
      → Decoded laws (some got) rest (keep_or_free_string allocated r)
  keep_or_free_string-Decoded allocated got rest (false, cp, s) (ok, same, left) = cc
  keep_or_free_string-Decoded allocated got rest (true, cp, s) (ok, same, left) =
      (refl, ap some same, left)

  -- A fresh buffer of one byte more than the string: terminated, then filled.
  terminated :
      (fresh cs : List ℕ)
      → length fresh ≡ length cs + 1
      → write_at (write_at fresh (length cs) (0 ∷ [])) 0 cs ≡ cs ++ 0 ∷ []
  terminated fresh cs h =
      ap (λ t. cs ++ t)
        (drop-append_length (take (length cs) fresh) _ (0 + length cs)
            (omega (arith, length-take (length cs) fresh (omega arith)))
          ∙ ap (λ (t : List ℕ). 0 ∷ t) (drop_all (length cs + 1) fresh (omega arith)))

  sized_string-Decoded :
      (maxsize : ℕ) (fresh cs pad rest : List ℕ)
      → length cs < 2 ^ 32 - 1
      → length cs ≤ maxsize
      → mem_alloc (length cs + 1) ≡ some fresh
      → length fresh ≡ length cs + 1
      → length pad ≡ rndup (length cs)
      → (r : Bool × ℕ × S) → Decoded laws (length cs) ((cs ++ pad) ++ rest) r
      → Decoded laws (some (cs ++ 0 ∷ [])) rest (sized_string x mem_alloc maxsize decode none r)
  sized_string-Decoded maxsize fresh cs pad rest hu hm ea ef ep (false, n, s') (ok, got, left) = cc
  sized_string-Decoded maxsize fresh cs pad rest hu hm ea ef ep (true, n, s') (ok, got, left) =
      let size : (length cs + 1) % 2 ^ 32 ≡ length cs + 1 = omega arith in
      rw (got, ltb-false maxsize (length cs) hm, size, ==_false (length cs + 1) 0 (omega arith), ea)
        (keep_or_free_string-Decoded true (cs ++ 0 ∷ []) rest _ (
          subst
            (λ w.
              Decoded laws w rest
                (xdr_opaque x (length cs) decode (write_at fresh (length cs) (0 ∷ [])) s'))
            (terminated fresh cs ef)
            (xdr_opaque-Decodes laws (length cs) _ cs pad refl ep s' rest left)))

  -- Into a null pointer: a buffer for the characters and the terminator is allocated and filled.
  pub xdr_string-Decodes_new :
      (maxsize : ℕ) (fresh cs pad : List ℕ)
      → length cs < 2 ^ 32 - 1
      → length cs ≤ maxsize
      → mem_alloc (length cs + 1) ≡ some fresh
      → length fresh ≡ length cs + 1
      → length pad ≡ rndup (length cs)
      → Decodes laws
          (xdr_string x mem_alloc maxsize)
          none
          (some (cs ++ 0 ∷ []))
          (be32 (length cs) ++ (cs ++ pad))
  unfolding xdr_string
  xdr_string-Decodes_new maxsize fresh cs pad hu hm ea ef ep s rest input =
      sized_string-Decoded maxsize fresh cs pad rest hu hm ea ef ep (xdr_u_int x decode 0 s) (
        xdr_u_int-Decodes laws 0 (length cs) (omega arith) s ((cs ++ pad) ++ rest)
          (rw append_assoc at input))
