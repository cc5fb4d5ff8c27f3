-- ===== src/Xdr/RecStream/Deframe.antt =====
-- The bytes that a connection carries, without the headers of their fragments.
use oncrpc4_win.Common.{
  ℕ, zero, suc, ◌+◌, ◌%◌, ◌^◌, ◌<◌, ◌≡◌, refl, sym, ap, ◌∙◌, List, [], ◌∷◌, ◌++◌, length, arith,
  append_assoc, append-nil,
}
use oncrpc4_win.Common.Words.{be32, word_of, word_be32}
use oncrpc4_win.Xdr.Rec.Output.{Framed, start, fragment, last}

-- `left` bytes of the fragment are still to come.
unfoldable pub deframe : ℕ → List ℕ → List ℕ
deframe left [] = []
deframe (suc left) (b ∷ bs) = b ∷ deframe left bs
deframe zero (a ∷ b ∷ c ∷ d ∷ bs) = deframe (word_of (a ∷ b ∷ c ∷ d ∷ []) % 2 ^ 31) bs
deframe zero (a ∷ b ∷ c ∷ []) = []
deframe zero (a ∷ b ∷ []) = []
deframe zero (a ∷ []) = []

abbrev pub concat : List (List ℕ) → List ℕ
concat [] = []
concat (r ∷ rs) = r ++ concat rs

pub concat-snoc : (rs : List (List ℕ)) (r : List ℕ) → concat (rs ++ (r ∷ [])) ≡ concat rs ++ r
concat-snoc [] r = append-nil r
concat-snoc (q ∷ rs) r = ap (λ t. q ++ t) (concat-snoc rs r) ∙ sym (append_assoc q (concat rs) r)

body_lem : (f tail : List ℕ) → deframe (length f) (f ++ tail) ≡ f ++ deframe 0 tail
unfolding deframe
body_lem [] tail = refl
body_lem (b ∷ f) tail = ap (λ t. b ∷ t) (body_lem f tail)

header_lem :
    (v n : ℕ) (tail : List ℕ)
    → v < 2 ^ 32
    → v % 2 ^ 31 ≡ n
    → deframe 0 (be32 v ++ tail) ≡ deframe n tail
unfolding deframe be32 word_of
header_lem v n tail h e = ap (λ k. deframe k tail) (ap (λ w. w % 2 ^ 31) (word_be32 v h) ∙ e)

fragment_lem :
    (wire f carried tail : List ℕ) (v : ℕ)
    → v < 2 ^ 32
    → v % 2 ^ 31 ≡ length f
    → ((t : List ℕ) → deframe 0 (wire ++ t) ≡ carried ++ deframe 0 t)
    → deframe 0 ((wire ++ (be32 v ++ f)) ++ tail) ≡ (carried ++ f) ++ deframe 0 tail
fragment_lem wire f carried tail v h e next =
    ap (deframe 0)
      (append_assoc wire (be32 v ++ f) tail ∙ ap (λ t. wire ++ t) (append_assoc (be32 v) f tail))
    ∙ next (be32 v ++ (f ++ tail))
    ∙ ap (λ t. carried ++ t) (header_lem v (length f) (f ++ tail) h e ∙ body_lem f tail)
    ∙ sym (append_assoc carried f (deframe 0 tail))

-- The records of a framing, and the part of the open one.
pub deframe-Framed :
    {wire : List ℕ} {records : List (List ℕ)} {opened : List ℕ}
    → Framed wire records opened
    → (tail : List ℕ) → deframe 0 (wire ++ tail) ≡ (concat records ++ opened) ++ deframe 0 tail
unfolding deframe
deframe-Framed start tail = refl
deframe-Framed (fragment {wire} {records} {opened} f small fr) tail =
    fragment_lem wire f (concat records ++ opened) tail (length f) (omega (arith, small))
      (omega (arith, small)) (deframe-Framed fr)
    ∙ ap (λ t. t ++ deframe 0 tail) (append_assoc (concat records) opened f)
deframe-Framed (last {wire} {records} {opened} f small fr) tail =
    fragment_lem wire f (concat records ++ opened) tail (2 ^ 31 + length f) (omega (arith, small))
      (omega (arith, small)) (deframe-Framed fr)
    ∙ ap (λ t. t ++ deframe 0 tail)
        (append_assoc (concat records) opened f
          ∙ sym (concat-snoc records (opened ++ f))
          ∙ sym (append-nil (concat (records ++ ((opened ++ f) ∷ [])))))
