-- ===== src/Common/Lists.antt =====
-- Lists measured by native numbers: buffers, slices of them, and writes into them.
use Prim.Native.Nat.{ℕ, zero, suc, ◌+◌, ◌-◌, ◌≤◌}
use mathlib.Core.Path.{◌≡◌, refl, ap}
use mathlib.Core.List.{List, [], ◌∷◌, ◌++◌}
use native.Mathlib.Omega.{arith}

module _ {ℓ} {A : Type ℓ} where
  abbrev pub length : List A → ℕ
  length [] = 0
  length (x ∷ xs) = suc (length xs)

  abbrev pub take : ℕ → List A → List A
  take zero xs = []
  take (suc n) [] = []
  take (suc n) (x ∷ xs) = x ∷ take n xs

  abbrev pub drop : ℕ → List A → List A
  drop zero xs = xs
  drop (suc n) [] = []
  drop (suc n) (x ∷ xs) = drop n xs

  abbrev pub replicate : ℕ → A → List A
  replicate zero a = []
  replicate (suc n) a = a ∷ replicate n a

  abbrev pub All {κ} : (A → Type κ) → List A → Type κ
  All P [] = Unit {κ}
  All P (x ∷ xs) = P x × All P xs

module _ {ℓ} {A : Type ℓ} where
  pub length-append : (xs ys : List A) → length (xs ++ ys) ≡ length xs + length ys
  length-append [] ys = omega arith
  length-append (x ∷ xs) ys = omega (arith, length-append xs ys)

  pub length-take : (n : ℕ) (xs : List A) → n ≤ length xs → length (take n xs) ≡ n
  length-take zero xs h = refl
  length-take (suc n) [] h = absurd (omega arith)
  length-take (suc n) (x ∷ xs) h = ap suc (length-take n xs (omega arith))

  pub length-drop : (n : ℕ) (xs : List A) → length (drop n xs) ≡ length xs - n
  length-drop zero xs = omega arith
  length-drop (suc n) [] = omega arith
  length-drop (suc n) (x ∷ xs) = omega (arith, length-drop n xs)

  pub length-replicate : (n : ℕ) (a : A) → length (replicate n a) ≡ n
  length-replicate zero a = refl
  length-replicate (suc n) a = ap suc (length-replicate n a)

  pub take-append-drop : (n : ℕ) (xs : List A) → take n xs ++ drop n xs ≡ xs
  take-append-drop zero xs = refl
  take-append-drop (suc n) [] = refl
  take-append-drop (suc n) (x ∷ xs) = rw (take-append-drop n xs)

  pub take-append_length : (xs ys : List A) (n : ℕ) → n ≡ length xs → take n (xs ++ ys) ≡ xs
  take-append_length [] ys zero h = refl
  take-append_length [] ys (suc n) h = absurd (omega arith)
  take-append_length (x ∷ xs) ys zero h = absurd (omega arith)
  take-append_length (x ∷ xs) ys (suc n) h = rw (take-append_length xs ys n (omega arith))

  pub drop-append_length : (xs ys : List A) (n : ℕ) → n ≡ length xs → drop n (xs ++ ys) ≡ ys
  drop-append_length [] ys zero h = refl
  drop-append_length [] ys (suc n) h = absurd (omega arith)
  drop-append_length (x ∷ xs) ys zero h = absurd (omega arith)
  drop-append_length (x ∷ xs) ys (suc n) h = drop-append_length xs ys n (omega arith)

  pub take-append : (n : ℕ) (xs ys : List A) → n ≤ length xs → take n (xs ++ ys) ≡ take n xs
  take-append zero xs ys h = refl
  take-append (suc n) [] ys h = absurd (omega arith)
  take-append (suc n) (x ∷ xs) ys h = rw (take-append n xs ys (omega arith))

  pub drop-append : (n : ℕ) (xs ys : List A) → n ≤ length xs → drop n (xs ++ ys) ≡ drop n xs ++ ys
  drop-append zero xs ys h = refl
  drop-append (suc n) [] ys h = absurd (omega arith)
  drop-append (suc n) (x ∷ xs) ys h = drop-append n xs ys (omega arith)

  pub drop-drop : (m n : ℕ) (xs : List A) → drop m (drop n xs) ≡ drop (n + m) xs
  drop-drop m zero xs = let e : m ≡ 0 + m = omega arith in rw (← e)
  drop-drop zero (suc n) [] = let e : suc n ≡ suc n + 0 = omega arith in rw (← e)
  drop-drop (suc m) (suc n) [] = let e : suc (n + suc m) ≡ suc n + suc m = omega arith in rw (← e)
  drop-drop m (suc n) (x ∷ xs) =
      let e : suc (n + m) ≡ suc n + m = omega arith in rw (← e) (drop-drop m n xs)

  pub take_all : (n : ℕ) (xs : List A) → length xs ≤ n → take n xs ≡ xs
  take_all zero [] h = refl
  take_all zero (x ∷ xs) h = absurd (omega arith)
  take_all (suc n) [] h = refl
  take_all (suc n) (x ∷ xs) h = rw (take_all n xs (omega arith))

  pub drop_all : (n : ℕ) (xs : List A) → length xs ≤ n → drop n xs ≡ []
  drop_all zero [] h = refl
  drop_all zero (x ∷ xs) h = absurd (omega arith)
  drop_all (suc n) [] h = refl
  drop_all (suc n) (x ∷ xs) h = drop_all n xs (omega arith)

  -- `memmove (base + p, bs, length bs)`: the bytes from `p` on are replaced by `bs`.
  abbrev pub write_at : List A → ℕ → List A → List A
  write_at mem p bs = take p mem ++ (bs ++ drop (p + length bs) mem)

  pub length-write_at :
      (mem : List A) (p : ℕ) (bs : List A)
      → p + length bs ≤ length mem
      → length (write_at mem p bs) ≡ length mem
  length-write_at mem p bs h = omega (
    arith,
    length-append (take p mem) (bs ++ drop (p + length bs) mem),
    length-append bs (drop (p + length bs) mem),
    length-take p mem (omega arith),
    length-drop (p + length bs) mem,
  )

module _ {ℓ} {A : Type ℓ} where
  length-take-le : (n : ℕ) (xs : List A) → length (take n xs) ≤ n
  length-take-le zero xs = omega arith
  length-take-le (suc n) [] = omega arith
  length-take-le (suc n) (x ∷ xs) = omega (arith, length-take-le n xs)

  pub take-take : (k n : ℕ) (xs : List A) → k ≤ n → take k (take n xs) ≡ take k xs
  take-take zero n xs h = refl
  take-take (suc k) zero xs h = absurd (omega arith)
  take-take (suc k) (suc n) [] h = refl
  take-take (suc k) (suc n) (x ∷ xs) h = rw (take-take k n xs (omega arith))

  pub take_nil : (m : ℕ) → ◌≡◌ {A = List A} [] (take m [])
  take_nil zero = refl
  take_nil (suc m) = refl

  drop-take : (k n : ℕ) (xs : List A) → drop k (take n xs) ≡ take (n - k) (drop k xs)
  drop-take zero n xs = let e : n ≡ n - 0 = omega arith in rw (← e)
  drop-take (suc k) zero [] = let e : 0 ≡ 0 - suc k = omega arith in rw (← e)
  drop-take (suc k) zero (x ∷ xs) = let e : 0 ≡ 0 - suc k = omega arith in rw (← e)
  drop-take (suc k) (suc n) [] = take_nil (suc n - suc k)
  drop-take (suc k) (suc n) (x ∷ xs) =
      let e : n - k ≡ suc n - suc k = omega arith in rw (← e) (drop-take k n xs)

  -- What stands at the front of a window, and what is left of the window behind it.
  pub window_split :
      (k n : ℕ) (xs bs rest : List A)
      → take n xs ≡ bs ++ rest
      → k ≡ length bs
      → (k ≤ n) × (take k xs ≡ bs) × (take (n - k) (drop k xs) ≡ rest)
  window_split k n xs bs rest e ek =
      let le : k ≤ n = omega (arith, ap length e, length-append bs rest, length-take-le n xs) in
      (
        le,
        rw (← take-take k n xs le, e) (take-append_length bs rest k ek),
        rw (← drop-take k n xs, e) (drop-append_length bs rest k ek),
      )
