-- ===== src/Svc/Serve.antt =====
-- What `svc_getreq_common` makes of a request: a callout of its program and version is called,
-- and if there is none, the answer tells the versions that are served.
use mathlib.Core.Path.{subst}
use oncrpc4_win.Common.{
  ℕ, ◌-◌, ◌^◌, ◌≤◌, ◌≡◌, ◌≢◌, refl, sym, Bool, true, false, List, [], ◌∷◌, All, ◌==◌, ltb,
  if◌then◌else◌, arith, Bool-cases, inl, inr, ==→eq, ◌⊎◌,
}
use oncrpc4_win.Common.Words.{IsU32}
use oncrpc4_win.Svc.{
  Callout, Scan, served, seen, scan_one, scan, Served, dispatched, progvers, noprog, answered,
  find_service,
}

-- Some callout of the list has the property.
abbrev pub Any : (Callout → Type 0) → List Callout → Type 0
Any P [] = ⊥
Any P (s ∷ l) = P s ⊎ Any P l

-- A callout of the program and version with the routine `d`; one of the program with a version
-- between `low` and `high`, and another than the one wanted; one of the program and version `v`.
abbrev pub Routine : ℕ → ℕ → ℕ → Callout → Type 0
Routine prog vers d s = (s.prog ≡ prog) × (s.vers ≡ vers) × (s.dispatch ≡ d)

abbrev pub Within : ℕ → ℕ → ℕ → ℕ → Callout → Type 0
Within prog vers low high s = s.prog ≡ prog → (s.vers ≢ vers) × (low ≤ s.vers) × (s.vers ≤ high)

abbrev pub OfVersion : ℕ → ℕ → Callout → Type 0
OfVersion prog v s = (s.prog ≡ prog) × (s.vers ≡ v)

-- What each answer is to mean.
abbrev pub Means : ℕ → ℕ → List Callout → Served → Type 0
Means prog vers l (dispatched d) = Any (Routine prog vers d) l
Means prog vers l (progvers low high) =
    All (Within prog vers low high) l × Any (OfVersion prog low) l × Any (OfVersion prog high) l
Means prog vers l noprog = All (λ s. s.prog ≢ prog) l

==-≢ : (a b : ℕ) → (a == b) ≡ false → a ≢ b
==-≢ a b h e = ground arith

-- What the loop knows of the callouts that it has passed.
abbrev pub Known : ℕ → ℕ → List Callout → Scan → Type 0
Known prog vers l (served d) = Any (Routine prog vers d) l
Known prog vers l (seen true low high) = Means prog vers l (progvers low high)
Known prog vers l (seen false low high) =
    All (λ s. s.prog ≢ prog) l × (low ≡ 2 ^ 32 - 1) × (high ≡ 0)

abbrev pub lower : ℕ → ℕ → ℕ
lower v low = if ltb v low then v else low

abbrev pub higher : ℕ → ℕ → ℕ
higher v high = if ltb high v then v else high

module _ (prog vers : ℕ) where
  Within-wider :
      (l : List Callout) (low high low' high' : ℕ)
      → low' ≤ low
      → high ≤ high'
      → All (Within prog vers low high) l
      → All (Within prog vers low' high') l
  Within-wider [] low high low' high' hl hh h = tt
  Within-wider (s ∷ l) low high low' high' hl hh (h, rest) = (
    λ e. let (other, a, b) = h e in (other, omega arith, omega arith),
    Within-wider l low high low' high' hl hh rest,
  )

  Within-none :
      (l : List Callout) (low high : ℕ)
      → All (λ s. s.prog ≢ prog) l
      → All (Within prog vers low high) l
  Within-none [] low high h = tt
  Within-none (s ∷ l) low high (h, rest) = (λ e. absurd (h e), Within-none l low high rest)

  lower-Any :
      (s : Callout) (l : List Callout) (low : ℕ)
      → s.prog ≡ prog
      → Any (OfVersion prog low) l
      → Any (OfVersion prog (lower s.vers low)) (s ∷ l)
  lower-Any s l low e h = elim (Bool-cases (ltb s.vers low)) [
    | inl t ↦ let new : s.vers ≡ lower s.vers low = rw t refl in inl (e, new)
    | inr t ↦
        let same : low ≡ lower s.vers low = rw t refl in
        inr (subst (λ k. Any (OfVersion prog k) l) same h)
  ]

  higher-Any :
      (s : Callout) (l : List Callout) (high : ℕ)
      → s.prog ≡ prog
      → Any (OfVersion prog high) l
      → Any (OfVersion prog (higher s.vers high)) (s ∷ l)
  higher-Any s l high e h = elim (Bool-cases (ltb high s.vers)) [
    | inl t ↦ let new : s.vers ≡ higher s.vers high = rw t refl in inl (e, new)
    | inr t ↦
        let same : high ≡ higher s.vers high = rw t refl in
        inr (subst (λ k. Any (OfVersion prog k) l) same h)
  ]

  lower_lem : (v low : ℕ) → (lower v low ≤ low) × (lower v low ≤ v)
  lower_lem v low = ground arith

  higher_lem : (v high : ℕ) → (high ≤ higher v high) × (v ≤ higher v high)
  higher_lem v high = ground arith

  lower_first : (v : ℕ) → IsU32 v → lower v (2 ^ 32 - 1) ≡ v
  lower_first v h = ground arith

  higher_first : (v : ℕ) → higher v 0 ≡ v
  higher_first v = ground arith

  other_version :
      (l : List Callout) (s : Callout) (f : Bool) (low high : ℕ)
      → IsU32 s.vers
      → s.prog ≡ prog
      → s.vers ≢ vers
      → Known prog vers l (seen f low high)
      → Means prog vers (s ∷ l) (progvers (lower s.vers low) (higher s.vers high))
  other_version l s true low high hu e ne (within, hl, hh) = (
    (
      λ e. (ne, (lower_lem s.vers low).1, (higher_lem s.vers high).1),
      Within-wider l low high _ _ (lower_lem s.vers low).0 (higher_lem s.vers high).0 within,
    ),
    lower-Any s l low e hl,
    higher-Any s l high e hh,
  )
  other_version l s false low high hu e ne (none_seen, el, eh) =
      let l' : lower s.vers low ≡ s.vers = rw el (lower_first s.vers hu) in
      let h' : higher s.vers high ≡ s.vers = rw eh (higher_first s.vers) in
      (
        (
          λ e. (ne, (lower_lem s.vers low).1, (higher_lem s.vers high).1),
          Within-none l (lower s.vers low) (higher s.vers high) none_seen,
        ),
        inl (e, sym l'),
        inl (e, sym h'),
      )

  other_program :
      (l : List Callout) (s : Callout) (f : Bool) (low high : ℕ)
      → s.prog ≢ prog
      → Known prog vers l (seen f low high)
      → Known prog vers (s ∷ l) (seen f low high)
  other_program l s true low high ne (within, hl, hh) =
      ((λ e. absurd (ne e), within), inr hl, inr hh)
  other_program l s false low high ne (none_seen, el, eh) = ((ne, none_seen), el, eh)

  scan_one-Known :
      (l : List Callout) (s : Callout) (st : Scan)
      → IsU32 s.vers
      → Known prog vers l st
      → Known prog vers (s ∷ l) (scan_one prog vers s st)
  scan_one-Known l s (served d) hu h = inr h
  scan_one-Known l s (seen f low high) hu h = elim (Bool-cases (s.prog == prog)) [
    | inl e ↦ elim (Bool-cases (s.vers == vers)) [
      | inl v ↦ rw (e, v) (inl (==→eq s.prog prog e, ==→eq s.vers vers v, refl))
      | inr v ↦
          rw (e, v) (other_version l s f low high hu (==→eq s.prog prog e) (==-≢ s.vers vers v) h)
    ]
    | inr e ↦ rw e (other_program l s f low high (==-≢ s.prog prog e) h)
  ]

-- The callouts in the order in which the loop has passed them, the last one first.
abbrev pub passed_onto : List Callout → List Callout → List Callout
passed_onto [] l = l
passed_onto (s ∷ next) l = passed_onto next (s ∷ l)

All-passed :
    (P : Callout → Type 0) (next l : List Callout)
    → All P (passed_onto next l)
    → All P next × All P l
All-passed P [] l h = (tt, h)
All-passed P (s ∷ next) l h =
    let (later, (here, before)) = All-passed P next (s ∷ l) h in ((here, later), before)

Any-passed :
    (P : Callout → Type 0) (next l : List Callout)
    → Any P (passed_onto next l)
    → Any P next ⊎ Any P l
Any-passed P [] l h = inr h
Any-passed P (s ∷ next) l h = elim (Any-passed P next (s ∷ l) h) [
  | inl later ↦ inl (inr later)
  | inr (inl here) ↦ inl (inl here)
  | inr (inr before) ↦ inr before
]

scan-Known :
    (prog vers : ℕ) (next l : List Callout) (st : Scan)
    → All (λ s. IsU32 s.vers) next
    → Known prog vers l st
    → Known prog vers (passed_onto next l) (scan prog vers next st)
unfolding scan
scan-Known prog vers [] l st hu h = h
scan-Known prog vers (s ∷ next) l st (hs, hu) h =
    scan-Known prog vers next (s ∷ l) (scan_one prog vers s st) hu
      (scan_one-Known prog vers l s st hs h)

Any-of : (P : Callout → Type 0) (l : List Callout) → Any P (passed_onto l []) → Any P l
Any-of P l h = elim (Any-passed P l [] h) [ inl found ↦ found | inr nowhere ↦ absurd nowhere ]

answered-Means :
    (prog vers : ℕ) (l : List Callout) (st : Scan)
    → Known prog vers (passed_onto l []) st
    → Means prog vers l (answered st)
answered-Means prog vers l (served d) h = Any-of (Routine prog vers d) l h
answered-Means prog vers l (seen true low high) (within, hl, hh) = (
  (All-passed (Within prog vers low high) l [] within).0,
  Any-of (OfVersion prog low) l hl,
  Any-of (OfVersion prog high) l hh,
)
answered-Means prog vers l (seen false low high) (none_seen, el, eh) =
    (All-passed (λ s. s.prog ≢ prog) l [] none_seen).0

-- Of callouts with 32-bit versions: a request is dispatched to a routine that is registered for its
-- program and version; or no callout is of that version, and the answer names the lowest and the
-- highest version that are registered for its program; or no callout is of its program.
pub find_service_lem :
    (prog vers : ℕ) (l : List Callout)
    → All (λ s. IsU32 s.vers) l
    → Means prog vers l (find_service prog vers l)
unfolding find_service
find_service_lem prog vers l hu =
    answered-Means prog vers l _
      (scan-Known prog vers l [] (seen false (2 ^ 32 - 1) 0) hu (tt, refl, refl))
