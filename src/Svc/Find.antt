-- ===== src/Svc/Find.antt =====
-- `svc_find` stops at the first callout that matches, and `svc_unreg` removes all of a version.
use oncrpc4_win.Common.{
  ℕ, zero, suc, ◌<◌, ◌≡◌, refl, sym, ap, ◌∙◌, true, false, ◌&&◌, Option, none, some, List, [], ◌∷◌,
  ◌++◌, length, All, ◌==◌, if◌then◌else◌, arith, Bool-cases, inl, inr,
}
use oncrpc4_win.Svc.{Callout, matches, svc_find, unlink, svc_unreg}

-- `s` is what the search stopped at: NULL, or a callout that matches.
abbrev pub StopsAt : ℕ → ℕ → Option (List ℕ) → List Callout → Type 0
StopsAt prog vers netid [] = Unit {0}
StopsAt prog vers netid (s ∷ _) = matches prog vers netid s ≡ true

-- The search passes the callouts that do not match and stops at the first that does: what it
-- passed and what it left are the list.
pub svc_find_lem :
    (prog vers : ℕ) (netid : Option (List ℕ)) (l : List Callout)
    → let (passed, found) = svc_find prog vers netid l in
      (passed ++ found ≡ l)
      × All (λ s. matches prog vers netid s ≡ false) passed
      × StopsAt prog vers netid found
unfolding svc_find
svc_find_lem prog vers netid [] = (refl, tt, tt)
svc_find_lem prog vers netid (s ∷ l) =
    let (same, none_before, stops) = svc_find_lem prog vers netid l in
    elim (Bool-cases (matches prog vers netid s)) [
      | inl h ↦ rw h (refl, tt, h)
      | inr h ↦ rw h (ap (λ l. s ∷ l) same, (h, none_before), stops)
    ]

-- The callouts of other programs and versions.
abbrev pub others : ℕ → ℕ → List Callout → List Callout
others prog vers [] = []
others prog vers (s ∷ l) =
    let rest = others prog vers l in if (s.prog == prog) && (s.vers == vers) then rest else s ∷ rest

others-passed :
    (prog vers : ℕ) (l : List Callout)
    → (svc_find prog vers none l).1 ≡ []
    → (svc_find prog vers none l).0 ≡ others prog vers l
unfolding svc_find
others-passed prog vers [] h = refl
others-passed prog vers (s ∷ l) h = elim (Bool-cases ((s.prog == prog) && (s.vers == vers))) [
  | inl e ↦ let found : s ∷ l ≡ [] = rw e at h in cc
  | inr e ↦ rw e (ap (λ l. s ∷ l) (others-passed prog vers l (rw e at h)))
]

-- Unlinking what was found leaves the same others, one node less.
others-unlinked :
    (prog vers : ℕ) (l : List Callout) (s : Callout) (next : List Callout)
    → (svc_find prog vers none l).1 ≡ s ∷ next
    → (others prog vers ((svc_find prog vers none l).0 ++ next) ≡ others prog vers l)
      × (suc (length ((svc_find prog vers none l).0 ++ next)) ≡ length l)
unfolding svc_find
others-unlinked prog vers [] s next h = cc
others-unlinked prog vers (c ∷ l) s next h =
    elim (Bool-cases ((c.prog == prog) && (c.vers == vers))) [
      | inl e ↦ let same : next ≡ l = cc (rw e at h) in rw (e, same) (refl, refl)
      | inr e ↦
          let (kept, fewer) = others-unlinked prog vers l s next (rw e at h) in
          rw e (rw e (ap (λ l. c ∷ l) kept), ap suc fewer)
    ]

unlink-others :
    (prog vers fuel : ℕ) (l : List Callout) (found : List Callout × List Callout)
    → svc_find prog vers none l ≡ found
    → ((m : List Callout)
        → length m < fuel
        → svc_unreg fuel prog vers m ≡ some (others prog vers m))
    → length l < suc fuel
    → unlink (svc_unreg fuel prog vers) found ≡ some (others prog vers l)
unlink-others prog vers fuel l (passed, []) e h hl =
    let p = others-passed prog vers l (ap (λ f. f.1) e) in ap some (ap (λ f. f.0) (sym e) ∙ p)
unlink-others prog vers fuel l (passed, s ∷ next) e h hl =
    let (kept, fewer) = others-unlinked prog vers l s next (ap (λ f. f.1) e) in
    let there : (svc_find prog vers none l).0 ≡ passed = ap (λ f. f.0) e in
    h (passed ++ next) (omega (arith, rw there at fewer)) ∙ ap some (rw there at kept)

-- After as many rounds as there are callouts, and one more, `svc_unreg` has returned; the list is
-- then that of the other programs and versions, in the same order.
pub svc_unreg-others :
    (prog vers fuel : ℕ) (l : List Callout)
    → length l < fuel
    → svc_unreg fuel prog vers l ≡ some (others prog vers l)
unfolding svc_unreg
svc_unreg-others prog vers zero l h = absurd (omega arith)
svc_unreg-others prog vers (suc fuel) l h =
    unlink-others prog vers fuel l (svc_find prog vers none l) refl
      (λ m h. svc_unreg-others prog vers fuel m h) h
