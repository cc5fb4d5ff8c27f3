-- ===== src/Rpcbind/Registry/Unset.antt =====
-- What `map_unset` removes, and what it leaves.
use oncrpc4_win.Common.{
  ℕ, ◌≡◌, refl, ap, Bool, true, false, not, ◌&&◌, ◌||◌, Option, some, List, [], ◌∷◌, if◌then◌else◌,
  Bool-cases, inl, inr,
}
use oncrpc4_win.Rpcbind.Registry.{
  Mapping, Lists, concerns, may_unset, pass, unlinked, unset_loop, after_loop, map_unset,
}

-- The mappings that fail a test, and whether one passes it.
abbrev pub without : (Mapping → Bool) → List Mapping → List Mapping
without test [] = []
without test (m ∷ ms) = let rest = without test ms in if test m then rest else m ∷ rest

abbrev pub has : (Mapping → Bool) → List Mapping → Bool
has test [] = false
has test (m ∷ ms) = test m || has test ms

module _ (same_case : List ℕ → List ℕ → Bool) (scan : List ℕ → Option (ℕ × ℕ))
    (superuser udptrans tcptrans : List ℕ) where
  -- The mappings that a request concerns and that its owner may remove, and those that it may not.
  abbrev pub removable : Mapping → List ℕ → Mapping → Bool
  removable reg owner m =
      concerns same_case scan superuser udptrans tcptrans reg m
      && may_unset same_case scan superuser udptrans tcptrans owner m

  abbrev pub foreign : Mapping → List ℕ → Mapping → Bool
  foreign reg owner m =
      concerns same_case scan superuser udptrans tcptrans reg m
      && not (may_unset same_case scan superuser udptrans tcptrans owner m)

  abbrev Looped : Mapping → List ℕ → List Mapping → Bool × Bool × List Mapping → Type 0
  Looped reg owner ms (true, ans, ms') =
      (ms' ≡ without (concerns same_case scan superuser udptrans tcptrans reg) ms)
      × (has (foreign reg owner) ms ≡ false)
  Looped reg owner ms (false, ans, ms') =
      (without (removable reg owner) ms' ≡ without (removable reg owner) ms)
      × (has (foreign reg owner) ms' ≡ true)

  module _ (reg : Mapping) (owner : List ℕ) (m : Mapping) (ms : List Mapping) where
    pass-Looped :
        (r : Bool × Bool × List Mapping)
        → concerns same_case scan superuser udptrans tcptrans reg m ≡ false
        → Looped reg owner ms r
        → Looped reg owner (m ∷ ms) (pass same_case scan superuser udptrans tcptrans m r)
    pass-Looped (true, ans, ms') e (kept, ours) = rw e (ap (λ t. m ∷ t) kept, ours)
    pass-Looped (false, ans, ms') e (kept, theirs) = rw e (ap (λ t. m ∷ t) kept, theirs)

    unlinked-Looped :
        (r : Bool × Bool × List Mapping)
        → concerns same_case scan superuser udptrans tcptrans reg m ≡ true
        → may_unset same_case scan superuser udptrans tcptrans owner m ≡ true
        → Looped reg owner ms r
        → Looped reg owner (m ∷ ms) (unlinked same_case scan superuser udptrans tcptrans r)
    unlinked-Looped (true, ans, ms') e p (kept, ours) = rw (e, p) (kept, ours)
    unlinked-Looped (false, ans, ms') e p (kept, theirs) = rw (e, p) (kept, theirs)

  unset_loop-Looped :
      (reg : Mapping) (owner : List ℕ) (ms : List Mapping)
      → Looped reg owner ms (unset_loop same_case scan superuser udptrans tcptrans reg owner ms)
  unfolding unset_loop
  unset_loop-Looped reg owner [] = (refl, refl)
  unset_loop-Looped reg owner (m ∷ ms) =
      let rest : Bool × Bool × List Mapping =
        unset_loop same_case scan superuser udptrans tcptrans reg owner ms in
      elim (Bool-cases (concerns same_case scan superuser udptrans tcptrans reg m)) [
        | inl e ↦ elim (Bool-cases (may_unset same_case scan superuser udptrans tcptrans owner m)) [
          | inl p ↦
              rw (e, p) (unlinked-Looped reg owner m ms rest e p (unset_loop-Looped reg owner ms))
          | inr p ↦ rw (e, p) (refl, rw (e, p) refl)
        ]
        | inr e ↦ rw e (pass-Looped reg owner m ms rest e (unset_loop-Looped reg owner ms))
      ]

  -- What a request to unset has left: all that it concerns is gone; or a mapping is in the way that
  -- its owner may not remove.
  abbrev pub Unset : Mapping → List ℕ → Lists → Bool × Lists → Type 0
  Unset reg owner l (true, l') =
      (l'.rbl ≡ without (concerns same_case scan superuser udptrans tcptrans reg) l.rbl)
      × (has (foreign reg owner) l.rbl ≡ false)
  Unset reg owner l (false, l') =
      (without (removable reg owner) l'.rbl ≡ without (removable reg owner) l.rbl)
      × (has (foreign reg owner) l'.rbl ≡ true)
      × (l'.pml ≡ l.pml)

  after_loop-Unset :
      (reg : Mapping) (owner : List ℕ) (l : Lists) (r : Bool × Bool × List Mapping)
      → Looped reg owner l.rbl r
      → Unset reg owner l (after_loop same_case scan superuser udptrans tcptrans reg l.pml r)
  after_loop-Unset reg owner l (true, ans, ms) (kept, ours) = (kept, ours)
  after_loop-Unset reg owner l (false, ans, ms) (kept, theirs) = (kept, theirs, refl)

  -- When map_unset returns TRUE, every mapping of the program and the version, on the network that
  -- is named or on all, was the caller's to remove, and the list is what it was without them. When
  -- it returns FALSE, a mapping of these stands in the list that is not the caller's; of the others
  -- none is lost but those that the caller may remove, and the port mapper's list is as it was.
  pub map_unset-Unset :
      (reg : Mapping) (owner : List ℕ) (l : Lists)
      → Unset reg owner l (map_unset same_case scan superuser udptrans tcptrans reg (some owner) l)
  unfolding map_unset
  map_unset-Unset reg owner l =
      after_loop-Unset reg owner l
        (unset_loop same_case scan superuser udptrans tcptrans reg owner l.rbl)
        (unset_loop-Looped reg owner l.rbl)
