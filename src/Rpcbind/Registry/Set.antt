-- ===== src/Rpcbind/Registry/Set.antt =====
-- A mapping that `map_set` has accepted is found.
use mathlib.Core.Path.{subst}
use oncrpc4_win.Common.{
  if_true, if_false, ℕ, ◌≡◌, refl, sym, ap, ◌∙◌, Bool, true, false, ◌&&◌, Option, none, some, List,
  [], ◌∷◌, ◌++◌, ◌==◌, if◌then◌else◌, ==→eq, ==_refl, Bool-cases, inl, inr, ◌⊎◌,
}
use oncrpc4_win.Rpcbind.Registry.{
  Mapping, Lists, same_string, serves, find_from, find_service, register, unless_found, map_set,
}

both : (a b : Bool) → (a && b) ≡ true → (a ≡ true) × (b ≡ true)
both true b e = (refl, e)
both false b e = cc

same_string→eq : (s t : List ℕ) → same_string s t ≡ true → s ≡ t
same_string→eq [] [] e = refl
same_string→eq [] (b ∷ t) e = cc
same_string→eq (a ∷ s) [] e = cc
same_string→eq (a ∷ s) (b ∷ t) e =
    let (ea, es) = both (a == b) (same_string s t) e in
    ap (λ c. c ∷ s) (==→eq a b ea) ∙ ap (λ u. b ∷ u) (same_string→eq s t es)

some_inj : {a b : Mapping} → ◌≡◌ {A = Option Mapping} (some a) (some b) → a ≡ b
some_inj {a} {b} e = cc

module _ (same_case : List ℕ → List ℕ → Bool) (scan : List ℕ → Option (ℕ × ℕ))
    (superuser udptrans tcptrans : List ℕ) where
  -- Behind a list without the version, the new mapping is the hit.
  find_from_last :
      (hit : Option Mapping) (reg : Mapping) (ms : List Mapping)
      → same_case reg.netid reg.netid ≡ true
      → ((h : Mapping)
          → find_from same_case scan superuser udptrans tcptrans hit reg.prog reg.vers reg.netid ms
            ≡ some h
          → (h.vers == reg.vers) ≡ false)
      → find_from same_case scan superuser udptrans tcptrans hit reg.prog reg.vers reg.netid
          (ms ++ (reg ∷ []))
        ≡ some reg
  unfolding find_from
  find_from_last hit reg [] hc h = rw (==_refl reg.prog, hc, ==_refl reg.vers) refl
  find_from_last hit reg (m ∷ ms) hc h =
      elim (Bool-cases (
        serves same_case scan superuser udptrans tcptrans reg.prog reg.netid m
        && (m.vers == reg.vers))) [
          | inl e ↦
              let (_, same_vers) =
                both (serves same_case scan superuser udptrans tcptrans reg.prog reg.netid m)
                  (m.vers == reg.vers) e in
              let other_vers : (m.vers == reg.vers) ≡ false = h m (rw e refl) in cc
          | inr e ↦ rw e (
              find_from_last
                (if serves same_case scan superuser udptrans tcptrans reg.prog reg.netid m
                  then some m
                  else hit)
                reg ms hc (λ k q. h k (rw e q)))
        ]

  abbrev IsServed : ℕ → List ℕ → Option Mapping → Type 0
  IsServed prog netid none = Unit
  IsServed prog netid (some m) =
      serves same_case scan superuser udptrans tcptrans prog netid m ≡ true

  next_hit :
      (prog : ℕ) (netid : List ℕ) (hit : Option Mapping) (m : Mapping)
      → IsServed prog netid hit
      → IsServed prog netid
          (if serves same_case scan superuser udptrans tcptrans prog netid m then some m else hit)
  next_hit prog netid hit m h =
      elim (Bool-cases (serves same_case scan superuser udptrans tcptrans prog netid m)) [
        | inl e ↦
            if_true (IsServed prog netid)
              (serves same_case scan superuser udptrans tcptrans prog netid m) (some m) hit e e
        | inr e ↦
            if_false (IsServed prog netid)
              (serves same_case scan superuser udptrans tcptrans prog netid m) (some m) hit e h
      ]

  -- Whatever is found is of the program and the network.
  find_from-IsServed :
      (prog vers : ℕ) (netid : List ℕ) (hit : Option Mapping) (ms : List Mapping)
      → IsServed prog netid hit
      → IsServed prog netid
          (find_from same_case scan superuser udptrans tcptrans hit prog vers netid ms)
  unfolding find_from
  find_from-IsServed prog vers netid hit [] h = h
  find_from-IsServed prog vers netid hit (m ∷ ms) h =
      let on = serves same_case scan superuser udptrans tcptrans prog netid m in
      let rest =
        find_from same_case scan superuser udptrans tcptrans (if on then some m else hit) prog vers
          netid ms in
      elim (Bool-cases (on && (m.vers == vers))) [
        | inl e ↦
            if_true (IsServed prog netid) (on && (m.vers == vers)) (some m) rest e
              ((both on (m.vers == vers) e).0)
        | inr e ↦ if_false (IsServed prog netid) (on && (m.vers == vers)) (some m) rest e (
            find_from-IsServed prog vers netid (if on then some m else hit) ms
              (next_hit prog netid hit m h))
      ]

  found-IsServed :
      (prog vers : ℕ) (netid : List ℕ) (ms : List Mapping) (m : Mapping)
      → find_service same_case scan superuser udptrans tcptrans prog vers netid ms ≡ some m
      → (m.prog ≡ prog) × (same_case m.netid netid ≡ true)
  unfolding find_service
  found-IsServed prog vers netid ms m e =
      let (p, n) =
        both (m.prog == prog) (same_case m.netid netid)
          (subst (IsServed prog netid) e (find_from-IsServed prog vers netid none ms tt)) in
      (==→eq m.prog prog p, n)

  -- The daemon now serves the address, and at most this mapping was added; or nothing has changed.
  abbrev pub Registered : Mapping → Lists → Bool × Lists → Type 0
  Registered reg l (true, l') =
      ((m : Mapping) × (find_service same_case scan superuser udptrans tcptrans reg.prog reg.vers
            reg.netid l'.rbl
          ≡ some m)
        × (m.prog ≡ reg.prog)
        × (same_case m.netid reg.netid ≡ true)
        × (m.vers ≡ reg.vers)
        × (m.addr ≡ reg.addr))
      × ((l'.rbl ≡ l.rbl) ⊎ (l'.rbl ≡ l.rbl ++ (reg ∷ [])))
  Registered reg l (false, l') = l' ≡ l

  register-Registered :
      (enough enough_pmap : Bool) (reg : Mapping) (l : Lists)
      → same_case reg.netid reg.netid ≡ true
      → ((h : Mapping)
          → find_service same_case scan superuser udptrans tcptrans reg.prog reg.vers reg.netid
              l.rbl
            ≡ some h
          → (h.vers == reg.vers) ≡ false)
      → Registered reg l
          (register same_case scan superuser udptrans tcptrans enough enough_pmap reg l)
  unfolding find_service
  register-Registered true enough_pmap reg l hc h =
      ((reg, find_from_last none reg l.rbl hc h, refl, hc, refl, refl), inr refl)
  register-Registered false enough_pmap reg l hc h = refl

  answered :
      (reg fnd : Mapping) (l : Lists) (b : Bool)
      → find_service same_case scan superuser udptrans tcptrans reg.prog reg.vers reg.netid l.rbl
        ≡ some fnd
      → fnd.vers ≡ reg.vers
      → (b ≡ true → fnd.addr ≡ reg.addr)
      → Registered reg l (b, l)
  answered reg fnd l true e ev ea =
      let (ep, en) = found-IsServed reg.prog reg.vers reg.netid l.rbl fnd e in
      ((fnd, e, ep, en, ev, ea refl), inl refl)
  answered reg fnd l false e ev ea = refl

  unless_found-Registered :
      (enough enough_pmap : Bool) (reg : Mapping) (l : Lists) (o : Option Mapping)
      → same_case reg.netid reg.netid ≡ true
      → find_service same_case scan superuser udptrans tcptrans reg.prog reg.vers reg.netid l.rbl
        ≡ o
      → Registered reg l
          (unless_found same_case scan superuser udptrans tcptrans enough enough_pmap reg l o)
  unless_found-Registered enough enough_pmap reg l none hc e =
      register-Registered enough enough_pmap reg l hc (λ h q. let r = sym e ∙ q in cc)
  unless_found-Registered enough enough_pmap reg l (some fnd) hc e =
      elim (Bool-cases (fnd.vers == reg.vers)) [
        | inl v ↦ rw v (
            answered reg fnd l (same_string fnd.addr reg.addr) e (==→eq fnd.vers reg.vers v)
              (same_string→eq fnd.addr reg.addr))
        | inr v ↦ rw v (
            register-Registered enough enough_pmap reg l hc (λ h q.
              let same : fnd ≡ h = some_inj (sym e ∙ q) in
              ap (λ m. m.vers == reg.vers) (sym same) ∙ v))
      ]

  -- When map_set returns TRUE, find_service finds for the program, the version and the network a
  -- mapping of that program, that version and that network, in any case of letters, with the address
  -- that was given, and the list of mappings is as it was or has the new mapping at its end; when it returns FALSE, because the version is registered
  -- with another address or there is no memory, nothing has changed. strcasecmp finds a string
  -- equal to itself.
  pub map_set-Registered :
      (enough enough_pmap : Bool) (reg : Mapping) (l : Lists)
      → same_case reg.netid reg.netid ≡ true
      → Registered reg l
          (map_set same_case scan superuser udptrans tcptrans enough enough_pmap reg l)
  unfolding map_set
  map_set-Registered enough enough_pmap reg l hc =
      unless_found-Registered enough enough_pmap reg l
        (find_service same_case scan superuser udptrans tcptrans reg.prog reg.vers reg.netid l.rbl)
        hc refl
