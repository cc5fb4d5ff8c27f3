-- ===== src/Svc/Register.antt =====
-- `svc_reg`: the callouts stay unique, and what it says it has registered is served.
use oncrpc4_win.Common.{
  ℕ, ◌≡◌, refl, sym, ap, ◌∙◌, Bool, true, false, not, ◌&&◌, Option, none, some, List, [], ◌∷◌, ◌++◌,
  All, ◌==◌, if◌then◌else◌, Bool-cases, inl, inr, append-nil, ==_refl, ==→eq,
}
use mathlib.Core.Path.{subst}
use oncrpc4_win.Svc.{
  Callout, same_name, matches, svc_find, RegEnv, nc_netid, or_else, is_named, Registered, rpcb_it,
  add_callout, reg_found, svc_reg,
}
use oncrpc4_win.Svc.Find.{svc_find_lem}

-- No callout is found by the search for one that stands before it.
abbrev pub IsUnique : List Callout → Type 0
IsUnique [] = Unit {0}
IsUnique (s ∷ l) = All (λ c. matches s.prog s.vers s.netid c ≡ false) l × IsUnique l

module _ (P : Registered → Type 0) where
  if-all : (b : Bool) (u v : Registered) → P u → P v → P (if b then u else v)
  if-all true u v p q = p
  if-all false u v p q = q

rpcb_it-list :
    (env : RegEnv) (nconf : Option (Option (List ℕ))) (n : Option (List ℕ)) (l : List Callout)
    → (rpcb_it env nconf n l).2 ≡ l
rpcb_it-list env none n l = refl
rpcb_it-list env (some _) n l = refl

module _ (P : List Callout → Type 0) (env : RegEnv) (nconf : Option (Option (List ℕ)))
    (n : Option (List ℕ)) where
  add_callout-all :
      (s : Callout) (l : List Callout) → P l → P (s ∷ l) → P (add_callout env nconf n s l).2
  add_callout-all s l p q =
      if-all (λ r. P r.2) (not env.mem_alloc) _ _ p
        (if-all (λ r. P r.2) ((not (is_named n) && is_named s.netid) && not env.strdup_xprt) _ _ p
          (subst P (sym (rpcb_it-list env nconf (or_else n s.netid) (s ∷ l))) q))

  reg_found-all :
      (s : Callout) (l found : List Callout)
      → P l
      → (found ≡ [] → P (s ∷ l))
      → P (reg_found env nconf n s l found).2
  reg_found-all s l [] p q = add_callout-all s l p (q refl)
  reg_found-all s l (c ∷ _) p q =
      if-all (λ r. P r.2) (c.dispatch == s.dispatch) _ _
        (subst P (sym (rpcb_it-list env nconf n l)) p) p

not_found-All :
    (prog vers : ℕ) (netid : Option (List ℕ)) (l : List Callout)
    → (svc_find prog vers netid l).1 ≡ []
    → All (λ s. matches prog vers netid s ≡ false) l
not_found-All prog vers netid l e =
    let (same, passed, stops) = svc_find_lem prog vers netid l in
    subst (All (λ s. matches prog vers netid s ≡ false))
      (sym (append-nil (svc_find prog vers netid l).0)
        ∙ ap (λ f. (svc_find prog vers netid l).0 ++ f) (sym e)
        ∙ same)
      passed

-- Whatever its outcome, `svc_reg` keeps the callouts unique: no callout is found by the search for
-- one that stands before it.
pub svc_reg-IsUnique :
    (env : RegEnv) (xp_netid : Option (List ℕ)) (prog vers dispatch : ℕ)
    (nconf : Option (Option (List ℕ))) (l : List Callout)
    → IsUnique l
    → IsUnique (svc_reg env xp_netid prog vers dispatch nconf l).2
unfolding svc_reg
svc_reg-IsUnique env xp_netid prog vers dispatch nconf l h =
    let netid = or_else xp_netid (or_else (nc_netid nconf) env.tnconf) in
    if-all (λ r. IsUnique r.2) (is_named netid && not env.strdup_netid) _ _ h
      (reg_found-all IsUnique env nconf xp_netid _ l _ h
        (λ e. (not_found-All prog vers netid l e, h)))

same_name_refl : (n : List ℕ) → same_name n n ≡ true
unfolding same_name
same_name_refl [] = refl
same_name_refl (c ∷ n) = rw (==_refl c) (same_name_refl n)

matches_itself :
    (prog vers : ℕ) (netid : Option (List ℕ)) (d : ℕ)
    → matches prog vers netid (record { prog = prog; vers = vers; netid = netid; dispatch = d })
      ≡ true
matches_itself prog vers none d = rw (==_refl prog, ==_refl vers) refl
matches_itself prog vers (some n) d = rw (==_refl prog, ==_refl vers) (same_name_refl n)

-- The search finds a callout with the dispatch routine `d`.
abbrev pub FindsRoutine : ℕ → List Callout → Type 0
FindsRoutine d [] = ⊥
FindsRoutine d (s ∷ _) = s.dispatch ≡ d

-- An outcome that, if it is TRUE, comes with a list in which the routine is found.
abbrev pub Serves : ℕ → ℕ → Option (List ℕ) → ℕ → Registered → Type 0
Serves prog vers netid d r = r.0 ≡ true → FindsRoutine d (svc_find prog vers netid r.2).1

module _ (env : RegEnv) (nconf : Option (Option (List ℕ))) (prog vers : ℕ) (netid : Option (List ℕ))
    (d : ℕ) where
  rpcb_it-Serves :
      (n : Option (List ℕ)) (l : List Callout)
      → FindsRoutine d (svc_find prog vers netid l).1
      → Serves prog vers netid d (rpcb_it env nconf n l)
  rpcb_it-Serves n l h ok =
      subst (λ l. FindsRoutine d (svc_find prog vers netid l).1) (sym (rpcb_it-list env nconf n l))
        h

  new-FindsRoutine :
      (l : List Callout)
      → FindsRoutine d
          (svc_find prog vers netid
            (record { prog = prog; vers = vers; netid = netid; dispatch = d } ∷ l)).1
  unfolding svc_find
  new-FindsRoutine l = rw (matches_itself prog vers netid d) refl

  reg_found-Serves :
      (n : Option (List ℕ)) (l found : List Callout)
      → (svc_find prog vers netid l).1 ≡ found
      → Serves prog vers netid d (
          reg_found env nconf n
            (record { prog = prog; vers = vers; netid = netid; dispatch = d })
            l
            found)
  reg_found-Serves n l [] e =
      let Q : Registered → Type 0 = Serves prog vers netid d in
      if-all Q (not env.mem_alloc) _ _ (λ ok. cc)
        (if-all Q ((not (is_named n) && is_named netid) && not env.strdup_xprt) _ _ (λ ok. cc)
          (rpcb_it-Serves (or_else n netid) _ (new-FindsRoutine l)))
  reg_found-Serves n l (c ∷ rest) e = elim (Bool-cases (c.dispatch == d)) [
    | inl same ↦
        rw same (rpcb_it-Serves n l (subst (FindsRoutine d) (sym e) (==→eq c.dispatch d same)))
    | inr other ↦ rw other (λ ok. cc)
  ]

-- When `svc_reg` returns TRUE, the search for the program, the version and the network identifier
-- that it has chosen finds a callout, and its dispatch routine is the one that was registered.
pub svc_reg_serves :
    (env : RegEnv) (xp_netid : Option (List ℕ)) (prog vers dispatch : ℕ)
    (nconf : Option (Option (List ℕ))) (l : List Callout)
    → (svc_reg env xp_netid prog vers dispatch nconf l).0 ≡ true
    → FindsRoutine dispatch
        (svc_find prog vers
          (or_else xp_netid (or_else (nc_netid nconf) env.tnconf))
          (svc_reg env xp_netid prog vers dispatch nconf l).2).1
unfolding svc_reg
svc_reg_serves env xp_netid prog vers dispatch nconf l ok =
    let netid = or_else xp_netid (or_else (nc_netid nconf) env.tnconf) in
    if-all (Serves prog vers netid dispatch) (is_named netid && not env.strdup_netid) _ _ (λ ok. cc)
      (reg_found-Serves env nconf prog vers netid dispatch xp_netid l _ refl) ok
