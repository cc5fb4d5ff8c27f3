-- ===== src/Svc.antt =====
-- libsrc/svc.c: the list of callouts, which says what program and version each dispatch routine
-- serves (`svc_find`, `svc_reg`, `svc_unreg`), and its use in `svc_getreq_common`.
pub mod Dg
pub mod Find
pub mod Register
pub mod Serve
pub mod Vc
use oncrpc4_win.Common.{
  ℕ, zero, suc, Bool, true, false, not, ◌&&◌, ◌||◌, Option, none, some, List, [], ◌∷◌, ◌++◌, ◌==◌,
  ltb, if◌then◌else◌, ◌^◌, ◌-◌,
}

-- `struct svc_callout`. A network identifier is the characters of the string, a dispatch routine
-- its address. The list `svc_head` is the list of its nodes.
pub record Callout : Type 0 where
  pub prog : ℕ
  pub vers : ℕ
  pub netid : Option (List ℕ)
  pub dispatch : ℕ

-- `strcmp(a, b) == 0`.
unfoldable pub same_name : List ℕ → List ℕ → Bool
same_name [] [] = true
same_name [] (_ ∷ _) = false
same_name (_ ∷ _) [] = false
same_name (a ∷ as') (b ∷ bs) = (a == b) && same_name as' bs

-- `(netid == NULL) || (s->sc_netid == NULL) || (strcmp(netid, s->sc_netid) == 0)`.
abbrev pub same_netid : Option (List ℕ) → Option (List ℕ) → Bool
same_netid none n = true
same_netid (some m) none = true
same_netid (some m) (some n) = same_name m n

abbrev pub matches : ℕ → ℕ → Option (List ℕ) → Callout → Bool
matches prog vers netid s = ((s.prog == prog) && (s.vers == vers)) && same_netid netid s.netid

-- The nodes that the loop has passed, the last of which is `*prev`, and those from `s` on: `s` is
-- NULL if there are none.
unfoldable pub svc_find : ℕ → ℕ → Option (List ℕ) → List Callout → List Callout × List Callout
svc_find prog vers netid [] = ([], [])
svc_find prog vers netid (s ∷ next) =
    let (passed, found) = svc_find prog vers netid next in
    if matches prog vers netid s then ([], s ∷ next) else (s ∷ passed, found)

-- `prev->sc_next = s->sc_next`, or `svc_head = s->sc_next`; the loop of `svc_unreg`, for at most
-- `fuel` rounds.
abbrev pub unlink :
    (List Callout → Option (List Callout)) → List Callout × List Callout → Option (List Callout)
unlink rest (passed, []) = some passed
unlink rest (passed, s ∷ next) = rest (passed ++ next)

unfoldable pub svc_unreg : ℕ → ℕ → ℕ → List Callout → Option (List Callout)
svc_unreg zero prog vers svc_head = none
svc_unreg (suc fuel) prog vers svc_head =
    unlink (svc_unreg fuel prog vers) (svc_find prog vers none svc_head)

-- What `svc_reg` learns from its environment: the name found by `__rpcgettp`, whether the two calls
-- of `strdup` and `mem_alloc` succeed, and the answer of `rpcb_set`.
pub record RegEnv : Type 0 where
  pub tnconf : Option (List ℕ)
  pub strdup_netid : Bool
  pub strdup_xprt : Bool
  pub mem_alloc : Bool
  pub rpcb_set : Bool

-- `struct netconfig`, NULL or with its `nc_netid`.
abbrev pub nc_netid : Option (Option (List ℕ)) → Option (List ℕ)
nc_netid none = none
nc_netid (some n) = n

abbrev pub or_else : Option (List ℕ) → Option (List ℕ) → Option (List ℕ)
or_else none n = n
or_else (some m) n = some m

-- `flag == 1`: there is a name.
abbrev pub is_named : Option (List ℕ) → Bool
is_named none = false
is_named (some _) = true

-- The outcome of `svc_reg`: its result, the transport's `xp_netid`, the list.
abbrev pub Registered : Type 0
Registered = Bool × Option (List ℕ) × List Callout

-- `rpcb_it`.
abbrev pub rpcb_it : RegEnv → Option (Option (List ℕ)) → Option (List ℕ) → List Callout → Registered
rpcb_it env none xp_netid svc_head = (true, xp_netid, svc_head)
rpcb_it env (some _) xp_netid svc_head = (env.rpcb_set, xp_netid, svc_head)

-- The new node is linked before the others; a transport without a name takes the callout's.
abbrev pub add_callout :
    RegEnv → Option (Option (List ℕ)) → Option (List ℕ) → Callout → List Callout → Registered
add_callout env nconf xp_netid s svc_head =
    if not env.mem_alloc
    then (false, xp_netid, svc_head)
    else if (not (is_named xp_netid) && is_named s.netid) && not env.strdup_xprt
    then (false, xp_netid, svc_head)
    else rpcb_it env nconf (or_else xp_netid s.netid) (s ∷ svc_head)

abbrev pub reg_found :
    RegEnv
    → Option (Option (List ℕ))
    → Option (List ℕ)
    → Callout
    → List Callout
    → List Callout
    → Registered
reg_found env nconf xp_netid new svc_head [] = add_callout env nconf xp_netid new svc_head
reg_found env nconf xp_netid new svc_head (s ∷ _) =
    if s.dispatch == new.dispatch
    then rpcb_it env nconf xp_netid svc_head
    else (false, xp_netid, svc_head)

unfoldable pub svc_reg :
    RegEnv → Option (List ℕ) → ℕ → ℕ → ℕ → Option (Option (List ℕ)) → List Callout → Registered
svc_reg env xp_netid prog vers dispatch nconf svc_head =
    let netid = or_else xp_netid (or_else (nc_netid nconf) env.tnconf) in
    if is_named netid && not env.strdup_netid
    then (false, xp_netid, svc_head)
    else reg_found env nconf xp_netid
        (record { prog = prog; vers = vers; netid = netid; dispatch = dispatch }) svc_head
        (svc_find prog vers netid svc_head).1

-- The search of `svc_getreq_common` for a request: a dispatch routine was called, or the loop has
-- gone on with `prog_found`, `low_vers` and `high_vers`.
pub data Scan : Type 0 where
  served : ℕ → Scan
  seen : Bool → ℕ → ℕ → Scan

abbrev pub scan_one : ℕ → ℕ → Callout → Scan → Scan
scan_one prog vers s (served d) = served d
scan_one prog vers s (seen prog_found low high) =
    if s.prog == prog
    then if s.vers == vers
      then served s.dispatch
      else seen true (if ltb s.vers low then s.vers else low)
          (if ltb high s.vers then s.vers else high)
    else seen prog_found low high

unfoldable pub scan : ℕ → ℕ → List Callout → Scan → Scan
scan prog vers [] st = st
scan prog vers (s ∷ next) st = scan prog vers next (scan_one prog vers s st)

-- What the request comes to: a call, `svcerr_progvers`, or `svcerr_noprog`.
pub data Served : Type 0 where
  dispatched : ℕ → Served
  progvers : ℕ → ℕ → Served
  noprog : Served

abbrev pub answered : Scan → Served
answered (served d) = dispatched d
answered (seen true low high) = progvers low high
answered (seen false low high) = noprog

unfoldable pub find_service : ℕ → ℕ → List Callout → Served
find_service prog vers svc_head = answered (scan prog vers svc_head (seen false (2 ^ 32 - 1) 0))
