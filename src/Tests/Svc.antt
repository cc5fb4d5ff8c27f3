-- ===== src/Tests/Svc.antt =====
-- Runs of the list of callouts.
use oncrpc4_win.Common.{◌≡◌, refl, true, none, some, List, [], ◌∷◌, arith}
use oncrpc4_win.Svc.{Callout, svc_find, svc_unreg, RegEnv, svc_reg, scan, progvers, find_service}
use oncrpc4_win.Svc.Find.{others, svc_unreg-others}
use oncrpc4_win.Svc.Register.{IsUnique, svc_reg-IsUnique, FindsRoutine, svc_reg_serves}
use oncrpc4_win.Svc.Serve.{Means, find_service_lem}

-- The versions 2 and 4 of one program, and another program.
abbrev nfs2 : Callout
nfs2 = record { prog = 100003; vers = 2; netid = some (117 ∷ 100 ∷ 112 ∷ []); dispatch = 11 }

abbrev nfs4 : Callout
nfs4 = record { prog = 100003; vers = 4; netid = none; dispatch = 12 }

abbrev mount : Callout
mount = record { prog = 100005; vers = 1; netid = none; dispatch = 13 }

abbrev callouts : List Callout
callouts = nfs2 ∷ mount ∷ nfs4 ∷ []

-- Version 3 is not served, but 2 to 4 are around it.
version_3 : find_service 100003 3 callouts ≡ progvers 2 4
unfolding find_service scan
version_3 = refl

svc_unreg-others_example : svc_unreg 4 100003 4 callouts ≡ some (others 100003 4 callouts)
svc_unreg-others_example = svc_unreg-others 100003 4 4 callouts (omega arith)

abbrev env : RegEnv
env = record {
  tnconf = none;
  strdup_netid = true;
  strdup_xprt = true;
  mem_alloc = true;
  rpcb_set = true;
}

callouts-IsUnique : IsUnique callouts
callouts-IsUnique = ((refl, (refl, tt)), ((refl, tt), (tt, tt)))

svc_reg-IsUnique_example : IsUnique (svc_reg env none 100005 3 14 (some none) callouts).2
svc_reg-IsUnique_example =
    svc_reg-IsUnique env none 100005 3 14 (some none) callouts callouts-IsUnique

registered : (svc_reg env none 100005 3 14 (some none) callouts).0 ≡ true
unfolding svc_reg svc_find
registered = refl

svc_reg_serves_example :
    FindsRoutine 14 (svc_find 100005 3 none (svc_reg env none 100005 3 14 (some none) callouts).2).1
svc_reg_serves_example = svc_reg_serves env none 100005 3 14 (some none) callouts registered

find_service_lem_example : Means 100003 3 callouts (find_service 100003 3 callouts)
find_service_lem_example =
    find_service_lem 100003 3 callouts (omega arith, (omega arith, (omega arith, tt)))
