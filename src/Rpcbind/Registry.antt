-- ===== src/Rpcbind/Registry.antt =====
-- rpcbind/rpcb_svc_com.c and rpcbind/pmap_svc.c: the list of mappings `list_rbl`, the port mapper's
-- list `list_pml` beside it, and the operations on both.
pub mod Set
pub mod Unset
use oncrpc4_win.Common.{
  ℕ, ◌+◌, ◌*◌, ◌/◌, ◌%◌, Bool, true, false, not, ◌&&◌, ◌||◌, Option, none, some, List, [], ◌∷◌,
  ◌++◌, ◌==◌, if◌then◌else◌,
}
use oncrpc4_win.Rpc.Pmap.{Pmap}

-- `RPCB`; a string is the list of its characters.
pub record Mapping : Type 0 where
  pub prog : ℕ
  pub vers : ℕ
  pub netid : List ℕ
  pub addr : List ℕ
  pub owner : List ℕ

-- `list_rbl` and `list_pml`.
pub record Lists : Type 0 where
  pub rbl : List Mapping
  pub pml : List Pmap

-- `strcmp(a, b) == 0`.
abbrev pub same_string : List ℕ → List ℕ → Bool
same_string [] [] = true
same_string [] (_ ∷ _) = false
same_string (_ ∷ _) [] = false
same_string (a ∷ s) (b ∷ t) = (a == b) && same_string s t

-- `s[0] == 0`.
abbrev pub is_empty : List ℕ → Bool
is_empty [] = true
is_empty (_ ∷ _) = false

abbrev pub ipproto_udp : ℕ
ipproto_udp = 17

abbrev pub ipproto_tcp : ℕ
ipproto_tcp = 6

-- `strcasecmp(a, b) == 0` is `same_case`; `scan` reads the six numbers of a universal address and
-- returns the last two; `superuser`, `udptrans` and `tcptrans` are the daemon's strings.
module _ (same_case : List ℕ → List ℕ → Bool) (scan : List ℕ → Option (ℕ × ℕ))
    (superuser udptrans tcptrans : List ℕ) where
  abbrev pub serves : ℕ → List ℕ → Mapping → Bool
  serves prog netid m = (m.prog == prog) && same_case m.netid netid

  -- The hit is the first mapping with the version, or else the last of the program.
  unfoldable pub find_from : Option Mapping → ℕ → ℕ → List ℕ → List Mapping → Option Mapping
  find_from hit prog vers netid [] = hit
  find_from hit prog vers netid (m ∷ ms) =
      let rest = find_from (if serves prog netid m then some m else hit) prog vers netid ms in
      if serves prog netid m && (m.vers == vers) then some m else rest

  unfoldable pub find_service : ℕ → ℕ → List ℕ → List Mapping → Option Mapping
  find_service prog vers netid list_rbl = find_from none prog vers netid list_rbl

  -- The protocol of a network identifier; UDP is tried first.
  abbrev pub protocol : List ℕ → Option ℕ
  protocol netid =
      if same_string netid udptrans
      then some ipproto_udp
      else if same_string netid tcptrans
      then some ipproto_tcp
      else none

  abbrev pub pmap_at : Mapping → ℕ → ℕ × ℕ → Pmap
  pmap_at m prot (p1, p2) = record {
    prog = m.prog;
    vers = m.vers;
    prot = prot;
    port = p1 % 256 * 256 + p2 % 256;
  }

  abbrev pub pmap_of : Mapping → ℕ → Option (ℕ × ℕ) → Option Pmap
  pmap_of m prot none = none
  pmap_of m prot (some port) = some (pmap_at m prot port)

  abbrev pub new_pmap : Mapping → Option ℕ → Option Pmap
  new_pmap m none = none
  new_pmap m (some prot) = pmap_of m prot (scan m.addr)

  abbrev pub add_last : List Pmap → Option Pmap → List Pmap
  add_last pml none = pml
  add_last pml (some p) = pml ++ (p ∷ [])

  -- `enough` says whether `malloc` succeeds.
  unfoldable pub add_pmaplist : Bool → Mapping → List Pmap → List Pmap
  add_pmaplist enough m pml = if enough then add_last pml (new_pmap m (protocol m.netid)) else pml

  abbrev pub register : Bool → Bool → Mapping → Lists → Bool × Lists
  register enough enough_pmap reg l =
      if enough
      then (true, record { rbl = l.rbl ++ (reg ∷ []); pml = add_pmaplist enough_pmap reg l.pml })
      else (false, l)

  abbrev pub unless_found : Bool → Bool → Mapping → Lists → Option Mapping → Bool × Lists
  unless_found enough enough_pmap reg l none = register enough enough_pmap reg l
  unless_found enough enough_pmap reg l (some fnd) =
      if fnd.vers == reg.vers
      then (same_string fnd.addr reg.addr, l)
      else register enough enough_pmap reg l

  -- The mapping `reg` carries the owner that is passed to `map_set`.
  unfoldable pub map_set : Bool → Bool → Mapping → Lists → Bool × Lists
  map_set enough enough_pmap reg l =
      unless_found enough enough_pmap reg l (find_service reg.prog reg.vers reg.netid l.rbl)

  -- The mappings that are not passed over by `map_unset`.
  abbrev pub concerns : Mapping → Mapping → Bool
  concerns reg m =
      ((m.prog == reg.prog) && (m.vers == reg.vers))
      && (is_empty reg.netid || same_case reg.netid m.netid)

  abbrev pub may_unset : List ℕ → Mapping → Bool
  may_unset owner m = same_string owner superuser || same_string m.owner owner

  abbrev pub pass : Mapping → Bool × Bool × List Mapping → Bool × Bool × List Mapping
  pass m (ok, ans, ms) = (ok, ans, m ∷ ms)

  abbrev pub unlinked : Bool × Bool × List Mapping → Bool × Bool × List Mapping
  unlinked (ok, ans, ms) = (ok, true, ms)

  -- Whether the loop ran to the end, whether it removed a mapping, and what it left.
  unfoldable pub unset_loop : Mapping → List ℕ → List Mapping → Bool × Bool × List Mapping
  unset_loop reg owner [] = (true, false, [])
  unset_loop reg owner (m ∷ ms) =
      let rest = unset_loop reg owner ms in
      if concerns reg m
      then (if may_unset owner m then unlinked rest else (false, false, m ∷ ms))
      else pass m rest

  abbrev pub unset_pmap : Mapping → ℕ → List Pmap → List Pmap
  unset_pmap reg prot [] = []
  unset_pmap reg prot (p ∷ ps) =
      let rest = unset_pmap reg prot ps in
      if ((p.prog == reg.prog) && (p.vers == reg.vers)) && ((prot == 0) || (p.prot == prot))
      then rest
      else p ∷ rest

  -- All occurrences where no network is named.
  abbrev pub del_protocol : List ℕ → Option ℕ → Option ℕ
  del_protocol netid (some prot) = some prot
  del_protocol netid none = if is_empty netid then some 0 else none

  abbrev pub unset_protocol : Mapping → Option ℕ → List Pmap → List Pmap
  unset_protocol reg none pml = pml
  unset_protocol reg (some prot) pml = unset_pmap reg prot pml

  unfoldable pub del_pmaplist : Mapping → List Pmap → List Pmap
  del_pmaplist reg pml = unset_protocol reg (del_protocol reg.netid (protocol reg.netid)) pml

  abbrev pub after_loop : Mapping → List Pmap → Bool × Bool × List Mapping → Bool × Lists
  after_loop reg pml (false, ans, ms) = (false, record { rbl = ms; pml = pml })
  after_loop reg pml (true, ans, ms) =
      (true, record { rbl = ms; pml = if ans then del_pmaplist reg pml else pml })

  -- `owner` is `none` where the pointer is NULL.
  unfoldable pub map_unset : Mapping → Option (List ℕ) → Lists → Bool × Lists
  map_unset reg none l = (false, l)
  map_unset reg (some owner) l = after_loop reg l.pml (unset_loop reg owner l.rbl)

  -- The changes of `pmapproc_change`, for the mapping and the owner that it has made out: `format`
  -- writes the universal address of a port.
  module _ (format : ℕ → ℕ → List ℕ) where
    abbrev pub pmap_mapping : Pmap → List ℕ → List ℕ → Mapping
    pmap_mapping reg netid owner = record {
      prog = reg.prog;
      vers = reg.vers;
      netid = netid;
      addr = format (reg.port / 256 % 256) (reg.port % 256);
      owner = owner;
    }

    unfoldable pub pmap_set : Bool → Bool → Pmap → List ℕ → Lists → Bool × Lists
    pmap_set enough enough_pmap reg owner l =
        if reg.prot == ipproto_udp
        then map_set enough enough_pmap (pmap_mapping reg udptrans owner) l
        else if reg.prot == ipproto_tcp
        then map_set enough enough_pmap (pmap_mapping reg tcptrans owner) l
        else (false, l)

    unfoldable pub pmap_unset : Pmap → List ℕ → Lists → Bool × Lists
    pmap_unset reg owner l =
        let (ans1, l1) = map_unset (pmap_mapping reg tcptrans owner) (some owner) l in
        let (ans2, l2) = map_unset (pmap_mapping reg udptrans owner) (some owner) l1 in
        (ans1 || ans2, l2)
