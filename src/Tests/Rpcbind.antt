-- ===== src/Tests/Rpcbind.antt =====
-- Runs of the registry of rpcbind.
use oncrpc4_win.Common.{ℕ, refl, true, Option, some, List, [], ◌∷◌}
use oncrpc4_win.Rpcbind.Registry.{Mapping, Lists, same_string, map_set, map_unset}
use oncrpc4_win.Rpcbind.Registry.Set.{Registered, map_set-Registered}
use oncrpc4_win.Rpcbind.Registry.Unset.{Unset, map_unset-Unset}

-- Every address names the port 3 * 256 + 9.
abbrev scan : List ℕ → Option (ℕ × ℕ)
scan s = some (3, 9)

abbrev root : List ℕ
root = b's' ∷ []

abbrev udp : List ℕ
udp = b'u' ∷ []

abbrev tcp : List ℕ
tcp = b't' ∷ []

abbrev mapping : ℕ → List ℕ → Mapping
mapping vers owner = record {
  prog = 100003;
  vers = vers;
  netid = udp;
  addr = b'1' ∷ [];
  owner = owner;
}

-- Version 2 belongs to the user 7.
abbrev lists : Lists
lists = record { rbl = mapping 2 (b'7' ∷ []) ∷ []; pml = [] }

-- Version 3 of the same program.
map_set-Registered_example :
    Registered same_string scan root udp tcp
      (mapping 3 root)
      lists
      (map_set same_string scan root udp tcp true true (mapping 3 root) lists)
map_set-Registered_example =
    map_set-Registered same_string scan root udp tcp true true (mapping 3 root) lists refl

-- The user 8 asks to unset version 2.
map_unset-Unset_example :
    Unset same_string scan root udp tcp
      (mapping 2 (b'8' ∷ []))
      (b'8' ∷ [])
      lists
      (map_unset same_string scan root udp tcp (mapping 2 (b'8' ∷ [])) (some (b'8' ∷ [])) lists)
map_unset-Unset_example =
    map_unset-Unset same_string scan root udp tcp (mapping 2 (b'8' ∷ [])) (b'8' ∷ []) lists
