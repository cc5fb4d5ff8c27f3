-- ===== src/Tests/Dg.antt =====
-- Runs of the cache of replies of datagram transports.
use oncrpc4_win.Common.{ℕ, ◌≡◌, ◌≢◌, refl, some, [], ◌∷◌, ◌++◌, arith}
use oncrpc4_win.Svc.Dg.{
  CacheNode, DgXprt, Asked, filled_in, cache_set, is_same, find_first, cache_loc, cache_get,
}
use oncrpc4_win.Svc.Dg.Chains.{newest}
use oncrpc4_win.Svc.Dg.Cache.{Holds, at, cache_set_lem}
use oncrpc4_win.Svc.Dg.Replay.{cache_set-get}

-- The entry of a request with the number 9, in the buffer at 1000.
abbrev entry : CacheNode
entry = record {
  id = 1;
  xid = 9;
  proc = 3;
  vers = 2;
  prog = 100000;
  addr = 7 ∷ [];
  reply = 1000;
  replylen = 24;
}

-- A transport whose cache has one slot, which that entry takes, and that has received the request
-- with the number `xid`.
abbrev transport : ℕ → DgXprt
transport xid = record {
  cache = record {
    size = 1;
    entries = λ l. newest (at 1 l) (entry ∷ []);
    fifo = some entry ∷ [];
    nextvictim = 0;
    prog = 100000;
    vers = 2;
    proc = 3;
  };
  xid = xid;
  rtaddr = 7 ∷ [];
  rpc_buffer = 2000;
  xdrs_base = 2000;
}

transport-Holds : (xid : ℕ) → Holds (transport xid) (entry ∷ []) 0
transport-Holds xid = record {
  chains = λ l. refl;
  ring = record {
    front = [];
    back = some entry ∷ [];
    split = refl;
    at = refl;
    turned = refl;
    inside = omega arith;
  };
  size = refl;
  ids = (tt, tt);
  replies = (tt, tt);
  buffer = (λ e. omega (arith, e), tt);
  encodes = refl;
}

abbrev question : Asked
question = record { proc = 3; vers = 2; prog = 100000 }

cache_set_lem_example :
    Holds
      (cache_set (some 5) (some 3000) (transport 10) 28)
      ([] ++ (filled_in (transport 10) 1 28 ∷ []))
      0
cache_set_lem_example =
    cache_set_lem (transport 10) (entry ∷ []) 0 5 3000 28 (transport-Holds 10)
      (λ e. omega (arith, e), tt) (λ e. omega (arith, e), tt) (λ e. omega (arith, e))

cache_set-get_example :
    let z = cache_set (some 5) (some 3000) (cache_get (transport 10) question).1 28 in
    ((cache_get z question).0 ≡ some (2000, 28)) × (z.rpc_buffer ≢ 2000)
unfolding cache_get is_same find_first cache_loc
cache_set-get_example =
    cache_set-get (transport 10) question (entry ∷ []) 0 5 3000 28 (transport-Holds 10)
      (λ e. omega (arith, e), tt) (λ e. omega (arith, e), tt) (λ e. omega (arith, e)) refl
