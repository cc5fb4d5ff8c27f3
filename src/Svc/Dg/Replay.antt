-- ===== src/Svc/Dg/Replay.antt =====
-- A request that comes again is answered from the cache.
use oncrpc4_win.Common.{
  ℕ, ◌-◌, ◌≡◌, ◌≢◌, refl, sym, ap, ◌∙◌, Bool, true, false, ◌&&◌, Option, none, some, List, [], ◌∷◌,
  ◌++◌, All, ◌==◌, ==→eq, ==_refl,
}
use oncrpc4_win.Svc.Dg.{
  CacheNode, DgXprt, Asked, cache_loc, filled_in, cache_set, same_bytes, is_same, find_first,
  answer, cache_get, reuse, allocate, with_victim, unlink, slot,
}
use oncrpc4_win.Svc.Dg.Chains.{find_newest, find_first-newest}
use oncrpc4_win.Svc.Dg.Cache.{Holds, at, left, address, cache_set_lem}

first_holds : (a b : Bool) → (a && b) ≡ true → a ≡ true
first_holds true b e = refl
first_holds false b e = e

is_same-xid : (x : DgXprt) (msg : Asked) (n : CacheNode) → is_same x msg n ≡ true → n.xid ≡ x.xid
unfolding is_same
is_same-xid x msg n e =
    let d : Bool = same_bytes n.addr x.rtaddr in
    let e1 =
      first_holds
        ((((n.xid == x.xid) && (n.proc == msg.proc)) && (n.vers == msg.vers))
          && (n.prog == msg.prog))
        d e in
    let e2 =
      first_holds (((n.xid == x.xid) && (n.proc == msg.proc)) && (n.vers == msg.vers))
        (n.prog == msg.prog) e1 in
    let e3 = first_holds ((n.xid == x.xid) && (n.proc == msg.proc)) (n.vers == msg.vers) e2 in
    ==→eq n.xid x.xid (first_holds (n.xid == x.xid) (n.proc == msg.proc) e3)

answer-Holds :
    (x : DgXprt) (msg : Asked) (ns : List CacheNode) (free : ℕ) (o : Option CacheNode)
    → Holds x ns free
    → Holds (answer x msg o).1 ns free
answer-Holds x msg ns free (some n) h = h
answer-Holds x msg ns free none h = record {
  chains = h.chains;
  ring = h.ring;
  size = h.size;
  ids = h.ids;
  replies = h.replies;
  buffer = h.buffer;
  encodes = h.encodes;
}

-- `cache_get` answers with the newest live entry whose transaction, procedure, version, program and
-- address are those of the request; if there is none, it remembers what is asked. The cache keeps
-- its entries.
cache_get_lem :
    (x : DgXprt) (msg : Asked) (ns : List CacheNode) (free : ℕ)
    → Holds x ns free
    → (cache_get x msg ≡ answer x msg (find_newest (is_same x msg) ns))
      × Holds (cache_get x msg).1 ns free
unfolding cache_get
cache_get_lem x msg ns free h =
    let loc : ℕ = cache_loc x.cache.size x.xid in
    let found : find_first (is_same x msg) (x.cache.entries loc) ≡ find_newest (is_same x msg) ns =
      ap (find_first (is_same x msg)) (h.chains loc)
      ∙ find_first-newest (is_same x msg) (at x.cache.size loc) ns (λ n e.
        ap (λ k. loc == cache_loc x.cache.size k) (is_same-xid x msg n e) ∙ ==_refl loc) in
    (
      ap (answer x msg) found,
      answer-Holds x msg ns free (find_first (is_same x msg) (x.cache.entries loc)) h,
    )

same_bytes_refl : (bs : List ℕ) → same_bytes bs bs ≡ true
same_bytes_refl [] = refl
same_bytes_refl (b ∷ bs) = rw (==_refl b, same_bytes_refl bs) refl

find_newest_last :
    (test : CacheNode → Bool) (ns : List CacheNode) (n : CacheNode)
    → test n ≡ true
    → find_newest test (ns ++ (n ∷ [])) ≡ some n
find_newest_last test [] n e = rw e refl
find_newest_last test (m ∷ ns) n e = rw (find_newest_last test ns n e) refl

-- What `cache_set` leaves of the transport.
abbrev SameRequest : DgXprt → DgXprt → Type 0
SameRequest x z = (z.xid ≡ x.xid) × (z.rtaddr ≡ x.rtaddr)

reuse-SameRequest :
    (x : DgXprt) (replylen : ℕ) (v : CacheNode) (o : Option (List CacheNode))
    → SameRequest x (reuse x replylen v o)
reuse-SameRequest x replylen v none = (refl, refl)
reuse-SameRequest x replylen v (some chain) = (refl, refl)

allocate-SameRequest :
    (x : DgXprt) (replylen : ℕ) (a b : Option ℕ) → SameRequest x (allocate x replylen a b)
allocate-SameRequest x replylen none b = (refl, refl)
allocate-SameRequest x replylen (some id) none = (refl, refl)
allocate-SameRequest x replylen (some id) (some newbuf) = (refl, refl)

with_victim-SameRequest :
    (x : DgXprt) (replylen : ℕ) (a b : Option ℕ) (o : Option CacheNode)
    → SameRequest x (with_victim x replylen a b o)
with_victim-SameRequest x replylen a b none = allocate-SameRequest x replylen a b
with_victim-SameRequest x replylen a b (some v) =
    reuse-SameRequest x replylen v (unlink v (x.cache.entries (cache_loc x.cache.size v.xid)))

cache_set-SameRequest :
    (a b : Option ℕ) (x : DgXprt) (replylen : ℕ) → SameRequest x (cache_set a b x replylen)
unfolding cache_set
cache_set-SameRequest a b x replylen =
    with_victim-SameRequest x replylen a b (slot x.cache.fifo x.cache.nextvictim)

-- The entry that is made after a request was not found is what the request looks for.
own_entry :
    (x z : DgXprt) (msg : Asked) (id replylen : ℕ)
    → let y = (answer x msg none).1 in
      SameRequest y z → is_same z msg (filled_in y id replylen) ≡ true
unfolding is_same
own_entry x z msg id replylen (ex, er) =
    rw
      (
        ex,
        er,
        ==_refl x.xid,
        ==_refl msg.proc,
        ==_refl msg.vers,
        ==_refl msg.prog,
        same_bytes_refl x.rtaddr,
      )
      refl

missed :
    (x : DgXprt) (msg : Asked) (o : Option CacheNode)
    → (answer x msg o).0 ≡ none
    → answer x msg o ≡ answer x msg none
missed x msg none e = refl
missed x msg (some n) e = cc

last_holds :
    (P : CacheNode → Type 0) (ns : List CacheNode) (n : CacheNode) → All P (ns ++ (n ∷ [])) → P n
last_holds P [] n (h, _) = h
last_holds P (m ∷ ns) n (_, hs) = last_holds P ns n hs

-- The reply to the request that `cache_get` has missed is cached.
replayed :
    (x : DgXprt) (msg : Asked) (ns : List CacheNode) (free id newbuf replylen : ℕ)
    → Holds x ns free
    → All (λ n. n.id ≢ id) ns
    → All (λ n. n.reply ≢ newbuf) ns
    → x.rpc_buffer ≢ newbuf
    → let z = cache_set (some id) (some newbuf) (answer x msg none).1 replylen in
      ((cache_get z msg).0 ≡ some (x.rpc_buffer, replylen)) × (z.rpc_buffer ≢ x.rpc_buffer)
replayed x msg ns free id newbuf replylen h hi hb hn =
    let y : DgXprt = (answer x msg none).1 in
    let z : DgXprt = cache_set (some id) (some newbuf) y replylen in
    let n : CacheNode = filled_in y (address free ns id) replylen in
    let held : Holds z (left free ns ++ (n ∷ [])) (free - 1) =
      cache_set_lem y ns free id newbuf replylen (answer-Holds x msg ns free none h) hi hb hn in
    let found : find_newest (is_same z msg) (left free ns ++ (n ∷ [])) ≡ some n =
      find_newest_last (is_same z msg) (left free ns) n (
        own_entry x z msg (address free ns id) replylen
          (cache_set-SameRequest (some id) (some newbuf) y replylen)) in
    (
      ap (λ r. r.0)
          ((cache_get_lem z msg (left free ns ++ (n ∷ [])) (free - 1) held).0
            ∙ ap (answer z msg) found),
      λ e. last_holds (λ m. m.reply ≢ z.rpc_buffer) (left free ns) n held.buffer (sym e),
    )

-- A request that is not in the cache, and whose reply is then cached, is found when it comes again:
-- `cache_get` answers with the buffer that the reply was written to, which is no longer the
-- transport's, and with its length. The cache is in order, and what the allocator answers is memory
-- that neither an entry nor the transport uses.
pub cache_set-get :
    (x : DgXprt) (msg : Asked) (ns : List CacheNode) (free id newbuf replylen : ℕ)
    → Holds x ns free
    → All (λ n. n.id ≢ id) ns
    → All (λ n. n.reply ≢ newbuf) ns
    → x.rpc_buffer ≢ newbuf
    → (cache_get x msg).0 ≡ none
    → let z = cache_set (some id) (some newbuf) (cache_get x msg).1 replylen in
      ((cache_get z msg).0 ≡ some (x.rpc_buffer, replylen)) × (z.rpc_buffer ≢ x.rpc_buffer)
cache_set-get x msg ns free id newbuf replylen h hi hb hn e =
    let o : Option CacheNode = find_newest (is_same x msg) ns in
    let (got, kept) = cache_get_lem x msg ns free h in
    let asked : cache_get x msg ≡ answer x msg none =
      got ∙ missed x msg o (sym (ap (λ r. r.0) got) ∙ e) in
    rw asked (replayed x msg ns free id newbuf replylen h hi hb hn)
