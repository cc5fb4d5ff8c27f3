-- ===== src/Svc/Dg.antt =====
-- libsrc/svc_dg.c, the cache of replies by which a datagram transport answers a request that comes
-- again: `svc_dg_enablecache`, `cache_set` and `cache_get`.
pub mod Ring
pub mod Chains
pub mod Cache
pub mod Replay
use oncrpc4_win.Common.{
  ℕ, zero, suc, ◌+◌, ◌*◌, ◌%◌, ◌^◌, Bool, true, false, ◌&&◌, Option, none, some, List, [], ◌∷◌,
  replicate, ◌==◌, if◌then◌else◌,
}

-- `struct cache_node`, with its address `id`. `reply` is the address of the reply's buffer. The
-- nodes that `cache_next` links are a list.
pub record CacheNode : Type 0 where
  pub id : ℕ
  pub xid : ℕ
  pub proc : ℕ
  pub vers : ℕ
  pub prog : ℕ
  pub addr : List ℕ
  pub reply : ℕ
  pub replylen : ℕ

-- `struct cl_cache`. `entries` gives the chain at an index, `fifo` has a slot for each entry.
pub record ClCache : Type 0 where
  pub size : ℕ
  pub entries : ℕ → List CacheNode
  pub fifo : List (Option CacheNode)
  pub nextvictim : ℕ
  pub prog : ℕ
  pub vers : ℕ
  pub proc : ℕ

-- What the cache knows of the transport: `su_xid`, `xp_rtaddr`, the address of `rpc_buffer`, and
-- `xdrs_base`, the buffer that `xdrmem_create` has set up `su_xdrs` over.
pub record DgXprt : Type 0 where
  pub cache : ClCache
  pub xid : ℕ
  pub rtaddr : List ℕ
  pub rpc_buffer : ℕ
  pub xdrs_base : ℕ

-- `rm_call.cb_proc`, `cb_vers` and `cb_prog` of a request.
pub record Asked : Type 0 where
  pub proc : ℕ
  pub vers : ℕ
  pub prog : ℕ

-- `SPARSENESS * uc_size`, and `CACHE_LOC`, for a size that is not a multiple of 2^30: there the
-- product wraps to 0, and C divides by zero.
abbrev pub sparse : ℕ → ℕ
sparse size = (4 * size) % 2 ^ 32

unfoldable pub cache_loc : ℕ → ℕ → ℕ
cache_loc size xid = xid % sparse size

-- A new cache, and what the memory holds in the fields that are not set.
abbrev pub new_cache : Asked → ℕ → ClCache
new_cache unset size = record {
  size = size;
  entries = λ loc. [];
  fifo = replicate size none;
  nextvictim = 0;
  prog = unset.prog;
  vers = unset.vers;
  proc = unset.proc;
}

-- `svc_dg_enablecache`, with the answers of the three allocations, and what the first leaves in the
-- fields that are not set.
unfoldable pub svc_dg_enablecache :
    Asked → Option ClCache → Bool → Bool → Bool → ℕ → Bool × Option ClCache
svc_dg_enablecache unset (some uc) cache_ok entries_ok fifo_ok size = (false, some uc)
svc_dg_enablecache unset none false entries_ok fifo_ok size = (false, none)
svc_dg_enablecache unset none true false fifo_ok size = (false, none)
svc_dg_enablecache unset none true true false size = (false, none)
svc_dg_enablecache unset none true true true size = (true, some (new_cache unset size))

-- `uc_fifo[i]`, NULL as `none`, and a write to it.
abbrev pub slot : List (Option CacheNode) → ℕ → Option CacheNode
slot [] i = none
slot (x ∷ xs) zero = x
slot (x ∷ xs) (suc i) = slot xs i

abbrev pub set_slot : List (Option CacheNode) → ℕ → CacheNode → List (Option CacheNode)
set_slot [] i v = []
set_slot (x ∷ xs) zero v = some v ∷ xs
set_slot (x ∷ xs) (suc i) v = x ∷ set_slot xs i v

abbrev pub keep : CacheNode → Option (List CacheNode) → Option (List CacheNode)
keep n none = none
keep n (some ns) = some (n ∷ ns)

-- The chain without the victim, or `none` if the victim is not on it.
unfoldable pub unlink : CacheNode → List CacheNode → Option (List CacheNode)
unlink victim [] = none
unlink victim (n ∷ ns) =
    let rest = unlink victim ns in if n.id == victim.id then some ns else keep n rest

abbrev pub set_entry : (ℕ → List CacheNode) → ℕ → List CacheNode → ℕ → List CacheNode
set_entry entries loc chain l = if l == loc then chain else entries l

-- The node at `id` with what the last `cache_get` and the transport tell of the request.
abbrev pub filled_in : DgXprt → ℕ → ℕ → CacheNode
filled_in x id replylen = record {
  id = id;
  xid = x.xid;
  proc = x.cache.proc;
  vers = x.cache.vers;
  prog = x.cache.prog;
  addr = x.rtaddr;
  reply = x.rpc_buffer;
  replylen = replylen;
}

-- "Store it away": the reply's buffer goes to the node, and the transport takes `newbuf`.
abbrev pub store_away : DgXprt → (ℕ → List CacheNode) → ℕ → ℕ → ℕ → DgXprt
store_away x entries id newbuf replylen =
    let uc = x.cache in
    let victim = filled_in x id replylen in
    let loc = cache_loc uc.size victim.xid in
    record x {
      rpc_buffer = newbuf;
      xdrs_base = newbuf;
      cache = record uc {
        entries = set_entry entries loc (victim ∷ entries loc);
        fifo = set_slot uc.fifo uc.nextvictim victim;
        nextvictim = (uc.nextvictim + 1) % uc.size;
      };
    }

abbrev pub reuse : DgXprt → ℕ → CacheNode → Option (List CacheNode) → DgXprt
reuse x replylen victim none = x
reuse x replylen victim (some chain) =
    let loc = cache_loc x.cache.size victim.xid in
    store_away x (set_entry x.cache.entries loc chain) victim.id victim.reply replylen

abbrev pub allocate : DgXprt → ℕ → Option ℕ → Option ℕ → DgXprt
allocate x replylen none newbuf = x
allocate x replylen (some id) none = x
allocate x replylen (some id) (some newbuf) = store_away x x.cache.entries id newbuf replylen

abbrev pub with_victim : DgXprt → ℕ → Option ℕ → Option ℕ → Option CacheNode → DgXprt
with_victim x replylen address newbuf none = allocate x replylen address newbuf
with_victim x replylen address newbuf (some victim) =
    reuse x replylen victim (unlink victim (x.cache.entries (cache_loc x.cache.size victim.xid)))

-- `address` and `newbuf` are the addresses that `mem_alloc` answers, where it is asked.
unfoldable pub cache_set : Option ℕ → Option ℕ → DgXprt → ℕ → DgXprt
cache_set address newbuf x replylen =
    with_victim x replylen address newbuf (slot x.cache.fifo x.cache.nextvictim)

abbrev pub same_bytes : List ℕ → List ℕ → Bool
same_bytes [] [] = true
same_bytes [] (b ∷ bs) = false
same_bytes (a ∷ as_) [] = false
same_bytes (a ∷ as_) (b ∷ bs) = a == b && same_bytes as_ bs

-- The test of `cache_get`: `msg` is the request that the transport has received.
unfoldable pub is_same : DgXprt → Asked → CacheNode → Bool
is_same x msg ent =
    ((((ent.xid == x.xid) && (ent.proc == msg.proc)) && (ent.vers == msg.vers))
      && (ent.prog == msg.prog))
    && same_bytes ent.addr x.rtaddr

unfoldable pub find_first : (CacheNode → Bool) → List CacheNode → Option CacheNode
find_first test [] = none
find_first test (n ∷ ns) = let rest = find_first test ns in if test n then some n else rest

-- The reply and its length, or what `cache_set` will need.
abbrev pub answer : DgXprt → Asked → Option CacheNode → Option (ℕ × ℕ) × DgXprt
answer x msg (some ent) = (some (ent.reply, ent.replylen), x)
answer x msg none = (
  none,
  record x { cache = record x.cache { proc = msg.proc; vers = msg.vers; prog = msg.prog } },
)

unfoldable pub cache_get : DgXprt → Asked → Option (ℕ × ℕ) × DgXprt
cache_get x msg =
    answer x msg (find_first (is_same x msg) (x.cache.entries (cache_loc x.cache.size x.xid)))
