-- ===== src/Svc/Dg/Cache.antt =====
-- The cache is a bounded queue of the latest replies, searched from the newest.
use mathlib.Core.Path.{subst}
use oncrpc4_win.Common.{
  ℕ, zero, suc, ◌+◌, ◌-◌, ◌%◌, ◌<◌, ◌≡◌, ◌≢◌, refl, sym, ap, ◌∙◌, Bool, Option, none, some, List,
  [], ◌∷◌, ◌++◌, map, replicate, length, All, arith, ◌==◌, append_assoc, length-append, Bool-cases,
  inl, inr, ==→eq, ==_refl,
}
use oncrpc4_win.Svc.Dg.{
  Asked, new_cache, CacheNode, DgXprt, cache_loc, set_slot, unlink, set_entry, filled_in,
  store_away, reuse, cache_set,
}
use oncrpc4_win.Svc.Dg.Ring.{Ring, older, slot-oldest, set_slot-Ring, length-Ring}
use oncrpc4_win.Svc.Dg.Chains.{newest, newest-append, All-append, unlink-newest, newest_elsewhere}

abbrev pub Distinct : (CacheNode → ℕ) → List CacheNode → Type 0
Distinct f [] = Unit
Distinct f (n ∷ ns) = All (λ m. f m ≢ f n) ns × Distinct f ns

-- The entries at an index of the hash table.
abbrev pub at : ℕ → ℕ → CacheNode → Bool
at size l n = l == cache_loc size n.xid

-- The cache holds the entries `ns`, the oldest first, and has room for `free` more before it reuses
-- one. No two entries share a node or a buffer, and none has the buffer of the transport, which the
-- next reply is written to: the transport's stream encodes into it.
pub record Holds (x : DgXprt) (ns : List CacheNode) (free : ℕ) : Type 0 where
  pub chains : (l : ℕ) → x.cache.entries l ≡ newest (at x.cache.size l) ns
  pub ring : Ring x.cache.fifo x.cache.nextvictim (replicate free none ++ map some ns)
  pub size : x.cache.size ≡ free + length ns
  pub ids : Distinct (λ n. n.id) ns
  pub replies : Distinct (λ n. n.reply) ns
  pub buffer : All (λ n. n.reply ≢ x.rpc_buffer) ns
  pub encodes : x.xdrs_base ≡ x.rpc_buffer

abbrev pub left : ℕ → List CacheNode → List CacheNode
left zero [] = []
left zero (n ∷ ns) = ns
left (suc k) ns = ns

abbrev pub address : ℕ → List CacheNode → ℕ → ℕ
address zero [] id = id
address zero (n ∷ ns) id = n.id
address (suc k) ns id = id

Distinct-append :
    (f : CacheNode → ℕ) (ns : List CacheNode) (n : CacheNode)
    → Distinct f ns
    → All (λ m. f m ≢ f n) ns
    → Distinct f (ns ++ (n ∷ []))
Distinct-append f [] n d h = (tt, tt)
Distinct-append f (m ∷ ns) n (dm, d) (h, hs) =
    (All-append (λ k. f k ≢ f m) ns (n ∷ []) dm (λ e. h (sym e), tt), Distinct-append f ns n d hs)

length-map : (ns : List CacheNode) → length (map some ns) ≡ length ns
length-map [] = refl
length-map (n ∷ ns) = ap suc (length-map ns)

length-free : (k : ℕ) → length {A = Option CacheNode} (replicate k none) ≡ k
length-free zero = refl
length-free (suc k) = ap suc (length-free k)

map-append :
    (ns : List CacheNode) (n : CacheNode) → map some (ns ++ (n ∷ [])) ≡ map some ns ++ (some n ∷ [])
map-append [] n = refl
map-append (m ∷ ns) n = ap (λ t. some m ∷ t) (map-append ns n)

-- The new entry joins the chain of its place.
entered :
    (size : ℕ) (n : CacheNode) (ns : List CacheNode) (entries : ℕ → List CacheNode) (l : ℕ)
    → ((k : ℕ) → entries k ≡ newest (at size k) ns)
    → set_entry entries (cache_loc size n.xid) (n ∷ entries (cache_loc size n.xid)) l
      ≡ newest (at size l) (ns ++ (n ∷ []))
entered size n ns entries l h =
    let loc : ℕ = cache_loc size n.xid in
    rw (newest-append (at size l) ns n) (elim (Bool-cases (l == loc)) [
      | inl e ↦
          rw e (ap (λ t. n ∷ t) (h loc ∙ ap (λ k. newest (at size k) ns) (sym (==→eq l loc e))))
      | inr e ↦ rw e (h l)
    ])

-- The oldest entry left the chain of its place.
removed :
    (size : ℕ) (v : CacheNode) (ns : List CacheNode) (entries : ℕ → List CacheNode) (l : ℕ)
    → ((k : ℕ) → entries k ≡ newest (at size k) (v ∷ ns))
    → set_entry entries (cache_loc size v.xid) (newest (at size (cache_loc size v.xid)) ns) l
      ≡ newest (at size l) ns
removed size v ns entries l h =
    let loc : ℕ = cache_loc size v.xid in
    elim (Bool-cases (l == loc)) [
      | inl e ↦ rw e (ap (λ k. newest (at size k) ns) (sym (==→eq l loc e)))
      | inr e ↦ rw e (h l ∙ newest_elsewhere (at size l) v ns e)
    ]

-- `store_away` where a slot of the ring and the chains are ready for the new entry.
stored :
    (x : DgXprt) (entries : ℕ → List CacheNode) (ns : List CacheNode) (free : ℕ)
    (slots : List (Option CacheNode)) (id newbuf replylen : ℕ)
    → ((l : ℕ) → entries l ≡ newest (at x.cache.size l) ns)
    → Ring x.cache.fifo x.cache.nextvictim slots
    → older slots ≡ replicate free none ++ map some ns
    → length slots ≡ x.cache.size
    → x.cache.size ≡ suc (free + length ns)
    → Distinct (λ n. n.id) ns
    → All (λ n. n.id ≢ id) ns
    → Distinct (λ n. n.reply) ns
    → All (λ n. n.reply ≢ x.rpc_buffer) ns
    → All (λ n. n.reply ≢ newbuf) ns
    → x.rpc_buffer ≢ newbuf
    → Holds (store_away x entries id newbuf replylen) (ns ++ (filled_in x id replylen ∷ [])) free
stored x entries ns free slots id newbuf replylen hc hr ho hl hz hi hid hrep hb hn hne =
    let n = filled_in x id replylen in
    record {
      chains = λ l. entered x.cache.size n ns entries l hc;
      ring =
          subst
            (λ m.
              Ring (set_slot x.cache.fifo x.cache.nextvictim n) ((x.cache.nextvictim + 1) % m)
                (replicate free none ++ map some (ns ++ (n ∷ []))))
            (length-Ring hr ∙ hl)
            (subst
              (Ring (set_slot x.cache.fifo x.cache.nextvictim n)
                ((x.cache.nextvictim + 1) % length x.cache.fifo))
              (ap (λ t. t ++ (some n ∷ [])) ho
                ∙ append_assoc (replicate free none) (map some ns) (some n ∷ [])
                ∙ ap (λ t. replicate free none ++ t) (sym (map-append ns n)))
              (set_slot-Ring n hr));
      size = omega (arith, hz, length-append ns (n ∷ []));
      ids = Distinct-append (λ m. m.id) ns n hi hid;
      replies = Distinct-append (λ m. m.reply) ns n hrep hb;
      buffer = All-append (λ m. m.reply ≢ newbuf) ns (n ∷ []) hn (hne, tt);
      encodes = refl;
    }

length-slots :
    (free : ℕ) (ns : List CacheNode)
    → length (replicate free none ++ map some ns) ≡ free + length ns
length-slots free ns = omega (
  arith,
  length-append {A = Option CacheNode} (replicate free none) (map some ns),
  length-map ns,
  length-free free,
)

-- The victim is the oldest entry, when there is no free slot.
victim_reused :
    (x : DgXprt) (v : CacheNode) (ns : List CacheNode) (replylen : ℕ)
    → Holds x (v ∷ ns) 0
    → Holds
        (reuse x replylen v (unlink v (x.cache.entries (cache_loc x.cache.size v.xid))))
        (ns ++ (filled_in x v.id replylen ∷ []))
        0
victim_reused x v ns replylen h =
    let loc : ℕ = cache_loc x.cache.size v.xid in
    let found : unlink v (x.cache.entries loc) ≡ some (newest (at x.cache.size loc) ns) =
      ap (unlink v) (h.chains loc)
      ∙ unlink-newest (at x.cache.size loc) v ns (==_refl loc) h.ids.0 in
    rw found (
      stored x (set_entry x.cache.entries loc (newest (at x.cache.size loc) ns)) ns 0
        (some v ∷ map some ns) v.id v.reply replylen
        (λ l. removed x.cache.size v ns x.cache.entries l h.chains) h.ring refl
        (omega (arith, length-map ns, h.size)) (omega (arith, h.size)) h.ids.1 h.ids.0 h.replies.1
        h.buffer.1 h.replies.0 (λ e. h.buffer.0 (sym e)))

-- A reply is remembered with what the request before it asked, as the newest entry; where no slot
-- is free the oldest is forgotten, and its node and its buffer are used again. The allocator's
-- addresses are of memory that is not in use. The transport's stream then encodes into its new
-- buffer.
pub cache_set_lem :
    (x : DgXprt) (ns : List CacheNode) (free id newbuf replylen : ℕ)
    → Holds x ns free
    → All (λ n. n.id ≢ id) ns
    → All (λ n. n.reply ≢ newbuf) ns
    → x.rpc_buffer ≢ newbuf
    → Holds
        (cache_set (some id) (some newbuf) x replylen)
        (left free ns ++ (filled_in x (address free ns id) replylen ∷ []))
        (free - 1)
unfolding cache_set
cache_set_lem x [] zero id newbuf replylen h hi hb hn =
    absurd (
      omega (arith, ap length h.ring.turned, length-append h.ring.back h.ring.front, h.ring.inside))
cache_set_lem x (v ∷ ns) zero id newbuf replylen h hi hb hn =
    rw (slot-oldest h.ring) (victim_reused x v ns replylen h)
cache_set_lem x ns (suc k) id newbuf replylen h hi hb hn =
    let one_less : k ≡ suc k - 1 = omega arith in
    rw (slot-oldest h.ring, ← one_less)
      (stored x x.cache.entries ns k (none ∷ (replicate k none ++ map some ns)) id newbuf replylen
        h.chains h.ring refl (omega (arith, length-slots (suc k) ns, h.size))
        (omega (arith, h.size)) h.ids hi h.replies h.buffer hb hn)

-- A cache that has been enabled holds no entries and has room for as many as were asked for.
pub new_cache-Holds :
    (unset : Asked) (size xid : ℕ) (rtaddr : List ℕ) (buffer : ℕ)
    → 0 < size
    → Holds
        (record {
          cache = new_cache unset size;
          xid = xid;
          rtaddr = rtaddr;
          rpc_buffer = buffer;
          xdrs_base = buffer;
        })
        []
        size
new_cache-Holds unset size xid rtaddr buffer h = record {
  chains = λ l. refl;
  ring = record {
    front = [];
    back = replicate size none;
    split = refl;
    at = refl;
    turned = refl;
    inside = omega (arith, length-free size);
  };
  size = omega arith;
  ids = tt;
  replies = tt;
  buffer = tt;
  encodes = refl;
}
