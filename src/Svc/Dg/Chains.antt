-- ===== src/Svc/Dg/Chains.antt =====
-- The chains of the cache hold the live entries, the newest first.
use oncrpc4_win.Common.{
  ◌≡◌, ◌≢◌, refl, sym, ap, ◌∙◌, Bool, true, false, Option, none, some, List, [], ◌∷◌, ◌++◌, All,
  if◌then◌else◌, append_assoc, append-nil, ==_refl, ==_false, Bool-cases, inl, inr,
}
use oncrpc4_win.Svc.Dg.{CacheNode, unlink, find_first}

abbrev pub one : Bool → CacheNode → List CacheNode
one true n = n ∷ []
one false n = []

-- The entries at a place, of a list of entries with the oldest first.
abbrev pub newest : (CacheNode → Bool) → List CacheNode → List CacheNode
newest at [] = []
newest at (n ∷ ns) = newest at ns ++ one (at n) n

abbrev pub or_else : Option CacheNode → Option CacheNode → Option CacheNode
or_else (some n) o = some n
or_else none o = o

-- The last entry of a list that passes a test.
abbrev pub find_newest : (CacheNode → Bool) → List CacheNode → Option CacheNode
find_newest test [] = none
find_newest test (n ∷ ns) = or_else (find_newest test ns) (if test n then some n else none)

or_else-none : (o : Option CacheNode) → or_else o none ≡ o
or_else-none none = refl
or_else-none (some n) = refl

find_first-append :
    (test : CacheNode → Bool) (xs ys : List CacheNode)
    → find_first test (xs ++ ys) ≡ or_else (find_first test xs) (find_first test ys)
unfolding find_first
find_first-append test [] ys = refl
find_first-append test (x ∷ xs) ys = elim (Bool-cases (test x)) [
  | inl e ↦ rw e refl
  | inr e ↦ rw e (find_first-append test xs ys)
]

find_first-one :
    (test at : CacheNode → Bool) (n : CacheNode)
    → (test n ≡ true → at n ≡ true)
    → find_first test (one (at n) n) ≡ (if test n then some n else none)
unfolding find_first
find_first-one test at n h = elim (Bool-cases (test n)) [
  | inl e ↦ rw (h e, e) refl
  | inr e ↦ elim (Bool-cases (at n)) [ inl a ↦ rw (a, e) refl | inr a ↦ rw (a, e) refl ]
]

-- What a test looks for is at its place: the chain there gives the newest of all the entries.
pub find_first-newest :
    (test at : CacheNode → Bool) (ns : List CacheNode)
    → ((n : CacheNode) → test n ≡ true → at n ≡ true)
    → find_first test (newest at ns) ≡ find_newest test ns
unfolding find_first
find_first-newest test at [] h = refl
find_first-newest test at (n ∷ ns) h =
    find_first-append test (newest at ns) (one (at n) n)
    ∙ ap (λ o. or_else o (find_first test (one (at n) n))) (find_first-newest test at ns h)
    ∙ ap (or_else (find_newest test ns)) (find_first-one test at n (h n))

pub newest-append :
    (at : CacheNode → Bool) (ns : List CacheNode) (n : CacheNode)
    → newest at (ns ++ (n ∷ [])) ≡ one (at n) n ++ newest at ns
newest-append at [] n = sym (append-nil (one (at n) n))
newest-append at (m ∷ ns) n =
    ap (λ t. t ++ one (at m) m) (newest-append at ns n)
    ∙ append_assoc (one (at n) n) (newest at ns) (one (at m) m)

pub All-append :
    (P : CacheNode → Type 0) (xs ys : List CacheNode) → All P xs → All P ys → All P (xs ++ ys)
All-append P [] ys h k = k
All-append P (x ∷ xs) ys (h, hs) k = (h, All-append P xs ys hs k)

one-All : (P : CacheNode → Type 0) (b : Bool) (n : CacheNode) → P n → All P (one b n)
one-All P true n h = (h, tt)
one-All P false n h = tt

newest-All :
    (P : CacheNode → Type 0) (at : CacheNode → Bool) (ns : List CacheNode)
    → All P ns
    → All P (newest at ns)
newest-All P at [] h = tt
newest-All P at (n ∷ ns) (h, hs) =
    All-append P (newest at ns) (one (at n) n) (newest-All P at ns hs) (one-All P (at n) n h)

unlink_last :
    (v : CacheNode) (ns : List CacheNode)
    → All (λ n. n.id ≢ v.id) ns
    → unlink v (ns ++ (v ∷ [])) ≡ some ns
unfolding unlink
unlink_last v [] h = rw (==_refl v.id) refl
unlink_last v (n ∷ ns) (h, hs) = rw (==_false n.id v.id h, unlink_last v ns hs) refl

-- The oldest entry is the last of its chain, where it is found; the other chains are without it.
pub unlink-newest :
    (at : CacheNode → Bool) (v : CacheNode) (ns : List CacheNode)
    → at v ≡ true
    → All (λ n. n.id ≢ v.id) ns
    → unlink v (newest at (v ∷ ns)) ≡ some (newest at ns)
unlink-newest at v ns e h =
    rw e (unlink_last v (newest at ns) (newest-All (λ n. n.id ≢ v.id) at ns h))

pub newest_elsewhere :
    (at : CacheNode → Bool) (v : CacheNode) (ns : List CacheNode)
    → at v ≡ false
    → newest at (v ∷ ns) ≡ newest at ns
newest_elsewhere at v ns e = rw e (append-nil (newest at ns))
