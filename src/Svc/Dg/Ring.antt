-- ===== src/Svc/Dg/Ring.antt =====
-- The slots of `uc_fifo` as a ring: from `uc_nextvictim` on, the oldest comes first.
use oncrpc4_win.Common.{
  ℕ, ◌+◌, ◌%◌, ◌<◌, ◌≡◌, refl, sym, ap, ◌∙◌, Option, none, some, List, [], ◌∷◌, ◌++◌, length, arith,
  append_assoc, append-nil, length-append,
}
use oncrpc4_win.Svc.Dg.{CacheNode, slot, set_slot}

pub record Ring (fifo : List (Option CacheNode)) (next : ℕ) (slots : List (Option CacheNode))
    : Type 0 where
  pub front : List (Option CacheNode)
  pub back : List (Option CacheNode)
  pub split : fifo ≡ front ++ back
  pub at : next ≡ length front
  pub turned : back ++ front ≡ slots
  pub inside : 0 < length back

slot-append :
    (front back : List (Option CacheNode)) (x : Option CacheNode)
    → slot (front ++ (x ∷ back)) (length front) ≡ x
slot-append [] back x = refl
slot-append (y ∷ front) back x = slot-append front back x

set_slot-append :
    (front back : List (Option CacheNode)) (x : Option CacheNode) (v : CacheNode)
    → set_slot (front ++ (x ∷ back)) (length front) v ≡ front ++ (some v ∷ back)
set_slot-append [] back x v = refl
set_slot-append (y ∷ front) back x v = ap (λ t. y ∷ t) (set_slot-append front back x v)

-- The slots, the oldest taken off.
abbrev pub older : List (Option CacheNode) → List (Option CacheNode)
older [] = []
older (x ∷ xs) = xs

abbrev pub oldest : List (Option CacheNode) → Option CacheNode
oldest [] = none
oldest (x ∷ xs) = x

wraps : (n m : ℕ) → m ≡ n → 0 < m → n % m ≡ 0
wraps n m e h = grind arith

stays : (n m : ℕ) → n < m → n % m ≡ n
stays n m h = grind arith

turn :
    (front back : List (Option CacheNode)) (v : CacheNode) (next : ℕ)
    → next ≡ length front
    → Ring
        (front ++ (some v ∷ back))
        ((next + 1) % length (front ++ (some v ∷ back)))
        (back ++ (front ++ (some v ∷ [])))
turn front [] v next e = record {
  front = [];
  back = front ++ (some v ∷ []);
  split = refl;
  at =
      wraps (next + 1) (length (front ++ (some v ∷ [])))
        (omega (arith, e, length-append front (some v ∷ [])))
        (omega (arith, length-append front (some v ∷ [])));
  turned = append-nil (front ++ (some v ∷ []));
  inside = omega (arith, length-append front (some v ∷ []));
}
turn front (b ∷ bs) v next e = record {
  front = front ++ (some v ∷ []);
  back = b ∷ bs;
  split = sym (append_assoc front (some v ∷ []) (b ∷ bs));
  at =
      stays (next + 1) (length (front ++ (some v ∷ b ∷ bs)))
        (omega (arith, e, length-append front (some v ∷ b ∷ bs)))
      ∙ omega (arith, e, length-append front (some v ∷ []));
  turned = refl;
  inside = omega arith;
}

slot_back :
    (front back : List (Option CacheNode))
    → 0 < length back
    → slot (front ++ back) (length front) ≡ oldest (back ++ front)
slot_back front [] h = absurd (omega arith)
slot_back front (x ∷ back) h = slot-append front back x

set_slot_back :
    (front back : List (Option CacheNode)) (v : CacheNode)
    → 0 < length back
    → Ring
        (set_slot (front ++ back) (length front) v)
        ((length front + 1) % length (front ++ back))
        (older (back ++ front) ++ (some v ∷ []))
set_slot_back front [] v h = absurd (omega arith)
set_slot_back front (x ∷ back) v h =
    let same_length : length (front ++ (some v ∷ back)) ≡ length (front ++ (x ∷ back)) =
      omega (arith, length-append front (some v ∷ back), length-append front (x ∷ back)) in
    rw (set_slot-append front back x v, ← same_length, append_assoc back front (some v ∷ []))
      (turn front back v (length front) refl)

pub slot-oldest :
    {fifo : List (Option CacheNode)} {next : ℕ} {slots : List (Option CacheNode)}
    → Ring fifo next slots
    → slot fifo next ≡ oldest slots
slot-oldest r = rw (r.split, r.at, ← r.turned) (slot_back r.front r.back r.inside)

pub set_slot-Ring :
    {fifo : List (Option CacheNode)} {next : ℕ} {slots : List (Option CacheNode)} (v : CacheNode)
    → Ring fifo next slots
    → Ring (set_slot fifo next v) ((next + 1) % length fifo) (older slots ++ (some v ∷ []))
set_slot-Ring v r = rw (r.split, r.at, ← r.turned) (set_slot_back r.front r.back v r.inside)

pub length-Ring :
    {fifo : List (Option CacheNode)} {next : ℕ} {slots : List (Option CacheNode)}
    → Ring fifo next slots
    → length fifo ≡ length slots
length-Ring r = omega (
  arith,
  ap length r.split,
  ap length (sym r.turned),
  length-append r.front r.back,
  length-append r.back r.front,
)
