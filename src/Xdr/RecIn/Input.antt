-- ===== src/Xdr/RecIn/Input.antt =====
-- `get_input_bytes` returns the next bytes of the connection, however they are delivered.
use mathlib.Core.Path.{subst}
use oncrpc4_win.Common.{
  ℕ, zero, suc, ◌+◌, ◌-◌, ◌*◌, ◌%◌, ◌≤◌, ◌<◌, ◌≡◌, refl, sym, ap, ◌∙◌, Bool, false, Option, none,
  some, List, [], ◌∷◌, ◌++◌, length, take, drop, ltb, if◌then◌else◌, arith, length-drop,
  take-append, take-append-drop, length-append, drop-append,
}
use oncrpc4_win.Xdr.RecIn.{
  InStream, filled, fill_input_buf, Reads, behind, after_fill, from_buffer, get_loop,
  get_input_bytes,
}

module _ {C : Type 0} where
  -- A read of at most `n` bytes has delivered some of `bs`, and left the others.
  abbrev pub Received : (C → List ℕ → Type 0) → List ℕ → ℕ → Option (List ℕ) × C → Type 0
  Received Delivers bs n (none, c) = ⊥
  Received Delivers bs n (some chunk, c) =
      (0 < length chunk)
      × (length chunk ≤ n)
      × ((rest : List ℕ) × (chunk ++ rest ≡ bs) × Delivers c rest)

-- What a blocking connection owes the stream: while bytes are to come, a read that asks for some
-- returns at least one and at most as many as it asks for.
pub record Transport {C : Type 0} (readit : C → ℕ → Option (List ℕ) × C) : Type 1 where
  pub Delivers : C → List ℕ → Type 0
  pub read_lem :
      (c : C) (bs : List ℕ) (n : ℕ)
      → Delivers c bs
      → 0 < length bs
      → 0 < n
      → Received Delivers bs n (readit c n)

abbrev pub idle : List ℕ → ℕ
idle [] = 1
idle (_ ∷ _) = 0

pub idle_le : (bs : List ℕ) → idle bs ≤ 1
idle_le [] = omega arith
idle_le (_ ∷ _) = omega arith

idle_some : (bs : List ℕ) → 0 < length bs → idle bs ≡ 0
idle_some [] h = absurd (omega arith)
idle_some (b ∷ bs) h = refl

pub min_lem :
    (a b : ℕ)
    → ((if ltb a b then a else b) ≤ a)
      × ((if ltb a b then a else b) ≤ b)
      × (0 < a → 0 < b → 0 < (if ltb a b then a else b))
min_lem a b = (ground arith, ground arith, λ p q. ground arith)

same_front :
    (cur : ℕ) (u w bs rest : List ℕ)
    → cur ≤ length u
    → cur ≤ length bs
    → u ++ w ≡ bs ++ rest
    → take cur u ++ drop cur bs ≡ bs
same_front cur u w bs rest hu hb e =
    let same : take cur u ≡ take cur bs =
      sym (take-append cur u w hu) ∙ ap (take cur) e ∙ take-append cur bs rest hb in
    rw same (take-append-drop cur bs)

same_back :
    (cur : ℕ) (u w bs rest : List ℕ)
    → cur ≤ length u
    → cur ≤ length bs
    → u ++ w ≡ bs ++ rest
    → drop cur u ++ w ≡ drop cur bs ++ rest
same_back cur u w bs rest hu hb e =
    sym (drop-append cur u w hu) ∙ ap (drop cur) e ∙ drop-append cur bs rest hb

module _ {C : Type 0} {readit : C → ℕ → Option (List ℕ) × C} (t : Transport readit) where
  -- A blocking stream before the bytes `stream`, in a fragment of which `k` bytes are left.
  pub record At (s : InStream C) (stream : List ℕ) (k : ℕ) (l : Bool) : Type 0 where
    pub blocking : s.nonblock ≡ false
    pub roomy : 4 ≤ s.in_size
    pub left : s.fbtbc ≡ k
    pub is_last : s.last_frag ≡ l
    pub coming : List ℕ
    pub split : s.unread ++ coming ≡ stream
    pub delivers : t.Delivers s.conn coming

  -- The bytes `bs` were read, and `rest` is still to come.
  abbrev pub Got : List ℕ → ℕ → Bool → List ℕ → Reads readit → Type 0
  Got rest k l bs none = ⊥
  Got rest k l bs (some (none, s)) = ⊥
  Got rest k l bs (some (some cs, s)) = (cs ≡ bs) × At s rest k l

  pub behind-Got :
      (rest : List ℕ) (k : ℕ) (l : Bool) (bs cs : List ℕ) (r : Reads readit)
      → Got rest k l cs r
      → Got rest k l (bs ++ cs) (behind readit bs r)
  behind-Got rest k l bs cs none g = g
  behind-Got rest k l bs cs (some (none, s)) g = g
  behind-Got rest k l bs cs (some (some ds, s)) (e, at_rest) = (ap (λ d. bs ++ d) e, at_rest)

  filled-Got :
      (go : InStream C → ℕ → Reads readit) (s : InStream C) (i : ℕ) (bs rest : List ℕ) (k : ℕ)
      (l : Bool)
      → At s (bs ++ rest) k l
      → ((s' : InStream C)
          → idle s'.unread < 1
          → At s' (bs ++ rest) k l
          → Got rest k l bs (go s' (length bs)))
      → (r : Option (List ℕ) × C) → Received t.Delivers (bs ++ rest) (s.in_size - i) r
      → Got rest k l bs (after_fill readit go (length bs) (filled readit s i r))
  filled-Got go s i bs rest k l h call (none, c) g = g
  filled-Got go s i bs rest k l h call (some chunk, c) (some_read, few, (later, e, d)) =
      call (record s { conn = c; unread = chunk; boundry = i + length chunk })
        (omega (arith, idle_some chunk some_read))
        (record {
          blocking = h.blocking;
          roomy = h.roomy;
          left = h.left;
          is_last = h.is_last;
          coming = later;
          split = e;
          delivers = d;
        })

  from_buffer-Got :
      (go : InStream C → ℕ → Reads readit) (s : InStream C) (bs rest : List ℕ) (k : ℕ) (l : Bool)
      (u : List ℕ)
      → s.unread ≡ u
      → 0 < length bs
      → At s (bs ++ rest) k l
      → ((s' : InStream C) (cs : List ℕ)
          → 2 * length cs + idle s'.unread < 2 * length bs + idle u
          → At s' (cs ++ rest) k l
          → Got rest k l cs (go s' (length cs)))
      → Got rest k l bs (from_buffer readit go s (length bs) u)
  unfolding fill_input_buf
  from_buffer-Got go s bs rest k l [] e hb h call =
      let all_coming : h.coming ≡ bs ++ rest = rw e at h.split in
      subst
        (λ q. Got rest k l bs (
          after_fill readit go (length bs) (
            if q
            then (false, s)
            else filled readit s (s.boundry % 4) (readit s.conn (s.in_size - s.boundry % 4)))))
        (sym h.blocking)
        (filled-Got go s (s.boundry % 4) bs rest k l h
          (λ s' now at_s. call s' bs (omega (arith, now)) at_s)
          (readit s.conn (s.in_size - s.boundry % 4))
          (subst
            (λ w.
              Received t.Delivers w (s.in_size - s.boundry % 4)
                (readit s.conn (s.in_size - s.boundry % 4)))
            all_coming
            (t.read_lem s.conn h.coming (s.in_size - s.boundry % 4) h.delivers
              (rw all_coming (omega (arith, length-append bs rest, hb))) (omega (arith, h.roomy)))))
  from_buffer-Got go s bs rest k l (b ∷ u) e hb h call =
      let cur : ℕ = if ltb (length bs) (length (b ∷ u)) then length bs else length (b ∷ u) in
      let (few, fits, some_used) = min_lem (length bs) (length (b ∷ u)) in
      let together : (b ∷ u) ++ h.coming ≡ bs ++ rest = rw e at h.split in
      subst
        (λ w. Got rest k l w (
          behind readit (take cur (b ∷ u))
            (go (record s { unread = drop cur (b ∷ u) }) (length bs - cur))))
        (same_front cur (b ∷ u) h.coming bs rest fits few together)
        (behind-Got rest k l (take cur (b ∷ u)) (drop cur bs)
          (go (record s { unread = drop cur (b ∷ u) }) (length bs - cur))
          (subst (λ n. Got rest k l (drop cur bs) (go (record s { unread = drop cur (b ∷ u) }) n))
            (length-drop cur bs)
            (call (record s { unread = drop cur (b ∷ u) }) (drop cur bs)
              (omega (
                arith,
                length-drop cur bs,
                some_used hb (omega arith),
                idle_le (drop cur (b ∷ u)),
                few,
              ))
              (record {
                blocking = h.blocking;
                roomy = h.roomy;
                left = h.left;
                is_last = h.is_last;
                coming = h.coming;
                split = same_back cur (b ∷ u) h.coming bs rest fits few together;
                delivers = h.delivers;
              }))))

  pub get_loop_lem :
      (fuel : ℕ) (s : InStream C) (bs rest : List ℕ) (k : ℕ) (l : Bool)
      → 2 * length bs + idle s.unread < fuel
      → At s (bs ++ rest) k l
      → Got rest k l bs (get_loop readit fuel s (length bs))
  unfolding get_loop
  get_loop_lem zero s bs rest k l h at_s = absurd (omega arith)
  get_loop_lem (suc fuel) s [] rest k l h at_s = (refl, at_s)
  get_loop_lem (suc fuel) s (b ∷ bs) rest k l h at_s =
      from_buffer-Got (get_loop readit fuel) s (b ∷ bs) rest k l s.unread refl (omega arith) at_s
        (λ s' cs less at_s'. get_loop_lem fuel s' cs rest k l (omega (arith, h, less)) at_s')

  pub get_input_bytes_lem :
      (fuel : ℕ) (s : InStream C) (bs rest : List ℕ) (k : ℕ) (l : Bool)
      → 2 * length bs + 1 < fuel
      → At s (bs ++ rest) k l
      → Got rest k l bs (get_input_bytes readit fuel s (length bs))
  unfolding get_input_bytes
  get_input_bytes_lem fuel s bs rest k l h at_s =
      subst
        (λ q. Got rest k l bs (
          if q
          then (if ltb (length s.unread) (length bs)
              then some (none, s)
              else some (
                some (take (length bs) s.unread),
                record s { unread = drop (length bs) s.unread },
              ))
          else get_loop readit fuel s (length bs)))
        (sym at_s.blocking) (get_loop_lem fuel s bs rest k l (omega (arith, idle_le s.unread)) at_s)
