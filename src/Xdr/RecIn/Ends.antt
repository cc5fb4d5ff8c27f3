-- ===== src/Xdr/RecIn/Ends.antt =====
-- A stream leaves a record at its end, and stands before the next one.
use mathlib.Core.Path.{subst}
use oncrpc4_win.Common.{
  ℕ, zero, suc, ◌+◌, ◌*◌, ◌≤◌, ◌<◌, ◌≡◌, refl, sym, ap, ◌∙◌, Bool, true, false, not, ◌||◌, Option,
  none, some, List, ◌++◌, length, take, drop, ltb, if◌then◌else◌, arith, length-append, length-drop,
  length-take, ltb-true, take-append-drop,
}
use oncrpc4_win.Xdr.RecIn.{InStream, Reads, get_loop, set_input_fragment}
use oncrpc4_win.Xdr.RecIn.Input.{Transport, At, Got, idle_le, get_loop_lem}
use oncrpc4_win.Xdr.RecIn.Fragments.{Pending, Opened, set_input_fragment-Opened}
use oncrpc4_win.Xdr.RecIn.Laws.{used, between, no_bytes}
use oncrpc4_win.Xdr.RecIn.Skip.{
  Moves, after_header, after_skip, dropped, skip_input_bytes, skip_input_bytes_lem, to_record_end,
}

false_not_true : false ≡ true → ⊥
false_not_true e = cc

module _ {C : Type 0} {readit : C → ℕ → Option (List ℕ) × C} (t : Transport readit) where
  abbrev pub Moved : List ℕ → ℕ → Bool → Moves readit → Type 0
  Moved stream k l none = ⊥
  Moved stream k l (some (ok, s)) = (ok ≡ true) × At t s stream k l

  dropped-Moved :
      (stream bs : List ℕ) (k : ℕ) (l : Bool) (r : Reads readit)
      → Got t stream k l bs r
      → Moved stream k l (dropped readit r)
  dropped-Moved stream bs k l none g = g
  dropped-Moved stream bs k l (some (none, s)) g = absurd g
  dropped-Moved stream bs k l (some (some cs, s)) (e, at_s) = (refl, at_s)

  skip_input_bytes-Moved :
      (s : InStream C) (stream : List ℕ) (k : ℕ) (l : Bool)
      → At t s stream k l
      → k ≤ length stream
      → Moved (drop k stream) k l (skip_input_bytes readit (2 * k + 2) s k)
  skip_input_bytes-Moved s stream k l at_s h =
      let counted : length (take k stream) ≡ k = length-take k stream h in
      subst (λ r. Moved (drop k stream) k l r)
        (ap (λ n. dropped readit (get_loop readit (2 * k + 2) s n)) counted
          ∙ sym (skip_input_bytes_lem readit (2 * k + 2) s k))
        (dropped-Moved (drop k stream) (take k stream) k l
          (get_loop readit (2 * k + 2) s (length (take k stream)))
          (get_loop_lem t (2 * k + 2) s (take k stream) (drop k stream) k l
            (omega (arith, counted, idle_le s.unread))
            (subst (λ w. At t s w k l) (sym (take-append-drop k stream)) at_s)))

  after_header-Moved :
      (go : InStream C → Moves readit) (before bs more : List ℕ)
      → ((s : InStream C) (stream : List ℕ) (k : ℕ) (l : Bool)
          → length stream < length before
          → At t s stream k l
          → Pending k l stream bs more
          → Moved more 0 true (go s))
      → (r : Moves readit) → Opened t before bs more r
      → Moved more 0 true (after_header readit go r)
  after_header-Moved go before bs more call none g = g
  after_header-Moved go before bs more call (some (false, s)) (e, g) = absurd (false_not_true e)
  after_header-Moved go before bs more call (some (true, s)) (e, (stream, k, l, at_s, p, h, less)) =
      call s stream k l less at_s p

  -- The stream when the bytes of a fragment were skipped.
  rewound :
      (s : InStream C) (stream : List ℕ) (k : ℕ) (l : Bool)
      → At t s stream k l
      → At t (record s { fbtbc = 0 }) stream 0 l
  rewound s stream k l at_s = record {
    blocking = at_s.blocking;
    roomy = at_s.roomy;
    left = refl;
    is_last = at_s.is_last;
    coming = at_s.coming;
    split = at_s.split;
    delivers = at_s.delivers;
  }

  all_used :
      (k : ℕ) (l : Bool) (stream bs more : List ℕ)
      → Pending k l stream bs more
      → Pending 0 l (drop k stream) (drop k bs) more
  all_used k l stream bs more p =
      let (_, _, _, p') = used k k l stream bs more (omega arith) p in
      subst (λ n. Pending n l (drop k stream) (drop k bs) more) (omega arith) p'

  stands_behind :
      (s : InStream C) (stream bs more : List ℕ)
      → Pending 0 true stream bs more
      → At t s stream 0 true
      → At t s more 0 true
  stands_behind s stream bs more p at_s =
      subst (λ w. At t s w 0 true)
        (p.wire ∙ ap (λ w. w ++ p.rest) (no_bytes p.now p.count) ∙ p.after.1) at_s

  after_skip-Moved :
      (go : InStream C → Moves readit) (k : ℕ) (l : Bool) (stream bs more : List ℕ)
      → Pending k l stream bs more
      → (l ≡ true → (s : InStream C) → At t s more 0 true → Moved more 0 true (go s))
      → ((s : InStream C) (stream' : List ℕ) (k' : ℕ) (l' : Bool) (bs' : List ℕ)
          → length stream' < length stream
          → At t s stream' k' l'
          → Pending k' l' stream' bs' more
          → Moved more 0 true (go s))
      → (r : Moves readit) → Moved (drop k stream) k l r
      → Moved more 0 true (after_skip readit go r)
  after_skip-Moved go k l stream bs more p ended call none g = g
  after_skip-Moved go k l stream bs more p ended call (some (false, s)) (e, g) =
      absurd (false_not_true e)
  after_skip-Moved go k true stream bs more p ended call (some (true, s)) (e, at_s) =
      let z = record s { fbtbc = 0 } in
      subst
        (λ q.
          Moved more 0 true
            (if q then go z else after_header readit go (set_input_fragment readit z)))
        (sym at_s.is_last)
        (ended refl z (
          stands_behind z (drop k stream) (drop k bs) more (all_used k true stream bs more p)
            (rewound s (drop k stream) k true at_s)))
  after_skip-Moved go k false stream bs more p ended call (some (true, s)) (e, at_s) =
      let z = record s { fbtbc = 0 } in
      subst
        (λ q.
          Moved more 0 true
            (if q then go z else after_header readit go (set_input_fragment readit z)))
        (sym at_s.is_last)
        (after_header-Moved go (drop k stream) (drop k bs) more
          (λ s' stream' k' l' less at_s' p'.
            call s' stream' k' l' (drop k bs) (omega (arith, less, length-drop k stream)) at_s' p')
          (set_input_fragment readit z)
          (set_input_fragment-Opened t z (drop k stream) (drop k bs) more 0 false
            (rewound s (drop k stream) k false at_s) (between (all_used k false stream bs more p))))

  -- A round of the loop, and its end.
  round :
      (fuel k : ℕ) (l : Bool) (s : InStream C) (stream bs more : List ℕ)
      → At t s stream k l
      → Pending k l stream bs more
      → (l ≡ true
          → (s' : InStream C) → At t s' more 0 true
          → Moved more 0 true (to_record_end readit fuel s'))
      → ((s' : InStream C) (stream' : List ℕ) (k' : ℕ) (l' : Bool) (bs' : List ℕ)
          → length stream' < length stream
          → At t s' stream' k' l'
          → Pending k' l' stream' bs' more
          → Moved more 0 true (to_record_end readit fuel s'))
      → Moved more 0 true (
          after_skip readit
            (to_record_end readit fuel)
            (skip_input_bytes readit (2 * s.fbtbc + 2) s s.fbtbc))
  round fuel k l s stream bs more at_s p ended call =
      let (_, in_stream, _, _) = used k k l stream bs more (omega arith) p in
      subst
        (λ w.
          Moved more 0 true (
            after_skip readit (to_record_end readit fuel)
              (skip_input_bytes readit (2 * w + 2) s w)))
        (sym at_s.left)
        (after_skip-Moved (to_record_end readit fuel) k l stream bs more p ended call
          (skip_input_bytes readit (2 * k + 2) s k)
          (skip_input_bytes-Moved s stream k l at_s in_stream))

  no_round :
      (fuel : ℕ) (s : InStream C) (more : List ℕ)
      → 0 < fuel
      → At t s more 0 true
      → Moved more 0 true (to_record_end readit fuel s)
  unfolding to_record_end
  no_round zero s more h at_s = absurd (omega arith)
  no_round (suc fuel) s more h at_s =
      subst
        (λ q. Moved more 0 true (
          if q
          then after_skip readit (to_record_end readit fuel)
              (skip_input_bytes readit (2 * s.fbtbc + 2) s s.fbtbc)
          else some (true, s)))
        (sym (ap (λ w. ltb 0 w || not s.last_frag) at_s.left ∙ ap not at_s.is_last)) (refl, at_s)

  pub to_record_end_lem :
      (fuel : ℕ) (s : InStream C) (k : ℕ) (l : Bool) (stream bs more : List ℕ)
      → length stream < fuel
      → At t s stream k l
      → Pending k l stream bs more
      → Moved more 0 true (to_record_end readit fuel s)
  unfolding to_record_end
  to_record_end_lem zero s k l stream bs more h at_s p = absurd (omega arith)
  to_record_end_lem (suc fuel) s zero true stream bs more h at_s p =
      no_round (suc fuel) s more (omega arith) (stands_behind s stream bs more p at_s)
  to_record_end_lem (suc fuel) s zero false stream bs more h at_s p =
      subst
        (λ q. Moved more 0 true (
          if q
          then after_skip readit (to_record_end readit fuel)
              (skip_input_bytes readit (2 * s.fbtbc + 2) s s.fbtbc)
          else some (true, s)))
        (sym (ap (λ w. ltb 0 w || not s.last_frag) at_s.left ∙ ap not at_s.is_last))
        (round fuel 0 false s stream bs more at_s p (λ e. absurd (false_not_true e))
          (λ s' stream' k' l' bs' less at_s' p'.
            to_record_end_lem fuel s' k' l' stream' bs' more (omega (arith, less, h)) at_s' p'))
  to_record_end_lem (suc fuel) s (suc k) l stream bs more h at_s p =
      subst
        (λ q. Moved more 0 true (
          if q
          then after_skip readit (to_record_end readit fuel)
              (skip_input_bytes readit (2 * s.fbtbc + 2) s s.fbtbc)
          else some (true, s)))
        (sym (
          ap (λ w. ltb 0 w || not s.last_frag) at_s.left
          ∙ ap (λ b. b || not s.last_frag) (ltb-true 0 (suc k) (omega arith))))
        (round fuel (suc k) l s stream bs more at_s p
          (λ e s' at_s'.
            no_round fuel s' more
              (omega (arith, h, p.count, ap length p.wire, length-append p.now p.rest)) at_s')
          (λ s' stream' k' l' bs' less at_s' p'.
            to_record_end_lem fuel s' k' l' stream' bs' more (omega (arith, less, h)) at_s' p'))
