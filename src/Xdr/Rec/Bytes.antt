-- ===== src/Xdr/Rec/Bytes.antt =====
-- `xdrrec_putbytes` puts all its bytes, in as many fragments as they take.
use mathlib.Core.Path.{subst}
use oncrpc4_win.Common.{
  ℕ, zero, suc, ◌+◌, ◌-◌, ◌≤◌, ◌<◌, ◌≡◌, refl, sym, Bool, true, false, Option, none, some, List, [],
  ◌∷◌, ◌++◌, length, take, drop, ◌==◌, arith, append_assoc, append-nil, Bool-cases, inl, inr,
  take-append-drop, length-drop,
}
use oncrpc4_win.Xdr.Rec.{OutStream, out_finger, append_frag, put_some, go_on, xdrrec_putbytes}
use oncrpc4_win.Xdr.Rec.Output.{Holds, Kept, flush_more, append-Holds, same_frag}

take_at_most : (n : ℕ) (bs : List ℕ) → length (take n bs) ≤ n
take_at_most zero bs = omega arith
take_at_most (suc n) [] = omega arith
take_at_most (suc n) (b ∷ bs) = omega (arith, take_at_most n bs)

below : (a b : ℕ) → (a == b) ≡ false → a ≤ b → a + 1 ≤ b
below a b e h = ground arith

-- The loop has returned TRUE, and the record is now `current`.
abbrev pub PutAll : List (List ℕ) → List ℕ → Option (Bool × OutStream) → Type 0
PutAll records current none = ⊥
PutAll records current (some r) = (r.0 ≡ true) × Holds r.1 records current

module _ (writeit : List ℕ → List ℕ → Bool)
    (taken : (sent bs : List ℕ) → writeit sent bs ≡ true) where
  -- What a round has put, with room behind it.
  put_some-Kept :
      (s : OutStream) (records : List (List ℕ)) (current bs : List ℕ)
      → Holds s records current
      → Kept records (current ++ take (s.sendsize - out_finger s) bs) 1 (put_some writeit s bs)
  put_some-Kept s records current bs h =
      let k = s.sendsize - out_finger s in
      let t = append_frag writeit (take k bs) s in
      let ht : Holds t records (current ++ take k bs) =
        append-Holds writeit taken s records current (take k bs)
          (omega (arith, take_at_most (s.sendsize - out_finger s) bs, h.fits)) h in
      elim (Bool-cases (out_finger t == s.sendsize)) [
        | inl e ↦
            let (ok, holds', room) =
              flush_more writeit taken (record t { frag_sent = true }) records
                (current ++ take k bs)
                (same_frag writeit taken t true records (current ++ take k bs) ht) in
            rw e (ok, holds', omega (arith, room))
        | inr e ↦ rw e (refl, ht, below (out_finger t) s.sendsize e ht.fits)
      ]

  go_on-PutAll :
      (records : List (List ℕ)) (current front rear : List ℕ)
      (rest : OutStream → List ℕ → Option (Bool × OutStream))
      → ((t : OutStream)
          → Holds t records (current ++ front)
          → out_finger t + 1 ≤ t.sendsize
          → PutAll records ((current ++ front) ++ rear) (rest t rear))
      → (r : Bool × OutStream) → Kept records (current ++ front) 1 r
      → PutAll records (current ++ (front ++ rear)) (go_on writeit rest rear r)
  go_on-PutAll records current front rear rest next (false, t) (ok, h, room) = cc
  go_on-PutAll records current front rear rest next (true, t) (ok, h, room) =
      subst (λ c. PutAll records c (rest t rear)) (append_assoc current front rear) (next t h room)

  round-PutAll :
      (fuel : ℕ) (s : OutStream) (records : List (List ℕ)) (current bs : List ℕ)
      → ((t : OutStream) (c : List ℕ)
          → Holds t records c
          → out_finger t + 1 ≤ t.sendsize
          → PutAll records
              (c ++ drop (s.sendsize - out_finger s) bs)
              (xdrrec_putbytes writeit fuel t (drop (s.sendsize - out_finger s) bs)))
      → Holds s records current
      → PutAll records (current ++ bs) (
          go_on writeit
            (xdrrec_putbytes writeit fuel)
            (drop (s.sendsize - out_finger s) bs)
            (put_some writeit s bs))
  round-PutAll fuel s records current bs next h =
      let k = s.sendsize - out_finger s in
      subst
        (λ c. PutAll records (current ++ c) (
          go_on writeit (xdrrec_putbytes writeit fuel) (drop (s.sendsize - out_finger s) bs)
            (put_some writeit s bs)))
        (take-append-drop (s.sendsize - out_finger s) bs)
        (go_on-PutAll records current (take k bs) (drop k bs) (xdrrec_putbytes writeit fuel)
          (λ t ht room. next t (current ++ take k bs) ht room) (put_some writeit s bs)
          (put_some-Kept s records current bs h))

  with_room-PutAll :
      (fuel : ℕ) (s : OutStream) (records : List (List ℕ)) (current bs : List ℕ)
      → length bs < fuel
      → out_finger s + 1 ≤ s.sendsize
      → Holds s records current
      → PutAll records (current ++ bs) (xdrrec_putbytes writeit fuel s bs)
  unfolding xdrrec_putbytes
  with_room-PutAll zero s records current bs hf room h = absurd (omega arith)
  with_room-PutAll (suc fuel) s records current [] hf room h =
      (refl, subst (Holds s records) (sym (append-nil current)) h)
  with_room-PutAll (suc fuel) s records current (b ∷ bs) hf room h =
      round-PutAll fuel s records current (b ∷ bs)
        (λ t c ht roomt.
          with_room-PutAll fuel t records c (drop (s.sendsize - out_finger s) (b ∷ bs))
            (omega (arith, length-drop (s.sendsize - out_finger s) (b ∷ bs), room, hf)) roomt ht)
        h

  -- Bytes that are put belong to the open record, in their order, however many fragments they take:
  -- the loop returns TRUE after at most two rounds more than there are bytes, when the transport
  -- takes what it is given.
  pub xdrrec_putbytes_lem :
      (fuel : ℕ) (s : OutStream) (records : List (List ℕ)) (current bs : List ℕ)
      → length bs + 1 < fuel
      → Holds s records current
      → PutAll records (current ++ bs) (xdrrec_putbytes writeit fuel s bs)
  unfolding xdrrec_putbytes
  xdrrec_putbytes_lem zero s records current bs hf h = absurd (omega arith)
  xdrrec_putbytes_lem (suc fuel) s records current [] hf h =
      (refl, subst (Holds s records) (sym (append-nil current)) h)
  xdrrec_putbytes_lem (suc fuel) s records current (b ∷ bs) hf h =
      round-PutAll fuel s records current (b ∷ bs)
        (λ t c ht roomt.
          with_room-PutAll fuel t records c (drop (s.sendsize - out_finger s) (b ∷ bs))
            (omega (arith, length-drop (s.sendsize - out_finger s) (b ∷ bs), hf)) roomt ht)
        h
