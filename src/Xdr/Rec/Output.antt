-- ===== src/Xdr/Rec/Output.antt =====
-- A record stream sends the records that were written to it, in fragments.
use oncrpc4_win.Common.{
  ℕ, ◌+◌, ◌^◌, ◌≤◌, ◌<◌, ◌≡◌, refl, sym, ap, ◌∙◌, Bool, true, false, ◌||◌, List, [], ◌∷◌, ◌++◌,
  length, ltb, leb, arith, append_assoc, append-nil, length-append, Bool-cases, ltb→le, inl, inr,
}
use mathlib.Core.Path.{subst}
use oncrpc4_win.Common.Words.{be32}
use oncrpc4_win.Xdr.Stream.{and_put}
use oncrpc4_win.Xdr.Rec.{
  OutStream, out_finger, frag_header, flush_out, append_frag, xdrrec_putlong, xdrrec_endofrecord,
}

-- The bytes of a connection carry some records, and the part of a record that is still open: each
-- fragment adds to the open record, and the last fragment closes it.
pub data Framed : List ℕ → List (List ℕ) → List ℕ → Type 0 where
  start : Framed [] [] []
  fragment :
      {wire : List ℕ} {records : List (List ℕ)} {opened : List ℕ} (f : List ℕ)
      → length f < 2 ^ 31
      → Framed wire records opened
      → Framed (wire ++ (be32 (length f) ++ f)) records (opened ++ f)
  last :
      {wire : List ℕ} {records : List (List ℕ)} {opened : List ℕ} (f : List ℕ)
      → length f < 2 ^ 31
      → Framed wire records opened
      → Framed (wire ++ (be32 (2 ^ 31 + length f) ++ f)) (records ++ ((opened ++ f) ∷ [])) []

-- What was sent and what is ready carry the records that were ended; the open fragment completes
-- the record that is being written. The buffer is not overrun.
pub record Holds (s : OutStream) (records : List (List ℕ)) (current : List ℕ) : Type 0 where
  pub opened : List ℕ
  pub framed : Framed (s.sent ++ s.ready) records opened
  pub content : opened ++ s.frag ≡ current
  pub fits : out_finger s ≤ s.sendsize
  pub large : 100 ≤ s.sendsize
  pub small : s.sendsize < 2 ^ 31

header_more : (f : List ℕ) → length f < 2 ^ 31 → frag_header false f ≡ be32 (length f)
unfolding frag_header
header_more f h = ap be32 (omega arith)

header_last : (f : List ℕ) → length f < 2 ^ 31 → frag_header true f ≡ be32 (2 ^ 31 + length f)
unfolding frag_header
header_last f h = ap be32 (omega arith)

length-header : (f : List ℕ) → length (frag_header true f) ≡ 4
unfolding frag_header be32
length-header f = refl

sent_bytes :
    (sent ready header frag : List ℕ)
    → (sent ++ ready) ++ (header ++ frag) ≡ (sent ++ (ready ++ (header ++ frag))) ++ []
sent_bytes sent ready header frag =
    append_assoc sent ready (header ++ frag)
    ∙ sym (append-nil (sent ++ (ready ++ (header ++ frag))))

-- A write went well, and left the stream with these records.
abbrev pub Kept : List (List ℕ) → List ℕ → ℕ → Bool × OutStream → Type 0
Kept records current n (r, s) =
    (r ≡ true) × Holds s records current × (out_finger s + n ≤ s.sendsize)

module _ (writeit : List ℕ → List ℕ → Bool)
    (taken : (sent bs : List ℕ) → writeit sent bs ≡ true) where
  pub flush_more :
      (s : OutStream) (records : List (List ℕ)) (current : List ℕ)
      → Holds s records current
      → Kept records current 96 (flush_out writeit s false)
  unfolding flush_out
  flush_more s records current h =
      let short : length s.frag < 2 ^ 31 = omega (arith, h.fits, h.small) in
      rw (taken s.sent (s.ready ++ (frag_header false s.frag ++ s.frag))) (
        refl,
        record {
          opened = h.opened ++ s.frag;
          framed =
              subst (λ w. Framed w records (h.opened ++ s.frag))
                (sent_bytes s.sent s.ready (frag_header false s.frag) s.frag)
                (rw (header_more s.frag short) (fragment s.frag short h.framed));
          content = append-nil (h.opened ++ s.frag) ∙ h.content;
          fits = omega (arith, h.large);
          large = h.large;
          small = h.small;
        },
        omega (arith, h.large),
      )

  flush_last :
      (s : OutStream) (records : List (List ℕ)) (current : List ℕ)
      → Holds s records current
      → Kept (records ++ (current ∷ [])) [] 96 (flush_out writeit s true)
  unfolding flush_out
  flush_last s records current h =
      let short : length s.frag < 2 ^ 31 = omega (arith, h.fits, h.small) in
      rw (taken s.sent (s.ready ++ (frag_header true s.frag ++ s.frag))) (
        refl,
        record {
          opened = [];
          framed =
              subst (λ w. Framed w (records ++ (current ∷ [])) [])
                (sent_bytes s.sent s.ready (frag_header true s.frag) s.frag)
                (rw (header_last s.frag short) (
                  subst
                    (λ c.
                      Framed ((s.sent ++ s.ready) ++ (be32 (2 ^ 31 + length s.frag) ++ s.frag))
                        (records ++ (c ∷ [])) [])
                    h.content (last s.frag short h.framed)));
          content = refl;
          fits = omega (arith, h.large);
          large = h.large;
          small = h.small;
        },
        omega (arith, h.large),
      )

  pub append-Holds :
      (s : OutStream) (records : List (List ℕ)) (current bs : List ℕ)
      → out_finger s + length bs ≤ s.sendsize
      → Holds s records current
      → Holds (append_frag writeit bs s) records (current ++ bs)
  append-Holds s records current bs room h = record {
    opened = h.opened;
    framed = h.framed;
    content = sym (append_assoc h.opened s.frag bs) ∙ ap (λ c. c ++ bs) h.content;
    fits = omega (arith, room, length-append s.frag bs);
    large = h.large;
    small = h.small;
  }

  pub same_frag :
      (s : OutStream) (b : Bool) (records : List (List ℕ)) (current : List ℕ)
      → Holds s records current
      → Holds (record s { frag_sent = b }) records current
  same_frag s b records current h = record {
    opened = h.opened;
    framed = h.framed;
    content = h.content;
    fits = h.fits;
    large = h.large;
    small = h.small;
  }

  later :
      (s : OutStream) (sendnow : Bool)
      → ((sendnow || s.frag_sent) || leb s.sendsize (out_finger s + 4)) ≡ false
      → out_finger s + 4 < s.sendsize
  later s sendnow e = ground arith

  batched :
      (s : OutStream) (records : List (List ℕ)) (current : List ℕ)
      → Holds s records current
      → out_finger s + 4 < s.sendsize
      → Holds
          (record s { ready = s.ready ++ (frag_header true s.frag ++ s.frag); frag = [] })
          (records ++ (current ∷ []))
          []
  batched s records current h room =
      let short : length s.frag < 2 ^ 31 = omega (arith, h.fits, h.small) in
      record {
        opened = [];
        framed =
            subst (λ w. Framed w (records ++ (current ∷ [])) [])
              (append_assoc s.sent s.ready (frag_header true s.frag ++ s.frag))
              (rw (header_last s.frag short) (
                subst
                  (λ c.
                    Framed ((s.sent ++ s.ready) ++ (be32 (2 ^ 31 + length s.frag) ++ s.frag))
                      (records ++ (c ∷ [])) [])
                  h.content (last s.frag short h.framed)));
        content = refl;
        fits = omega (
          arith,
          room,
          length-append s.ready (frag_header true s.frag ++ s.frag),
          length-append (frag_header true s.frag) s.frag,
          length-header s.frag,
        );
        large = h.large;
        small = h.small;
      }

  -- When the transport takes what it is given, ending a record closes it in the framing of the
  -- connection, whether it is sent at once or kept in the buffer; what is written next belongs to a
  -- new record.
  pub xdrrec_endofrecord_lem :
      (s : OutStream) (records : List (List ℕ)) (current : List ℕ) (sendnow : Bool)
      → Holds s records current
      → ((xdrrec_endofrecord writeit s sendnow).0 ≡ true)
        × Holds (xdrrec_endofrecord writeit s sendnow).1 (records ++ (current ∷ [])) []
  unfolding xdrrec_endofrecord
  xdrrec_endofrecord_lem s records current sendnow h =
      let unsent = record s { frag_sent = false } in
      elim (Bool-cases ((sendnow || s.frag_sent) || leb s.sendsize (out_finger s + 4))) [
        | inl e ↦
            let (ok, holds', room) =
              flush_last unsent records current (same_frag s false records current h) in
            rw e (ok, holds')
        | inr e ↦ rw e (refl, batched s records current h (later s sendnow e))
      ]

  put_behind :
      (v : ℕ) (records : List (List ℕ)) (current : List ℕ) (r : Bool × OutStream)
      → Kept records current 96 r
      → let p = and_put r (λ t. (true, append_frag writeit (be32 v) t)) in
        (p.0 ≡ true) × Holds p.1 records (current ++ be32 v)
  unfolding be32
  put_behind v records current (false, s) (ok, h, room) = cc
  put_behind v records current (true, s) (ok, h, room) =
      (refl, append-Holds s records current (be32 v) (omega (arith, room)) h)

  -- When the transport takes what it is given, a word that is put belongs to the open record,
  -- whether or not a fragment has to be sent first.
  pub xdrrec_putlong_lem :
      (s : OutStream) (records : List (List ℕ)) (current : List ℕ) (v : ℕ)
      → Holds s records current
      → ((xdrrec_putlong writeit s v).0 ≡ true)
        × Holds (xdrrec_putlong writeit s v).1 records (current ++ be32 v)
  unfolding xdrrec_putlong be32
  xdrrec_putlong_lem s records current v h = elim (Bool-cases (ltb s.sendsize (out_finger s + 4))) [
    | inl e ↦ rw e (
        put_behind v records current (flush_out writeit (record s { frag_sent = true }) false) (
          flush_more (record s { frag_sent = true }) records current
            (same_frag s true records current h)))
    | inr e ↦
        rw e
          (refl, append-Holds s records current (be32 v) (ltb→le s.sendsize (out_finger s + 4) e) h)
  ]
