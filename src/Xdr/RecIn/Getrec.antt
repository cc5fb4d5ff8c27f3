-- ===== src/Xdr/RecIn/Getrec.antt =====
-- What `__xdrrec_getrec` makes of a record that comes whole, and of one that comes in pieces.
use oncrpc4_win.Common.{
  ◌==◌, Bool-cases, inl, inr, ==→eq, sym, ap, ◌∙◌, ℕ, ◌%◌, ◌^◌, ◌≤◌, ◌<◌, ◌≡◌, refl, Bool, true,
  false, Option, some, List, [], ◌∷◌, length, arith, ==_refl, ==_false,
}
use oncrpc4_win.Common.Words.{be32}
use oncrpc4_win.Xdr.RecIn.Nonblock.{
  Answer, xprt_morereqs, NonblockStream, no_input, got_body, xdrrec_getrec, ready, headed,
  first_read,
}

fewer : (a b : ℕ) → a ≤ b → (a == b) ≡ false → a < b
fewer a b h e = ground arith

module _ {C : Type 0} (can_realloc : ℕ → Bool) (readit : C → ℕ → Option (List ℕ) × C) where
  body_whole :
      (c : C) (header n maxrec size : ℕ) (f : List ℕ) (expectdata : Bool)
      → length f ≡ n
      → 0 < n
      → let r =
          got_body can_realloc readit expectdata
            (headed can_realloc readit c maxrec size header n)
            (some f, c) in
        (r.0 ≡ true) × (r.1 ≡ xprt_morereqs) × (r.2.unread ≡ f) × (r.2.fbtbc ≡ n)
  body_whole c header n maxrec size [] expectdata e h = absurd (omega arith)
  body_whole c header n maxrec size (b ∷ bs) expectdata e h =
      rw (e, ==_refl n) (refl, refl, refl, refl)

  -- The body of a fragment came whole.
  whole :
      (c c1 c2 : C) (header maxrec size : ℕ) (f : List ℕ) (expectdata : Bool)
      → header < 2 ^ 32
      → header % 2 ^ 31 ≡ length f
      → 0 < length f
      → length f ≤ maxrec
      → length f ≤ size
      → readit c 4 ≡ (some (be32 header), c1)
      → readit c1 (length f) ≡ (some f, c2)
      → let r =
          xdrrec_getrec can_realloc readit (ready can_realloc readit c maxrec size) expectdata in
        (r.0 ≡ true) × (r.1 ≡ xprt_morereqs) × (r.2.unread ≡ f) × (r.2.fbtbc ≡ length f)
  whole c c1 c2 header maxrec size f expectdata hh e h hm hs e1 e2 =
      rw
        (
          first_read can_realloc readit c c1 header (length f) maxrec size expectdata hh e h hm hs
              e1,
          e2,
        )
        (body_whole c2 header (length f) maxrec size f expectdata refl h)

  -- The stream after a read that has brought a part of the body.
  abbrev partly : C → ℕ → ℕ → ℕ → ℕ → List ℕ → NonblockStream C
  partly c maxrec size header n part = record (headed can_realloc readit c maxrec size header n) {
    received = part;
  }

  body_part :
      (c : C) (header n maxrec size : ℕ) (part : List ℕ) (expectdata : Bool)
      → 0 < length part
      → length part < n
      → got_body can_realloc readit expectdata
          (headed can_realloc readit c maxrec size header n)
          (some part, c)
        ≡ (false, xprt_morereqs, partly c maxrec size header n part)
  body_part c header n maxrec size [] expectdata h hn = absurd (omega arith)
  body_part c header n maxrec size (b ∷ bs) expectdata h hn =
      rw (==_false (length (b ∷ bs)) n (omega (arith, hn))) refl

  stalled :
      (c : C) (header n maxrec size : ℕ) (part : List ℕ) (expectdata : Bool)
      → readit c 0 ≡ (some [], c)
      → xdrrec_getrec can_realloc readit (partly c maxrec size header n part) expectdata
        ≡ (false, no_input expectdata, partly c maxrec size header n part)
  unfolding xdrrec_getrec be32
  stalled c header n maxrec size part expectdata e = rw e refl

  -- A part of the body came.
  pieces :
      (c c1 c2 : C) (header n maxrec size : ℕ) (part : List ℕ) (expectdata again : Bool)
      → header < 2 ^ 32
      → header % 2 ^ 31 ≡ n
      → length part < n
      → 0 < length part
      → n ≤ maxrec
      → n ≤ size
      → readit c 4 ≡ (some (be32 header), c1)
      → readit c1 n ≡ (some part, c2)
      → readit c2 0 ≡ (some [], c2)
      → let r =
          xdrrec_getrec can_realloc readit (ready can_realloc readit c maxrec size) expectdata in
        let r' = xdrrec_getrec can_realloc readit r.2 again in
        (r.0 ≡ false)
        × (r.1 ≡ xprt_morereqs)
        × (r'.0 ≡ false)
        × (r'.1 ≡ no_input again)
        × (r'.2.conn ≡ c2)
        × (r'.2.received ≡ part)
  pieces c c1 c2 header n maxrec size part expectdata again hh e hn h hm hs e1 e2 e3 =
      rw
        (
          first_read can_realloc readit c c1 header n maxrec size expectdata hh e
              (omega (arith, h, hn)) hm hs e1,
          e2,
          body_part c2 header n maxrec size part expectdata h hn,
          stalled c2 header n maxrec size part again e3,
        )
        (refl, refl, refl, refl, refl, refl)

  -- What the first call gave, and what the next one does if the body has not come whole.
  abbrev pub Came : Bool → ℕ → List ℕ → C → Bool → Answer can_realloc readit → Type 0
  Came true n part c again r = (r.2.unread ≡ part) × (r.2.fbtbc ≡ n)
  Came false n part c again r =
      let r' = xdrrec_getrec can_realloc readit r.2 again in
      (r'.0 ≡ false) × (r'.1 ≡ no_input again) × (r'.2.conn ≡ c) × (r'.2.received ≡ part)

  -- On a fresh nonblocking stream, when the header of a fragment has come and then some bytes of
  -- its body, and its length is within `in_maxrec` and the buffer: if that is the whole body, the
  -- call returns TRUE with the fragment as the record, whether or not the header marks it as the
  -- last of its record. If not, it returns FALSE and reports that there is more to come, but the
  -- next call asks for no bytes: if that read returns 0, as a read of 0 bytes does, it reports the
  -- connection as dead or idle and takes nothing of what is left to read.
  pub xdrrec_getrec_lem :
      (c c1 c2 : C) (header n maxrec size : ℕ) (part : List ℕ) (expectdata again : Bool)
      → header < 2 ^ 32
      → header % 2 ^ 31 ≡ n
      → 0 < length part
      → length part ≤ n
      → n ≤ maxrec
      → n ≤ size
      → readit c 4 ≡ (some (be32 header), c1)
      → readit c1 n ≡ (some part, c2)
      → readit c2 0 ≡ (some [], c2)
      → let r =
          xdrrec_getrec can_realloc readit (ready can_realloc readit c maxrec size) expectdata in
        (r.0 ≡ (length part == n))
        × (r.1 ≡ xprt_morereqs)
        × Came (length part == n) n part c2 again r
  xdrrec_getrec_lem c c1 c2 header n maxrec size part expectdata again hh e h hn hm hs e1 e2 e3 =
      elim (Bool-cases (length part == n)) [
        | inl q ↦
            let all_came : n ≡ length part = sym (==→eq (length part) n q) in
            let (ok, stat, unread, left) =
              whole c c1 c2 header maxrec size part expectdata hh (e ∙ all_came) h
                (omega (arith, hm, all_came)) (omega (arith, hs, all_came)) e1
                (ap (readit c1) (sym all_came) ∙ e2) in
            rw q (ok, stat, (unread, left ∙ sym all_came))
        | inr q ↦
            let (ok, stat, ok', stat', conn', received') =
              pieces c c1 c2 header n maxrec size part expectdata again hh e
                (fewer (length part) n hn q) h hm hs e1 e2 e3 in
            rw q (ok, stat, (ok', stat', conn', received'))
      ]
