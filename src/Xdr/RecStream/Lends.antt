-- ===== src/Xdr/RecStream/Lends.antt =====
-- A record stream lends its input buffer faithfully.
use oncrpc4_win.Common.{
  ℕ, ◌-◌, ◌≤◌, ◌≡◌, refl, sym, ap, ◌∙◌, true, ◌&&◌, List, ◌++◌, length, take, drop, leb, arith,
  take-append, drop-append, drop-append_length, Bool-cases, inl, inr,
}
use mathlib.Core.Path.{subst}
use oncrpc4_win.Xdr.Stream.{XdrOp, encode, decode, free}
use oncrpc4_win.Xdr.Rec.{OutStream}
use oncrpc4_win.Xdr.RecIn.{InStream}
use oncrpc4_win.Xdr.RecIn.Input.{Transport}
use oncrpc4_win.Xdr.RecIn.Fragments.{Held, Pending}
use oncrpc4_win.Xdr.RecIn.Laws.{used}
use oncrpc4_win.Rpc.CallMsg.Decode.{Lent, InlineLaws}
use oncrpc4_win.Xdr.RecStream.{Handle, RecStream, rec_ops, xdrrec_inline}
use oncrpc4_win.Xdr.RecStream.Laws.{rec_laws}

module _ {C : Type 0} (io : Handle C) (t : Transport io.readit)
    (taken : (sent bs : List ℕ) → io.writeit sent bs ≡ true) where
  lent_front :
      (u coming stream now rest later bs after : List ℕ) (n : ℕ)
      → u ++ coming ≡ stream
      → stream ≡ now ++ rest
      → bs ++ after ≡ now ++ later
      → n ≤ length bs
      → length bs ≤ length u
      → length bs ≤ length now
      → take n u ≡ take n bs
  lent_front u coming stream now rest later bs after n eu es eb h hu hn =
      sym (take-append n u coming (omega (arith, h, hu)))
      ∙ ap (take n) (eu ∙ es)
      ∙ take-append n now rest (omega (arith, h, hn))
      ∙ sym (take-append n now later (omega (arith, h, hn)))
      ∙ ap (take n) (sym eb)
      ∙ take-append n bs after h

  both : (n a b : ℕ) → (leb n a && leb n b) ≡ true → (n ≤ a) × (n ≤ b)
  both n a b e = (ground arith, ground arith)

  lent_Held :
      (i : InStream C) (bs rest more : List ℕ) (held : Held t i (bs ++ rest) more)
      → length bs ≤ i.fbtbc
      → length bs ≤ length i.unread
      → ((n : ℕ) → n ≤ length bs → take n i.unread ≡ take n bs)
        × Held t
            (record i { fbtbc = i.fbtbc - length bs; unread = drop (length bs) i.unread })
            rest
            more
  lent_Held i bs rest more held hf hu =
      let p = held.pending in
      let a = held.at in
      let in_frag : length bs ≤ length p.now = omega (arith, p.count, a.left, hf) in
      let (_, _, _, p') =
        used (length bs) held.k held.l held.at_stream (bs ++ rest) more (omega (arith, a.left, hf))
          p in
      (
        λ n h.
            lent_front i.unread a.coming held.at_stream p.now p.rest p.later bs rest n a.split
              p.wire p.bytes h hu in_frag,
        record {
          at_stream = drop (length bs) held.at_stream;
          k = held.k - length bs;
          l = held.l;
          at = record {
            blocking = a.blocking;
            roomy = a.roomy;
            left = ap (λ x. x - length bs) a.left;
            is_last = a.is_last;
            coming = a.coming;
            split =
                sym (drop-append (length bs) i.unread a.coming hu) ∙ ap (drop (length bs)) a.split;
            delivers = a.delivers;
          };
          pending =
              subst
                (λ w. Pending (held.k - length bs) held.l (drop (length bs) held.at_stream) w more)
                (drop-append_length bs rest (length bs) refl) p';
        },
      )

  rec_inline :
      (i : InStream C) (o : OutStream) (records : List (List ℕ)) (more bs rest : List ℕ)
      (s : RecStream C) (op : XdrOp)
      → s.x_op ≡ decode
      → op ≡ decode
      → s.out ≡ o
      → Held t s.inp (bs ++ rest) more
      → Lent (rec_laws io t taken i o records more) bs rest (xdrrec_inline io op s (length bs))
  unfolding xdrrec_inline rec_ops rec_laws
  rec_inline i o records more bs rest s encode ed e eo held = absurd (cc)
  rec_inline i o records more bs rest s free ed e eo held = absurd (cc)
  rec_inline i o records more bs rest s decode ed e eo held =
      elim (Bool-cases (leb (length bs) s.inp.fbtbc && leb (length bs) (length s.inp.unread))) [
        | inl q ↦ rw q (
            let (hf, hu) = both (length bs) s.inp.fbtbc (length s.inp.unread) q in
            let (shown, held') = lent_Held s.inp bs rest more held hf hu in
            (shown, (ed, held', eo)))
        | inr q ↦ rw q (ed, held, eo)
      ]

  pub rec-InlineLaws :
      (i : InStream C) (o : OutStream) (records : List (List ℕ)) (more : List ℕ)
      → InlineLaws (rec_laws io t taken i o records more)
  unfolding rec_ops rec_laws
  rec-InlineLaws i o records more = record {
    inline_lem =
        λ s bs rest (ed, held, eo). rec_inline i o records more bs rest s s.x_op ed ed eo held;
  }
