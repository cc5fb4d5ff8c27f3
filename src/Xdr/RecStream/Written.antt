-- ===== src/Xdr/RecStream/Written.antt =====
-- A filter that wrote its bytes has added them to the open record, and `xdrrec_endofrecord` sends
-- that record.
use oncrpc4_win.Common.{
  ℕ, ◌≡◌, refl, sym, ap, ◌∙◌, Bool, true, false, List, [], ◌∷◌, ◌++◌, length, drop, append_assoc,
  drop-append_length, append-nil,
}
use mathlib.Core.Path.{subst}
use oncrpc4_win.Xdr.Codec.{Encoded}
use oncrpc4_win.Xdr.Rec.{OutStream, frag_header, flush_out, xdrrec_endofrecord}
use oncrpc4_win.Xdr.Rec.Output.{Framed, Holds, xdrrec_endofrecord_lem}
use oncrpc4_win.Xdr.RecIn.{InStream}
use oncrpc4_win.Xdr.RecIn.Input.{Transport}
use oncrpc4_win.Xdr.RecStream.{Handle, RecStream, with_output, end_record}
use oncrpc4_win.Xdr.RecStream.Deframe.{concat}
use oncrpc4_win.Xdr.RecStream.Laws.{carried, carried-Holds, rec_laws}

append-cancel : (xs ys zs : List ℕ) → xs ++ ys ≡ xs ++ zs → ys ≡ zs
append-cancel xs ys zs e =
    sym (drop-append_length xs ys (length xs) refl)
    ∙ ap (drop (length xs)) e
    ∙ drop-append_length xs zs (length xs) refl

same_record :
    (o o' : OutStream) (records : List (List ℕ)) (cur cur' bs : List ℕ)
    → Holds o records cur
    → Holds o' records cur'
    → carried o' ≡ carried o ++ bs
    → Holds o' records (cur ++ bs)
same_record o o' records cur cur' bs h h' e =
    subst (Holds o' records)
      (append-cancel (concat records) cur' (cur ++ bs) (
        sym (carried-Holds o' records cur' h')
        ∙ e
        ∙ ap (λ c. c ++ bs) (carried-Holds o records cur h)
        ∙ append_assoc (concat records) cur bs))
      h'

-- These records have been given to the transport, each with the last fragment marked, and nothing
-- is left in the buffer.
pub record IsSent (o : OutStream) (records : List (List ℕ)) : Type 0 where
  pub wire : Framed o.sent records []
  pub flushed : o.ready ≡ []
  pub holds : Holds o records []

append_nothing : (xs ys : List ℕ) → xs ++ ys ≡ [] → xs ≡ []
append_nothing [] ys e = refl
append_nothing (x ∷ xs) ys e = cc

pub Holds-IsSent :
    (o : OutStream) (records : List (List ℕ)) → Holds o records [] → o.ready ≡ [] → IsSent o records
Holds-IsSent o records h e = record {
  wire =
      subst (λ w. Framed w records []) (ap (λ r. o.sent ++ r) e ∙ append-nil o.sent)
        (subst (Framed (o.sent ++ o.ready) records) (append_nothing h.opened o.frag h.content)
          h.framed);
  flushed = e;
  holds = h;
}

module _ {C : Type 0} (io : Handle C) (t : Transport io.readit)
    (taken : (sent bs : List ℕ) → io.writeit sent bs ≡ true) where
  -- The open record after an encoding, and what the encoding leaves alone.
  pub Encoded-Holds :
      {A : Type 0} (i : InStream C) (o : OutStream) (records : List (List ℕ)) (more : List ℕ)
      (v : A) (bs cur : List ℕ) (s : RecStream C) (n : ℕ)
      → Holds s.out records cur
      → (r : Bool × A × RecStream C) → Encoded (rec_laws io t taken i o records more) v bs s n r
      → (r.0 ≡ true) × (r.1 ≡ v) × Holds r.2.out records (cur ++ bs) × (r.2.inp ≡ i)
  unfolding rec_laws
  Encoded-Holds i o records more v bs cur s n h (b, w, s') (ok, e, out, ((cur', h'), ei)) =
      (ok, e, same_record s.out s'.out records cur cur' bs h h' out, ei)

  flushed :
      (o : OutStream) (eor : Bool)
      → ((flush_out io.writeit o eor).0 ≡ true) × ((flush_out io.writeit o eor).1.ready ≡ [])
  unfolding flush_out
  flushed o eor = rw (taken o.sent (o.ready ++ (frag_header eor o.frag ++ o.frag))) (refl, refl)

  ended :
      (s : RecStream C) (records : List (List ℕ)) (cur : List ℕ) (r : Bool × OutStream)
      → r.0 ≡ true
      → Holds r.1 records cur
      → ((with_output io s r).0 ≡ true)
        × Holds (with_output io s r).1.out records cur
        × ((with_output io s r).1.inp ≡ s.inp)
        × ((with_output io s r).1.out ≡ r.1)
  ended s records cur (false, o) ok h = cc
  ended s records cur (true, o) ok h = (refl, h, refl, refl)

  -- The end of a record.
  pub end_record-Holds :
      (s : RecStream C) (records : List (List ℕ)) (cur : List ℕ) (sendnow : Bool)
      → Holds s.out records cur
      → let (r, s') = end_record io s sendnow in
        (r ≡ true)
        × Holds s'.out (records ++ (cur ∷ [])) []
        × (s'.inp ≡ s.inp)
        × (sendnow ≡ true → s'.out.ready ≡ [])
  unfolding xdrrec_endofrecord
  end_record-Holds s records cur sendnow h =
      let (ok, holds') = xdrrec_endofrecord_lem io.writeit taken s.out records cur sendnow h in
      let (ok', holds'', same, out) =
        ended s (records ++ (cur ∷ [])) [] (xdrrec_endofrecord io.writeit s.out sendnow) ok
          holds' in
      (
        ok',
        holds'',
        same,
        λ now.
            ap (λ (o : OutStream). o.ready) out
            ∙ rw now ((flushed (record s.out { frag_sent = false }) true).1),
      )
