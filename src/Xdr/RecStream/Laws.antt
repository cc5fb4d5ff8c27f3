-- ===== src/Xdr/RecStream/Laws.antt =====
-- What a record stream owes the filters: it writes to the open record, and reads what is left of
-- the record that it stands in.
use oncrpc4_win.Common.{
  ℕ, ◌+◌, ◌*◌, ◌≡◌, refl, sym, ap, ◌∙◌, Bool, true, false, Option, none, some, List, [], ◌++◌,
  length, arith, append_assoc, append-nil, length-append, take-append_length, drop-append_length,
}
use mathlib.Core.Path.{subst}
use oncrpc4_win.Common.Words.{IsU32, be32, word_of, word_be32}
use oncrpc4_win.Xdr.Stream.{decode, Wrote, Took, XdrLaws}
use oncrpc4_win.Xdr.Rec.{OutStream, xdrrec_putlong, xdrrec_putbytes}
use oncrpc4_win.Xdr.Rec.Output.{Holds, xdrrec_putlong_lem}
use oncrpc4_win.Xdr.Rec.Bytes.{PutAll, xdrrec_putbytes_lem}
use oncrpc4_win.Xdr.RecIn.{InStream, Reads, xdrrec_getlong, xdrrec_getbytes}
use oncrpc4_win.Xdr.RecIn.Input.{Transport}
use oncrpc4_win.Xdr.RecIn.Fragments.{Held}
use oncrpc4_win.Xdr.RecIn.Laws.{Next}
use oncrpc4_win.Xdr.RecIn.Records.{xdrrec_getbytes-Next, NextLong, xdrrec_getlong-Next}
use oncrpc4_win.Xdr.RecStream.{Handle, RecStream, with_input, with_output, put_bytes, rec_ops}
use oncrpc4_win.Xdr.RecStream.Deframe.{deframe, concat, deframe-Framed}

-- The records that were ended, one behind the other, and behind them the open record.
unfoldable pub carried : OutStream → List ℕ
carried o = deframe 0 (o.sent ++ o.ready) ++ o.frag

pub carried-Holds :
    (o : OutStream) (records : List (List ℕ)) (current : List ℕ)
    → Holds o records current
    → carried o ≡ concat records ++ current
unfolding carried deframe
carried-Holds o records current h =
    ap (λ t. t ++ o.frag)
      (ap (deframe 0) (sym (append-nil (o.sent ++ o.ready)))
        ∙ deframe-Framed h.framed []
        ∙ append-nil (concat records ++ h.opened))
    ∙ append_assoc (concat records) h.opened o.frag
    ∙ ap (λ t. concat records ++ t) h.content

module _ {C : Type 0} (io : Handle C) (t : Transport io.readit)
    (taken : (sent bs : List ℕ) → io.writeit sent bs ≡ true) where
  -- Some record is open behind the `records`; it takes any number of bytes, and the input stays `i`.
  abbrev pub Open : InStream C → List (List ℕ) → RecStream C → ℕ → Type 0
  Open i records s n = ((current : List ℕ) × Holds s.out records current) × (s.inp ≡ i)

  -- The rest `bs` of a record is to be read, and the output stays `o`.
  abbrev pub Reading : OutStream → List ℕ → RecStream C → List ℕ → Type 0
  Reading o more s bs = (s.x_op ≡ decode) × Held t s.inp bs more × (s.out ≡ o)

  abbrev pub written : RecStream C → List ℕ
  written s = carried s.out

  pub put_Wrote :
      (i : InStream C) (records : List (List ℕ)) (s : RecStream C) (current bs : List ℕ) (n : ℕ)
      (r : Bool × OutStream)
      → Holds s.out records current
      → s.inp ≡ i
      → r.0 ≡ true
      → Holds r.1 records (current ++ bs)
      → Wrote (Open i records) ◌++◌ written s bs n (with_output io s r)
  put_Wrote i records s current bs n (false, o) h ei ok h' = cc
  put_Wrote i records s current bs n (true, o) h ei ok h' = (
    ok,
    carried-Holds o records (current ++ bs) h'
        ∙ sym (append_assoc (concat records) current bs)
        ∙ ap (λ c. c ++ bs) (sym (carried-Holds s.out records current h)),
    ((current ++ bs, h'), ei),
  )

  pub put_bytes-Wrote :
      (i : InStream C) (records : List (List ℕ)) (s : RecStream C) (current bs : List ℕ) (n : ℕ)
      (r : Option (Bool × OutStream))
      → Holds s.out records current
      → s.inp ≡ i
      → PutAll records (current ++ bs) r
      → Wrote (Open i records) ◌++◌ written s bs n (put_bytes io s r)
  put_bytes-Wrote i records s current bs n none h ei g = absurd g
  put_bytes-Wrote i records s current bs n (some r) h ei (ok, h') =
      put_Wrote i records s current bs n r h ei ok h'

  pub getlong-Took :
      (o : OutStream) (more rest : List ℕ) (v : ℕ) (s : RecStream C)
      (r : Option (Option ℕ × InStream C))
      → IsU32 v
      → s.x_op ≡ decode
      → s.out ≡ o
      → NextLong t more (be32 v ++ rest) r
      → Took (Reading o more) v rest (with_input io s r)
  unfolding be32 word_of
  getlong-Took o more rest v s none h ed eo g = absurd g
  getlong-Took o more rest v s (some (none, i)) h ed eo g = absurd (omega (arith, g))
  getlong-Took o more rest v s (some (some w, i)) h ed eo (few, e, held) =
      (ap some (e ∙ word_be32 v h), (ed, held, eo))

  pub getbytes-Took :
      (o : OutStream) (more rest bs : List ℕ) (s : RecStream C) (r : Reads io.readit)
      → s.x_op ≡ decode
      → s.out ≡ o
      → Next t more (length bs) (bs ++ rest) r
      → Took (Reading o more) bs rest (with_input io s r)
  getbytes-Took o more rest bs s none ed eo g = absurd g
  getbytes-Took o more rest bs s (some (none, i)) ed eo g =
      absurd (omega (arith, g, length-append bs rest))
  getbytes-Took o more rest bs s (some (some cs, i)) ed eo (few, e, held) = (
    ap some (e ∙ take-append_length bs rest (length bs) refl),
    (ed, subst (λ w. Held t i w more) (drop-append_length bs rest (length bs) refl) held, eo),
  )

  -- The laws of a stream whose closed records are `records`, and which reads a record that `more`
  -- follows: a writer leaves the input `i` alone, and a reader the output `o`.
  unfoldable pub rec_laws : InStream C → OutStream → List (List ℕ) → List ℕ → XdrLaws (rec_ops io)
  unfolding rec_ops
  rec_laws i o records more = record {
    Room = Open i records;
    Sink = List ℕ;
    append = ◌++◌;
    output = written;
    Input = Reading o more;
    append-nil = λ s. append-nil (written s);
    append-append = append_assoc;
    putlong_lem = λ s v n ((current, h), ei).
        let (ok, h') = xdrrec_putlong_lem io.writeit taken s.out records current v h in
        put_Wrote i records s current (be32 v) n (xdrrec_putlong io.writeit s.out v) h ei ok h';
    putbytes_lem = λ s bs n ((current, h), ei).
        put_bytes-Wrote i records s current bs n
          (xdrrec_putbytes io.writeit (length bs + 2) s.out bs) h ei
          (xdrrec_putbytes_lem io.writeit taken (length bs + 2) s.out records current bs
            (omega arith) h);
    getlong_lem = λ s v rest h (ed, held, eo).
        getlong-Took o more rest v s (xdrrec_getlong io.readit s.inp) h ed eo
          (xdrrec_getlong-Next t s.inp (be32 v ++ rest) more held);
    getbytes_lem = λ s bs rest (ed, held, eo).
        getbytes-Took o more rest bs s
          (xdrrec_getbytes io.readit (2 * length bs + 2) s.inp (length bs)) ed eo
          (xdrrec_getbytes-Next t s.inp (length bs) (bs ++ rest) more held);
  }
