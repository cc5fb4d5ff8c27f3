-- ===== src/Svc/Vc/Calls.antt =====
-- A server takes a call from its connection and answers it.
use oncrpc4_win.Common.{
  ℕ, ◌<◌, ◌≡◌, refl, sym, ap, ◌∙◌, Bool, true, false, Option, none, some, List, [], ◌++◌, length,
  if_false,
}
use mathlib.Core.Path.{subst}
use oncrpc4_win.Xdr.Stream.{decode, Filter}
use oncrpc4_win.Xdr.Codec.{Decoded, Decodes}
use oncrpc4_win.Xdr.Rec.{OutStream}
use oncrpc4_win.Xdr.RecIn.{InStream}
use oncrpc4_win.Xdr.RecIn.Input.{Transport}
use oncrpc4_win.Xdr.RecIn.Fragments.{Frags, Held}
use oncrpc4_win.Xdr.RecIn.Skip.{Moves, xdrrec_skiprecord}
use oncrpc4_win.Xdr.RecIn.Records.{Before, xdrrec_skiprecord-Before}
use oncrpc4_win.Xdr.RecStream.{Handle, RecStream, rec_ops, moved, use_up, getrec, skip_record}
use oncrpc4_win.Xdr.RecStream.Laws.{Reading, rec_laws}
use oncrpc4_win.Xdr.RecStream.Lends.{rec-InlineLaws}
use oncrpc4_win.Rpc.Msg.{CallMsg}
use oncrpc4_win.Rpc.CallMsg.{xdr_callmsg}
use oncrpc4_win.Rpc.CallMsg.Laws.{Call, IsCall, arrived, call_wire}
use oncrpc4_win.Rpc.CallMsg.Whole.{xdr_callmsg-Decodes}
use oncrpc4_win.Svc.Vc.{
  VcHandle, CfConn, set_op, svc_vc_getargs, Recv, called, after_skip, after_getrec, next_call,
  svc_vc_recv,
}

module _ {O : Type 0} (io : Handle (VcHandle O)) (t : Transport io.readit)
    (taken : (sent bs : List ℕ) → io.writeit sent bs ≡ true) (mem_alloc : ℕ → Option (List ℕ)) where
  -- The call has been received, and the arguments `v` behind it are there to be got.
  abbrev pub Serves :
      {A : Type 0}
      → OutStream
      → Call
      → List ℕ
      → List ℕ
      → Filter (RecStream (VcHandle O)) A
      → A
      → A
      → List ℕ
      → List ℕ
      → Recv io mem_alloc
      → Type 0
  Serves o c cred verf f old v rest later none = ⊥
  Serves o c cred verf f old v rest later (some (ok, m, conn)) =
      (ok ≡ true)
      × (m ≡ arrived c cred verf)
      × (conn.x_id ≡ c.xid)
      × (let (got, w, conn') = svc_vc_getargs conn f old in
          (got ≡ true)
          × (w ≡ v)
          × (conn'.x_id ≡ c.xid)
          × Reading io t taken o later conn'.xdrs rest)

  args_Got :
      {A : Type 0} (laws_i : InStream (VcHandle O)) (o : OutStream) (records : List (List ℕ))
      (later rest w : List ℕ) (f : Filter (RecStream (VcHandle O)) A) (old v : A) (xid : ℕ)
      (s : RecStream (VcHandle O))
      → Decodes (rec_laws io t taken laws_i o records later) f old v w
      → Reading io t taken o later s (w ++ rest)
      → let (got, a, conn) = svc_vc_getargs (record { x_id = xid; xdrs = s }) f old in
        (got ≡ true) × (a ≡ v) × (conn.x_id ≡ xid) × Reading io t taken o later conn.xdrs rest
  unfolding svc_vc_getargs rec_laws
  args_Got laws_i o records later rest w f old v xid s h (ed, held, eo) =
      let (ok, e, left) = h s rest (ed, held, eo) in
      subst
        (λ op.
          let (got, a, s') = f op old s in
          (got ≡ true) × (a ≡ v) × (xid ≡ xid) × Reading io t taken o later s' rest)
        (sym ed) (ok, e, refl, left)

  called-Serves :
      {A : Type 0} (laws_i : InStream (VcHandle O)) (o : OutStream) (records : List (List ℕ))
      (later rest w cred verf : List ℕ) (c : Call) (f : Filter (RecStream (VcHandle O)) A)
      (old v : A) (conn : CfConn O)
      → Decodes (rec_laws io t taken laws_i o records later) f old v w
      → (r : Bool × CallMsg × RecStream (VcHandle O))
      → Decoded (rec_laws io t taken laws_i o records later) (arrived c cred verf) (w ++ rest) r
      → Serves o c cred verf f old v rest later (some (called io mem_alloc conn r))
  unfolding rec_laws
  called-Serves laws_i o records later rest w cred verf c f old v conn h (false, m, s)
        (ok, e, left) =
      cc
  called-Serves laws_i o records later rest w cred verf c f old v conn h (true, m, s)
        (ok, e, left) =
      let xid : m.xid ≡ c.xid = ap (λ (m : CallMsg). m.xid) e in
      let (got, a, same, left') = args_Got laws_i o records later rest w f old v m.xid s h left in
      (refl, e, xid, (got, a, same ∙ xid, left'))

  after_skip-Serves :
      {A : Type 0} (o : OutStream) (more later rest w cred verf : List ℕ) (c : Call) (msg : CallMsg)
      (f : Filter (RecStream (VcHandle O)) A) (old v : A) (conn : CfConn O)
      (s : RecStream (VcHandle O))
      → s.x_op ≡ decode
      → s.out ≡ o
      → Frags more (call_wire c ++ (w ++ rest)) later
      → IsCall c
      → msg.body.cred.body.base ≡ some cred
      → msg.body.verf.body.base ≡ some verf
      → Decodes (rec_laws io t taken s.inp o [] later) f old v w
      → (r : Moves io.readit) → Before t more r
      → Serves o c cred verf f old v rest later (after_skip io mem_alloc conn msg (moved io s r))
  unfolding rec_laws
  after_skip-Serves o more later rest w cred verf c msg f old v conn s ed eo frags hc ec ev h none
        g =
      absurd g
  after_skip-Serves o more later rest w cred verf c msg f old v conn s ed eo frags hc ec ev h
        (some (b, i)) (ok, at_i, next) =
      called-Serves s.inp o [] later rest w cred verf c f old v conn h
        (xdr_callmsg (rec_ops io) mem_alloc decode msg (record s { inp = i }))
        (xdr_callmsg-Decodes (rec_laws io t taken s.inp o [] later) mem_alloc
          (rec-InlineLaws io t taken s.inp o [] later) c msg cred verf hc ec ev
          (record s { inp = i }) (w ++ rest)
          (ed, next (call_wire c ++ (w ++ rest)) later frags, eo))

  -- On a blocking connection that stands anywhere in a record, and behind whose record the bytes of
  -- a call and of its arguments follow as a record, in any fragments and however they are delivered:
  -- `svc_vc_recv` returns TRUE with that call, whose transaction id the connection keeps, and
  -- `svc_vc_getargs` then returns TRUE with the arguments. What is to be sent is not touched. The
  -- rounds of the loops are bounded by the bytes to come.
  pub svc_vc_recv-Serves :
      {A : Type 0} (fuel : ℕ) (conn : CfConn O) (msg : CallMsg) (c : Call)
      (before more later rest w cred verf : List ℕ) (f : Filter (RecStream (VcHandle O)) A)
      (old v : A) (held : Held t conn.xdrs.inp before more)
      → conn.xdrs.inp.conn.nonblock ≡ false
      → length held.at_stream < fuel
      → Frags more (call_wire c ++ (w ++ rest)) later
      → IsCall c
      → msg.body.cred.body.base ≡ some cred
      → msg.body.verf.body.base ≡ some verf
      → Decodes (rec_laws io t taken conn.xdrs.inp conn.xdrs.out [] later) f old v w
      → Serves conn.xdrs.out c cred verf f old v rest later (svc_vc_recv io mem_alloc fuel conn msg)
  unfolding svc_vc_recv skip_record
  svc_vc_recv-Serves fuel conn msg c before more later rest w cred verf f old v held eb hf frags hc
        ec ev h =
      let s : RecStream (VcHandle O) = set_op decode conn.xdrs in
      let r : Moves io.readit = xdrrec_skiprecord io.readit fuel conn.xdrs.inp in
      let Goal : Recv io mem_alloc → Type 0 = Serves conn.xdrs.out c cred verf f old v rest later in
      if_false Goal conn.xdrs.inp.conn.nonblock
        (after_getrec io mem_alloc fuel conn msg (getrec io conn.xdrs true))
        (next_call io mem_alloc fuel conn msg) eb
        (if_false (λ w. Goal (after_skip io mem_alloc conn msg w)) conn.xdrs.inp.nonblock
          (some (use_up io (getrec io s false))) (moved io s r) held.at.blocking
          (after_skip-Serves conn.xdrs.out more later rest w cred verf c msg f old v conn s refl
            refl frags hc ec ev h r
            (xdrrec_skiprecord-Before t fuel conn.xdrs.inp before more held hf)))
