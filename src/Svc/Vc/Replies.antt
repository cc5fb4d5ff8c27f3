-- ===== src/Svc/Vc/Replies.antt =====
-- A server answers on its connection.
use oncrpc4_win.Common.{ℕ, ◌≡◌, refl, ◌∙◌, Bool, true, Option, List, [], ◌∷◌, ◌++◌}
use oncrpc4_win.Xdr.Stream.{encode, Filter}
use oncrpc4_win.Xdr.Codec.{Codec}
use oncrpc4_win.Xdr.Rec.Output.{Holds}
use oncrpc4_win.Xdr.RecIn.Input.{Transport}
use oncrpc4_win.Xdr.RecStream.{Handle, RecStream, rec_ops}
use oncrpc4_win.Xdr.RecStream.Laws.{rec_laws}
use oncrpc4_win.Xdr.RecStream.Written.{Encoded-Holds, end_record-Holds}
use oncrpc4_win.Rpc.Msg.{ReplyMsg, ReplyArms}
use oncrpc4_win.Rpc.Reply.{xdr_replymsg}
use oncrpc4_win.Rpc.Reply.Message.{
  Verdict, sent, reply_of, IsVerdict, reply_wire, xdr_replymsg-Encodes,
}
use oncrpc4_win.Svc.Vc.{VcHandle, CfConn, set_op, replied, svc_vc_reply}

-- The reply has gone out as the next record, and nothing is left to be sent; the input is as it
-- was.
abbrev pub Answered :
    {O R : Type 0}
    → List (List ℕ)
    → List ℕ
    → ReplyMsg R
    → CfConn O
    → Bool × ReplyMsg R × CfConn O
    → Type 0
Answered records wire msg conn (ok, m, conn') =
    (ok ≡ true)
    × (m ≡ msg)
    × Holds conn'.xdrs.out (records ++ (wire ∷ [])) []
    × (conn'.xdrs.out.ready ≡ [])
    × (conn'.xdrs.inp ≡ conn.xdrs.inp)
    × (conn'.x_id ≡ conn.x_id)

module _ {O : Type 0} (io : Handle (VcHandle O)) (t : Transport io.readit)
    (taken : (sent bs : List ℕ) → io.writeit sent bs ≡ true) (mem_alloc : ℕ → Option (List ℕ))
    {R : Type 0} (f : Filter (RecStream (VcHandle O)) R) where
  replied-Answered :
      (records : List (List ℕ)) (wire : List ℕ) (msg : ReplyMsg R) (conn : CfConn O)
      (r : Bool × ReplyMsg R × RecStream (VcHandle O))
      → r.0 ≡ true
      → r.1 ≡ msg
      → Holds r.2.out records wire
      → r.2.inp ≡ conn.xdrs.inp
      → Answered records wire msg conn (replied io mem_alloc f conn r)
  replied-Answered records wire msg conn (b, m, s) ok e h ei =
      let (_, holds', same, now) = end_record-Holds io t taken s records wire true h in
      (ok, e, holds', now refl, same ∙ ei, refl)

  -- When the transport takes what it is given, and the connection is between two records:
  -- `svc_vc_reply` returns TRUE and has sent one record more, which is the reply with the
  -- transaction id of the call that was received last, whatever id the caller's message had, and
  -- whatever its verdict.
  pub svc_vc_reply-Answered :
      (conn : CfConn O) (records : List (List ℕ)) (more : List ℕ)
      (c : Codec (rec_laws io t taken conn.xdrs.inp conn.xdrs.out records more) f) (xid : ℕ)
      (u : ReplyArms R) (v : Verdict R)
      → Holds conn.xdrs.out records []
      → IsVerdict (rec_laws io t taken conn.xdrs.inp conn.xdrs.out records more) mem_alloc c v
      → Answered records
          (reply_wire
            (rec_laws io t taken conn.xdrs.inp conn.xdrs.out records more)
            mem_alloc
            c
            conn.x_id
            v)
          (reply_of conn.x_id v (sent u v))
          conn
          (svc_vc_reply io mem_alloc f conn (reply_of xid v (sent u v)))
  unfolding svc_vc_reply
  svc_vc_reply-Answered conn records more c xid u v h hv =
      let laws = rec_laws io t taken conn.xdrs.inp conn.xdrs.out records more in
      let s : RecStream (VcHandle O) = set_op encode conn.xdrs in
      let msg : ReplyMsg R = reply_of conn.x_id v (sent u v) in
      let (ok, e, h', ei) =
        Encoded-Holds io t taken conn.xdrs.inp conn.xdrs.out records more msg
          (reply_wire laws mem_alloc c conn.x_id v) [] s 0 h
          (xdr_replymsg (rec_ops io) mem_alloc f encode msg s)
          (xdr_replymsg-Encodes laws mem_alloc c conn.x_id u v hv s 0
            (unfold rec_laws in (([], h), refl))) in
      replied-Answered records (reply_wire laws mem_alloc c conn.x_id v) msg conn
        (xdr_replymsg (rec_ops io) mem_alloc f encode msg s) ok e h' ei
