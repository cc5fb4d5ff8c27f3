-- ===== src/Svc/Vc.antt =====
-- libsrc/svc_vc.c: the server's end of a connection, on a record stream.
pub mod Calls
pub mod Replies
use oncrpc4_win.Common.{ℕ, Bool, true, false, not, Option, none, some, List, if◌then◌else◌}
use oncrpc4_win.Xdr.Stream.{XdrOp, encode, decode, free, Filter}
use oncrpc4_win.Xdr.RecIn.Nonblock.{XprtStat, xprt_died, xprt_morereqs, xprt_idle}
use oncrpc4_win.Xdr.RecStream.{Handle, RecStream, rec_ops, getrec, skip_record, end_record, at_eof}
use oncrpc4_win.Rpc.Msg.{CallMsg, ReplyMsg}
use oncrpc4_win.Rpc.CallMsg.{xdr_callmsg}
use oncrpc4_win.Rpc.Reply.{xdr_replymsg}

-- The part of `struct cf_conn` that `read_vc` and `write_vc` see, with the socket `os`: the stream's
-- `tcp_handle`.
pub record VcHandle (O : Type 0) : Type 0 where
  pub os : O
  pub strm_stat : XprtStat
  pub nonblock : Bool

-- `struct cf_conn`.
pub record CfConn (O : Type 0) : Type 0 where
  pub x_id : ℕ
  pub xdrs : RecStream (VcHandle O)

abbrev pub is_died : XprtStat → Bool
is_died xprt_died = true
is_died xprt_morereqs = false
is_died xprt_idle = false

module _ {O : Type 0} where
  abbrev pub strm_stat : CfConn O → XprtStat
  strm_stat c = c.xdrs.inp.conn.strm_stat

  abbrev pub set_stat : XprtStat → CfConn O → CfConn O
  set_stat stat c = record c {
    xdrs = record c.xdrs {
      inp = record c.xdrs.inp { conn = record c.xdrs.inp.conn { strm_stat = stat } };
    };
  }

  abbrev pub set_op : XdrOp → RecStream (VcHandle O) → RecStream (VcHandle O)
  set_op op s = record s { x_op = op }

  abbrev pub with_xdrs :
      {A : Type 0} → CfConn O → Bool × A × RecStream (VcHandle O) → Bool × A × CfConn O
  with_xdrs c (r, a, s) = (r, a, record c { xdrs = s })

  -- `svc_vc_getargs` and `svc_vc_freeargs`.
  unfoldable pub svc_vc_getargs :
      {A : Type 0} → CfConn O → Filter (RecStream (VcHandle O)) A → A → Bool × A × CfConn O
  svc_vc_getargs c xdr_args args = with_xdrs c (xdr_args c.xdrs.x_op args c.xdrs)

  unfoldable pub svc_vc_freeargs :
      {A : Type 0} → CfConn O → Filter (RecStream (VcHandle O)) A → A → Bool × A × CfConn O
  svc_vc_freeargs c xdr_args args = with_xdrs c (xdr_args free args (set_op free c.xdrs))

module _ {O : Type 0} (io : Handle (VcHandle O)) (mem_alloc : ℕ → Option (List ℕ)) where
  -- `none` where the loops have not returned within the fuel.
  abbrev pub Recv : Type 0
  Recv = Option (Bool × CallMsg × CfConn O)

  abbrev pub called : CfConn O → Bool × CallMsg × RecStream (VcHandle O) → Bool × CallMsg × CfConn O
  called c (true, m, s) = (true, m, record { x_id = m.xid; xdrs = s })
  called c (false, m, s) = (false, m, set_stat xprt_died (record c { xdrs = s }))

  -- What `xdrrec_skiprecord` returns is not looked at.
  abbrev pub after_skip : CfConn O → CallMsg → Option (Bool × RecStream (VcHandle O)) → Recv
  after_skip c msg none = none
  after_skip c msg (some (r, s)) = some (called c (xdr_callmsg (rec_ops io) mem_alloc decode msg s))

  abbrev pub next_call : ℕ → CfConn O → CallMsg → Recv
  next_call fuel c msg = after_skip c msg (skip_record io fuel (set_op decode c.xdrs))

  abbrev pub after_getrec : ℕ → CfConn O → CallMsg → Bool × XprtStat × RecStream (VcHandle O) → Recv
  after_getrec fuel c msg (false, stat, s) =
      some (false, msg, set_stat stat (record c { xdrs = s }))
  after_getrec fuel c msg (true, stat, s) =
      next_call fuel (set_stat stat (record c { xdrs = s })) msg

  unfoldable pub svc_vc_recv : ℕ → CfConn O → CallMsg → Recv
  svc_vc_recv fuel c msg =
      if c.xdrs.inp.conn.nonblock
      then after_getrec fuel c msg (getrec io c.xdrs true)
      else next_call fuel c msg

  module _ {R : Type 0} (results : Filter (RecStream (VcHandle O)) R) where
    -- What `xdrrec_endofrecord` returns is not looked at.
    abbrev pub replied :
        CfConn O → Bool × ReplyMsg R × RecStream (VcHandle O) → Bool × ReplyMsg R × CfConn O
    replied c (rstat, m, s) = (rstat, m, record c { xdrs = (end_record io s true).1 })

    unfoldable pub svc_vc_reply : CfConn O → ReplyMsg R → Bool × ReplyMsg R × CfConn O
    svc_vc_reply c msg = replied c (
        xdr_replymsg (rec_ops io) mem_alloc results encode (record msg { xid = c.x_id })
          (set_op encode c.xdrs))

  abbrev pub stat_of :
      CfConn O → Option (Bool × RecStream (VcHandle O)) → Option (XprtStat × CfConn O)
  stat_of c none = none
  stat_of c (some (eof, s)) =
      some (if not eof then xprt_morereqs else xprt_idle, record c { xdrs = s })

  unfoldable pub svc_vc_stat : ℕ → CfConn O → Option (XprtStat × CfConn O)
  svc_vc_stat fuel c =
      if is_died (strm_stat c) then some (xprt_died, c) else stat_of c (at_eof io fuel c.xdrs)
