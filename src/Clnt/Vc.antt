-- ===== src/Clnt/Vc.antt =====
-- libsrc/clnt_vc.c: calls over a connection, on a record stream. The locks of `_REENTRANT` builds
-- are not followed.
pub mod Call
pub mod Header
pub mod Sends
pub mod Connection
pub mod Answers
pub mod Calls
pub mod Success
pub mod Refusal
pub mod Outcomes
pub mod Returns
pub mod Served
pub mod Create
pub mod Created
pub mod Replies
pub mod Await
use oncrpc4_win.Common.{
  ℕ, zero, suc, ◌+◌, ◌-◌, ◌*◌, ◌/◌, ◌%◌, ◌^◌, Bool, true, false, not, ◌&&◌, ◌||◌, Option, none,
  some, List, [], ◌∷◌, ◌++◌, take, drop, ltb, leb, ◌==◌, if◌then◌else◌,
}
use oncrpc4_win.Common.Words.{word_of}
use oncrpc4_win.Xdr.Stream.{XdrOp, encode, decode, free, XdrOps, Filter, and_put}
use oncrpc4_win.Xdr.Scalar.{xdr_void}
use oncrpc4_win.Xdr.RecStream.{Handle, RecStream, rec_ops, skip_record, end_record}
use oncrpc4_win.Rpc.Msg.{OpaqueAuth, ReplyMsg}
use oncrpc4_win.Rpc.Auth.{xdr_opaque_auth}
use oncrpc4_win.Rpc.Auth.Laws.{null_auth}
use oncrpc4_win.Rpc.Reply.{xdr_replymsg}
use oncrpc4_win.Rpc.Reply.Errors.{
  ClntStat, rpc_success, rpc_autherror, rpc_cantencodeargs, rpc_cantsend, rpc_timedout,
  rpc_cantdecoderes, RpcErr, seterr_reply,
}
use oncrpc4_win.Clnt.Auth.{AuthOps}

-- `struct timeval`, whose `long`s are their 32-bit patterns.
pub record Timeval : Type 0 where
  pub sec : ℕ
  pub usec : ℕ

unfoldable pub time_not_ok : Timeval → Bool
time_not_ok t =
    (leb (2 ^ 31) t.sec || ltb 100000000 t.sec) || (leb (2 ^ 31) t.usec || ltb 1000000 t.usec)

-- The part of `struct ct_data` that `read_vc` and `write_vc` see, with the socket `os`: the stream's
-- `tcp_handle`. `re_errno` is not followed.
pub record CtHandle (O : Type 0) : Type 0 where
  pub os : O
  pub error : RpcErr

-- `struct ct_data`.
pub record CtData (O : Type 0) : Type 0 where
  pub wait : Timeval
  pub waitset : Bool
  pub mcallc : List ℕ
  pub mpos : ℕ
  pub xdrs : RecStream (CtHandle O)

-- `--(*msg_x_id)`: the four bytes at `ct_mcallc` are a number of a little-endian machine.
unfoldable pub next_xid : List ℕ → List ℕ
next_xid (a ∷ b ∷ c ∷ d ∷ bs) =
    let v = (a + b * 256 + c * 65536 + d * 16777216 + (2 ^ 32 - 1)) % 2 ^ 32 in
    (v % 256) ∷ (v / 256 % 256) ∷ (v / 65536 % 256) ∷ (v / 16777216) ∷ bs
next_xid (a ∷ b ∷ c ∷ []) = a ∷ b ∷ c ∷ []
next_xid (a ∷ b ∷ []) = a ∷ b ∷ []
next_xid (a ∷ []) = a ∷ []
next_xid [] = []

abbrev pub is_success : ClntStat → Bool
is_success rpc_success = true
is_success _ = false

module _ {O : Type 0} where
  -- `ct->ct_error.re_status`.
  abbrev pub re_status : RecStream (CtHandle O) → ClntStat
  re_status s = s.inp.conn.error.status

  abbrev pub set_error : (RpcErr → RpcErr) → RecStream (CtHandle O) → RecStream (CtHandle O)
  set_error f s = record s {
    inp = record s.inp { conn = record s.inp.conn { error = f s.inp.conn.error } };
  }

  abbrev pub set_status : ClntStat → RecStream (CtHandle O) → RecStream (CtHandle O)
  set_status stat = set_error (λ e. record e { status = stat })

  -- `if (ct->ct_error.re_status == RPC_SUCCESS) ct->ct_error.re_status = stat;`
  abbrev pub unless_failed : ClntStat → RecStream (CtHandle O) → RecStream (CtHandle O)
  unless_failed stat s = if is_success (re_status s) then set_status stat s else s

  abbrev pub set_op : XdrOp → RecStream (CtHandle O) → RecStream (CtHandle O)
  set_op op s = record s { x_op = op }

-- The message before it is received: its verifier is `_null_auth`.
abbrev pub fresh_reply : ReplyMsg Unit → ReplyMsg Unit
fresh_reply m = record m { ru = record m.ru { acpt = record m.ru.acpt { verf = null_auth } } }

module _ {O A Args : Type 0} (io : Handle (CtHandle O)) (auth : AuthOps A (RecStream (CtHandle O)))
    (xdr_args : Filter (RecStream (CtHandle O)) Args) where
  abbrev pub with_args :
      Args → Bool × A × RecStream (CtHandle O) → Bool × Args × A × RecStream (CtHandle O)
  with_args args (false, a, s) = (false, args, a, s)
  with_args args (true, a, s) = let (r, args', s') = xdr_args encode args s in (r, args', a, s')

  abbrev pub with_auth :
      A → Args → Bool × RecStream (CtHandle O) → Bool × Args × A × RecStream (CtHandle O)
  with_auth a args (false, s) = (false, args, a, s)
  with_auth a args (true, s) = with_args args (auth.marshal a s)

  -- The header that is marshalled already, the procedure, the credentials and the arguments.
  abbrev pub put_call :
      List ℕ → ℕ → A → Args → RecStream (CtHandle O) → Bool × Args × A × RecStream (CtHandle O)
  put_call header proc a args s =
      with_auth a args (and_put ((rec_ops io).putbytes s header) (λ t. (rec_ops io).putlong t proc))

module _ {O : Type 0} (io : Handle (CtHandle O)) (mem_alloc : ℕ → Option (List ℕ)) where
  -- `none` where the loops have not returned within the fuel; FALSE is a return of `re_status`.
  abbrev pub Awaited : Type 0
  Awaited = Option (Bool × ReplyMsg Unit × RecStream (CtHandle O))

  -- A reply that cannot be decoded is passed over, unless the connection has failed, and so is a
  -- reply to another call.
  abbrev pub after_reply :
      (ReplyMsg Unit → RecStream (CtHandle O) → Awaited)
      → ℕ
      → Bool × ReplyMsg Unit × RecStream (CtHandle O)
      → Awaited
  after_reply go x_id (false, m, s) =
      if is_success (re_status s) then go m s else some (false, m, s)
  after_reply go x_id (true, m, s) = if m.xid == x_id then some (true, m, s) else go m s

  abbrev pub after_skip :
      (ReplyMsg Unit → RecStream (CtHandle O) → Awaited)
      → ℕ
      → ReplyMsg Unit
      → Option (Bool × RecStream (CtHandle O))
      → Awaited
  after_skip go x_id m none = none
  after_skip go x_id m (some (false, s)) = some (false, m, s)
  after_skip go x_id m (some (true, s)) =
      after_reply go x_id (xdr_replymsg (rec_ops io) mem_alloc xdr_void decode m s)

  -- The loop, for at most `rounds` records, each of which may take `fuel` rounds to skip.
  unfoldable pub await_reply : ℕ → ℕ → ℕ → ReplyMsg Unit → RecStream (CtHandle O) → Awaited
  await_reply zero fuel x_id m s = none
  await_reply (suc rounds) fuel x_id m s =
      after_skip (await_reply rounds fuel x_id) x_id (fresh_reply m) (skip_record io fuel s)

abbrev pub is_null : Option (List ℕ) → Bool
is_null none = true
is_null (some bs) = false

module _ {O A R : Type 0} (io : Handle (CtHandle O)) (mem_alloc : ℕ → Option (List ℕ))
    (auth : AuthOps A (RecStream (CtHandle O)))
    (xdr_results : Filter (RecStream (CtHandle O)) R) where
  -- AUTH_INVALIDRESP is 6.
  abbrev pub get_results : R → RecStream (CtHandle O) → Bool × A → R × A × RecStream (CtHandle O)
  get_results res s (false, a) =
      (res, a, set_error (λ e. record e { status = rpc_autherror; why = 6 }) s)
  get_results res s (true, a) =
      let (r, res', s') = xdr_results s.x_op res s in
      (res', a, if r then s' else unless_failed rpc_cantdecoderes s')

  abbrev pub free_verf :
      OpaqueAuth → R × A × RecStream (CtHandle O) → R × A × RecStream (CtHandle O)
  free_verf verf (res, a, s) =
      if is_null verf.body.base
      then (res, a, s)
      else (res, a, (xdr_opaque_auth (rec_ops io) mem_alloc free verf (set_op free s)).2)

  -- The end of a call that the server has accepted and carried out.
  unfoldable pub accept_reply :
      ReplyMsg Unit → R → A → RecStream (CtHandle O) → R × A × RecStream (CtHandle O)
  accept_reply m res a s =
      free_verf m.ru.acpt.verf (get_results res s (auth.validate a m.ru.acpt.verf))
