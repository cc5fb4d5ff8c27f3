-- ===== src/Clnt/Vc/Call.antt =====
-- libsrc/clnt_vc.c: `clnt_vc_call`.
use oncrpc4_win.Common.{
  ℕ, zero, suc, Bool, true, false, not, ◌&&◌, Option, none, some, List, take, ◌==◌, if◌then◌else◌,
}
use oncrpc4_win.Common.Words.{word_of}
use oncrpc4_win.Xdr.Stream.{encode, decode, Filter}
use oncrpc4_win.Xdr.RecStream.{Handle, RecStream, end_record}
use oncrpc4_win.Rpc.Msg.{ReplyMsg}
use oncrpc4_win.Rpc.Reply.Errors.{
  ClntStat, rpc_success, rpc_cantencodeargs, rpc_cantsend, rpc_timedout, seterr_reply,
}
use oncrpc4_win.Clnt.Auth.{AuthOps}
use oncrpc4_win.Clnt.Vc.{
  Timeval, time_not_ok, CtHandle, CtData, next_xid, is_success, re_status, set_error, set_status,
  unless_failed, set_op, put_call, Awaited, await_reply, accept_reply,
}

module _ {O A Args R : Type 0} (io : Handle (CtHandle O)) (mem_alloc : ℕ → Option (List ℕ))
    (auth : AuthOps A (RecStream (CtHandle O))) (xdr_args : Filter (RecStream (CtHandle O)) Args)
    (xdr_results : Filter (RecStream (CtHandle O)) R) where
  -- What is returned, the results, the private part of `cl_auth`, and `cl_private`.
  abbrev pub Returned : Type 0
  Returned = Option (ClntStat × R × A × CtData O)

  abbrev pub return_status : CtData O → R × A × RecStream (CtHandle O) → Returned
  return_status ct (res, a, s) = some (re_status s, res, a, record ct { xdrs = s })

  -- `if (refreshes-- && AUTH_REFRESH(h->cl_auth)) goto call_again;`
  abbrev pub refreshed :
      (A → CtData O → Returned) → CtData O → R → RecStream (CtHandle O) → Bool × A → Returned
  refreshed again ct res s (false, a) = return_status ct (res, a, s)
  refreshed again ct res s (true, a) = again a (record ct { xdrs = s })

  -- What follows the loop.
  abbrev pub process_header :
      (ReplyMsg Unit → A → CtData O → RecStream (CtHandle O) → Returned)
      → CtData O
      → R
      → A
      → Awaited io mem_alloc
      → Returned
  process_header refused ct res a none = none
  process_header refused ct res a (some (false, m, s)) = return_status ct (res, a, s)
  process_header refused ct res a (some (true, m, s)) =
      let t = set_error (seterr_reply m) s in
      if is_success (re_status t)
      then return_status ct (accept_reply io mem_alloc auth xdr_results m res a t)
      else refused m a ct t

  -- The arguments of the call that do not change: the fuel, the procedure, whether the results are
  -- waited for, whether the timeout is zero, and the object for the results.
  module _ (fuel proc : ℕ) (shipnow no_time : Bool) (res : R) where
    abbrev pub Refused : Type 0
    Refused = ReplyMsg Unit → Args → A → CtData O → RecStream (CtHandle O) → Returned

    abbrev pub after_send :
        Refused → ReplyMsg Unit → Args → A → CtData O → Bool × RecStream (CtHandle O) → Returned
    after_send refused m args a ct (false, s) = return_status ct (res, a, set_status rpc_cantsend s)
    after_send refused m args a ct (true, s) =
        if not shipnow
        then some (rpc_success, res, a, record ct { xdrs = s })
        else if no_time
        then return_status ct (res, a, set_status rpc_timedout s)
        else process_header (λ m a ct s. refused m args a ct s) ct res a
            (await_reply io mem_alloc fuel fuel (word_of ct.mcallc) m (set_op decode s))

    abbrev pub after_put :
        Refused → ReplyMsg Unit → CtData O → Bool × Args × A × RecStream (CtHandle O) → Returned
    after_put refused m ct (false, args, a, s) =
        return_status ct (res, a, (end_record io (unless_failed rpc_cantencodeargs s) true).1)
    after_put refused m ct (true, args, a, s) =
        after_send refused m args a ct (end_record io s shipnow)

    -- From `call_again` on; `refused` follows a reply that is no success.
    abbrev pub one_call : Refused → ReplyMsg Unit → Args → A → CtData O → Returned
    one_call refused m args a ct =
        let ct1 = record ct { mcallc = next_xid ct.mcallc } in
        after_put refused m ct1 (
          put_call io auth xdr_args (take ct1.mpos ct1.mcallc) proc a args
            (set_status rpc_success (set_op encode ct.xdrs)))

    abbrev pub give_up : Refused
    give_up m args a ct s = return_status ct (res, a, s)

    -- `if (refreshes-- && AUTH_REFRESH(h->cl_auth)) goto call_again;`
    unfoldable pub call_again : ℕ → ReplyMsg Unit → Args → A → CtData O → Returned
    call_again zero m args a ct = one_call give_up m args a ct
    call_again (suc refreshes) m args a ct =
        one_call
          (λ m args a ct s. refreshed (call_again refreshes m args) ct res s (auth.refresh a)) m
          args a ct

  abbrev pub is_zero : Timeval → Bool
  is_zero t = t.sec == 0 && t.usec == 0

  abbrev pub set_wait : Timeval → CtData O → CtData O
  set_wait timeout ct =
      if not ct.waitset && not (time_not_ok timeout) then record ct { wait = timeout } else ct

  -- `null_results` says whether `xdr_results` is NULL, which is not followed where it is called;
  -- `m` is what stands in the local `reply_msg`.
  unfoldable pub clnt_vc_call :
      ℕ → ℕ → Timeval → Bool → ReplyMsg Unit → Args → R → A → CtData O → Returned
  clnt_vc_call fuel proc timeout null_results m args res a ct =
      call_again fuel proc (not (null_results && is_zero timeout)) (is_zero timeout) res 2 m args a
        (set_wait timeout ct)
