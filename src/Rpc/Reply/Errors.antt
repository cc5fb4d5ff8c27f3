-- ===== src/Rpc/Reply/Errors.antt =====
-- libsrc/rpc_prot.c: what a reply means to the client (`accepted`, `rejected`, `_seterr_reply`).
use oncrpc4_win.Common.{ℕ, if◌then◌else◌, ◌==◌}
use oncrpc4_win.Rpc.Msg.{
  ReplyMsg, Versions, msg_accepted, msg_denied, success, prog_unavail, prog_mismatch, proc_unavail,
  garbage_args, system_err, rpc_mismatch, auth_error,
}

-- `enum clnt_stat`, as far as a reply or a call over a connection sets it.
pub data ClntStat : Type 0 where
  rpc_success rpc_versmismatch rpc_autherror rpc_progunavail rpc_progversmismatch rpc_procunavail
        rpc_cantdecodeargs rpc_systemerror rpc_failed rpc_cantencodeargs rpc_cantsend rpc_cantrecv
        rpc_timedout rpc_cantdecoderes :
      ClntStat

-- `re_lb`.
pub record Lost : Type 0 where
  pub s1 : ℕ
  pub s2 : ℕ

-- `struct rpc_err`; the members of the union `ru` are fields of their own.
pub record RpcErr : Type 0 where
  pub status : ClntStat
  pub vers : Versions
  pub why : ℕ
  pub lb : Lost

-- `accepted`.
unfoldable pub accept_error : ℕ → RpcErr → RpcErr
accept_error stat error =
    if stat == prog_unavail
    then record error { status = rpc_progunavail }
    else if stat == prog_mismatch
    then record error { status = rpc_progversmismatch }
    else if stat == proc_unavail
    then record error { status = rpc_procunavail }
    else if stat == garbage_args
    then record error { status = rpc_cantdecodeargs }
    else if stat == system_err
    then record error { status = rpc_systemerror }
    else if stat == success
    then record error { status = rpc_success }
    else record error { status = rpc_failed; lb = record { s1 = msg_accepted; s2 = stat } }

unfoldable pub rejected : ℕ → RpcErr → RpcErr
rejected stat error =
    if stat == rpc_mismatch
    then record error { status = rpc_versmismatch }
    else if stat == auth_error
    then record error { status = rpc_autherror }
    else record error { status = rpc_failed; lb = record { s1 = msg_denied; s2 = stat } }

module _ {R : Type 0} where
  -- The second switch, on the status that the first has set.
  unfoldable pub details : ReplyMsg R → ClntStat → RpcErr → RpcErr
  details msg rpc_versmismatch error = record error { vers = msg.ru.rjct.vers }
  details msg rpc_autherror error = record error { why = msg.ru.rjct.why }
  details msg rpc_progversmismatch error = record error { vers = msg.ru.acpt.vers }
  details msg rpc_success error = error
  details msg rpc_progunavail error = error
  details msg rpc_procunavail error = error
  details msg rpc_cantdecodeargs error = error
  details msg rpc_systemerror error = error
  details msg rpc_failed error = error
  details msg rpc_cantencodeargs error = error
  details msg rpc_cantsend error = error
  details msg rpc_cantrecv error = error
  details msg rpc_timedout error = error
  details msg rpc_cantdecoderes error = error

  abbrev pub with_details : ReplyMsg R → RpcErr → RpcErr
  with_details msg error = details msg error.status error

  unfoldable pub seterr_reply : ReplyMsg R → RpcErr → RpcErr
  seterr_reply msg error =
      if msg.stat == msg_accepted
      then (if msg.ru.acpt.stat == success
          then record error { status = rpc_success }
          else with_details msg (accept_error msg.ru.acpt.stat error))
      else if msg.stat == msg_denied
      then with_details msg (rejected msg.ru.rjct.stat error)
      else with_details msg
          (record error { status = rpc_failed; lb = record error.lb { s1 = msg.stat } })
