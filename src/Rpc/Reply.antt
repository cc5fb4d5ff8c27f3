-- ===== src/Rpc/Reply.antt =====
-- libsrc/rpc_prot.c: the filters of reply messages, the static part of a call, and `_seterr_reply`.
pub mod Denied
pub mod Accepted
pub mod Message
pub mod Layout
pub mod Errors
use oncrpc4_win.Common.{
  ℕ, Bool, true, false, Option, none, some, List, [], ◌∷◌, ◌==◌, if◌then◌else◌,
}
use oncrpc4_win.Xdr.Stream.{XdrOp, encode, decode, free, XdrOps, Filter, on_field, holds, ◌&&&◌}
use oncrpc4_win.Xdr.Scalar.{xdr_enum, xdr_u_int32_t}
use oncrpc4_win.Xdr.Union.{Discrim, xdr_union}
use oncrpc4_win.Rpc.Msg.{
  OpaqueAuth, CallBody, CallMsg, Versions, AcceptedReply, RejectedReply, ReplyArms, ReplyMsg, call,
  reply, msg_accepted, msg_denied, success, prog_mismatch, rpc_mismatch, auth_error,
  rpc_msg_version,
}
use oncrpc4_win.Rpc.Auth.{xdr_opaque_auth}

module _ {S : Type 0} (x : XdrOps S) (mem_alloc : ℕ → Option (List ℕ)) where
  -- `low`, then `high`.
  unfoldable pub xdr_versions : Filter S Versions
  xdr_versions =
      on_field (λ (v : Versions). v.low) (λ v l. record v { low = l }) (xdr_u_int32_t x)
      &&& on_field (λ (v : Versions). v.high) (λ v h. record v { high = h }) (xdr_u_int32_t x)

  module _ {R : Type 0} (results : Filter S R) where
    -- The switch on `ar_stat`; any other status has nothing more to send.
    unfoldable pub accepted_arm : Filter S (AcceptedReply R)
    accepted_arm op r s =
        if r.stat == success
        then on_field (λ (a : AcceptedReply R). a.results) (λ a v. record a { results = v }) results
            op r s
        else if r.stat == prog_mismatch
        then on_field (λ (a : AcceptedReply R). a.vers) (λ a v. record a { vers = v }) xdr_versions
            op r s
        else (true, r, s)

    unfoldable pub xdr_accepted_reply : Filter S (AcceptedReply R)
    xdr_accepted_reply =
        on_field (λ (a : AcceptedReply R). a.verf) (λ a v. record a { verf = v })
          (xdr_opaque_auth x mem_alloc)
        &&& on_field (λ (a : AcceptedReply R). a.stat) (λ a v. record a { stat = v }) (xdr_enum x)
        &&& accepted_arm

  -- The switch on `rj_stat`; any other status is refused.
  unfoldable pub rejected_arm : Filter S RejectedReply
  rejected_arm op r s =
      if r.stat == rpc_mismatch
      then on_field (λ (j : RejectedReply). j.vers) (λ j v. record j { vers = v }) xdr_versions op r
          s
      else if r.stat == auth_error
      then on_field (λ (j : RejectedReply). j.why) (λ j v. record j { why = v }) (xdr_enum x) op r s
      else (false, r, s)

  unfoldable pub xdr_rejected_reply : Filter S RejectedReply
  xdr_rejected_reply =
      on_field (λ (j : RejectedReply). j.stat) (λ j v. record j { stat = v }) (xdr_enum x)
      &&& rejected_arm

  module _ {R : Type 0} (results : Filter S R) where
    unfoldable pub accepted_ru : Filter S (ReplyArms R)
    accepted_ru =
        on_field (λ (u : ReplyArms R). u.acpt) (λ u a. record u { acpt = a })
          (xdr_accepted_reply results)

    unfoldable pub rejected_ru : Filter S (ReplyArms R)
    rejected_ru =
        on_field (λ (u : ReplyArms R). u.rjct) (λ u j. record u { rjct = j }) xdr_rejected_reply

    -- `reply_dscrm`.
    abbrev pub reply_dscrm : List (Discrim S (ReplyArms R))
    reply_dscrm =
        record { value = msg_accepted; proc = accepted_ru }
        ∷ record { value = msg_denied; proc = rejected_ru }
        ∷ []

    unfoldable pub xdr_replymsg : Filter S (ReplyMsg R)
    xdr_replymsg =
        on_field (λ (m : ReplyMsg R). m.xid) (λ m v. record m { xid = v }) (xdr_u_int32_t x)
        &&& on_field (λ (m : ReplyMsg R). m.direction) (λ m v. record m { direction = v })
            (xdr_enum x)
        &&& holds (λ m. m.direction == reply)
        &&& on_field (λ (m : ReplyMsg R). (m.stat, m.ru)) (λ m p. record m { stat = p.0; ru = p.1 })
            (xdr_union x reply_dscrm none)

  abbrev pub is_encode : XdrOp → Bool
  is_encode encode = true
  is_encode _ = false

  -- The fields that `xdr_callhdr` sets before it sends anything.
  abbrev pub as_call : CallMsg → CallMsg
  as_call m = record m { direction = call; body = record m.body { rpcvers = rpc_msg_version } }

  abbrev pub callhdr_fields : Filter S CallMsg
  callhdr_fields =
      on_field (λ (m : CallMsg). m.xid) (λ m v. record m { xid = v }) (xdr_u_int32_t x)
      &&& on_field (λ (m : CallMsg). m.direction) (λ m v. record m { direction = v }) (xdr_enum x)
      &&& on_field (λ (m : CallMsg). m.body.rpcvers)
          (λ m v. record m { body = record m.body { rpcvers = v } }) (xdr_u_int32_t x)
      &&& on_field (λ (m : CallMsg). m.body.prog)
          (λ m v. record m { body = record m.body { prog = v } }) (xdr_u_int32_t x)
      &&& on_field (λ (m : CallMsg). m.body.vers)
          (λ m v. record m { body = record m.body { vers = v } }) (xdr_u_int32_t x)

  unfoldable pub xdr_callhdr : Filter S CallMsg
  xdr_callhdr op m s =
      if is_encode op then callhdr_fields op (as_call m) s else (false, as_call m, s)
