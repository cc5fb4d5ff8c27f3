-- ===== src/Rpc/CallMsg/Laws.antt =====
-- A call message from one stream to another, whichever path of `xdr_callmsg` serves it.
use oncrpc4_win.Common.{ℕ, ◌≡◌, refl, Option, some, List, [], ◌++◌, arith}
use oncrpc4_win.Common.Words.{IsU32, be32}
use oncrpc4_win.Xdr.Stream.{XdrOps, XdrLaws}
use oncrpc4_win.Xdr.Codec.{
  Encodes, Decodes, on_field-Encodes, on_field-Decodes, &&&-Encodes, &&&-Decodes, holds-Encodes,
  holds-Decodes,
}
use oncrpc4_win.Xdr.Scalar.Laws.{
  xdr_enum-Encodes, xdr_enum-Decodes, xdr_u_int32_t-Encodes, xdr_u_int32_t-Decodes,
}
use oncrpc4_win.Rpc.Msg.{OpaqueAuth, CallMsg}
use oncrpc4_win.Rpc.Auth.{xdr_opaque_auth}
use oncrpc4_win.Rpc.Auth.Laws.{
  auth, received, IsAuth, auth_wire, xdr_opaque_auth-Encodes, xdr_opaque_auth-Decodes_at,
}
use oncrpc4_win.Rpc.CallMsg.{set_cred, set_body, call_fields}

-- A call: its numbers, and the flavors and bodies of its credentials and its verifier.
pub record Call : Type 0 where
  pub xid : ℕ
  pub prog : ℕ
  pub vers : ℕ
  pub proc : ℕ
  pub cred_flavor : ℕ
  pub cred : List ℕ
  pub verf_flavor : ℕ
  pub verf : List ℕ

pub record IsCall (c : Call) : Type 0 where
  pub xid_fits : IsU32 c.xid
  pub prog_fits : IsU32 c.prog
  pub vers_fits : IsU32 c.vers
  pub proc_fits : IsU32 c.proc
  pub cred_fits : IsAuth c.cred_flavor c.cred
  pub verf_fits : IsAuth c.verf_flavor c.verf

-- The message, with these authenticators.
abbrev pub message : Call → OpaqueAuth → OpaqueAuth → CallMsg
message c cred verf = record {
  xid = c.xid;
  direction = 0;
  body = record {
    rpcvers = 2;
    prog = c.prog;
    vers = c.vers;
    proc = c.proc;
    cred = cred;
    verf = verf;
  };
}

abbrev pub message_of : Call → CallMsg
message_of c = message c (auth c.cred_flavor c.cred) (auth c.verf_flavor c.verf)

-- The message received into the buffers of a receiver.
abbrev pub arrived : Call → List ℕ → List ℕ → CallMsg
arrived c cred verf =
    message c (received c.cred_flavor c.cred cred) (received c.verf_flavor c.verf verf)

-- The layout of the protocol.
unfoldable pub call_wire : Call → List ℕ
call_wire c =
    be32 c.xid
    ++ (be32 0
        ++ (be32 2
            ++ (be32 c.prog
                ++ (be32 c.vers
                    ++ (be32 c.proc
                        ++ (auth_wire c.cred_flavor c.cred ++ auth_wire c.verf_flavor c.verf))))))

module _ {S : Type 0} {x : XdrOps S} (laws : XdrLaws x) (mem_alloc : ℕ → Option (List ℕ)) where
  pub call_fields-Encodes :
      (c : Call) → IsCall c → Encodes laws (call_fields x mem_alloc) (message_of c) (call_wire c)
  unfolding call_fields call_wire
  call_fields-Encodes c h =
      let m : CallMsg = message_of c in
      &&&-Encodes laws _ _ m (be32 c.xid) _
        (on_field-Encodes laws _ _ _ m _ refl (xdr_u_int32_t-Encodes laws c.xid))
        (&&&-Encodes laws _ _ m (be32 0) _
          (on_field-Encodes laws _ _ _ m _ refl (xdr_enum-Encodes laws 0))
          (&&&-Encodes laws _ _ m [] _ (holds-Encodes laws _ m refl) (
            &&&-Encodes laws _ _ m (be32 2) _
              (on_field-Encodes laws _ _ _ m _ refl (xdr_u_int32_t-Encodes laws 2))
              (&&&-Encodes laws _ _ m [] _ (holds-Encodes laws _ m refl) (
                &&&-Encodes laws _ _ m (be32 c.prog) _
                  (on_field-Encodes laws _ _ _ m _ refl (xdr_u_int32_t-Encodes laws c.prog))
                  (&&&-Encodes laws _ _ m (be32 c.vers) _
                    (on_field-Encodes laws _ _ _ m _ refl (xdr_u_int32_t-Encodes laws c.vers))
                    (&&&-Encodes laws _ _ m (be32 c.proc) _
                      (on_field-Encodes laws _ _ _ m _ refl (xdr_u_int32_t-Encodes laws c.proc))
                      (&&&-Encodes laws _ _ m (auth_wire c.cred_flavor c.cred)
                        (auth_wire c.verf_flavor c.verf)
                        (on_field-Encodes laws _ _ (xdr_opaque_auth x mem_alloc) m
                          (auth_wire c.cred_flavor c.cred) refl
                          (xdr_opaque_auth-Encodes laws mem_alloc c.cred_flavor c.cred h.cred_fits))
                        (on_field-Encodes laws _ _ (xdr_opaque_auth x mem_alloc) m
                          (auth_wire c.verf_flavor c.verf) refl
                          (xdr_opaque_auth-Encodes laws mem_alloc c.verf_flavor c.verf
                            h.verf_fits))))))))))

  pub call_fields-Decodes :
      (c : Call) (old : CallMsg) (cred verf : List ℕ)
      → old.body.cred.body.base ≡ some cred
      → old.body.verf.body.base ≡ some verf
      → IsCall c
      → Decodes laws (call_fields x mem_alloc) old (arrived c cred verf) (call_wire c)
  unfolding call_fields call_wire
  call_fields-Decodes c old cred verf ec ev h =
      let m1 : CallMsg = record old { xid = c.xid } in
      let m2 : CallMsg = record m1 { direction = 0 } in
      let m3 : CallMsg = set_body m2 (record old.body { rpcvers = 2 }) in
      let m4 : CallMsg = set_body m3 (record m3.body { prog = c.prog }) in
      let m5 : CallMsg = set_body m4 (record m4.body { vers = c.vers }) in
      let m6 : CallMsg = set_body m5 (record m5.body { proc = c.proc }) in
      let m7 : CallMsg = set_cred m6 (received c.cred_flavor c.cred cred) in
      let m8 : CallMsg = arrived c cred verf in
      &&&-Decodes laws _ _ old m1 m8 (be32 c.xid) _
        (on_field-Decodes laws _ _ _ old c.xid _
          (xdr_u_int32_t-Decodes laws old.xid c.xid h.xid_fits))
        (&&&-Decodes laws _ _ m1 m2 m8 (be32 0) _
          (on_field-Decodes laws _ _ _ m1 0 _ (xdr_enum-Decodes laws old.direction 0 (omega arith)))
          (&&&-Decodes laws _ _ m2 m2 m8 [] _ (holds-Decodes laws _ m2 refl) (
            &&&-Decodes laws _ _ m2 m3 m8 (be32 2) _
              (on_field-Decodes laws _ _ _ m2 2 _
                (xdr_u_int32_t-Decodes laws old.body.rpcvers 2 (omega arith)))
              (&&&-Decodes laws _ _ m3 m3 m8 [] _ (holds-Decodes laws _ m3 refl) (
                &&&-Decodes laws _ _ m3 m4 m8 (be32 c.prog) _
                  (on_field-Decodes laws _ _ _ m3 c.prog _
                    (xdr_u_int32_t-Decodes laws old.body.prog c.prog h.prog_fits))
                  (&&&-Decodes laws _ _ m4 m5 m8 (be32 c.vers) _
                    (on_field-Decodes laws _ _ _ m4 c.vers _
                      (xdr_u_int32_t-Decodes laws old.body.vers c.vers h.vers_fits))
                    (&&&-Decodes laws _ _ m5 m6 m8 (be32 c.proc) _
                      (on_field-Decodes laws _ _ _ m5 c.proc _
                        (xdr_u_int32_t-Decodes laws old.body.proc c.proc h.proc_fits))
                      (&&&-Decodes laws _ _ m6 m7 m8 (auth_wire c.cred_flavor c.cred)
                        (auth_wire c.verf_flavor c.verf)
                        (on_field-Decodes laws _ _ (xdr_opaque_auth x mem_alloc) m6
                          (received c.cred_flavor c.cred cred) _
                          (xdr_opaque_auth-Decodes_at laws mem_alloc c.cred_flavor c.cred
                            old.body.cred cred ec h.cred_fits))
                        (on_field-Decodes laws _ _ (xdr_opaque_auth x mem_alloc) m7
                          (received c.verf_flavor c.verf verf) _
                          (xdr_opaque_auth-Decodes_at laws mem_alloc c.verf_flavor c.verf
                            old.body.verf verf ev h.verf_fits))))))))))
