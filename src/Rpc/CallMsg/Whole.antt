-- ===== src/Rpc/CallMsg/Whole.antt =====
-- Both paths of `xdr_callmsg` together.
use mathlib.Core.Path.{subst}
use oncrpc4_win.Common.{
  ℕ, ◌+◌, ◌≡◌, refl, sym, ap, ◌∙◌, Bool, true, false, Option, none, some, List, ◌++◌, length, arith,
  append_assoc, ltb-false,
}
use oncrpc4_win.Common.Words.{be32, word_of, word_be32}
use oncrpc4_win.Xdr.Stream.{encode, decode, XdrOps, XdrLaws}
use oncrpc4_win.Xdr.Codec.{Encoded, Decoded, Decodes}
use oncrpc4_win.Xdr.Opaque.Laws.{units}
use oncrpc4_win.Rpc.Msg.{OpaqueAuth, CallMsg}
use oncrpc4_win.Rpc.Auth.Laws.{received, IsAuth, auth_wire}
use oncrpc4_win.Rpc.CallMsg.{
  set_cred, set_verf, call_size, get_body, get_header, then_body, verf_of, then_verf, decode_words,
  decode_at, xdr_callmsg,
}
use oncrpc4_win.Rpc.CallMsg.Decode.{
  Lent, InlineLaws, headed, same_header, get_body-Decoded, get_auth-Decoded,
}
use oncrpc4_win.Rpc.CallMsg.Laws.{
  Call, IsCall, message, message_of, arrived, call_wire, call_fields-Encodes, call_fields-Decodes,
}

-- The eight words at the front, and what follows them.
unfoldable front : Call → List ℕ
front c =
    be32 c.xid
    ++ (be32 0
        ++ (be32 2
            ++ (be32 c.prog
                ++ (be32 c.vers ++ (be32 c.proc ++ (be32 c.cred_flavor ++ be32 (length c.cred)))))))

length-front : (c : Call) → length (front c) ≡ 32
unfolding front be32
length-front c = refl

front_first :
    (c : Call) (rest : List ℕ)
    → call_wire c ++ rest
      ≡ front c ++ (units (length c.cred) c.cred ++ (auth_wire c.verf_flavor c.verf ++ rest))
unfolding call_wire front auth_wire be32
front_first c rest =
    let wire : List ℕ = auth_wire c.verf_flavor c.verf in
    ap
      (λ t.
        be32 c.xid
        ++ (be32 0
            ++ (be32 2
                ++ (be32 c.prog
                    ++ (be32 c.vers
                        ++ (be32 c.proc ++ (be32 c.cred_flavor ++ (be32 (length c.cred) ++ t))))))))
      (append_assoc (units (length c.cred) c.cred) wire rest)

module _ {S : Type 0} {x : XdrOps S} (laws : XdrLaws x) (mem_alloc : ℕ → Option (List ℕ)) where
  verf_of-Decoded :
      (m : CallMsg) (a : OpaqueAuth) (rest : List ℕ) (r : Bool × OpaqueAuth × S)
      → Decoded laws a rest r
      → Decoded laws (set_verf m a) rest (verf_of x mem_alloc m r)
  verf_of-Decoded m a rest (b, c, s) (ok, e, input) = (ok, ap (set_verf m) e, input)

  then_verf-Decoded :
      (inl_laws : InlineLaws laws) (m : CallMsg) (cred : OpaqueAuth) (flavor : ℕ)
      (body buffer rest : List ℕ) (r : Bool × OpaqueAuth × S)
      → m.body.verf.body.base ≡ some buffer
      → IsAuth flavor body
      → Decoded laws cred (auth_wire flavor body ++ rest) r
      → Decoded laws
          (set_verf (set_cred m cred) (received flavor body buffer))
          rest
          (then_verf x mem_alloc m r)
  then_verf-Decoded inl_laws m cred flavor body buffer rest (false, a, s) eb h (ok, e, input) = cc
  then_verf-Decoded inl_laws m cred flavor body buffer rest (true, a, s) eb h (ok, e, input) =
      subst
        (λ w.
          Decoded laws (set_verf (set_cred m w) (received flavor body buffer)) rest
            (then_verf x mem_alloc m (true, a, s)))
        e
        (verf_of-Decoded (set_cred m a) (received flavor body buffer) rest
          (then_body x mem_alloc (get_header x mem_alloc m.body.verf (x.inline s 8)))
          (get_auth-Decoded laws mem_alloc inl_laws flavor body m.body.verf buffer rest s eb h
            input))

  -- What the eight words say.
  decode_words_lem :
      (c : Call) (old : CallMsg) (cred : List ℕ) (s : S)
      → old.body.cred.body.base ≡ some cred
      → IsCall c
      → decode_words x mem_alloc old (front c) s
        ≡ then_verf x mem_alloc
            (message c (headed c.cred_flavor (length c.cred) cred 0) old.body.verf)
            (get_body x mem_alloc (headed c.cred_flavor (length c.cred) cred 0) s)
  unfolding front be32 word_of
  decode_words_lem c old cred s ec h =
      rw
        (
          word_be32 c.xid h.xid_fits,
          word_be32 c.prog h.prog_fits,
          word_be32 c.vers h.vers_fits,
          word_be32 c.proc h.proc_fits,
          word_be32 c.cred_flavor h.cred_fits.flavor_fits,
          word_be32 (length c.cred) (omega (arith, h.cred_fits.body_fits)),
          same_header c.cred_flavor (length c.cred) old.body.cred cred ec,
        )
        refl

  decode_at-Decoded :
      (inl_laws : InlineLaws laws) (c : Call) (old : CallMsg) (cred verf rest : List ℕ)
      (r : Option ℕ × S)
      → old.body.cred.body.base ≡ some cred
      → old.body.verf.body.base ≡ some verf
      → IsCall c
      → Lent laws
          (front c)
          (units (length c.cred) c.cred ++ (auth_wire c.verf_flavor c.verf ++ rest))
          r
      → Decoded laws (arrived c cred verf) rest (decode_at x mem_alloc old r)
  unfolding front be32
  decode_at-Decoded inl_laws c old cred verf rest (none, s) ec ev h input =
      call_fields-Decodes laws mem_alloc c old cred verf ec ev h s rest
        (subst (laws.Input s) (sym (front_first c rest)) input)
  decode_at-Decoded inl_laws c old cred verf rest (some p, s) ec ev h (shown, input) =
      subst (λ w. Decoded laws (arrived c cred verf) rest w)
        (sym (
          ap (λ bs. decode_words x mem_alloc old bs s) (shown 32 (omega arith))
          ∙ decode_words_lem c old cred s ec h))
        (then_verf-Decoded inl_laws
          (message c (headed c.cred_flavor (length c.cred) cred 0) old.body.verf)
          (received c.cred_flavor c.cred cred) c.verf_flavor c.verf verf rest
          (get_body x mem_alloc (headed c.cred_flavor (length c.cred) cred 0) s) ev h.verf_fits
          (get_body-Decoded laws mem_alloc inl_laws c.cred_flavor c.cred cred
            (auth_wire c.verf_flavor c.verf ++ rest) s h.cred_fits.body_fits input))

  -- The bytes of a call, read into a message with buffers for the bodies of the authenticators.
  pub xdr_callmsg-Decodes :
      (inl_laws : InlineLaws laws) (c : Call) (old : CallMsg) (cred verf : List ℕ)
      → IsCall c
      → old.body.cred.body.base ≡ some cred
      → old.body.verf.body.base ≡ some verf
      → Decodes laws (xdr_callmsg x mem_alloc) old (arrived c cred verf) (call_wire c)
  unfolding xdr_callmsg
  xdr_callmsg-Decodes inl_laws c old cred verf h ec ev t rest input =
      decode_at-Decoded inl_laws c old cred verf rest (x.inline t 32) ec ev h (
        subst
          (λ k.
            Lent laws (front c)
              (units (length c.cred) c.cred ++ (auth_wire c.verf_flavor c.verf ++ rest))
              (x.inline t k))
          (length-front c)
          (inl_laws.inline_lem t (front c)
            (units (length c.cred) c.cred ++ (auth_wire c.verf_flavor c.verf ++ rest))
            (subst (laws.Input t) (front_first c rest) input)))

  -- Over any lawful stream that lends its buffer faithfully, or does not lend it: a call whose
  -- credentials and verifier have at most 400 bytes each is sent in the layout of the protocol
  -- where the stream lends no buffer, and from these bytes it arrives as it was sent, whether the
  -- receiver's stream lends its buffer or not, with the bodies at the front of the buffers that the
  -- receiver has put into the message.
  pub xdr_callmsg_roundtrip :
      (inl_laws : InlineLaws laws) (c : Call) (old : CallMsg) (cred verf : List ℕ) (s : S) (n : ℕ)
      (t : S) (rest : List ℕ)
      → IsCall c
      → old.body.cred.body.base ≡ some cred
      → old.body.verf.body.base ≡ some verf
      → laws.Room s (length (call_wire c) + n)
      → x.inline s (call_size x mem_alloc (message_of c)) ≡ (none, s)
      → laws.Input t (call_wire c ++ rest)
      → Encoded laws
          (message_of c)
          (call_wire c)
          s
          n
          (xdr_callmsg x mem_alloc encode (message_of c) s)
        × Decoded laws (arrived c cred verf) rest (xdr_callmsg x mem_alloc decode old t)
  unfolding xdr_callmsg
  xdr_callmsg_roundtrip inl_laws c old cred verf s n t rest h ec ev room not_lent input = (
    rw
        (
          ltb-false 400 (length c.cred) h.cred_fits.body_fits,
          ltb-false 400 (length c.verf) h.verf_fits.body_fits,
          not_lent,
        )
        (call_fields-Encodes laws mem_alloc c h s n room),
    xdr_callmsg-Decodes inl_laws c old cred verf h ec ev t rest input,
  )
