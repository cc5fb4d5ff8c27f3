-- ===== src/Rpc/CallMsg.antt =====
-- libsrc/rpc_callmsg.c: `xdr_callmsg`, which works in the stream's buffer where the stream lends it,
-- and through the filters of the fields where it does not.
pub mod Decode
pub mod Laws
pub mod Whole
pub mod Inline
pub mod Encode
pub mod Buffer
pub mod Sizeof
use oncrpc4_win.Common.{
  ℕ, ◌+◌, ◌*◌, ◌/◌, Bool, true, false, Option, none, some, List, [], ◌++◌, length, take, drop,
  write_at, ltb, ◌==◌, if◌then◌else◌,
}
use oncrpc4_win.Common.Words.{be32, word_of}
use oncrpc4_win.Xdr.Stream.{XdrOp, encode, decode, free, XdrOps, Filter, on_field, ◌&&&◌, holds}
use oncrpc4_win.Xdr.Scalar.{xdr_u_int32_t, xdr_enum, xdr_u_int}
use oncrpc4_win.Xdr.Opaque.{Counted, bytes_at, xdr_opaque}
use oncrpc4_win.Rpc.Msg.{OpaqueAuth, CallBody, CallMsg, call, rpc_msg_version, max_auth_bytes}
use oncrpc4_win.Rpc.Auth.{xdr_opaque_auth}

-- RNDUP.
unfoldable pub round_up : ℕ → ℕ
round_up n = (n + 3) / 4 * 4

abbrev pub set_body : CallMsg → CallBody → CallMsg
set_body m b = record m { body = b }

abbrev pub set_cred : CallMsg → OpaqueAuth → CallMsg
set_cred m a = record m { body = record m.body { cred = a } }

abbrev pub set_verf : CallMsg → OpaqueAuth → CallMsg
set_verf m a = record m { body = record m.body { verf = a } }

abbrev pub set_len : OpaqueAuth → ℕ → OpaqueAuth
set_len a n = record a { body = record a.body { len = n } }

abbrev pub set_base : OpaqueAuth → List ℕ → OpaqueAuth
set_base a bs = record a { body = record a.body { base = some bs } }

module _ {S : Type 0} (x : XdrOps S) (mem_alloc : ℕ → Option (List ℕ)) where
  -- The fields, one filter after the other.
  unfoldable pub call_fields : Filter S CallMsg
  call_fields =
      on_field (λ (m : CallMsg). m.xid) (λ m v. record m { xid = v }) (xdr_u_int32_t x)
      &&& on_field (λ (m : CallMsg). m.direction) (λ m v. record m { direction = v }) (xdr_enum x)
      &&& holds (λ (m : CallMsg). m.direction == call)
      &&& on_field (λ (m : CallMsg). m.body.rpcvers)
          (λ m v. set_body m (record m.body { rpcvers = v })) (xdr_u_int32_t x)
      &&& holds (λ (m : CallMsg). m.body.rpcvers == rpc_msg_version)
      &&& on_field (λ (m : CallMsg). m.body.prog) (λ m v. set_body m (record m.body { prog = v }))
          (xdr_u_int32_t x)
      &&& on_field (λ (m : CallMsg). m.body.vers) (λ m v. set_body m (record m.body { vers = v }))
          (xdr_u_int32_t x)
      &&& on_field (λ (m : CallMsg). m.body.proc) (λ m v. set_body m (record m.body { proc = v }))
          (xdr_u_int32_t x)
      &&& on_field (λ (m : CallMsg). m.body.cred) set_cred (xdr_opaque_auth x mem_alloc)
      &&& on_field (λ (m : CallMsg). m.body.verf) set_verf (xdr_opaque_auth x mem_alloc)

  -- The size that the encoder asks for.
  abbrev pub call_size : CallMsg → ℕ
  call_size m = 8 * 4 + round_up m.body.cred.body.len + 2 * 4 + round_up m.body.verf.body.len

  -- `IXDR_PUT_ENUM`, `IXDR_PUT_INT32` and `memmove` of an authenticator at an address.
  abbrev pub poke_auth : OpaqueAuth → S → ℕ → S
  poke_auth a s p =
      let t = x.poke s p (be32 a.flavor ++ be32 a.body.len) in
      if a.body.len == 0 then t else x.poke t (p + 8) (take a.body.len (bytes_at a.body.base))

  -- Words that stand one behind the other are written at once.
  abbrev pub poke_call : CallMsg → S → ℕ → Bool × CallMsg × S
  poke_call m s p =
      let s1 = x.poke s p (be32 m.xid ++ be32 m.direction) in
      let s2 = x.poke s1 (p + 8) (be32 m.body.rpcvers) in
      let s3 = x.poke s2 (p + 12) (be32 m.body.prog ++ (be32 m.body.vers ++ be32 m.body.proc)) in
      let s4 = poke_auth m.body.cred s3 (p + 24) in
      let s5 = poke_auth m.body.verf s4 (p + 32 + round_up m.body.cred.body.len) in
      if m.direction == call
      then (if m.body.rpcvers == rpc_msg_version then (true, m, s5) else (false, m, s2))
      else (false, m, s1)

  abbrev pub encode_at : CallMsg → Option ℕ × S → Bool × CallMsg × S
  encode_at m (none, s) = call_fields encode m s
  encode_at m (some p, s) = poke_call m s p

  -- The body of an authenticator whose length is known, into the buffer `buf`.
  abbrev pub take_body : OpaqueAuth → List ℕ → Option ℕ × S → Bool × OpaqueAuth × S
  take_body a buf (none, s) =
      let (r, cp, s') = xdr_opaque x a.body.len decode buf s in (r, set_base a cp, s')
  take_body a buf (some p, s) = (true, set_base a (write_at buf 0 (x.peek s p a.body.len)), s)

  abbrev pub with_buffer : OpaqueAuth → S → Option (List ℕ) → Bool × OpaqueAuth × S
  with_buffer a s none = (false, a, s)
  with_buffer a s (some buf) = take_body a buf (x.inline s (round_up a.body.len))

  abbrev pub own_or_new : Option (List ℕ) → ℕ → Option (List ℕ)
  own_or_new (some buf) n = some buf
  own_or_new none n = mem_alloc n

  unfoldable pub get_body : OpaqueAuth → S → Bool × OpaqueAuth × S
  get_body a s =
      if a.body.len == 0
      then (true, a, s)
      else if ltb max_auth_bytes a.body.len
      then (false, a, s)
      else with_buffer a s (own_or_new a.body.base a.body.len)

  -- `xdr_enum(xdrs, &oa->oa_flavor) == FALSE || xdr_u_int(xdrs, &oa->oa_length) == FALSE`.
  abbrev pub auth_header : Filter S OpaqueAuth
  auth_header =
      on_field (λ (a : OpaqueAuth). a.flavor) (λ a f. record a { flavor = f }) (xdr_enum x)
      &&& on_field (λ (a : OpaqueAuth). a.body.len) set_len (xdr_u_int x)

  abbrev pub get_header : OpaqueAuth → Option ℕ × S → Bool × OpaqueAuth × S
  get_header a (none, s) = auth_header decode a s
  get_header a (some p, s) =
      let bs = x.peek s p 8 in
      (true, set_len (record a { flavor = word_of bs }) (word_of (drop 4 bs)), s)

  abbrev pub then_body : Bool × OpaqueAuth × S → Bool × OpaqueAuth × S
  then_body (false, a, s) = (false, a, s)
  then_body (true, a, s) = get_body a s

  abbrev pub verf_of : CallMsg → Bool × OpaqueAuth × S → Bool × CallMsg × S
  verf_of m (r, a, s) = (r, set_verf m a, s)

  abbrev pub then_verf : CallMsg → Bool × OpaqueAuth × S → Bool × CallMsg × S
  then_verf m (false, a, s) = (false, set_cred m a, s)
  then_verf m (true, a, s) =
      verf_of (set_cred m a) (then_body (get_header m.body.verf (x.inline s 8)))

  -- The eight words at the front of the message.
  abbrev pub decode_words : CallMsg → List ℕ → S → Bool × CallMsg × S
  decode_words m bs s =
      let m1 = record m { xid = word_of bs; direction = word_of (drop 4 bs) } in
      let m2 = set_body m1 (record m.body { rpcvers = word_of (drop 8 bs) }) in
      let a =
        set_len (record m.body.cred { flavor = word_of (drop 24 bs) }) (word_of (drop 28 bs)) in
      let m3 = set_body m2 (record m2.body {
        prog = word_of (drop 12 bs);
        vers = word_of (drop 16 bs);
        proc = word_of (drop 20 bs);
        cred = a;
      }) in
      if m1.direction == call
      then (if m2.body.rpcvers == rpc_msg_version
          then then_verf m3 (get_body a s)
          else (false, m2, s))
      else (false, m1, s)

  abbrev pub decode_at : CallMsg → Option ℕ × S → Bool × CallMsg × S
  decode_at m (none, s) = call_fields decode m s
  decode_at m (some p, s) = decode_words m (x.peek s p 32) s

  unfoldable pub xdr_callmsg : Filter S CallMsg
  xdr_callmsg encode m s =
      if ltb max_auth_bytes m.body.cred.body.len
      then (false, m, s)
      else if ltb max_auth_bytes m.body.verf.body.len
      then (false, m, s)
      else encode_at m (x.inline s (call_size m))
  xdr_callmsg decode m s = decode_at m (x.inline s 32)
  xdr_callmsg free m s = call_fields free m s
