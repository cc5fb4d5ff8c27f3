-- ===== src/Tests/Rpc.antt =====
-- Runs of the filters of RPC messages.
use oncrpc4_win.Common.{
  ℕ, ◌+◌, ◌≤◌, ◌≡◌, refl, Bool, true, Option, some, List, [], ◌∷◌, length, replicate, arith,
}
use oncrpc4_win.Common.Words.{IsU32, be32}
use oncrpc4_win.Xdr.Stream.{encode, decode}
use oncrpc4_win.Xdr.Mem.{mem_ops}
use oncrpc4_win.Xdr.Mem.Laws.{mem_laws}
use oncrpc4_win.Xdr.Codec.{Encoded, Decoded, Codec}
use oncrpc4_win.Xdr.Scalar.{xdr_u_int}
use oncrpc4_win.Xdr.Scalar.Laws.{xdr_u_int-Encodes, xdr_u_int-Decodes}
use oncrpc4_win.Xdr.Opaque.{rndup}
use oncrpc4_win.Xdr.Opaque.Laws.{units}
use oncrpc4_win.Rpc.Msg.{ReplyArms, ReplyMsg}
use oncrpc4_win.Rpc.Auth.Laws.{auth_wire}
use oncrpc4_win.Rpc.Reply.{xdr_replymsg}
use oncrpc4_win.Rpc.Reply.Denied.{mismatch, denial_wire}
use oncrpc4_win.Rpc.Reply.Accepted.{results, accepted_wire}
use oncrpc4_win.Rpc.Reply.Message.{
  Verdict, accepted, denied, sent, arrived, buffered, reply_of, verdict_wire, reply_wire,
}
use oncrpc4_win.Rpc.Reply.Errors.{RpcErr, rpc_failed, seterr_reply}
use oncrpc4_win.Rpc.RoundTrip.{xdr_replymsg_roundtrip, reported, seterr_reply_decoded}
use oncrpc4_win.Rpc.Pmap.{Pmap, xdr_pmaplist}
use oncrpc4_win.Rpc.Pmap.Laws.{pmap_wire, xdr_pmaplist_roundtrip}
use oncrpc4_win.Rpc.Lists.Laws.{EncodedSome, DecodedSome, list_wire}
use oncrpc4_win.Tests.{sink, source, sink-MemRoom, source-MemInput}

abbrev zeros : ℕ → Option (List ℕ)
zeros n = some (replicate n 0)

abbrev word_codec : Codec mem_laws (xdr_u_int mem_ops)
word_codec = record {
  IsValid = IsU32;
  wire = be32;
  encodes = λ v h. xdr_u_int-Encodes mem_laws v;
  decodes = λ old v h. xdr_u_int-Decodes mem_laws old v h;
}

abbrev body : List ℕ
body = 1 ∷ 2 ∷ 3 ∷ []

-- A reply with a buffer of eight bytes for the verifier.
abbrev arms : ReplyArms ℕ
arms = record {
  acpt = record {
    verf = record { flavor = 0; body = record { base = some (replicate 8 0); len = 0 } };
    stat = 0;
    vers = record { low = 0; high = 0 };
    results = 0;
  };
  rjct = record { stat = 0; vers = record { low = 0; high = 0 }; why = 0 };
}

abbrev empty_reply : ReplyMsg ℕ
empty_reply = record { xid = 0; direction = 0; stat = 0; ru = arms }

-- The call was answered with the number 42.
abbrev answer : Verdict ℕ
answer = accepted 1 body (results 42)

abbrev answer_wire : List ℕ
answer_wire = reply_wire mem_laws zeros word_codec 77 answer

answer-MemRoom : length answer_wire + 0 ≤ 64
unfolding reply_wire verdict_wire accepted_wire auth_wire be32 units rndup
answer-MemRoom = omega arith

xdr_replymsg_roundtrip_example :
    Encoded mem_laws (reply_of 77 answer (sent arms answer)) answer_wire sink 0 (
      xdr_replymsg mem_ops zeros
        (xdr_u_int mem_ops)
        encode
        (reply_of 77 answer (sent arms answer))
        sink)
    × Decoded mem_laws
        (reply_of 77 answer (arrived (buffered (replicate 8 0) answer) arms answer))
        []
        (xdr_replymsg mem_ops zeros (xdr_u_int mem_ops) decode empty_reply (source answer_wire))
xdr_replymsg_roundtrip_example =
    xdr_replymsg_roundtrip mem_laws zeros word_codec 77 arms answer empty_reply (replicate 8 0) sink
      0 (source answer_wire) [] refl (omega arith)
      (record { flavor_fits = omega arith; body_fits = omega arith }, omega arith)
      (sink-MemRoom _ answer-MemRoom) (source-MemInput answer_wire)

abbrev no_error : RpcErr
no_error = record {
  status = rpc_failed;
  vers = record { low = 0; high = 0 };
  why = 0;
  lb = record { s1 = 0; s2 = 0 };
}

-- Only the versions 2 to 4 are served.
abbrev refusal : Verdict ℕ
refusal = denied (mismatch 2 4)

abbrev refusal_wire : List ℕ
refusal_wire = reply_wire mem_laws zeros word_codec 77 refusal

seterr_reply_decoded_example :
    seterr_reply
      (xdr_replymsg mem_ops zeros (xdr_u_int mem_ops) decode empty_reply (source refusal_wire)).1
      no_error
    ≡ reported refusal no_error
seterr_reply_decoded_example =
    seterr_reply_decoded mem_laws zeros word_codec 77 refusal empty_reply (replicate 8 0) no_error
      (source refusal_wire) [] refl (omega arith) (omega arith, omega arith)
      (source-MemInput refusal_wire)

refusal-MemRoom : length refusal_wire + 0 ≤ 64
unfolding reply_wire verdict_wire denial_wire be32
refusal-MemRoom = omega arith

abbrev mapping : Pmap
mapping = record { prog = 100003; vers = 3; prot = 6; port = 2049 }

abbrev blank : Pmap
blank = record { prog = 0; vers = 0; prot = 0; port = 0 }

abbrev granted : ℕ → Bool
granted n = true

abbrev kept : List Pmap → List Pmap
kept l = l

abbrev mappings_wire : List ℕ
mappings_wire = list_wire pmap_wire (mapping ∷ mapping ∷ [])

mappings-MemRoom : length mappings_wire + 0 ≤ 64
unfolding list_wire be32
mappings-MemRoom = omega arith

xdr_pmaplist_roundtrip_example :
    EncodedSome mem_laws
      (mapping ∷ mapping ∷ [])
      mappings_wire
      sink
      0
      (xdr_pmaplist mem_ops granted blank 20 kept 3 encode (mapping ∷ mapping ∷ []) sink)
    × DecodedSome mem_laws
        (mapping ∷ mapping ∷ [])
        []
        (xdr_pmaplist mem_ops granted blank 20 kept 3 decode [] (source mappings_wire))
xdr_pmaplist_roundtrip_example =
    xdr_pmaplist_roundtrip mem_laws granted blank 20 kept 3 (mapping ∷ mapping ∷ []) sink 0
      (source mappings_wire) [] (omega arith) refl (ground arith) (sink-MemRoom _ mappings-MemRoom)
      (source-MemInput mappings_wire)
