-- ===== src/Tests/CallMsg.antt =====
-- Runs of the filter of call messages.
use oncrpc4_win.Common.{
  ◌++◌, ◌%◌, ◌^◌, some, ℕ, ◌+◌, ◌-◌, ◌≤◌, ◌≡◌, refl, true, false, Option, none, List, [], ◌∷◌,
  length, replicate, arith,
}
use oncrpc4_win.Common.Words.{be32}
use oncrpc4_win.Xdr.Stream.{encode, decode}
use oncrpc4_win.Xdr.Mem.{MemStream, mem_ops, inline_unaligned}
use oncrpc4_win.Xdr.Mem.Laws.{mem_laws}
use oncrpc4_win.Xdr.Codec.{Encoded, Decoded}
use oncrpc4_win.Xdr.Opaque.{rndup}
use oncrpc4_win.Xdr.Opaque.Laws.{units}
use oncrpc4_win.Rpc.Msg.{CallMsg}
use oncrpc4_win.Rpc.Auth.Laws.{auth, auth_wire}
use oncrpc4_win.Rpc.CallMsg.{round_up, xdr_callmsg}
use oncrpc4_win.Rpc.CallMsg.Laws.{Call, IsCall, message, message_of, arrived, call_wire}
use oncrpc4_win.Rpc.CallMsg.Whole.{xdr_callmsg_roundtrip}
use oncrpc4_win.Rpc.CallMsg.Inline.{mem_inline}
use oncrpc4_win.Rpc.CallMsg.Encode.{inline_wire}
use oncrpc4_win.Xdr.Sizeof.{xdr_sizeof}
use oncrpc4_win.Rpc.CallMsg.Sizeof.{xdr_sizeof-xdr_callmsg}
use oncrpc4_win.Rpc.CallMsg.Buffer.{Parts, xdr_callmsg_inline}
use oncrpc4_win.Tests.{sink, source, source-MemInput}

abbrev no_memory : ℕ → Option (List ℕ)
no_memory n = none

-- A call with three bytes of credentials.
abbrev ping : Call
ping = record {
  xid = 77;
  prog = 100000;
  vers = 2;
  proc = 3;
  cred_flavor = 1;
  cred = 1 ∷ 2 ∷ 3 ∷ [];
  verf_flavor = 0;
  verf = [];
}

ping-IsCall : IsCall ping
ping-IsCall = record {
  xid_fits = omega arith;
  prog_fits = omega arith;
  vers_fits = omega arith;
  proc_fits = omega arith;
  cred_fits = record { flavor_fits = omega arith; body_fits = omega arith };
  verf_fits = record { flavor_fits = omega arith; body_fits = omega arith };
}

-- What the receiver has put in place of the bodies.
abbrev blank : CallMsg
blank = message ping (auth 0 (replicate 400 9)) (auth 0 (replicate 400 9))

-- A stream whose buffer is not aligned lends nothing.
abbrev unaligned : MemStream
unaligned = record sink { aligned = false }

ping-MemRoom : length (call_wire ping) + 0 ≤ 64
unfolding call_wire auth_wire be32 units rndup
ping-MemRoom = omega arith

xdr_callmsg_roundtrip_example :
    Encoded mem_laws
      (message_of ping)
      (call_wire ping)
      unaligned
      0
      (xdr_callmsg mem_ops no_memory encode (message_of ping) unaligned)
    × Decoded mem_laws
        (arrived ping (replicate 400 9) (replicate 400 9))
        []
        (xdr_callmsg mem_ops no_memory decode blank (source (call_wire ping)))
unfolding mem_ops inline_unaligned
xdr_callmsg_roundtrip_example =
    xdr_callmsg_roundtrip mem_laws no_memory mem_inline ping blank (replicate 400 9)
      (replicate 400 9) unaligned 0 (source (call_wire ping)) [] ping-IsCall refl refl
      (ping-MemRoom, omega arith) refl (source-MemInput (call_wire ping))

abbrev ping_parts : Parts ping sink
unfolding rndup
ping_parts = record {
  before = [];
  words = replicate 32 7;
  cred = replicate 3 7;
  pad1 = 7 ∷ [];
  verf_words = replicate 8 7;
  verf = [];
  pad2 = [];
  after = replicate 20 7;
  parts = refl;
  at = refl;
  words_size = refl;
  cred_size = refl;
  pad1_size = refl;
  verf_words_size = refl;
  verf_size = refl;
  pad2_size = refl;
}

-- The byte 7 of the buffer is sent.
xdr_callmsg_inline_example :
    let r = xdr_callmsg mem_ops no_memory encode (message_of ping) sink in
    (r.0 ≡ true)
    × (r.2.mem ≡ [] ++ (inline_wire no_memory ping (7 ∷ []) [] ++ replicate 20 7))
    × (r.2.private ≡ sink.private + length (call_wire ping))
    × (r.2.handy ≡ sink.handy - length (call_wire ping))
unfolding round_up be32 ping_parts
xdr_callmsg_inline_example =
    xdr_callmsg_inline no_memory ping sink ping_parts ping-IsCall refl (omega arith)

-- With a scratch buffer.
xdr_sizeof-xdr_callmsg_example :
    xdr_sizeof (λ n. some (replicate n 0)) (λ x. xdr_callmsg x no_memory) (message_of ping) % 2 ^ 32
    ≡ length (call_wire ping)
xdr_sizeof-xdr_callmsg_example =
    xdr_sizeof-xdr_callmsg no_memory (λ n. some (replicate n 0)) ping ping-IsCall
