-- ===== src/Tests/Exchange.antt =====
-- Runs of a client that is made, and of a server that takes its call.
use oncrpc4_win.Common.{
  ℕ, ◌+◌, ◌^◌, ◌<◌, ◌≡◌, ◌∷◌, refl, true, false, some, List, [], ◌++◌, length, replicate, arith,
}
use oncrpc4_win.Common.Words.{be32}
use oncrpc4_win.Xdr.Stream.{encode}
use oncrpc4_win.Xdr.Scalar.{xdr_u_int}
use oncrpc4_win.Xdr.Scalar.Laws.{xdr_u_int-Decodes, xdr_u_int-Encodes}
use oncrpc4_win.Xdr.Opaque.{rndup}
use oncrpc4_win.Xdr.Opaque.Laws.{units}
use oncrpc4_win.Xdr.RecIn.Fragments.{last_fragment, Held}
use oncrpc4_win.Xdr.RecIn.Sizes.{length-Held}
use oncrpc4_win.Xdr.RecIn.Nonblock.{xprt_idle}
use oncrpc4_win.Xdr.RecStream.{rec_ops, xdrrec_create}
use oncrpc4_win.Xdr.RecStream.Laws.{rec_laws}
use oncrpc4_win.Xdr.RecStream.Create.{xdrrec_create-Held, xdrrec_create-Holds}
use oncrpc4_win.Rpc.Auth.Laws.{auth_wire}
use oncrpc4_win.Clnt.Vc.Connection.{steady}
use oncrpc4_win.Clnt.Vc.Header.{header, xid_after, none_call}
use oncrpc4_win.Clnt.Vc.Create.{Granted, tcp, clnt_vc_create}
use oncrpc4_win.Clnt.Vc.Created.{Made, clnt_vc_create-Made}
use oncrpc4_win.Clnt.Vc.Served.{call_bytes, call_bytes-call_wire, clnt_vc_call-Serves}
use oncrpc4_win.Clnt.Vc.Calls.{no_error}
use oncrpc4_win.Clnt.Vc.Replies.{reply_record}
use oncrpc4_win.Clnt.Vc.Call.{clnt_vc_call}
use oncrpc4_win.Rpc.CallMsg.Laws.{call_wire}
use oncrpc4_win.Svc.Vc.{CfConn, svc_vc_recv}
use oncrpc4_win.Svc.Vc.Calls.{Serves}
use oncrpc4_win.Tests.Vc.{zeros, server_io, server_line, old_msg, no_reply}
use oncrpc4_win.Tests.Clnt.{
  io, line, own, other, client, wire, framed, ten_seconds, sending, none_handle, none_ops, memory,
  other-IsReplied, own-IsReplied, other_xid, other-Frags, own-Frags, client-IsClient, client-Held,
  length-wire,
}

-- What a client sends that calls procedure 4 with the number 6, and is to get the number 5.
abbrev bytes : List ℕ
bytes =
    call_bytes io line (λ sent bs. refl) zeros (xdr_u_int (rec_ops io)) (xdr_u_int (rec_ops io))
      (client own)
      (clnt_vc_call io zeros none_ops (xdr_u_int (rec_ops io)) (xdr_u_int (rec_ops io)) 2000 4
        ten_seconds false no_reply 6 0 none_handle (client own))

bytes_lem : bytes ≡ call_wire (none_call (xid_after 9) 100000 2 4) ++ be32 6
bytes_lem =
    call_bytes-call_wire io line (λ sent bs. refl) zeros (xdr_u_int (rec_ops io))
      (xdr_u_int (rec_ops io)) 2000 4 no_reply 6 0 zeros 8 (client own) 9 100000 2 [] (be32 6) []
      (wire own) (framed (reply_record own) []) [] (other ∷ []) own (client-IsClient own)
      (xdrrec_create-Holds encode _ 0 0 (omega arith) (omega arith)) (client-Held own)
      (xdr_u_int-Encodes (sending own) 6) (omega arith) length-wire memory
      (other_xid, other-IsReplied, tt)
      (framed (reply_record own) [], other-Frags (framed (reply_record own) []), refl) own-IsReplied
      refl (own-Frags []) ten_seconds false 5 0 [] (be32 5) [] refl refl refl
      (λ i o.
        xdr_u_int-Decodes
          (rec_laws io (steady line (no_error (client own))) (λ sent bs. refl) i o [] []) 0 5
          (omega arith))

length-bytes : length bytes < 2 ^ 31
unfolding call_wire be32 auth_wire units rndup
length-bytes = rw bytes_lem (omega arith)

abbrev stream : List ℕ
stream = be32 (2 ^ 31 + length bytes) ++ (bytes ++ [])

abbrev server : CfConn (List ℕ)
server = record {
  x_id = 0;
  xdrs = xdrrec_create encode (record { os = stream; strm_stat = xprt_idle; nonblock = false }) 0 0;
}

server-Held : Held server_line server.xdrs.inp [] stream
server-Held =
    xdrrec_create-Held encode (record { os = stream; strm_stat = xprt_idle; nonblock = false }) 0 0
      (omega arith) (omega arith) server_line stream refl

length-stream : length stream < 100
unfolding call_wire be32 auth_wire units rndup
length-stream = rw bytes_lem (omega arith)

clnt_vc_call-Serves_example :
    Serves server_io server_line
      (λ sent bs. refl)
      zeros
      server.xdrs.out
      (none_call (xid_after 9) 100000 2 4)
      (replicate 4 0)
      (replicate 4 0)
      (xdr_u_int (rec_ops server_io))
      0
      6
      []
      []
      (svc_vc_recv server_io zeros 1000 server old_msg)
clnt_vc_call-Serves_example =
    clnt_vc_call-Serves io line (λ sent bs. refl) zeros (xdr_u_int (rec_ops io))
      (xdr_u_int (rec_ops io)) 2000 4 no_reply 6 0 zeros 8 (client own) 9 100000 2 [] (be32 6) []
      (wire own) (framed (reply_record own) []) [] (other ∷ []) own (client-IsClient own)
      (xdrrec_create-Holds encode _ 0 0 (omega arith) (omega arith)) (client-Held own)
      (xdr_u_int-Encodes (sending own) 6) (omega arith) length-wire memory
      (other_xid, other-IsReplied, tt)
      (framed (reply_record own) [], other-Frags (framed (reply_record own) []), refl) own-IsReplied
      refl (own-Frags []) ten_seconds false 5 0 [] (be32 5) [] refl refl refl
      (λ i o.
        xdr_u_int-Decodes
          (rec_laws io (steady line (no_error (client own))) (λ sent bs. refl) i o [] []) 0 5
          (omega arith))
      server_io server_line (λ sent bs. refl) zeros 1000 server old_msg [] stream [] (replicate 4 0)
      (replicate 4 0) (xdr_u_int (rec_ops server_io)) 0 6 server-Held (unfold xdrrec_create in refl)
      (omega (arith, length-Held server_line server.xdrs.inp [] stream server-Held, length-stream))
      (omega arith) (omega arith) (omega arith) (last_fragment length-bytes refl) refl refl
      (xdr_u_int-Decodes
        (rec_laws server_io server_line (λ sent bs. refl) server.xdrs.inp server.xdrs.out [] []) 0 6
        (omega arith))

abbrev granted : Granted
granted = record { has_memory = true; connected = true; sockinfo = some tcp; has_addr = true }

clnt_vc_create-Made_example :
    Made
      (steady line (client own).xdrs.inp.conn.error)
      9
      100000
      2
      (client own).xdrs.inp.conn.os
      (clnt_vc_create zeros 8800 9000 granted 4 9 100000 2 0 0 old_msg (client own))
clnt_vc_create-Made_example =
    clnt_vc_create-Made (steady line (client own).xdrs.inp.conn.error) zeros 8800 9000 (omega arith)
      (omega arith) granted tcp 4 9 100000 2 0 0 old_msg (client own) (client own).xdrs.inp.conn.os
      refl (unfold header in unfold be32 in refl) (omega arith) (omega arith)
      (unfold steady in unfold xdrrec_create in (refl, refl))
