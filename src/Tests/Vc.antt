-- ===== src/Tests/Vc.antt =====
-- Runs of both ends of a connection.
use oncrpc4_win.Common.{
  ℕ, ◌+◌, ◌^◌, ◌<◌, ◌≡◌, refl, ap, true, false, Option, none, some, List, [], ◌∷◌, ◌++◌, length,
  replicate, arith,
}
use oncrpc4_win.Common.Words.{be32}
use oncrpc4_win.Xdr.Stream.{encode}
use oncrpc4_win.Xdr.Scalar.{xdr_u_int, xdr_void}
use oncrpc4_win.Xdr.Scalar.Laws.{xdr_u_int-Decodes}
use oncrpc4_win.Xdr.RecIn.Input.{Received, Transport}
use oncrpc4_win.Xdr.RecIn.Fragments.{Frags, last_fragment, fragment, Held}
use oncrpc4_win.Xdr.RecIn.Sizes.{length-Held}
use oncrpc4_win.Xdr.RecIn.Nonblock.{xprt_idle}
use oncrpc4_win.Xdr.RecStream.{Handle, rec_ops, xdrrec_create}
use oncrpc4_win.Xdr.RecStream.Laws.{rec_laws}
use oncrpc4_win.Xdr.RecStream.Create.{xdrrec_create-Holds, xdrrec_create-Held}
use oncrpc4_win.Rpc.Msg.{CallMsg, ReplyMsg}
use oncrpc4_win.Rpc.Auth.Laws.{auth, auth_wire}
use oncrpc4_win.Xdr.Opaque.{rndup}
use oncrpc4_win.Xdr.Opaque.Laws.{units}
use oncrpc4_win.Rpc.CallMsg.Laws.{Call, IsCall, call_wire}
use oncrpc4_win.Rpc.Auth.Laws.{null_auth}
use oncrpc4_win.Rpc.Reply.Accepted.{results}
use oncrpc4_win.Rpc.Reply.Message.{Verdict, accepted, sent, reply_of, reply_wire}
use oncrpc4_win.Rpc.Reply.Layout.{void_codec}
use oncrpc4_win.Svc.Vc.Replies.{Answered, svc_vc_reply-Answered}
use oncrpc4_win.Svc.Vc.{VcHandle, CfConn, svc_vc_recv, svc_vc_reply}
use oncrpc4_win.Svc.Vc.Calls.{Serves, svc_vc_recv-Serves}

-- A socket that delivers one byte with each read.
abbrev pub deliver : {X : Type 0} → X → (List ℕ → X) → List ℕ → Option (List ℕ) × X
deliver c set [] = (none, c)
deliver c set (b ∷ bs) = (some (b ∷ []), set bs)

abbrev pub zeros : ℕ → Option (List ℕ)
zeros n = some (replicate n 0)

-- The server's end.
abbrev pub server_io : Handle (VcHandle (List ℕ))
server_io = record {
  readit = λ c n. deliver c (λ bs. record c { os = bs }) c.os;
  writeit = λ sent bs. true;
  write_failed = λ c. c;
  stale = λ o n. replicate n 0;
  can_realloc = λ n. true;
}

pub deliver_lem :
    (c : VcHandle (List ℕ)) (u bs : List ℕ) (n : ℕ)
    → u ≡ bs
    → 0 < length bs
    → 0 < n
    → Received (λ d ds. d.os ≡ ds) bs n (deliver c (λ bs. record c { os = bs }) u)
deliver_lem c [] bs n e h hn = absurd (omega (arith, ap length e))
deliver_lem c (b ∷ u) bs n e h hn = (omega arith, omega arith, (u, e, refl))

abbrev pub server_line : Transport server_io.readit
server_line = record {
  Delivers = λ c bs. c.os ≡ bs;
  read_lem = λ c bs n e h hn. deliver_lem c c.os bs n e h hn;
}

-- A call of the port mapper with a number as its argument, in two fragments.
abbrev a_call : Call
a_call = record {
  xid = 7;
  prog = 100000;
  vers = 2;
  proc = 3;
  cred_flavor = 0;
  cred = [];
  verf_flavor = 0;
  verf = [];
}

a_call-IsCall : IsCall a_call
a_call-IsCall = record {
  xid_fits = omega arith;
  prog_fits = omega arith;
  vers_fits = omega arith;
  proc_fits = omega arith;
  cred_fits = record { flavor_fits = omega arith; body_fits = omega arith };
  verf_fits = record { flavor_fits = omega arith; body_fits = omega arith };
}

abbrev first_part : List ℕ
first_part = 0 ∷ 0 ∷ 0 ∷ 7 ∷ 0 ∷ 0 ∷ []

abbrev second_part : List ℕ
second_part =
    0 ∷ 0 ∷ 0 ∷ 0 ∷ 0 ∷ 2 ∷ 0 ∷ 1 ∷ 134 ∷ 160 ∷ 0 ∷ 0 ∷ 0 ∷ 2 ∷ 0 ∷ 0 ∷ 0 ∷ 3 ∷ replicate 19 0
    ++ 5 ∷ []

abbrev call_stream : List ℕ
call_stream = be32 6 ++ (first_part ++ (be32 (2 ^ 31 + 38) ++ (second_part ++ [])))

call_stream-Frags : Frags call_stream (call_wire a_call ++ (be32 5 ++ [])) []
unfolding call_wire be32 auth_wire units rndup
call_stream-Frags =
    fragment first_part second_part (be32 (2 ^ 31 + 38) ++ (second_part ++ [])) (omega arith)
      (omega arith) refl refl (last_fragment (omega arith) refl)

abbrev server : CfConn (List ℕ)
server = record {
  x_id = 0;
  xdrs =
      xdrrec_create encode (record { os = call_stream; strm_stat = xprt_idle; nonblock = false }) 0
        0;
}

server-Held : Held server_line server.xdrs.inp [] call_stream
server-Held =
    xdrrec_create-Held encode (record { os = call_stream; strm_stat = xprt_idle; nonblock = false })
      0 0 (omega arith) (omega arith) server_line call_stream refl

server-fuel : length server-Held.at_stream < 1000
unfolding be32
server-fuel = omega (arith, length-Held server_line server.xdrs.inp [] call_stream server-Held)

-- The message of a dispatcher, with its credential area.
abbrev pub old_msg : CallMsg
old_msg = record {
  xid = 0;
  direction = 0;
  body = record {
    rpcvers = 0;
    prog = 0;
    vers = 0;
    proc = 0;
    cred = auth 0 (replicate 4 0);
    verf = auth 0 (replicate 4 0);
  };
}

svc_vc_recv-Serves_example :
    Serves server_io server_line
      (λ sent bs. refl)
      zeros
      server.xdrs.out
      a_call
      (replicate 4 0)
      (replicate 4 0)
      (xdr_u_int (rec_ops server_io))
      0
      5
      []
      []
      (svc_vc_recv server_io zeros 1000 server old_msg)
svc_vc_recv-Serves_example =
    svc_vc_recv-Serves server_io server_line (λ sent bs. refl) zeros 1000 server old_msg a_call []
      call_stream [] [] (be32 5) (replicate 4 0) (replicate 4 0) (xdr_u_int (rec_ops server_io)) 0 5
      server-Held (unfold xdrrec_create in refl) server-fuel call_stream-Frags a_call-IsCall refl
      refl
      (xdr_u_int-Decodes
        (rec_laws server_io server_line (λ sent bs. refl) server.xdrs.inp server.xdrs.out [] []) 0 5
        (omega arith))

-- An empty message to reply with, and a reply without results.
abbrev pub no_reply : ReplyMsg Unit
no_reply = record {
  xid = 0;
  direction = 0;
  stat = 0;
  ru = record {
    acpt = record { verf = null_auth; stat = 0; vers = record { low = 0; high = 0 }; results = tt };
    rjct = record { stat = 0; vers = record { low = 0; high = 0 }; why = 0 };
  };
}

abbrev carried_out : Verdict Unit
carried_out = accepted 0 [] (results tt)

svc_vc_reply-Answered_example :
    Answered []
      (reply_wire
        (rec_laws server_io server_line (λ sent bs. refl) server.xdrs.inp server.xdrs.out [] [])
        zeros
        (void_codec
          (rec_laws server_io server_line (λ sent bs. refl) server.xdrs.inp server.xdrs.out [] []))
        0
        carried_out)
      (reply_of 0 carried_out (sent no_reply.ru carried_out))
      server
      (svc_vc_reply server_io zeros xdr_void server
        (reply_of 9 carried_out (sent no_reply.ru carried_out)))
svc_vc_reply-Answered_example =
    svc_vc_reply-Answered server_io server_line (λ sent bs. refl) zeros xdr_void server [] []
      (void_codec
        (rec_laws server_io server_line (λ sent bs. refl) server.xdrs.inp server.xdrs.out [] []))
      9 no_reply.ru carried_out
      (xdrrec_create-Holds encode
        (record { os = call_stream; strm_stat = xprt_idle; nonblock = false }) 0 0 (omega arith)
        (omega arith))
      (record { flavor_fits = omega arith; body_fits = omega arith }, unfold void_codec in tt)
