-- ===== src/Tests/Clnt.antt =====
-- Runs of the client's end of a connection.
use oncrpc4_win.Common.{
  ℕ, ◌+◌, ◌*◌, ◌^◌, ◌<◌, ◌≡◌, ◌≢◌, refl, ap, true, false, List, [], ◌∷◌, ◌++◌, length, replicate,
  arith, length-replicate,
}
use oncrpc4_win.Common.Words.{be32, word, word_of}
use oncrpc4_win.Xdr.Stream.{decode, encode, XdrLaws}
use oncrpc4_win.Xdr.Scalar.{xdr_u_int}
use oncrpc4_win.Xdr.Scalar.Laws.{xdr_u_int-Encodes, xdr_u_int-Decodes}
use oncrpc4_win.Xdr.RecIn.Input.{Received}
use oncrpc4_win.Xdr.RecIn.Fragments.{Frags, last_fragment, Held}
use oncrpc4_win.Xdr.RecStream.{Handle, RecStream, rec_ops, xdrrec_create}
use oncrpc4_win.Xdr.RecStream.Laws.{rec_laws}
use oncrpc4_win.Xdr.RecStream.Create.{xdrrec_create-Holds, xdrrec_create-Held}
use oncrpc4_win.Xdr.Opaque.{rndup}
use oncrpc4_win.Xdr.Opaque.Laws.{units}
use oncrpc4_win.Rpc.Auth.Laws.{auth_wire}
use oncrpc4_win.Rpc.Reply.Accepted.{results, status}
use oncrpc4_win.Rpc.Reply.Message.{accepted, denied}
use oncrpc4_win.Rpc.Reply.Denied.{bad_auth, denial_wire}
use oncrpc4_win.Rpc.Reply.Layout.{reply_bytes}
use oncrpc4_win.Rpc.Reply.Errors.{rpc_success, rpc_failed}
use oncrpc4_win.Rpc.RoundTrip.{reported}
use oncrpc4_win.Clnt.Auth.{
  AuthOps, AuthnonePrivate, authnone_create, authnone_ops, authnone_marshal-Encoded,
}
use oncrpc4_win.Clnt.Vc.{Timeval, CtHandle, CtData, next_xid, set_status, set_op, await_reply}
use oncrpc4_win.Clnt.Vc.Header.{header, xid_after, xid_after-IsU32}
use oncrpc4_win.Clnt.Vc.Replies.{Reply, reply_record, IsReplied, HasMemory}
use oncrpc4_win.Clnt.Vc.Await.{Came, await_reply-Came}
use oncrpc4_win.Clnt.Vc.Connection.{Connection, steady}
use oncrpc4_win.Clnt.Vc.Success.{Succeeded}
use oncrpc4_win.Clnt.Vc.Refusal.{Failed}
use oncrpc4_win.Clnt.Vc.Calls.{IsClient, no_error}
use oncrpc4_win.Clnt.Vc.Call.{clnt_vc_call}
use oncrpc4_win.Clnt.Vc.Returns.{clnt_vc_call-Succeeded, clnt_vc_call-Failed}
use oncrpc4_win.Tests.Vc.{deliver, zeros, no_reply}

abbrev pub io : Handle (CtHandle (List ℕ))
io = record {
  readit = λ c n. deliver c (λ bs. record c { os = bs }) c.os;
  writeit = λ sent bs. true;
  write_failed = λ c. c;
  stale = λ o n. replicate n 0;
  can_realloc = λ n. true;
}

pub deliver_lem :
    (c : CtHandle (List ℕ)) (u bs : List ℕ) (n : ℕ)
    → u ≡ bs
    → 0 < length bs
    → 0 < n
    → Received
        (λ d ds. (d.os ≡ ds) × (d.error ≡ c.error))
        bs
        n
        (deliver c (λ bs. record c { os = bs }) u)
deliver_lem c [] bs n e h hn = absurd (omega (arith, ap length e))
deliver_lem c (b ∷ u) bs n e h hn = (omega arith, omega arith, (u, e, (refl, refl)))

abbrev pub line : Connection io
line = record {
  Delivers = λ os bs. os ≡ bs;
  read_lem = λ c bs n e h hn. deliver_lem c c.os bs n e h hn;
}

pub memory : HasMemory zeros
memory = λ n h hn. (replicate n 0, refl, length-replicate n 0)

-- A reply to another call, a reply with the number 5, and one that refuses the credentials.
abbrev pub other : Reply
other = record { xid = 3; verdict = accepted 0 (1 ∷ 2 ∷ []) (status 3); rest = [] }

abbrev pub own : Reply
own = record { xid = xid_after 9; verdict = accepted 0 [] (results tt); rest = be32 5 ++ [] }

abbrev refusal : Reply
refusal = record { xid = xid_after 9; verdict = denied (bad_auth 1); rest = [] }

abbrev pub framed : List ℕ → List ℕ → List ℕ
framed bs more = be32 (2 ^ 31 + length bs) ++ (bs ++ more)

pub other-IsReplied : IsReplied other
other-IsReplied = record {
  xid_fits = omega arith;
  verdict_fits = (
    record { flavor_fits = omega arith; body_fits = omega arith },
    (omega arith, omega arith, omega arith),
  );
}

pub own-IsReplied : IsReplied own
own-IsReplied = record {
  xid_fits = xid_after-IsU32 9;
  verdict_fits = (record { flavor_fits = omega arith; body_fits = omega arith }, tt);
}

refusal-IsReplied : IsReplied refusal
refusal-IsReplied = record { xid_fits = xid_after-IsU32 9; verdict_fits = omega arith }

pub other_xid : 3 ≢ xid_after 9
unfolding xid_after next_xid be32 word_of word
other_xid = λ e. absurd (omega (arith, e))

pub other-Frags :
    (more : List ℕ) → Frags (framed (reply_record other) more) (reply_record other) more
unfolding be32 reply_bytes auth_wire units rndup denial_wire
other-Frags more = last_fragment (omega arith) refl

pub own-Frags : (more : List ℕ) → Frags (framed (reply_record own) more) (reply_record own) more
unfolding be32 reply_bytes auth_wire units rndup denial_wire
own-Frags more = last_fragment (omega arith) refl

refusal-Frags :
    (more : List ℕ) → Frags (framed (reply_record refusal) more) (reply_record refusal) more
unfolding be32 reply_bytes auth_wire units rndup denial_wire
refusal-Frags more = last_fragment (omega arith) refl

-- The replies to two calls.
abbrev pub wire : Reply → List ℕ
wire r = framed (reply_record other) (framed (reply_record r) [])

-- A client of program 100000, version 2, that is to call with the id that follows 9.
abbrev pub client : Reply → CtData (List ℕ)
client r = record {
  wait = record { sec = 0; usec = 0 };
  waitset = false;
  mcallc = header 9 100000 2 ++ replicate 4 0;
  mpos = 20;
  xdrs =
      xdrrec_create encode
        (record {
          os = wire r;
          error = record {
            status = rpc_failed;
            vers = record { low = 0; high = 0 };
            why = 0;
            lb = record { s1 = 0; s2 = 0 };
          };
        })
        0 0;
}

pub client-IsClient : (r : Reply) → IsClient (client r) 9 100000 2
client-IsClient r = record { behind = replicate 4 0; marshalled = refl; position = refl }

pub client-Held :
    (r : Reply) → Held (steady line (client r).xdrs.inp.conn.error) (client r).xdrs.inp [] (wire r)
client-Held r =
    xdrrec_create-Held encode _ 0 0 (omega arith) (omega arith) (steady line _) (wire r)
      (unfold steady in unfold xdrrec_create in (refl, refl))

abbrev pub none_handle : AuthnonePrivate
none_handle = authnone_create zeros 8

abbrev pub none_ops : AuthOps AuthnonePrivate (RecStream (CtHandle (List ℕ)))
none_ops = authnone_ops (rec_ops io)

abbrev pub ten_seconds : Timeval
ten_seconds = record { sec = 10; usec = 0 }

-- What the client writes, and what it reads the results from.
abbrev pub sending : Reply → XdrLaws (rec_ops io)
sending r =
    rec_laws io (steady line (no_error (client r))) (λ sent bs. refl)
      (set_status rpc_success (client r).xdrs).inp (client r).xdrs.out [] []

pub length-wire : 5 * (0 + length (wire own)) + 4 < 2000
unfolding be32 reply_bytes auth_wire units rndup
length-wire = omega arith

clnt_vc_call-Succeeded_example :
    Succeeded io line
      (λ sent bs. refl)
      zeros
      none_ops
      (xdr_u_int (rec_ops io))
      (xdr_u_int (rec_ops io))
      (no_error (client own))
      (((header (xid_after 9) 100000 2 ++ be32 4) ++ ((auth_wire 0 [] ++ auth_wire 0 []) ++ be32 6))
        ∷ [])
      5
      none_handle
      []
      []
      (clnt_vc_call io zeros none_ops
        (xdr_u_int (rec_ops io))
        (xdr_u_int (rec_ops io))
        2000
        4
        ten_seconds
        false
        no_reply
        6
        0
        none_handle
        (client own))
unfolding authnone_ops
clnt_vc_call-Succeeded_example =
    clnt_vc_call-Succeeded io line (λ sent bs. refl) zeros none_ops (xdr_u_int (rec_ops io))
      (xdr_u_int (rec_ops io)) 2000 4 no_reply 6 0 none_handle (client own) 9 100000 2 []
      (auth_wire 0 [] ++ auth_wire 0 []) (be32 6) [] (wire own) (framed (reply_record own) []) []
      (other ∷ []) own (client-IsClient own)
      (xdrrec_create-Holds encode _ 0 0 (omega arith) (omega arith)) (client-Held own)
      (authnone_marshal-Encoded zeros (sending own) 8) (xdr_u_int-Encodes (sending own) 6)
      (omega arith) length-wire memory (other_xid, other-IsReplied, tt)
      (framed (reply_record own) [], other-Frags (framed (reply_record own) []), refl) own-IsReplied
      refl (own-Frags []) ten_seconds false 5 none_handle 0 [] (be32 5) [] refl refl refl refl
      (λ i o.
        xdr_u_int-Decodes
          (rec_laws io (steady line (no_error (client own))) (λ sent bs. refl) i o [] []) 0 5
          (omega arith))

length-refused : 5 * (0 + length (wire refusal)) + 4 < 2000
unfolding be32 reply_bytes auth_wire units rndup denial_wire
length-refused = omega arith

clnt_vc_call-Failed_example :
    Failed io line
      (λ sent bs. refl)
      zeros
      none_ops
      (xdr_u_int (rec_ops io))
      (xdr_u_int (rec_ops io))
      (reported refusal.verdict (no_error (client refusal)))
      (((header (xid_after 9) 100000 2 ++ be32 4) ++ ((auth_wire 0 [] ++ auth_wire 0 []) ++ be32 6))
        ∷ [])
      0
      none_handle
      (clnt_vc_call io zeros none_ops
        (xdr_u_int (rec_ops io))
        (xdr_u_int (rec_ops io))
        2000
        4
        ten_seconds
        false
        no_reply
        6
        0
        none_handle
        (client refusal))
unfolding authnone_ops
clnt_vc_call-Failed_example =
    clnt_vc_call-Failed io line (λ sent bs. refl) zeros none_ops (xdr_u_int (rec_ops io))
      (xdr_u_int (rec_ops io)) 2000 4 no_reply 6 0 none_handle (client refusal) 9 100000 2 []
      (auth_wire 0 [] ++ auth_wire 0 []) (be32 6) [] (wire refusal)
      (framed (reply_record refusal) []) [] (other ∷ []) refusal (client-IsClient refusal)
      (xdrrec_create-Holds encode _ 0 0 (omega arith) (omega arith)) (client-Held refusal)
      (authnone_marshal-Encoded zeros (sending refusal) 8) (xdr_u_int-Encodes (sending refusal) 6)
      (omega arith) length-refused memory (other_xid, other-IsReplied, tt)
      (framed (reply_record refusal) [], other-Frags (framed (reply_record refusal) []), refl)
      refusal-IsReplied refl (refusal-Frags []) ten_seconds false none_handle refl refl tt

await_reply-Came_example :
    Came io
      (steady line (client own).xdrs.inp.conn.error)
      (λ sent bs. refl)
      zeros
      (client own).xdrs.out
      []
      own
      (await_reply io zeros 2 2000 (xid_after 9) no_reply (set_op decode (client own).xdrs))
await_reply-Came_example =
    await_reply-Came io (steady line (client own).xdrs.inp.conn.error) (λ sent bs. refl) zeros
      (other ∷ []) 2 2000 own no_reply (client own).xdrs.out [] (wire own)
      (framed (reply_record own) []) [] (set_op decode (client own).xdrs)
      (refl, client-Held own, refl) (omega arith) length-wire memory
      (other_xid, other-IsReplied, tt)
      (framed (reply_record own) [], other-Frags (framed (reply_record own) []), refl) own-IsReplied
      (own-Frags [])
