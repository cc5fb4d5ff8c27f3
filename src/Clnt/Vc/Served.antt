-- ===== src/Clnt/Vc/Served.antt =====
-- The call that a client sends is the call that the server takes from its connection.
use oncrpc4_win.Common.{
  ℕ, ◌+◌, ◌*◌, ◌<◌, ◌≡◌, refl, sym, ap, ◌∙◌, Bool, true, false, Option, none, some, List, [], ◌∷◌,
  ◌++◌, length, map, drop, arith, append-nil, drop-append_length,
}
use mathlib.Core.Path.{subst}
use oncrpc4_win.Common.Words.{IsU32, be32}
use oncrpc4_win.Xdr.Stream.{Filter}
use oncrpc4_win.Xdr.Codec.{Encodes, Decodes}
use oncrpc4_win.Xdr.Rec.{OutStream}
use oncrpc4_win.Xdr.Rec.Output.{Framed, Holds}
use oncrpc4_win.Xdr.RecIn.{InStream}
use oncrpc4_win.Xdr.RecIn.Input.{Transport}
use oncrpc4_win.Xdr.RecIn.Fragments.{Frags, Held}
use oncrpc4_win.Xdr.RecStream.{Handle, RecStream, rec_ops}
use oncrpc4_win.Xdr.RecStream.Deframe.{deframe, deframe-Framed, concat, concat-snoc}
use oncrpc4_win.Xdr.RecStream.Laws.{carried, carried-Holds, rec_laws}
use oncrpc4_win.Rpc.Msg.{CallMsg, ReplyMsg}
use oncrpc4_win.Rpc.Auth.Laws.{IsAuth, auth_wire}
use oncrpc4_win.Rpc.CallMsg.Laws.{IsCall, call_wire}
use oncrpc4_win.Rpc.Reply.Accepted.{results}
use oncrpc4_win.Rpc.Reply.Message.{accepted}
use oncrpc4_win.Rpc.Reply.Errors.{RpcErr, rpc_success}
use oncrpc4_win.Svc.Vc.{VcHandle, CfConn, svc_vc_recv}
use oncrpc4_win.Svc.Vc.Calls.{Serves, svc_vc_recv-Serves}
use oncrpc4_win.Clnt.Auth.{
  AuthOps, AuthnonePrivate, authnone_create, authnone_ops, authnone_marshal-Encoded,
}
use oncrpc4_win.Clnt.Vc.{Timeval, CtHandle, CtData, set_status}
use oncrpc4_win.Clnt.Vc.Header.{header, xid_after, xid_after-IsU32, none_call, authnone_call}
use oncrpc4_win.Clnt.Vc.Replies.{Reply, reply_record, IsReplied, Carries, AreStale, HasMemory}
use oncrpc4_win.Clnt.Vc.Connection.{Connection, steady}
use oncrpc4_win.Clnt.Vc.Success.{Succeeded}
use oncrpc4_win.Clnt.Vc.Calls.{IsClient, no_error}
use oncrpc4_win.Clnt.Vc.Call.{Returned, is_zero, clnt_vc_call}
use oncrpc4_win.Clnt.Vc.Returns.{clnt_vc_call-Succeeded}

empty-IsAuth : IsAuth 0 []
empty-IsAuth = record { flavor_fits = omega arith; body_fits = omega arith }

none_call-IsCall :
    (xid prog vers proc : ℕ)
    → IsU32 xid
    → IsU32 prog
    → IsU32 vers
    → IsU32 proc
    → IsCall (none_call xid prog vers proc)
none_call-IsCall xid prog vers proc hx hp hv hc = record {
  xid_fits = hx;
  prog_fits = hp;
  vers_fits = hv;
  proc_fits = hc;
  cred_fits = empty-IsAuth;
  verf_fits = empty-IsAuth;
}

wire_of :
    {bs : List ℕ} {records : List (List ℕ)} (call : List ℕ) (o : OutStream)
    → Holds o records []
    → Framed bs (records ++ (call ∷ [])) []
    → drop (length (carried o)) (deframe 0 bs) ≡ call
unfolding deframe
wire_of {bs} {records} call o h fr =
    let e : deframe 0 bs ≡ concat records ++ call =
      ap (deframe 0) (sym (append-nil bs))
      ∙ deframe-Framed fr []
      ∙ append-nil (concat (records ++ (call ∷ [])) ++ [])
      ∙ append-nil (concat (records ++ (call ∷ [])))
      ∙ concat-snoc records call in
    ap (drop (length (carried o))) e
    ∙ drop-append_length (concat records) call (length (carried o))
        (ap length (carried-Holds o records [] h ∙ append-nil (concat records)))

module _ {O Args R : Type 0} (io : Handle (CtHandle O)) (conn : Connection io)
    (taken : (sent bs : List ℕ) → io.writeit sent bs ≡ true) (mem_alloc : ℕ → Option (List ℕ))
    (xdr_args : Filter (RecStream (CtHandle O)) Args)
    (xdr_results : Filter (RecStream (CtHandle O)) R) where
  abbrev none_ops : AuthOps AuthnonePrivate (RecStream (CtHandle O))
  none_ops = authnone_ops (rec_ops io)

  -- What a call has given to the transport, without the headers of the fragments, behind what had
  -- been written before it.
  abbrev pub call_bytes : CtData O → Returned io mem_alloc none_ops xdr_args xdr_results → List ℕ
  call_bytes ct none = []
  call_bytes ct (some (stat, res, a, ct')) =
      drop (length (carried ct.xdrs.out)) (deframe 0 ct'.xdrs.out.sent)

  call_bytes_lem :
      (err : RpcErr) (records : List (List ℕ)) (call : List ℕ) (v : R) (a : AuthnonePrivate)
      (rest later : List ℕ) (ct : CtData O)
      (w : Returned io mem_alloc none_ops xdr_args xdr_results)
      → Holds ct.xdrs.out records []
      → Succeeded io conn taken mem_alloc none_ops xdr_args xdr_results err
          (records ++ (call ∷ []))
          v
          a
          rest
          later
          w
      → call_bytes ct w ≡ call
  call_bytes_lem err records call v a rest later ct none h g = absurd g
  call_bytes_lem err records call v a rest later ct (some (stat, res, a', ct')) h
        (es, er, ea, sent, held) =
      wire_of call ct.xdrs.out h sent.wire

  -- A client of AUTH_NONE in the situation of `clnt_vc_call-Succeeded`.
  module _ (fuel proc : ℕ) (m : ReplyMsg Unit) (args : Args) (res : R)
      (client_alloc : ℕ → Option (List ℕ)) (addr : ℕ) (ct : CtData O) (xid prog vers : ℕ)
      (records : List (List ℕ)) (bs before more after later : List ℕ) (stale : List Reply)
      (r : Reply) (hc : IsClient ct xid prog vers) (h : Holds ct.xdrs.out records [])
      (held : Held (steady conn ct.xdrs.inp.conn.error) ct.xdrs.inp before more)
      (hb : Encodes
        (rec_laws io
          (steady conn (no_error ct))
          taken
          (set_status rpc_success ct.xdrs).inp
          ct.xdrs.out
          records
          [])
        xdr_args
        args
        bs)
      (hr : length stale < fuel) (hf : 5 * (length before + length more) + 4 < fuel)
      (memory : HasMemory mem_alloc) (hs : AreStale (xid_after xid) stale)
      (carries : Carries more (map reply_record stale) after) (own : IsReplied r)
      (ex : r.xid ≡ xid_after xid) (frags : Frags after (reply_record r) later) (timeout : Timeval)
      (null_results : Bool) (v : R) (flavor : ℕ) (verf w rest : List ℕ)
      (nz : is_zero io mem_alloc none_ops xdr_args xdr_results timeout ≡ false)
      (ev : r.verdict ≡ accepted flavor verf (results tt)) (er : r.rest ≡ w ++ rest)
      (hd : (i : InStream (CtHandle O)) (o : OutStream)
        → Decodes
            (rec_laws io (steady conn (no_error ct)) taken i o [] later)
            xdr_results
            res
            v
            w) where
    abbrev pub returned : Returned io mem_alloc none_ops xdr_args xdr_results
    returned =
        clnt_vc_call io mem_alloc none_ops xdr_args xdr_results fuel proc timeout null_results m
          args res (authnone_create client_alloc addr) ct

    succeeded :
        Succeeded io conn taken mem_alloc none_ops xdr_args xdr_results
          (no_error ct)
          (records
            ++ (((header (xid_after xid) prog vers ++ be32 proc)
                  ++ ((auth_wire 0 [] ++ auth_wire 0 []) ++ bs))
                ∷ []))
          v
          (authnone_create client_alloc addr)
          rest
          later
          returned
    unfolding authnone_ops
    succeeded =
        clnt_vc_call-Succeeded io conn taken mem_alloc none_ops xdr_args xdr_results fuel proc m
          args res (authnone_create client_alloc addr) ct xid prog vers records
          (auth_wire 0 [] ++ auth_wire 0 []) bs before more after later stale r hc h held
          (authnone_marshal-Encoded client_alloc
            (rec_laws io (steady conn (no_error ct)) taken (set_status rpc_success ct.xdrs).inp
              ct.xdrs.out records [])
            addr)
          hb hr hf memory hs carries own ex frags timeout null_results v
          (authnone_create client_alloc addr) flavor verf w rest nz ev er refl hd

    -- The bytes are a call in the layout of the protocol.
    pub call_bytes-call_wire :
        call_bytes ct returned ≡ call_wire (none_call (xid_after xid) prog vers proc) ++ bs
    call_bytes-call_wire =
        call_bytes_lem (no_error ct) records
          ((header (xid_after xid) prog vers ++ be32 proc)
            ++ ((auth_wire 0 [] ++ auth_wire 0 []) ++ bs))
          v (authnone_create client_alloc addr) rest later ct returned h succeeded
        ∙ authnone_call (xid_after xid) prog vers proc bs

    -- A client that authenticates with AUTH_NONE calls clnt_vc_call, in the situation of
    -- clnt_vc_call-Succeeded. A server waits on a blocking connection, anywhere in a record, and
    -- behind that record follow the bytes that clnt_vc_call has given to the client's transport, as
    -- one record, in any fragments and however delivered: svc_vc_recv returns TRUE with a call of
    -- the transaction id, the program, the version and the procedure of the client, and with empty
    -- credentials, and svc_vc_getargs then returns TRUE with what the server's filter reads from the
    -- bytes of the client's arguments.
    pub clnt_vc_call-Serves :
        {P A : Type 0} (sio : Handle (VcHandle P)) (t : Transport sio.readit)
        (staken : (sent bs : List ℕ) → sio.writeit sent bs ≡ true) (salloc : ℕ → Option (List ℕ))
        (sfuel : ℕ) (sconn : CfConn P) (msg : CallMsg)
        (sbefore smore slater cred_area verf_area : List ℕ) (f : Filter (RecStream (VcHandle P)) A)
        (old val : A) (sheld : Held t sconn.xdrs.inp sbefore smore)
        → sconn.xdrs.inp.conn.nonblock ≡ false
        → length sheld.at_stream < sfuel
        → IsU32 prog
        → IsU32 vers
        → IsU32 proc
        → Frags smore (call_bytes ct returned) slater
        → msg.body.cred.body.base ≡ some cred_area
        → msg.body.verf.body.base ≡ some verf_area
        → Decodes (rec_laws sio t staken sconn.xdrs.inp sconn.xdrs.out [] slater) f old val bs
        → Serves sio t staken salloc sconn.xdrs.out
            (none_call (xid_after xid) prog vers proc)
            cred_area
            verf_area
            f
            old
            val
            []
            slater
            (svc_vc_recv sio salloc sfuel sconn msg)
    clnt_vc_call-Serves sio t staken salloc sfuel sconn msg sbefore smore slater cred_area verf_area
          f old val sheld eb sf hp hv hq sfrags ec evf sd =
        svc_vc_recv-Serves sio t staken salloc sfuel sconn msg
          (none_call (xid_after xid) prog vers proc) sbefore smore slater [] bs cred_area verf_area
          f old val sheld eb sf
          (subst (λ b. Frags smore b slater)
            (call_bytes-call_wire
              ∙ ap (λ b. call_wire (none_call (xid_after xid) prog vers proc) ++ b)
                  (sym (append-nil bs)))
            sfrags)
          (none_call-IsCall (xid_after xid) prog vers proc (xid_after-IsU32 xid) hp hv hq) ec evf sd
