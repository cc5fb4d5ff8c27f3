-- ===== src/Clnt/Vc/Returns.antt =====
-- What a call over a connection returns.
use oncrpc4_win.Common.{
  ℕ, ◌+◌, ◌*◌, ◌<◌, ◌≡◌, refl, Bool, true, false, not, ◌&&◌, Option, List, [], ◌∷◌, ◌++◌, length,
  map, if_true, if_false, Bool-cases, inl, inr,
}
use oncrpc4_win.Common.Words.{be32}
use oncrpc4_win.Xdr.Stream.{Filter}
use oncrpc4_win.Xdr.Codec.{Decodes, Encodes}
use oncrpc4_win.Xdr.Rec.{OutStream}
use oncrpc4_win.Xdr.Rec.Output.{Holds}
use oncrpc4_win.Xdr.RecIn.{InStream}
use oncrpc4_win.Xdr.RecIn.Fragments.{Frags, Held}
use oncrpc4_win.Xdr.RecStream.{Handle, RecStream}
use oncrpc4_win.Xdr.RecStream.Laws.{rec_laws}
use oncrpc4_win.Rpc.Msg.{ReplyMsg}
use oncrpc4_win.Rpc.Auth.Laws.{allocated}
use oncrpc4_win.Rpc.Reply.Accepted.{results}
use oncrpc4_win.Rpc.Reply.Message.{accepted}
use oncrpc4_win.Rpc.Reply.Errors.{rpc_success}
use oncrpc4_win.Rpc.RoundTrip.{reported}
use oncrpc4_win.Clnt.Auth.{AuthOps}
use oncrpc4_win.Clnt.Vc.{Timeval, time_not_ok, CtHandle, CtData, set_status}
use oncrpc4_win.Clnt.Vc.Header.{header, xid_after}
use oncrpc4_win.Clnt.Vc.Replies.{Reply, reply_record, IsReplied, Carries, AreStale, HasMemory}
use oncrpc4_win.Clnt.Vc.Connection.{Connection, steady}
use oncrpc4_win.Clnt.Vc.Outcomes.{again_Succeeds, again_Failed}
use oncrpc4_win.Clnt.Vc.Success.{Succeeded}
use oncrpc4_win.Clnt.Vc.Refusal.{IsRefusal, Failed}
use oncrpc4_win.Clnt.Vc.Sends.{Marshals}
use oncrpc4_win.Clnt.Vc.Calls.{IsClient, no_error}
use oncrpc4_win.Clnt.Vc.Call.{Returned, call_again, is_zero, set_wait, clnt_vc_call}

-- The results are waited for, unless neither they nor time is given.
shipped :
    (null_results zero_time : Bool) → zero_time ≡ false → not (null_results && zero_time) ≡ true
shipped true true e = absurd (cc)
shipped true false e = refl
shipped false z e = refl

same-IsClient :
    {O : Type 0} (ct : CtData O) (timeout : Timeval) (xid prog vers : ℕ)
    → IsClient ct xid prog vers
    → IsClient (record ct { wait = timeout }) xid prog vers
same-IsClient ct timeout xid prog vers h = record {
  behind = h.behind;
  marshalled = h.marshalled;
  position = h.position;
}

module _ {O A Args R : Type 0} (io : Handle (CtHandle O)) (conn : Connection io)
    (taken : (sent bs : List ℕ) → io.writeit sent bs ≡ true) (mem_alloc : ℕ → Option (List ℕ))
    (auth : AuthOps A (RecStream (CtHandle O))) (xdr_args : Filter (RecStream (CtHandle O)) Args)
    (xdr_results : Filter (RecStream (CtHandle O)) R) where
  with_wait :
      (P : CtData O → Type 0) (timeout : Timeval) (ct : CtData O)
      → P (record ct { wait = timeout })
      → P ct
      → P (set_wait io mem_alloc auth xdr_args xdr_results timeout ct)
  with_wait P timeout ct set kept =
      elim (Bool-cases (not ct.waitset && not (time_not_ok timeout))) [
        | inl e ↦
            if_true P (not ct.waitset && not (time_not_ok timeout)) (record ct { wait = timeout })
              ct e set
        | inr e ↦
            if_false P (not ct.waitset && not (time_not_ok timeout)) (record ct { wait = timeout })
              ct e kept
      ]

  call_of :
      (P : Returned io mem_alloc auth xdr_args xdr_results → Type 0) (fuel proc : ℕ)
      (timeout : Timeval) (null_results : Bool) (m : ReplyMsg Unit) (args : Args) (res : R) (a : A)
      (ct : CtData O)
      → is_zero io mem_alloc auth xdr_args xdr_results timeout ≡ false
      → P (
          call_again io mem_alloc auth xdr_args xdr_results fuel proc true false res 2 m args a
            (record ct { wait = timeout }))
      → P (call_again io mem_alloc auth xdr_args xdr_results fuel proc true false res 2 m args a ct)
      → P (
          clnt_vc_call io mem_alloc auth xdr_args xdr_results fuel proc timeout null_results m args
            res a ct)
  unfolding clnt_vc_call
  call_of P fuel proc timeout null_results m args res a ct nz set kept =
      rw (shipped null_results (is_zero io mem_alloc auth xdr_args xdr_results timeout) nz, nz)
        (with_wait
          (λ c. P (
            call_again io mem_alloc auth xdr_args xdr_results fuel proc true false res 2 m args a
              c))
          timeout ct set kept)

  -- A client that is ready to call, and a connection that brings replies to other calls, and then
  -- the reply `r` to this one.
  module _ (fuel proc : ℕ) (m : ReplyMsg Unit) (args : Args) (res : R) (a : A) (ct : CtData O)
      (xid prog vers : ℕ) (records : List (List ℕ)) (ws bs before more after later : List ℕ)
      (stale : List Reply) (r : Reply) (hc : IsClient ct xid prog vers)
      (h : Holds ct.xdrs.out records [])
      (held : Held (steady conn ct.xdrs.inp.conn.error) ct.xdrs.inp before more)
      (ha : Marshals io auth xdr_args
        (rec_laws io
          (steady conn (no_error ct))
          taken
          (set_status rpc_success ct.xdrs).inp
          ct.xdrs.out
          records
          [])
        a
        ws)
      (hb : Encodes
        (rec_laws io
          (steady conn (no_error ct))
          taken
          (set_status rpc_success ct.xdrs).inp
          ct.xdrs.out
          records
          [])
        xdr_args
        args
        bs)
      (hr : length stale < fuel) (hf : 5 * (length before + length more) + 4 < fuel)
      (memory : HasMemory mem_alloc) (hs : AreStale (xid_after xid) stale)
      (carries : Carries more (map reply_record stale) after) (own : IsReplied r)
      (ex : r.xid ≡ xid_after xid) (frags : Frags after (reply_record r) later) where
    -- The records that have been sent.
    abbrev pub sent : List (List ℕ)
    sent = records ++ (((header (xid_after xid) prog vers ++ be32 proc) ++ (ws ++ bs)) ∷ [])

    -- A client whose header is marshalled calls over a connection that takes what it is given, with
    -- time to wait; whatever was being read, the connection brings any number of replies to other
    -- calls, and then a reply to this one that carries results, each in any fragments and however
    -- delivered; the verifier is accepted, and there is memory for it: `clnt_vc_call` returns
    -- RPC_SUCCESS with these results, and has given its transport one record more, which is the header
    -- with its own transaction id, the procedure, the credentials and the arguments: nothing of it is
    -- left in the buffer. What follows the results is still to be read. The rounds of the loops are bounded by the bytes and the replies that come.
    pub clnt_vc_call-Succeeded :
        (timeout : Timeval) (null_results : Bool) (v : R) (a' : A) (flavor : ℕ)
        (verf w rest : List ℕ)
        → is_zero io mem_alloc auth xdr_args xdr_results timeout ≡ false
        → r.verdict ≡ accepted flavor verf (results tt)
        → r.rest ≡ w ++ rest
        → auth.validate a (allocated flavor verf) ≡ (true, a')
        → ((i : InStream (CtHandle O)) (o : OutStream)
            → Decodes
                (rec_laws io (steady conn (no_error ct)) taken i o [] later)
                xdr_results
                res
                v
                w)
        → Succeeded io conn taken mem_alloc auth xdr_args xdr_results
            (no_error ct)
            sent
            v
            a'
            rest
            later
            (clnt_vc_call io mem_alloc auth xdr_args xdr_results fuel proc timeout null_results m
              args res a ct)
    clnt_vc_call-Succeeded timeout null_results v a' flavor verf w rest nz ev er valid hd =
        let P =
          Succeeded io conn taken mem_alloc auth xdr_args xdr_results (no_error ct) sent v a' rest
            later in
        call_of P fuel proc timeout null_results m args res a ct nz
          (again_Succeeds io conn taken mem_alloc auth xdr_args xdr_results fuel proc m args res a
            (record ct { wait = timeout }) xid prog vers records ws bs before more after later stale
            r (same-IsClient ct timeout xid prog vers hc) h held ha hb hr hf memory hs carries own
            ex frags 2 v a' flavor verf w rest ev er valid hd)
          (again_Succeeds io conn taken mem_alloc auth xdr_args xdr_results fuel proc m args res a
            ct xid prog vers records ws bs before more after later stale r hc h held ha hb hr hf
            memory hs carries own ex frags 2 v a' flavor verf w rest ev er valid hd)

    -- In the same situation, where the reply to this call brings no results, and the credentials
    -- cannot be refreshed: `clnt_vc_call` returns the status of that verdict, with its details in
    -- `ct_error`, and leaves the object for the results as it was.
    pub clnt_vc_call-Failed :
        (timeout : Timeval) (null_results : Bool) (a' : A)
        → is_zero io mem_alloc auth xdr_args xdr_results timeout ≡ false
        → auth.refresh a ≡ (false, a')
        → IsRefusal r.verdict
        → Failed io conn taken mem_alloc auth xdr_args xdr_results
            (reported r.verdict (no_error ct))
            sent
            res
            a'
            (clnt_vc_call io mem_alloc auth xdr_args xdr_results fuel proc timeout null_results m
              args res a ct)
    clnt_vc_call-Failed timeout null_results a' nz stays refusal =
        let P =
          Failed io conn taken mem_alloc auth xdr_args xdr_results
            (reported r.verdict (no_error ct)) sent res a' in
        call_of P fuel proc timeout null_results m args res a ct nz
          (again_Failed io conn taken mem_alloc auth xdr_args xdr_results fuel proc m args res a
            (record ct { wait = timeout }) xid prog vers records ws bs before more after later stale
            r (same-IsClient ct timeout xid prog vers hc) h held ha hb hr hf memory hs carries own
            ex frags 1 a' stays refusal)
          (again_Failed io conn taken mem_alloc auth xdr_args xdr_results fuel proc m args res a ct
            xid prog vers records ws bs before more after later stale r hc h held ha hb hr hf memory
            hs carries own ex frags 1 a' stays refusal)
