-- ===== src/Clnt/Vc/Outcomes.antt =====
-- What `clnt_vc_call` returns for each verdict of the server.
use oncrpc4_win.Common.{
  ℕ, zero, suc, ◌+◌, ◌*◌, ◌<◌, ◌≡◌, refl, true, false, Option, List, [], ◌∷◌, ◌++◌, length, map,
}
use oncrpc4_win.Common.Words.{be32}
use oncrpc4_win.Xdr.Stream.{Filter}
use oncrpc4_win.Xdr.Codec.{Decodes, Encodes}
use oncrpc4_win.Xdr.Rec.{OutStream}
use oncrpc4_win.Xdr.Rec.Output.{Holds}
use oncrpc4_win.Xdr.RecIn.{InStream}
use oncrpc4_win.Xdr.RecIn.Fragments.{Frags, Held}
use oncrpc4_win.Xdr.RecStream.{Handle, RecStream}
use oncrpc4_win.Xdr.RecStream.Laws.{rec_laws}
use oncrpc4_win.Rpc.Msg.{ReplyMsg}
use oncrpc4_win.Rpc.Auth.Laws.{allocated}
use oncrpc4_win.Rpc.Reply.Accepted.{results}
use oncrpc4_win.Rpc.Reply.Message.{accepted}
use oncrpc4_win.Rpc.Reply.Errors.{rpc_success}
use oncrpc4_win.Rpc.RoundTrip.{reported}
use oncrpc4_win.Clnt.Auth.{AuthOps}
use oncrpc4_win.Clnt.Vc.{CtHandle, CtData, next_xid, set_status}
use oncrpc4_win.Clnt.Vc.Header.{header, xid_after}
use oncrpc4_win.Clnt.Vc.Replies.{Reply, reply_record, IsReplied, Carries, AreStale, HasMemory}
use oncrpc4_win.Clnt.Vc.Connection.{Connection, steady}
use oncrpc4_win.Clnt.Vc.Success.{Succeeded, results_on}
use oncrpc4_win.Clnt.Vc.Refusal.{IsRefusal, Failed, refusal_on}
use oncrpc4_win.Clnt.Vc.Sends.{Marshals}
use oncrpc4_win.Clnt.Vc.Calls.{IsClient, no_error, call_on}
use oncrpc4_win.Clnt.Vc.Call.{Returned, refreshed, Refused, one_call, give_up, call_again}

module _ {O A Args R : Type 0} (io : Handle (CtHandle O)) (conn : Connection io)
    (taken : (sent bs : List ℕ) → io.writeit sent bs ≡ true) (mem_alloc : ℕ → Option (List ℕ))
    (auth : AuthOps A (RecStream (CtHandle O))) (xdr_args : Filter (RecStream (CtHandle O)) Args)
    (xdr_results : Filter (RecStream (CtHandle O)) R) where
  -- A client that is ready to call, and a connection that brings replies to other calls, and then
  -- the reply `r` to this one.
  module _ (fuel proc : ℕ) (m : ReplyMsg Unit) (args : Args) (res : R) (a : A) (ct : CtData O)
      (xid prog vers : ℕ) (records : List (List ℕ)) (ws bs before more after later : List ℕ)
      (stale : List Reply) (r : Reply) (hc : IsClient ct xid prog vers)
      (h : Holds ct.xdrs.out records [])
      (held : Held (steady conn ct.xdrs.inp.conn.error) ct.xdrs.inp before more)
      (ha : Marshals io auth xdr_args
        (rec_laws io
          (steady conn (no_error ct))
          taken
          (set_status rpc_success ct.xdrs).inp
          ct.xdrs.out
          records
          [])
        a
        ws)
      (hb : Encodes
        (rec_laws io
          (steady conn (no_error ct))
          taken
          (set_status rpc_success ct.xdrs).inp
          ct.xdrs.out
          records
          [])
        xdr_args
        args
        bs)
      (hr : length stale < fuel) (hf : 5 * (length before + length more) + 4 < fuel)
      (memory : HasMemory mem_alloc) (hs : AreStale (xid_after xid) stale)
      (carries : Carries more (map reply_record stale) after) (own : IsReplied r)
      (ex : r.xid ≡ xid_after xid) (frags : Frags after (reply_record r) later) where
    -- The records that have been sent.
    abbrev pub sent : List (List ℕ)
    sent = records ++ (((header (xid_after xid) prog vers ++ be32 proc) ++ (ws ++ bs)) ∷ [])

    one_Succeeds :
        (refused : Refused io mem_alloc auth xdr_args xdr_results fuel proc true false res) (v : R)
        (a' : A) (flavor : ℕ) (verf w rest : List ℕ)
        → r.verdict ≡ accepted flavor verf (results tt)
        → r.rest ≡ w ++ rest
        → auth.validate a (allocated flavor verf) ≡ (true, a')
        → ((i : InStream (CtHandle O)) (o : OutStream)
            → Decodes
                (rec_laws io (steady conn (no_error ct)) taken i o [] later)
                xdr_results
                res
                v
                w)
        → Succeeded io conn taken mem_alloc auth xdr_args xdr_results
            (no_error ct)
            sent
            v
            a'
            rest
            later
            (one_call io mem_alloc auth xdr_args xdr_results fuel proc true false res refused m args
              a ct)
    one_Succeeds refused v a' flavor verf w rest ev er valid hd =
        call_on io conn taken mem_alloc auth xdr_args xdr_results
          (Succeeded io conn taken mem_alloc auth xdr_args xdr_results (no_error ct) sent v a' rest
            later)
          fuel proc res refused m args a ct xid prog vers records ws bs before more after later
          stale r hc h held ha hb hr hf memory hs carries own ex frags
          (λ o m' s h' said.
            results_on io conn taken mem_alloc auth xdr_args xdr_results
              (λ m a ct s. refused m args a ct s) (no_error ct) o sent res v a a'
              (record ct { mcallc = next_xid ct.mcallc }) r flavor verf w rest later m' s refl h'
              valid (hd s.inp o) ev er said)

    pub again_Succeeds :
        (refreshes : ℕ) (v : R) (a' : A) (flavor : ℕ) (verf w rest : List ℕ)
        → r.verdict ≡ accepted flavor verf (results tt)
        → r.rest ≡ w ++ rest
        → auth.validate a (allocated flavor verf) ≡ (true, a')
        → ((i : InStream (CtHandle O)) (o : OutStream)
            → Decodes
                (rec_laws io (steady conn (no_error ct)) taken i o [] later)
                xdr_results
                res
                v
                w)
        → Succeeded io conn taken mem_alloc auth xdr_args xdr_results
            (no_error ct)
            sent
            v
            a'
            rest
            later
            (call_again io mem_alloc auth xdr_args xdr_results fuel proc true false res refreshes m
              args a ct)
    unfolding call_again
    again_Succeeds zero v a' flavor verf w rest ev er valid hd =
        one_Succeeds (give_up io mem_alloc auth xdr_args xdr_results fuel proc true false res) v a'
          flavor verf w rest ev er valid hd
    again_Succeeds (suc n) v a' flavor verf w rest ev er valid hd =
        one_Succeeds
          (λ m args a ct s.
            refreshed io mem_alloc auth xdr_args xdr_results
              (call_again io mem_alloc auth xdr_args xdr_results fuel proc true false res n m args)
              ct res s (auth.refresh a))
          v a' flavor verf w rest ev er valid hd

    one_Failed :
        (again : ReplyMsg Unit
          → Args
          → A
          → CtData O
          → Returned io mem_alloc auth xdr_args xdr_results)
        (a' : A)
        → auth.refresh a ≡ (false, a')
        → IsRefusal r.verdict
        → Failed io conn taken mem_alloc auth xdr_args xdr_results
            (reported r.verdict (no_error ct))
            sent
            res
            a'
            (one_call io mem_alloc auth xdr_args xdr_results fuel proc true false res
              (λ m args a ct s.
                refreshed io mem_alloc auth xdr_args xdr_results
                  (again m args)
                  ct
                  res
                  s
                  (auth.refresh a))
              m
              args
              a
              ct)
    one_Failed again a' stays refusal =
        call_on io conn taken mem_alloc auth xdr_args xdr_results
          (Failed io conn taken mem_alloc auth xdr_args xdr_results
            (reported r.verdict (no_error ct)) sent res a')
          fuel proc res
          (λ m args a ct s.
            refreshed io mem_alloc auth xdr_args xdr_results (again m args) ct res s
              (auth.refresh a))
          m args a ct xid prog vers records ws bs before more after later stale r hc h held ha hb hr
          hf memory hs carries own ex frags
          (λ o m' s h' said.
            refusal_on io conn taken mem_alloc auth xdr_args xdr_results (λ m. again m args)
              (no_error ct) o sent res a a' (record ct { mcallc = next_xid ct.mcallc }) r later m' s
              h' stays own refusal said)

    pub again_Failed :
        (refreshes : ℕ) (a' : A)
        → auth.refresh a ≡ (false, a')
        → IsRefusal r.verdict
        → Failed io conn taken mem_alloc auth xdr_args xdr_results
            (reported r.verdict (no_error ct))
            sent
            res
            a'
            (call_again io mem_alloc auth xdr_args xdr_results fuel proc true false res
              (suc refreshes)
              m
              args
              a
              ct)
    unfolding call_again
    again_Failed n a' stays refusal =
        one_Failed
          (λ m args.
            call_again io mem_alloc auth xdr_args xdr_results fuel proc true false res n m args)
          a' stays refusal
