-- ===== src/Clnt/Vc/Calls.antt =====
-- `clnt_vc_call`, from the call that it sends to the reply that it returns.
use mathlib.Core.Path.{subst}
use oncrpc4_win.Common.{
  ℕ, ◌+◌, ◌*◌, ◌<◌, ◌≡◌, refl, sym, ap, ◌∙◌, true, false, Option, none, some, List, [], ◌∷◌, ◌++◌,
  length, map, take, take-append_length,
}
use oncrpc4_win.Common.Words.{be32, word_of, word_be32, IsU32}
use oncrpc4_win.Xdr.Stream.{Filter}
use oncrpc4_win.Xdr.Codec.{Encodes}
use oncrpc4_win.Xdr.Rec.{OutStream}
use oncrpc4_win.Xdr.Rec.Output.{Holds}
use oncrpc4_win.Xdr.RecIn.Fragments.{Frags, Held}
use oncrpc4_win.Xdr.RecStream.{Handle, RecStream}
use oncrpc4_win.Xdr.RecStream.Laws.{rec_laws}
use oncrpc4_win.Xdr.RecStream.Written.{IsSent}
use oncrpc4_win.Rpc.Msg.{ReplyMsg}
use oncrpc4_win.Rpc.Reply.Errors.{RpcErr, rpc_success}
use oncrpc4_win.Clnt.Auth.{AuthOps}
use oncrpc4_win.Clnt.Vc.{CtHandle, CtData, next_xid, set_status, Awaited, await_reply}
use oncrpc4_win.Clnt.Vc.Header.{header, xid_after, next_xid-append, xid_after-IsU32}
use oncrpc4_win.Clnt.Vc.Replies.{Reply, reply_record, IsReplied, Carries, AreStale, HasMemory}
use oncrpc4_win.Clnt.Vc.Await.{Said, Came, await_reply-Came}
use oncrpc4_win.Clnt.Vc.Connection.{Connection, steady, with_error-Held}
use oncrpc4_win.Clnt.Vc.Sends.{Marshals, one_call-on}
use oncrpc4_win.Clnt.Vc.Call.{Returned, process_header, Refused, one_call}

-- What `clnt_vc_create` has put at `ct_mcallc`, or a call after it: the bytes of the header, and its
-- position.
pub record IsClient {O : Type 0} (ct : CtData O) (xid prog vers : ℕ) : Type 0 where
  pub behind : List ℕ
  pub marshalled : ct.mcallc ≡ header xid prog vers ++ behind
  pub position : ct.mpos ≡ 20

-- The error of a connection when a call begins.
abbrev pub no_error : {O : Type 0} → CtData O → RpcErr
no_error ct = record ct.xdrs.inp.conn.error { status = rpc_success }

length-header : (xid prog vers : ℕ) → length (header xid prog vers) ≡ 20
unfolding header be32
length-header xid prog vers = refl

next_of :
    (xid prog vers : ℕ) (behind : List ℕ)
    → next_xid (header xid prog vers ++ behind) ≡ header (xid_after xid) prog vers ++ behind
unfolding header be32
next_of xid prog vers behind =
    next_xid-append xid (be32 0 ++ (be32 2 ++ (be32 prog ++ (be32 vers ++ behind))))

front_of :
    (xid prog vers : ℕ) (behind : List ℕ)
    → IsU32 xid
    → word_of (header xid prog vers ++ behind) ≡ xid
unfolding header be32 word_of
front_of xid prog vers behind h = word_be32 xid h

next_header :
    {O : Type 0} (ct : CtData O) (xid prog vers : ℕ)
    → IsClient ct xid prog vers
    → (take ct.mpos (next_xid ct.mcallc) ≡ header (xid_after xid) prog vers)
      × (word_of (next_xid ct.mcallc) ≡ xid_after xid)
next_header ct xid prog vers h =
    let e : next_xid ct.mcallc ≡ header (xid_after xid) prog vers ++ h.behind =
      ap next_xid h.marshalled ∙ next_of xid prog vers h.behind in
    (
      ap (λ n. take n (next_xid ct.mcallc)) h.position
          ∙ ap (take 20) e
          ∙ take-append_length (header (xid_after xid) prog vers) h.behind 20
              (sym (length-header (xid_after xid) prog vers)),
      ap word_of e ∙ front_of (xid_after xid) prog vers h.behind (xid_after-IsU32 xid),
    )

module _ {O A Args R : Type 0} (io : Handle (CtHandle O)) (conn : Connection io)
    (taken : (sent bs : List ℕ) → io.writeit sent bs ≡ true) (mem_alloc : ℕ → Option (List ℕ))
    (auth : AuthOps A (RecStream (CtHandle O))) (xdr_args : Filter (RecStream (CtHandle O)) Args)
    (xdr_results : Filter (RecStream (CtHandle O)) R) where
  came_on :
      (P : Returned io mem_alloc auth xdr_args xdr_results → Type 0)
      (refused : ReplyMsg Unit
        → A
        → CtData O
        → RecStream (CtHandle O)
        → Returned io mem_alloc auth xdr_args xdr_results)
      (err : RpcErr) (o : OutStream) (later : List ℕ) (r : Reply) (ct : CtData O) (res : R) (a : A)
      → ((m : ReplyMsg Unit) (s : RecStream (CtHandle O))
          → Said io (steady conn err) taken mem_alloc o later r m s
          → P (
              process_header io mem_alloc auth xdr_args xdr_results refused ct res a
                (some (true, m, s))))
      → (w : Awaited io mem_alloc) → Came io (steady conn err) taken mem_alloc o later r w
      → P (process_header io mem_alloc auth xdr_args xdr_results refused ct res a w)
  came_on P refused err o later r ct res a next none g = absurd g
  came_on P refused err o later r ct res a next (some (false, m, s)) (ok, g) =
      absurd (let f : false ≡ true = ok in cc)
  came_on P refused err o later r ct res a next (some (true, m, s)) (ok, said) = next m s said

  -- A call is sent and its reply awaited; what is left is to process the header of that reply.
  pub call_on :
      (P : Returned io mem_alloc auth xdr_args xdr_results → Type 0) (fuel proc : ℕ) (res : R)
      (refused : Refused io mem_alloc auth xdr_args xdr_results fuel proc true false res)
      (m : ReplyMsg Unit) (args : Args) (a : A) (ct : CtData O) (xid prog vers : ℕ)
      (records : List (List ℕ)) (ws bs before more after later : List ℕ) (stale : List Reply)
      (r : Reply)
      → IsClient ct xid prog vers
      → Holds ct.xdrs.out records []
      → Held (steady conn ct.xdrs.inp.conn.error) ct.xdrs.inp before more
      → Marshals io auth xdr_args
          (rec_laws io
            (steady conn (no_error ct))
            taken
            (set_status rpc_success ct.xdrs).inp
            ct.xdrs.out
            records
            [])
          a
          ws
      → Encodes
          (rec_laws io
            (steady conn (no_error ct))
            taken
            (set_status rpc_success ct.xdrs).inp
            ct.xdrs.out
            records
            [])
          xdr_args
          args
          bs
      → length stale < fuel
      → 5 * (length before + length more) + 4 < fuel
      → HasMemory mem_alloc
      → AreStale (xid_after xid) stale
      → Carries more (map reply_record stale) after
      → IsReplied r
      → r.xid ≡ xid_after xid
      → Frags after (reply_record r) later
      → ((o : OutStream) (m : ReplyMsg Unit) (s : RecStream (CtHandle O))
          → IsSent o
              (records ++ (((header (xid_after xid) prog vers ++ be32 proc) ++ (ws ++ bs)) ∷ []))
          → Said io (steady conn (no_error ct)) taken mem_alloc o later r m s
          → P (
              process_header io mem_alloc auth xdr_args xdr_results
                (λ m a ct s. refused m args a ct s)
                (record ct { mcallc = next_xid ct.mcallc })
                res
                a
                (some (true, m, s))))
      → P (
          one_call io mem_alloc auth xdr_args xdr_results fuel proc true false res refused m args a
            ct)
  call_on P fuel proc res refused m args a ct xid prog vers records ws bs before more after later
        stale r hc h held ha hb hr hf memory hs carries own er frags next =
      let (eh, ex) = next_header ct xid prog vers hc in
      let err : RpcErr = no_error ct in
      let ct1 : CtData O = record ct { mcallc = next_xid ct.mcallc } in
      one_call-on io (steady conn err) taken mem_alloc auth xdr_args xdr_results fuel proc res P
        refused m args a ct records (header (xid_after xid) prog vers) ws bs eh h ha hb
        (λ s ed ei h'.
          came_on P (λ m a ct s. refused m args a ct s) err s.out later r ct1 res a
            (λ m' s' said. next s.out m' s' h' said)
            (await_reply io mem_alloc fuel fuel (word_of ct1.mcallc) m s)
            (subst
              (λ x.
                Came io (steady conn err) taken mem_alloc s.out later r
                  (await_reply io mem_alloc fuel fuel x m s))
              (er ∙ sym ex)
              (await_reply-Came io (steady conn err) taken mem_alloc stale fuel fuel r m s.out
                before more after later s
                (
                  ed,
                  subst (λ i. Held (steady conn err) i before more) (sym ei)
                      (with_error-Held conn ct.xdrs.inp.conn.error err ct.xdrs.inp before more
                        held),
                  refl,
                )
                hr hf memory (subst (λ x. AreStale x stale) (sym er) hs) carries own frags)))
