-- ===== src/Clnt/Vc/Refusal.antt =====
-- A reply without results: the call fails as the reply says.
use mathlib.Core.Path.{subst}
use oncrpc4_win.Common.{
  ℕ, ◌≡◌, refl, sym, ap, ◌∙◌, Bool, true, false, Option, none, some, List, [], if_false, arith,
}
use oncrpc4_win.Xdr.Stream.{Filter}
use oncrpc4_win.Xdr.Rec.{OutStream}
use oncrpc4_win.Xdr.RecStream.Written.{IsSent}
use oncrpc4_win.Xdr.RecStream.{Handle, RecStream}
use oncrpc4_win.Xdr.RecStream.Laws.{rec_laws}
use oncrpc4_win.Rpc.Msg.{ReplyMsg}
use oncrpc4_win.Rpc.Reply.Accepted.{results, versions, status}
use oncrpc4_win.Rpc.Reply.Denied.{mismatch, bad_auth}
use oncrpc4_win.Rpc.Reply.Layout.{void_codec, IsReply-IsVerdict}
use oncrpc4_win.Rpc.RoundTrip.{reported, reported_status, arrived-reported}
use oncrpc4_win.Rpc.Reply.Message.{Verdict, accepted, denied, arrived, fresh, reply_of}
use oncrpc4_win.Rpc.Reply.Errors.{RpcErr, seterr_reply}
use oncrpc4_win.Clnt.Auth.{AuthOps}
use oncrpc4_win.Clnt.Vc.{CtHandle, CtData, is_success, re_status, set_error, accept_reply}
use oncrpc4_win.Clnt.Vc.Replies.{Reply, IsReplied}
use oncrpc4_win.Clnt.Vc.Await.{Said}
use oncrpc4_win.Clnt.Vc.Connection.{Connection, steady, error_of}
use oncrpc4_win.Clnt.Vc.Call.{Returned, return_status, refreshed, process_header}

-- Every verdict but one that brings results.
abbrev pub IsRefusal : Verdict Unit → Type 0
IsRefusal (accepted flavor verf (results v)) = ⊥
IsRefusal (accepted flavor verf (versions lo hi)) = Unit
IsRefusal (accepted flavor verf (status k)) = Unit
IsRefusal (denied d) = Unit

status_fails : (k : ℕ) (err : RpcErr) → is_success (reported_status k err).status ≡ false
status_fails k err = ground arith

reported_fails :
    (v : Verdict Unit) (err : RpcErr) → IsRefusal v → is_success (reported v err).status ≡ false
reported_fails (accepted flavor verf (results v)) err nr = absurd nr
reported_fails (accepted flavor verf (versions lo hi)) err nr = refl
reported_fails (accepted flavor verf (status k)) err nr = status_fails k err
reported_fails (denied (mismatch lo hi)) err nr = refl
reported_fails (denied (bad_auth why)) err nr = refl

module _ {O A Args R : Type 0} (io : Handle (CtHandle O)) (conn : Connection io)
    (taken : (sent bs : List ℕ) → io.writeit sent bs ≡ true) (mem_alloc : ℕ → Option (List ℕ))
    (auth : AuthOps A (RecStream (CtHandle O))) (xdr_args : Filter (RecStream (CtHandle O)) Args)
    (xdr_results : Filter (RecStream (CtHandle O)) R) where
  -- The call has not succeeded: the status and its details are those of the verdict, and the object
  -- for the results is as it was.
  abbrev pub Failed :
      RpcErr → List (List ℕ) → R → A → Returned io mem_alloc auth xdr_args xdr_results → Type 0
  Failed err records res a none = ⊥
  Failed err records res a (some (stat, res', a', ct)) =
      (stat ≡ err.status)
      × (ct.xdrs.inp.conn.error ≡ err)
      × (res' ≡ res)
      × (a' ≡ a)
      × IsSent ct.xdrs.out records

  refreshed-Failed :
      (again : A → CtData O → Returned io mem_alloc auth xdr_args xdr_results) (err : RpcErr)
      (records : List (List ℕ)) (res : R) (a' : A) (ct : CtData O) (s : RecStream (CtHandle O))
      → s.inp.conn.error ≡ err
      → IsSent s.out records
      → (w : Bool × A) → w ≡ (false, a')
      → Failed err records res a'
          (refreshed io mem_alloc auth xdr_args xdr_results again ct res s w)
  refreshed-Failed again err records res a' ct s ee h (false, a1) e =
      (ap (λ (e : RpcErr). e.status) ee, ee, refl, ap (λ (p : Bool × A). p.1) e, h)
  refreshed-Failed again err records res a' ct s ee h (true, a1) e = cc

  -- The header of a reply that refuses, where the credentials cannot be refreshed.
  pub refusal_on :
      (again : ReplyMsg Unit → A → CtData O → Returned io mem_alloc auth xdr_args xdr_results)
      (err : RpcErr) (o : OutStream) (records : List (List ℕ)) (res : R) (a a' : A) (ct : CtData O)
      (r : Reply) (later : List ℕ) (m : ReplyMsg Unit) (s : RecStream (CtHandle O))
      → IsSent o records
      → auth.refresh a ≡ (false, a')
      → IsReplied r
      → IsRefusal r.verdict
      → Said io (steady conn err) taken mem_alloc o later r m s
      → Failed (reported r.verdict err) records res a' (
          process_header io mem_alloc auth xdr_args xdr_results
            (λ m a ct s.
              refreshed io mem_alloc auth xdr_args xdr_results (again m) ct res s (auth.refresh a))
            ct
            res
            a
            (some (true, m, s)))
  refusal_on again err o records res a a' ct r later m s h hf hr nr ((u, em), (ed, held, eo)) =
      let laws = rec_laws io (steady conn err) taken s.inp o [] later in
      let t = set_error (seterr_reply m) s in
      let ee : t.inp.conn.error ≡ reported r.verdict err =
        ap (λ m. seterr_reply m s.inp.conn.error) em
        ∙ ap (seterr_reply (reply_of r.xid r.verdict (arrived (fresh r.verdict) u r.verdict)))
            (error_of conn err s.inp r.rest later held)
        ∙ arrived-reported laws mem_alloc (void_codec laws) r.xid r.verdict (fresh r.verdict) u err
            (unfold void_codec in
              IsReply-IsVerdict laws mem_alloc (void_codec laws) r.verdict hr.verdict_fits) in
      if_false (Failed (reported r.verdict err) records res a') (is_success (re_status t))
        (return_status io mem_alloc auth xdr_args xdr_results ct
          (accept_reply io mem_alloc auth xdr_results m res a t))
        (refreshed io mem_alloc auth xdr_args xdr_results (again m) ct res t (auth.refresh a))
        (ap (λ (e : RpcErr). is_success e.status) ee ∙ reported_fails r.verdict err nr)
        (refreshed-Failed (again m) (reported r.verdict err) records res a' ct t ee
          (subst (λ w. IsSent w records) (sym eo) h) (auth.refresh a) hf)
