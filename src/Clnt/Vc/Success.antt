-- ===== src/Clnt/Vc/Success.antt =====
-- A reply with results: the call succeeds.
use mathlib.Core.Path.{subst}
use oncrpc4_win.Common.{ℕ, ◌≡◌, sym, ap, ◌∙◌, true, Option, none, some, List, [], ◌++◌}
use oncrpc4_win.Xdr.Stream.{Filter}
use oncrpc4_win.Xdr.Codec.{Decodes}
use oncrpc4_win.Xdr.Rec.{OutStream}
use oncrpc4_win.Xdr.RecStream.Written.{IsSent}
use oncrpc4_win.Xdr.RecIn.Fragments.{Held}
use oncrpc4_win.Xdr.RecStream.{Handle, RecStream}
use oncrpc4_win.Xdr.RecStream.Laws.{rec_laws}
use oncrpc4_win.Rpc.Msg.{ReplyMsg}
use oncrpc4_win.Rpc.Auth.Laws.{allocated}
use oncrpc4_win.Rpc.Reply.Accepted.{results}
use oncrpc4_win.Rpc.Reply.Message.{Verdict, accepted, arrived, fresh, reply_of}
use oncrpc4_win.Rpc.Reply.Errors.{RpcErr, rpc_success, seterr_reply}
use oncrpc4_win.Clnt.Auth.{AuthOps}
use oncrpc4_win.Clnt.Vc.{CtHandle, CtData, set_error, accept_reply}
use oncrpc4_win.Clnt.Vc.Replies.{Reply}
use oncrpc4_win.Clnt.Vc.Await.{Said}
use oncrpc4_win.Clnt.Vc.Connection.{Connection, steady, with_error, with_error-Held, error_of}
use oncrpc4_win.Clnt.Vc.Answers.{Accepted, accept_reply-Accepted}
use oncrpc4_win.Clnt.Vc.Call.{Returned, return_status, process_header}

module _ {O A Args R : Type 0} (io : Handle (CtHandle O)) (conn : Connection io)
    (taken : (sent bs : List ℕ) → io.writeit sent bs ≡ true) (mem_alloc : ℕ → Option (List ℕ))
    (auth : AuthOps A (RecStream (CtHandle O))) (xdr_args : Filter (RecStream (CtHandle O)) Args)
    (xdr_results : Filter (RecStream (CtHandle O)) R) where
  -- The call has succeeded with the results `v`; these records have been given to the transport, and what follows the
  -- results in the reply, and the records behind it, are still to be read.
  abbrev pub Succeeded :
      RpcErr
      → List (List ℕ)
      → R
      → A
      → List ℕ
      → List ℕ
      → Returned io mem_alloc auth xdr_args xdr_results
      → Type 0
  Succeeded err records v a rest later none = ⊥
  Succeeded err records v a rest later (some (stat, res, a', ct)) =
      (stat ≡ rpc_success)
      × (res ≡ v)
      × (a' ≡ a)
      × IsSent ct.xdrs.out records
      × Held (steady conn err) ct.xdrs.inp rest later

  returned_Succeeded :
      (err : RpcErr) (o : OutStream) (records : List (List ℕ)) (v : R) (a : A) (rest later : List ℕ)
      (ct : CtData O)
      → err.status ≡ rpc_success
      → IsSent o records
      → (r : R × A × RecStream (CtHandle O))
      → Accepted io conn taken mem_alloc auth xdr_results err o later v a rest r
      → Succeeded err records v a rest later
          (return_status io mem_alloc auth xdr_args xdr_results ct r)
  returned_Succeeded err o records v a rest later ct es h (res, a', s) (e, ea, held, eo) = (
    ap (λ (e : RpcErr). e.status) (error_of conn err s.inp rest later held) ∙ es,
    e,
    ea,
    subst (λ w. IsSent w records) (sym eo) h,
    held,
  )

  -- The header of a reply that brings results.
  pub results_on :
      (refused : ReplyMsg Unit
        → A
        → CtData O
        → RecStream (CtHandle O)
        → Returned io mem_alloc auth xdr_args xdr_results)
      (err : RpcErr) (o : OutStream) (records : List (List ℕ)) (res v : R) (a a' : A)
      (ct : CtData O) (r : Reply) (flavor : ℕ) (verf w rest later : List ℕ) (m : ReplyMsg Unit)
      (s : RecStream (CtHandle O))
      → err ≡ record err { status = rpc_success }
      → IsSent o records
      → auth.validate a (allocated flavor verf) ≡ (true, a')
      → Decodes (rec_laws io (steady conn err) taken s.inp o [] later) xdr_results res v w
      → r.verdict ≡ accepted flavor verf (results tt)
      → r.rest ≡ w ++ rest
      → Said io (steady conn err) taken mem_alloc o later r m s
      → Succeeded err records v a' rest later (
          process_header io mem_alloc auth xdr_args xdr_results refused ct res a
            (some (true, m, s)))
  unfolding seterr_reply
  results_on refused err o records res v a a' ct r flavor verf w rest later m s es h hv hd ev er
        ((u, em), (ed, held_r, eo)) =
      let v0 : Verdict Unit = accepted flavor verf (results tt) in
      let m0 : ReplyMsg Unit = reply_of r.xid v0 (arrived (fresh v0) u v0) in
      let held : Held (steady conn err) s.inp (w ++ rest) later =
        subst (λ b. Held (steady conn err) s.inp b later) er held_r in
      let t = set_error (seterr_reply m0) s in
      let same : t.inp.conn.error ≡ err =
        ap (λ (e : RpcErr). record e { status = rpc_success })
          (error_of conn err s.inp (w ++ rest) later held)
        ∙ sym es in
      subst
        (λ m. Succeeded err records v a' rest later (
          process_header io mem_alloc auth xdr_args xdr_results refused ct res a
            (some (true, m, s))))
        (sym (em ∙ ap (λ q. reply_of r.xid q (arrived (fresh q) u q)) ev))
        (returned_Succeeded err o records v a' rest later ct (ap (λ (e : RpcErr). e.status) es) h
          (accept_reply io mem_alloc auth xdr_results m0 res a t)
          (accept_reply-Accepted io conn taken mem_alloc auth xdr_results err o s.inp later w rest
            res v a a' m0 t hv hd
            (
              ed,
              subst (λ e. Held (steady conn err) (with_error conn e s.inp) (w ++ rest) later)
                  (sym same) (with_error-Held conn err err s.inp (w ++ rest) later held),
              eo,
            )))
