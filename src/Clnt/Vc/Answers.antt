-- ===== src/Clnt/Vc/Answers.antt =====
-- A call over a connection: what the server's reply makes of it.
use oncrpc4_win.Common.{
  ℕ, ◌≡◌, refl, sym, ap, Bool, true, false, Option, List, [], ◌++◌, ltb, if◌then◌else◌, if_true,
  if_false, Bool-cases, inl, inr,
}
use mathlib.Core.Path.{subst}
use oncrpc4_win.Xdr.Stream.{free, decode, XdrOps, Filter, on_field, ◌&&&◌}
use oncrpc4_win.Xdr.Codec.{Decoded, Decodes}
use oncrpc4_win.Xdr.Scalar.{xdr_enum, xdr_u_int}
use oncrpc4_win.Xdr.Opaque.{xdr_bytes}
use oncrpc4_win.Xdr.Rec.{OutStream}
use oncrpc4_win.Xdr.RecIn.{InStream}
use oncrpc4_win.Xdr.RecIn.Fragments.{Held}
use oncrpc4_win.Xdr.RecStream.{Handle, RecStream, rec_ops}
use oncrpc4_win.Xdr.RecStream.Laws.{Reading, rec_laws}
use oncrpc4_win.Rpc.Msg.{OpaqueAuth, max_auth_bytes, ReplyMsg}
use oncrpc4_win.Rpc.Auth.{xdr_opaque_auth}
use oncrpc4_win.Rpc.Reply.Errors.{RpcErr, rpc_cantdecoderes}
use oncrpc4_win.Clnt.Auth.{AuthOps}
use oncrpc4_win.Clnt.Vc.{
  CtHandle, set_op, unless_failed, is_null, get_results, free_verf, accept_reply,
}
use oncrpc4_win.Clnt.Vc.Connection.{Connection, steady}

-- XDR_FREE of an authenticator leaves the stream alone.
freed :
    {S : Type 0} (x : XdrOps S) (mem_alloc : ℕ → Option (List ℕ)) (a : OpaqueAuth) (s : S)
    → (xdr_opaque_auth x mem_alloc free a s).2 ≡ s
unfolding xdr_opaque_auth xdr_enum xdr_bytes xdr_u_int on_field ◌&&&◌
freed x mem_alloc a s = elim (Bool-cases (ltb max_auth_bytes a.body.len)) [
  | inl e ↦ rw e refl
  | inr e ↦ rw e refl
]

module _ {O A R : Type 0} (io : Handle (CtHandle O)) (conn : Connection io)
    (taken : (sent bs : List ℕ) → io.writeit sent bs ≡ true) (mem_alloc : ℕ → Option (List ℕ))
    (auth : AuthOps A (RecStream (CtHandle O)))
    (xdr_results : Filter (RecStream (CtHandle O)) R) where
  -- The results are `v`, the call has not failed, and the stream is before `rest`.
  abbrev pub Accepted :
      RpcErr → OutStream → List ℕ → R → A → List ℕ → R × A × RecStream (CtHandle O) → Type 0
  Accepted err o later v a rest (res, a', s) =
      (res ≡ v) × (a' ≡ a) × Held (steady conn err) s.inp rest later × (s.out ≡ o)

  Decoded-Accepted :
      (err : RpcErr) (o : OutStream) (i : InStream (CtHandle O)) (later : List ℕ) (v : R) (a : A)
      (rest : List ℕ) (r : Bool × R × RecStream (CtHandle O))
      → Decoded (rec_laws io (steady conn err) taken i o [] later) v rest r
      → Accepted err o later v a rest
          (let (b, res, s) = r in (res, a, if b then s else unless_failed rpc_cantdecoderes s))
  unfolding rec_laws
  Decoded-Accepted err o i later v a rest (false, res, s) (ok, e, left) = cc
  Decoded-Accepted err o i later v a rest (true, res, s) (ok, e, (ed, held, eo)) =
      (e, refl, held, eo)

  -- The verifier is accepted, and the results are decoded.
  results_Accepted :
      (err : RpcErr) (o : OutStream) (i : InStream (CtHandle O)) (later w rest : List ℕ) (res v : R)
      (a a' : A) (s : RecStream (CtHandle O)) (validated : Bool × A)
      → validated ≡ (true, a')
      → Decodes (rec_laws io (steady conn err) taken i o [] later) xdr_results res v w
      → Reading io (steady conn err) taken o later s (w ++ rest)
      → Accepted err o later v a' rest (get_results io mem_alloc auth xdr_results res s validated)
  unfolding rec_laws
  results_Accepted err o i later w rest res v a a' s (false, a1) e h reading = cc
  results_Accepted err o i later w rest res v a a' s (true, a1) e h (ed, held, eo) =
      let same : a1 ≡ a' = ap (λ (p : Bool × A). p.1) e in
      subst
        (λ op. Accepted err o later v a' rest (
          let (b, res', s') = xdr_results op res s in
          (res', a1, if b then s' else unless_failed rpc_cantdecoderes s')))
        (sym ed)
        (subst
          (λ y. Accepted err o later v a' rest (
            let (b, res', s') = xdr_results decode res s in
            (res', y, if b then s' else unless_failed rpc_cantdecoderes s')))
          (sym same)
          (Decoded-Accepted err o i later v a' rest (xdr_results decode res s)
            (h s rest (ed, held, eo))))

  verf_Accepted :
      (err : RpcErr) (o : OutStream) (later : List ℕ) (v : R) (a : A) (rest : List ℕ)
      (verf : OpaqueAuth) (r : R × A × RecStream (CtHandle O))
      → Accepted err o later v a rest r
      → Accepted err o later v a rest (free_verf io mem_alloc auth xdr_results verf r)
  verf_Accepted err o later v a rest verf (res, a', s) (e, ea, held, eo) =
      let t = set_op free s in
      elim (Bool-cases (is_null verf.body.base)) [
        | inl z ↦
            if_true (Accepted err o later v a rest) (is_null verf.body.base) (res, a', s)
              (res, a', (xdr_opaque_auth (rec_ops io) mem_alloc free verf t).2) z (e, ea, held, eo)
        | inr z ↦
            if_false (Accepted err o later v a rest) (is_null verf.body.base) (res, a', s)
              (res, a', (xdr_opaque_auth (rec_ops io) mem_alloc free verf t).2) z
              (subst (λ w. Accepted err o later v a rest (res, a', w))
                (sym (freed (rec_ops io) mem_alloc verf t)) (e, ea, held, eo))
      ]

  pub accept_reply-Accepted :
      (err : RpcErr) (o : OutStream) (i : InStream (CtHandle O)) (later w rest : List ℕ) (res v : R)
      (a a' : A) (m : ReplyMsg Unit) (s : RecStream (CtHandle O))
      → auth.validate a m.ru.acpt.verf ≡ (true, a')
      → Decodes (rec_laws io (steady conn err) taken i o [] later) xdr_results res v w
      → Reading io (steady conn err) taken o later s (w ++ rest)
      → Accepted err o later v a' rest (accept_reply io mem_alloc auth xdr_results m res a s)
  unfolding accept_reply
  accept_reply-Accepted err o i later w rest res v a a' m s e h reading =
      verf_Accepted err o later v a' rest m.ru.acpt.verf
        (get_results io mem_alloc auth xdr_results res s (auth.validate a m.ru.acpt.verf))
        (results_Accepted err o i later w rest res v a a' s (auth.validate a m.ru.acpt.verf) e h
          reading)
