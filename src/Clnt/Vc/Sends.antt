-- ===== src/Clnt/Vc/Sends.antt =====
-- The client sends its call as a record.
use oncrpc4_win.Common.{
  ℕ, ◌+◌, ◌≡◌, refl, sym, ◌∙◌, Bool, true, false, Option, List, [], ◌∷◌, ◌++◌, length, take, arith,
  length-append,
}
use mathlib.Core.Path.{subst}
use oncrpc4_win.Common.Words.{be32, word_of}
use oncrpc4_win.Xdr.Stream.{encode, decode, XdrLaws, Filter, Wrote, and_put}
use oncrpc4_win.Xdr.Codec.{Encoded, Encodes, and_put-Wrote}
use oncrpc4_win.Xdr.Rec.Output.{Holds}
use oncrpc4_win.Xdr.RecIn.{InStream}
use oncrpc4_win.Xdr.RecIn.Input.{Transport}
use oncrpc4_win.Xdr.RecStream.{Handle, RecStream, rec_ops, end_record}
use oncrpc4_win.Xdr.RecStream.Laws.{rec_laws}
use oncrpc4_win.Xdr.RecStream.Written.{IsSent, Holds-IsSent, Encoded-Holds, end_record-Holds}
use oncrpc4_win.Rpc.Msg.{ReplyMsg}
use oncrpc4_win.Rpc.Reply.Errors.{rpc_success}
use oncrpc4_win.Clnt.Auth.{AuthOps}
use oncrpc4_win.Clnt.Vc.{
  CtHandle, CtData, next_xid, set_status, set_op, with_args, with_auth, put_call, await_reply,
}
use oncrpc4_win.Clnt.Vc.Call.{Returned, process_header, Refused, after_send, after_put, one_call}

module _ {O A Args : Type 0} (io : Handle (CtHandle O)) (auth : AuthOps A (RecStream (CtHandle O)))
    (xdr_args : Filter (RecStream (CtHandle O)) Args) (laws : XdrLaws (rec_ops io)) where
  -- What was put, and that the objects are as they were.
  abbrev pub Put :
      Args
      → A
      → List ℕ
      → RecStream (CtHandle O)
      → ℕ
      → Bool × Args × A × RecStream (CtHandle O)
      → Type 0
  Put args a bs s n (r, args', a', s') =
      (r ≡ true)
      × (args' ≡ args)
      × (a' ≡ a)
      × (laws.output s' ≡ laws.append (laws.output s) bs)
      × laws.Room s' n

  -- The authenticator marshals these bytes, wherever they fit.
  abbrev pub Marshals : A → List ℕ → Type 0
  Marshals a w =
      (s : RecStream (CtHandle O)) (n : ℕ)
      → laws.Room s (length w + n)
      → Encoded laws a w s n (auth.marshal a s)

  with_args-Put :
      (args : Args) (a : A) (ws bs : List ℕ) (s : RecStream (CtHandle O)) (n : ℕ)
      → Encodes laws xdr_args args bs
      → (r : Bool × A × RecStream (CtHandle O)) → Encoded laws a ws s (length bs + n) r
      → Put args a (ws ++ bs) s n (with_args io auth xdr_args args r)
  with_args-Put args a ws bs s n h (false, a', s') (ok, e, out, room) = cc
  with_args-Put args a ws bs s n h (true, a', s') (ok, e, out, room) =
      let (ok', e', out', room') = h s' n room in
      (ok', e', e, out' ∙ rw out (laws.append-append (laws.output s) ws bs), room')

  with_auth-Put :
      (args : Args) (a : A) (hs ws bs : List ℕ) (s : RecStream (CtHandle O)) (n : ℕ)
      → Marshals a ws
      → Encodes laws xdr_args args bs
      → (r : Bool × RecStream (CtHandle O))
      → Wrote laws.Room laws.append laws.output s hs (length (ws ++ bs) + n) r
      → Put args a (hs ++ (ws ++ bs)) s n (with_auth io auth xdr_args a args r)
  with_auth-Put args a hs ws bs s n ha h (false, s') (ok, out, room) = cc
  with_auth-Put args a hs ws bs s n ha h (true, s') (ok, out, room) =
      let (ok', e', ea, out', room') =
        with_args-Put args a ws bs s' n h (auth.marshal a s') (
          ha s' (length bs + n) (subst (laws.Room s') (omega (arith, length-append ws bs)) room)) in
      (ok', e', ea, out' ∙ rw out (laws.append-append (laws.output s) hs (ws ++ bs)), room')

  pub put_call-Put :
      (header : List ℕ) (proc : ℕ) (args : Args) (a : A) (ws bs : List ℕ)
      (s : RecStream (CtHandle O)) (n : ℕ)
      → Marshals a ws
      → Encodes laws xdr_args args bs
      → laws.Room s (length (header ++ be32 proc) + (length (ws ++ bs) + n))
      → Put args a
          ((header ++ be32 proc) ++ (ws ++ bs))
          s
          n
          (put_call io auth xdr_args header proc a args s)
  unfolding be32
  put_call-Put header proc args a ws bs s n ha h room =
      let tail : ℕ = length (ws ++ bs) + n in
      with_auth-Put args a (header ++ be32 proc) ws bs s n ha h
        (and_put ((rec_ops io).putbytes s header) (λ t. (rec_ops io).putlong t proc))
        (and_put-Wrote laws s header (be32 proc) tail ((rec_ops io).putbytes s header)
          (λ t. (rec_ops io).putlong t proc)
          (laws.putbytes_lem s header (4 + tail)
            (subst (laws.Room s) (omega (arith, length-append header (be32 proc))) room))
          (λ s' room'. laws.putlong_lem s' proc tail room'))

module _ {O A Args R : Type 0} (io : Handle (CtHandle O)) (t : Transport io.readit)
    (taken : (sent bs : List ℕ) → io.writeit sent bs ≡ true) (mem_alloc : ℕ → Option (List ℕ))
    (auth : AuthOps A (RecStream (CtHandle O))) (xdr_args : Filter (RecStream (CtHandle O)) Args)
    (xdr_results : Filter (RecStream (CtHandle O)) R) (fuel proc : ℕ) (res : R) where
  -- What the loop is entered with.
  abbrev pub enter :
      Refused io mem_alloc auth xdr_args xdr_results fuel proc true false res
      → ReplyMsg Unit
      → Args
      → A
      → CtData O
      → RecStream (CtHandle O)
      → Returned io mem_alloc auth xdr_args xdr_results
  enter refused m args a ct s =
      process_header io mem_alloc auth xdr_args xdr_results (λ m a ct s. refused m args a ct s) ct
        res a (await_reply io mem_alloc fuel fuel (word_of ct.mcallc) m s)

  module _ (P : Returned io mem_alloc auth xdr_args xdr_results → Type 0)
      (refused : Refused io mem_alloc auth xdr_args xdr_results fuel proc true false res)
      (m : ReplyMsg Unit) (args : Args) (a : A) (ct : CtData O) (i : InStream (CtHandle O))
      (records : List (List ℕ))
      (next : (s : RecStream (CtHandle O))
        → s.x_op ≡ decode
        → s.inp ≡ i
        → IsSent s.out records
        → P (enter refused m args a ct s)) where
    ended_on :
        (r : Bool × RecStream (CtHandle O))
        → r.0 ≡ true
        → r.1.inp ≡ i
        → IsSent r.1.out records
        → P (
            after_send io mem_alloc auth xdr_args xdr_results fuel proc true false res refused m
              args a ct r)
    ended_on (false, s) ok ei h = cc
    ended_on (true, s) ok ei h = next (set_op decode s) refl ei h

    put_on :
        (sent : List (List ℕ)) (bs : List ℕ) (r : Bool × Args × A × RecStream (CtHandle O))
        → records ≡ sent ++ (bs ∷ [])
        → r.0 ≡ true
        → r.1 ≡ args
        → r.2 ≡ a
        → Holds r.3.out sent bs
        → r.3.inp ≡ i
        → P (
            after_put io mem_alloc auth xdr_args xdr_results fuel proc true false res refused m ct
              r)
    put_on sent bs (false, args', a', s) er ok e ea h ei = cc
    put_on sent bs (true, args', a', s) er ok e ea h ei =
        let (ok', h', same, now) = end_record-Holds io t taken s sent bs true h in
        subst
          (λ x. P (
            after_put io mem_alloc auth xdr_args xdr_results fuel proc true false res refused m ct
              (true, x, a', s)))
          (sym e)
          (subst
            (λ y. P (
              after_put io mem_alloc auth xdr_args xdr_results fuel proc true false res refused m ct
                (true, args, y, s)))
            (sym ea)
            (ended_on (end_record io s true) ok' (same ∙ ei) (
              subst (IsSent (end_record io s true).1.out) (sym er)
                (Holds-IsSent (end_record io s true).1.out (sent ++ (bs ∷ [])) h' (now refl)))))

  -- When the transport takes what it is given, a call is sent as one record more, and the loop is
  -- entered with the input as it was.
  pub one_call-on :
      (P : Returned io mem_alloc auth xdr_args xdr_results → Type 0)
      (refused : Refused io mem_alloc auth xdr_args xdr_results fuel proc true false res)
      (m : ReplyMsg Unit) (args : Args) (a : A) (ct : CtData O) (records : List (List ℕ))
      (header ws bs : List ℕ)
      → take ct.mpos (next_xid ct.mcallc) ≡ header
      → Holds ct.xdrs.out records []
      → Marshals io auth xdr_args
          (rec_laws io t taken (set_status rpc_success ct.xdrs).inp ct.xdrs.out records [])
          a
          ws
      → Encodes
          (rec_laws io t taken (set_status rpc_success ct.xdrs).inp ct.xdrs.out records [])
          xdr_args
          args
          bs
      → ((s : RecStream (CtHandle O))
          → s.x_op ≡ decode
          → s.inp ≡ (set_status rpc_success ct.xdrs).inp
          → IsSent s.out (records ++ (((header ++ be32 proc) ++ (ws ++ bs)) ∷ []))
          → P (enter refused m args a (record ct { mcallc = next_xid ct.mcallc }) s))
      → P (
          one_call io mem_alloc auth xdr_args xdr_results fuel proc true false res refused m args a
            ct)
  one_call-on P refused m args a ct records header ws bs eh h ha hb next =
      let i = (set_status rpc_success ct.xdrs).inp in
      let laws = rec_laws io t taken i ct.xdrs.out records [] in
      let s = set_status rpc_success (set_op encode ct.xdrs) in
      let bytes : List ℕ = (header ++ be32 proc) ++ (ws ++ bs) in
      let (ok, e, ea, out, room) =
        put_call-Put io auth xdr_args laws header proc args a ws bs s 0 ha hb
          (unfold rec_laws in (([], h), refl)) in
      let r = put_call io auth xdr_args header proc a args s in
      let (_, _, h', ei) =
        Encoded-Holds io t taken i ct.xdrs.out records [] args bytes [] s 0 h (r.0, r.1, r.3)
          (ok, e, out, room) in
      subst
        (λ w. P (
          after_put io mem_alloc auth xdr_args xdr_results fuel proc true false res refused m
            (record ct { mcallc = next_xid ct.mcallc })
            (put_call io auth xdr_args w proc a args s)))
        (sym eh)
        (put_on P refused m args a (record ct { mcallc = next_xid ct.mcallc }) i
          (records ++ (bytes ∷ [])) next records bytes r refl ok e ea h' ei)
