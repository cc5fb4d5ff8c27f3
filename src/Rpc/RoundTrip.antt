-- ===== src/Rpc/RoundTrip.antt =====
-- Authenticators and replies from one stream to another, and what the client makes of a reply.
use oncrpc4_win.Common.{
  ℕ, ◌+◌, ◌≡◌, refl, Bool, true, false, Option, some, List, ◌++◌, length, ◌∙◌, Bool-cases, inl, inr,
  ==→eq, arith, ◌==◌, if◌then◌else◌,
}
use oncrpc4_win.Common.Words.{IsU32}
use oncrpc4_win.Xdr.Stream.{
  XdrOp, encode, decode, XdrOps, XdrLaws, Filter, on_field, holds, and_run, ◌&&&◌,
}
use oncrpc4_win.Xdr.Codec.{Encoded, Decoded, Codec}
use oncrpc4_win.Rpc.Msg.{OpaqueAuth, ReplyMsg, ReplyArms, reply}
use oncrpc4_win.Rpc.Auth.{xdr_opaque_auth}
use oncrpc4_win.Rpc.Auth.Laws.{
  auth, received, IsAuth, auth_wire, xdr_opaque_auth-Encodes, xdr_opaque_auth-Decodes,
}
use oncrpc4_win.Rpc.Reply.{xdr_replymsg}
use oncrpc4_win.Rpc.Reply.Accepted.{results, versions, status}
use oncrpc4_win.Rpc.Reply.Message.{
  Verdict, accepted, denied, sent, arrived, buffered, reply_of, IsVerdict, reply_wire,
  xdr_replymsg-Encodes, xdr_replymsg-Decodes,
}
use oncrpc4_win.Rpc.Reply.Errors.{
  RpcErr, rpc_success, rpc_progunavail, rpc_procunavail, rpc_cantdecodeargs, rpc_systemerror,
  rpc_failed, rpc_progversmismatch, rpc_versmismatch, rpc_autherror, accept_error, rejected,
  details, seterr_reply,
}
use oncrpc4_win.Rpc.Reply.Denied.{mismatch, bad_auth}

-- What the client is to learn from a verdict.
abbrev pub reported_status : ℕ → RpcErr → RpcErr
reported_status k err =
    if k == 1
    then record err { status = rpc_progunavail }
    else if k == 3
    then record err { status = rpc_procunavail }
    else if k == 4
    then record err { status = rpc_cantdecodeargs }
    else if k == 5
    then record err { status = rpc_systemerror }
    else record err { status = rpc_failed; lb = record { s1 = 0; s2 = k } }

abbrev pub reported : {R : Type 0} → Verdict R → RpcErr → RpcErr
reported (accepted flavor body (results r)) err = record err { status = rpc_success }
reported (accepted flavor body (versions lo hi)) err = record err {
  status = rpc_progversmismatch;
  vers = record { low = lo; high = hi };
}
reported (accepted flavor body (status k)) err = reported_status k err
reported (denied (mismatch lo hi)) err = record err {
  status = rpc_versmismatch;
  vers = record { low = lo; high = hi };
}
reported (denied (bad_auth why)) err = record err { status = rpc_autherror; why = why }

module _ {S : Type 0} {x : XdrOps S} (laws : XdrLaws x) (mem_alloc : ℕ → Option (List ℕ)) where
  -- An authenticator of at most 400 bytes is sent as its flavor, its length and its padded body,
  -- and arrives at the front of the buffer that the receiver has put in its place.
  xdr_opaque_auth_roundtrip :
      (flavor : ℕ) (body : List ℕ) (old_flavor old_len : ℕ) (buffer : List ℕ) (s : S) (n : ℕ)
      (t : S) (rest : List ℕ)
      → IsAuth flavor body
      → laws.Room s (length (auth_wire flavor body) + n)
      → laws.Input t (auth_wire flavor body ++ rest)
      → Encoded laws
          (auth flavor body)
          (auth_wire flavor body)
          s
          n
          (xdr_opaque_auth x mem_alloc encode (auth flavor body) s)
        × Decoded laws (received flavor body buffer) rest (
            xdr_opaque_auth x mem_alloc decode
              (record { flavor = old_flavor; body = record { base = some buffer; len = old_len } })
              t)
  xdr_opaque_auth_roundtrip flavor body old_flavor old_len buffer s n t rest h room input = (
    xdr_opaque_auth-Encodes laws mem_alloc flavor body h s n room,
    xdr_opaque_auth-Decodes laws mem_alloc flavor body old_flavor old_len buffer h t rest input,
  )

module _ {S R : Type 0} {x : XdrOps S} (laws : XdrLaws x) (mem_alloc : ℕ → Option (List ℕ))
    {f : Filter S R} (c : Codec laws f) where
  -- A reply with any verdict, accepted with results, with versions or with another status, or
  -- denied for a version or for its credentials, is sent in the layout of the protocol and arrives
  -- with that verdict, in a message whose verifier has a buffer.
  pub xdr_replymsg_roundtrip :
      (xid : ℕ) (u : ReplyArms R) (v : Verdict R) (old : ReplyMsg R) (buffer : List ℕ) (s : S)
      (n : ℕ) (t : S) (rest : List ℕ)
      → old.ru.acpt.verf.body.base ≡ some buffer
      → IsU32 xid
      → IsVerdict laws mem_alloc c v
      → laws.Room s (length (reply_wire laws mem_alloc c xid v) + n)
      → laws.Input t (reply_wire laws mem_alloc c xid v ++ rest)
      → Encoded laws
          (reply_of xid v (sent u v))
          (reply_wire laws mem_alloc c xid v)
          s
          n
          (xdr_replymsg x mem_alloc f encode (reply_of xid v (sent u v)) s)
        × Decoded laws
            (reply_of xid v (arrived (buffered buffer v) old.ru v))
            rest
            (xdr_replymsg x mem_alloc f decode old t)
  xdr_replymsg_roundtrip xid u v old buffer s n t rest eb hx h room input = (
    xdr_replymsg-Encodes laws mem_alloc c xid u v h s n room,
    xdr_replymsg-Decodes laws mem_alloc c xid old buffer v eb hx h t rest input,
  )

  pub arrived-reported :
      (xid : ℕ) (v : Verdict R) (got : OpaqueAuth) (u : ReplyArms R) (err : RpcErr)
      → IsVerdict laws mem_alloc c v
      → seterr_reply (reply_of xid v (arrived got u v)) err ≡ reported v err
  unfolding seterr_reply accept_error rejected details
  arrived-reported xid (accepted flavor body (results r)) got u err h = refl
  arrived-reported xid (accepted flavor body (versions lo hi)) got u err h = refl
  arrived-reported xid (accepted flavor body (status k)) got u err (ha, hk) = ground arith
  arrived-reported xid (denied (mismatch lo hi)) got u err h = refl
  arrived-reported xid (denied (bad_auth why)) got u err h = refl

  Decoded-reported :
      (rest : List ℕ) (m : ReplyMsg R) (err : RpcErr) (r : Bool × ReplyMsg R × S)
      → Decoded laws m rest r
      → seterr_reply r.1 err ≡ seterr_reply m err
  Decoded-reported rest m err (b, m', s) (ok, got, left) = rw got refl

  -- From the bytes of a reply with any verdict, decoded into a message whose verifier has a buffer,
  -- the client learns exactly that verdict: success only of results, and each error with its
  -- details and no others.
  pub seterr_reply_decoded :
      (xid : ℕ) (v : Verdict R) (old : ReplyMsg R) (buffer : List ℕ) (err : RpcErr) (t : S)
      (rest : List ℕ)
      → old.ru.acpt.verf.body.base ≡ some buffer
      → IsU32 xid
      → IsVerdict laws mem_alloc c v
      → laws.Input t (reply_wire laws mem_alloc c xid v ++ rest)
      → seterr_reply (xdr_replymsg x mem_alloc f decode old t).1 err ≡ reported v err
  seterr_reply_decoded xid v old buffer err t rest eb hx h input =
      Decoded-reported rest (reply_of xid v (arrived (buffered buffer v) old.ru v)) err
        (xdr_replymsg x mem_alloc f decode old t)
        (xdr_replymsg-Decodes laws mem_alloc c xid old buffer v eb hx h t rest input)
      ∙ arrived-reported xid v (buffered buffer v) old.ru err h

-- A filter whose success guarantees `Q` of the object still does so behind another.
and_run-Ensures :
    {S R : Type 0} (Q : R → Type 0) (g : Filter S R) (op : XdrOp) (r : Bool × R × S)
    → ((v : R) (s : S) → (g op v s).0 ≡ true → Q (g op v s).1)
    → (and_run g op r).0 ≡ true
    → Q (and_run g op r).1
and_run-Ensures Q g op (false, v, s) h ok = cc
and_run-Ensures Q g op (true, v, s) h ok = h v s ok

&&&-Ensures :
    {S R : Type 0} (Q : R → Type 0) (f g : Filter S R) (op : XdrOp)
    → ((v : R) (s : S) → (g op v s).0 ≡ true → Q (g op v s).1)
    → (v : R) (s : S) → ((f &&& g) op v s).0 ≡ true
    → Q ((f &&& g) op v s).1
unfolding ◌&&&◌
&&&-Ensures Q f g op h v s ok = and_run-Ensures Q g op (f op v s) h ok

-- A test of a field that the rest does not touch holds of the result.
tested-Ensures :
    {S R U : Type 0} (get : R → U) (set : R → U → R) (rest : Filter S U) (field : R → ℕ) (k : ℕ)
    → ((m : R) (u : U) → field (set m u) ≡ field m)
    → (op : XdrOp) (m : R) (s : S)
    → ((holds (λ m. field m == k) &&& on_field get set rest) op m s).0 ≡ true
    → field ((holds (λ m. field m == k) &&& on_field get set rest) op m s).1 ≡ k
unfolding holds on_field ◌&&&◌
tested-Ensures get set rest field k same op m s ok = elim (Bool-cases (field m == k)) [
  | inl z ↦ rw z (same m _ ∙ ==→eq (field m) k z)
  | inr z ↦ cc
]

module _ {S R : Type 0} (x : XdrOps S) (mem_alloc : ℕ → Option (List ℕ)) (f : Filter S R) where
  -- Whatever the operation and the stream, a message that the filter accepts is a REPLY.
  xdr_replymsg_is_reply :
      (op : XdrOp) (m : ReplyMsg R) (s : S)
      → (xdr_replymsg x mem_alloc f op m s).0 ≡ true
      → (xdr_replymsg x mem_alloc f op m s).1.direction ≡ reply
  unfolding xdr_replymsg
  xdr_replymsg_is_reply op m s ok =
      let Q : ReplyMsg R → Type 0 = λ m. m.direction ≡ 1 in
      &&&-Ensures Q _ _ op
        (&&&-Ensures Q _ _ op (
          tested-Ensures (λ (m : ReplyMsg R). (m.stat, m.ru))
            (λ m p. record m { stat = p.0; ru = p.1 }) _ (λ m. m.direction) 1 (λ m u. refl) op))
        m s ok
