-- ===== src/Rpc/Reply/Message.antt =====
-- The bytes of whole reply messages.
use mathlib.Core.Path.{subst}
use oncrpc4_win.Common.{
  ℕ, ◌≡◌, ◌≤◌, ◌<◌, refl, sym, Option, none, some, List, [], ◌++◌, length, arith,
}
use oncrpc4_win.Common.Words.{IsU32, be32}
use oncrpc4_win.Xdr.Stream.{XdrOps, XdrLaws, Filter}
use oncrpc4_win.Xdr.Codec.{
  Encodes, Decodes, Codec, on_field-Encodes, on_field-Decodes, &&&-Encodes, &&&-Decodes,
  holds-Encodes, holds-Decodes,
}
use oncrpc4_win.Xdr.Scalar.Laws.{
  xdr_enum-Encodes, xdr_enum-Decodes, xdr_u_int32_t-Encodes, xdr_u_int32_t-Decodes,
}
use oncrpc4_win.Xdr.Union.{choose, xdr_union}
use oncrpc4_win.Xdr.Union.Laws.{xdr_union-Encodes, xdr_union-Decodes}
use oncrpc4_win.Rpc.Msg.{OpaqueAuth, ReplyArms, ReplyMsg, reply}
use oncrpc4_win.Rpc.Auth.{xdr_opaque_auth}
use oncrpc4_win.Rpc.Auth.Laws.{
  auth, received, null_auth, allocated, IsAuth, auth_wire, xdr_opaque_auth-Decodes_at,
  xdr_opaque_auth-Decodes_new,
}
use oncrpc4_win.Rpc.Reply.{accepted_ru, rejected_ru, reply_dscrm, xdr_replymsg}
use oncrpc4_win.Rpc.Reply.Denied.{
  Denial, with_denial, IsDenial, denial_wire, xdr_rejected_reply-Encodes,
  xdr_rejected_reply-Decodes,
}
use oncrpc4_win.Rpc.Reply.Accepted.{
  Outcome, with_outcome, IsOutcome, accepted_wire, xdr_accepted_reply-Encodes,
  xdr_accepted_reply-Decodes,
}

-- What a reply says: accepted, with a verifier and an outcome, or denied.
pub data Verdict (R : Type 0) : Type 0 where
  accepted : ℕ → List ℕ → Outcome R → Verdict R
  denied : Denial → Verdict R

module _ {R : Type 0} where
  abbrev pub verdict_stat : Verdict R → ℕ
  verdict_stat (accepted flavor body o) = 0
  verdict_stat (denied d) = 1

  -- The verdict, written into the arms of a reply that is to be sent.
  abbrev pub sent : ReplyArms R → Verdict R → ReplyArms R
  sent u (accepted flavor body o) = record u {
    acpt = with_outcome (record u.acpt { verf = auth flavor body }) o;
  }
  sent u (denied d) = record u { rjct = with_denial u.rjct d }

  -- The verdict, as it arrives in the arms of a reply: the verifier becomes `got`.
  abbrev pub arrived : OpaqueAuth → ReplyArms R → Verdict R → ReplyArms R
  arrived got u (accepted flavor body o) = record u {
    acpt = with_outcome (record u.acpt { verf = got }) o;
  }
  arrived got u (denied d) = record u { rjct = with_denial u.rjct d }

  -- The verifier, into a buffer or into `_null_auth`.
  abbrev pub buffered : List ℕ → Verdict R → OpaqueAuth
  buffered buffer (accepted flavor body o) = received flavor body buffer
  buffered buffer (denied d) = null_auth

  abbrev pub fresh : Verdict R → OpaqueAuth
  fresh (accepted flavor body o) = allocated flavor body
  fresh (denied d) = null_auth

  abbrev pub reply_of : ℕ → Verdict R → ReplyArms R → ReplyMsg R
  reply_of xid v u = record { xid = xid; direction = reply; stat = verdict_stat v; ru = u }

module _ {S R : Type 0} {x : XdrOps S} (laws : XdrLaws x) (mem_alloc : ℕ → Option (List ℕ))
    {f : Filter S R} (c : Codec laws f) where
  abbrev pub IsVerdict : Verdict R → Type 0
  IsVerdict (accepted flavor body o) = IsAuth flavor body × IsOutcome laws mem_alloc c o
  IsVerdict (denied d) = IsDenial d

  unfoldable pub verdict_wire : Verdict R → List ℕ
  verdict_wire (accepted flavor body o) = accepted_wire laws mem_alloc c flavor body o
  verdict_wire (denied d) = denial_wire d

  -- The transaction id, REPLY, the discriminant, and the arm.
  unfoldable pub reply_wire : ℕ → Verdict R → List ℕ
  reply_wire xid v = be32 xid ++ (be32 1 ++ ([] ++ (be32 (verdict_stat v) ++ verdict_wire v)))

  union-Encodes :
      (u : ReplyArms R) (v : Verdict R)
      → IsVerdict v
      → Encodes laws
          (xdr_union x (reply_dscrm x mem_alloc f) none)
          (verdict_stat v, sent u v)
          (be32 (verdict_stat v) ++ verdict_wire v)
  unfolding verdict_wire accepted_ru rejected_ru choose
  union-Encodes u (accepted flavor body o) (ha, ho) =
      xdr_union-Encodes laws _ none (accepted_ru x mem_alloc f) 0 refl
        (sent u (accepted flavor body o)) _
        (on_field-Encodes laws _ _ _ (sent u (accepted flavor body o)) _ refl (
          xdr_accepted_reply-Encodes laws mem_alloc c (record u.acpt { verf = auth flavor body })
            flavor body o refl ha ho))
  union-Encodes u (denied d) h =
      xdr_union-Encodes laws _ none (rejected_ru x mem_alloc f) 1 refl (sent u (denied d)) _ (
        on_field-Encodes laws _ _ _ (sent u (denied d)) _ refl
          (xdr_rejected_reply-Encodes laws mem_alloc u.rjct d))

  -- The bytes of the verifier, if there is one, make `old` `got`.
  abbrev pub IsGot : OpaqueAuth → OpaqueAuth → Verdict R → Type 0
  IsGot old got (accepted flavor body o) =
      Decodes laws (xdr_opaque_auth x mem_alloc) old got (auth_wire flavor body)
  IsGot old got (denied d) = Unit

  union-Decodes :
      (old_stat : ℕ) (u : ReplyArms R) (got : OpaqueAuth) (v : Verdict R)
      → IsGot u.acpt.verf got v
      → IsVerdict v
      → Decodes laws
          (xdr_union x (reply_dscrm x mem_alloc f) none)
          (old_stat, u)
          (verdict_stat v, arrived got u v)
          (be32 (verdict_stat v) ++ verdict_wire v)
  unfolding verdict_wire accepted_ru rejected_ru choose
  union-Decodes old_stat u got (accepted flavor body o) hg (ha, ho) =
      xdr_union-Decodes laws _ none (accepted_ru x mem_alloc f) 0 refl old_stat u _ _ (omega arith)
        (on_field-Decodes laws _ _ _ u _ _
          (xdr_accepted_reply-Decodes laws mem_alloc c u.acpt got flavor body o hg ho))
  union-Decodes old_stat u got (denied d) hg h =
      xdr_union-Decodes laws _ none (rejected_ru x mem_alloc f) 1 refl old_stat u _ _ (omega arith)
        (on_field-Decodes laws _ _ _ u _ _ (xdr_rejected_reply-Decodes laws mem_alloc u.rjct d h))

  pub xdr_replymsg-Encodes :
      (xid : ℕ) (u : ReplyArms R) (v : Verdict R)
      → IsVerdict v
      → Encodes laws (xdr_replymsg x mem_alloc f) (reply_of xid v (sent u v)) (reply_wire xid v)
  unfolding xdr_replymsg reply_wire
  xdr_replymsg-Encodes xid u v h =
      let m : ReplyMsg R = reply_of xid v (sent u v) in
      &&&-Encodes laws _ _ m (be32 xid) _
        (on_field-Encodes laws _ _ _ m _ refl (xdr_u_int32_t-Encodes laws xid))
        (&&&-Encodes laws _ _ m (be32 1) _
          (on_field-Encodes laws _ _ _ m _ refl (xdr_enum-Encodes laws 1))
          (&&&-Encodes laws _ _ m [] _ (holds-Encodes laws _ m refl)
            (on_field-Encodes laws _ _ _ m _ refl (union-Encodes u v h))))

  pub xdr_replymsg-Decodes_got :
      (xid : ℕ) (old : ReplyMsg R) (got : OpaqueAuth) (v : Verdict R)
      → IsGot old.ru.acpt.verf got v
      → IsU32 xid
      → IsVerdict v
      → Decodes laws
          (xdr_replymsg x mem_alloc f)
          old
          (reply_of xid v (arrived got old.ru v))
          (reply_wire xid v)
  unfolding xdr_replymsg reply_wire
  xdr_replymsg-Decodes_got xid old got v hg hx h =
      let m : ReplyMsg R = record old { xid = xid } in
      let m' : ReplyMsg R = record old { xid = xid; direction = reply } in
      &&&-Decodes laws _ _ old m _ (be32 xid) _
        (on_field-Decodes laws _ _ _ old xid _ (xdr_u_int32_t-Decodes laws old.xid xid hx))
        (&&&-Decodes laws _ _ m m' _ (be32 1) _
          (on_field-Decodes laws _ _ _ m 1 _ (xdr_enum-Decodes laws old.direction 1 (omega arith)))
          (&&&-Decodes laws _ _ m' m' _ [] _ (holds-Decodes laws _ m' refl) (
            on_field-Decodes laws _ _ _ m' (verdict_stat v, arrived got old.ru v) _
              (union-Decodes old.stat old.ru got v hg h))))

  IsGot-buffered :
      (old : OpaqueAuth) (buffer : List ℕ) (v : Verdict R)
      → old.body.base ≡ some buffer
      → IsVerdict v
      → IsGot old (buffered buffer v) v
  IsGot-buffered old buffer (accepted flavor body o) eb (ha, ho) =
      xdr_opaque_auth-Decodes_at laws mem_alloc flavor body old buffer eb ha
  IsGot-buffered old buffer (denied d) eb h = tt

  -- Into a reply whose verifier has a buffer, and into one whose verifier is `_null_auth`.
  pub xdr_replymsg-Decodes :
      (xid : ℕ) (old : ReplyMsg R) (buffer : List ℕ) (v : Verdict R)
      → old.ru.acpt.verf.body.base ≡ some buffer
      → IsU32 xid
      → IsVerdict v
      → Decodes laws
          (xdr_replymsg x mem_alloc f)
          old
          (reply_of xid v (arrived (buffered buffer v) old.ru v))
          (reply_wire xid v)
  xdr_replymsg-Decodes xid old buffer v eb hx h =
      xdr_replymsg-Decodes_got xid old (buffered buffer v) v
        (IsGot-buffered old.ru.acpt.verf buffer v eb h) hx h

  IsGot-fresh :
      (v : Verdict R)
      → ((n : ℕ)
          → 0 < n
          → n ≤ 400
          → (buffer : List ℕ) × (mem_alloc n ≡ some buffer) × (length buffer ≡ n))
      → IsVerdict v
      → IsGot null_auth (fresh v) v
  IsGot-fresh (accepted flavor body o) memory (ha, ho) =
      xdr_opaque_auth-Decodes_new laws mem_alloc flavor body memory ha
  IsGot-fresh (denied d) memory h = tt

  pub xdr_replymsg-Decodes_new :
      (xid : ℕ) (old : ReplyMsg R) (v : Verdict R)
      → old.ru.acpt.verf ≡ null_auth
      → ((n : ℕ)
          → 0 < n
          → n ≤ 400
          → (buffer : List ℕ) × (mem_alloc n ≡ some buffer) × (length buffer ≡ n))
      → IsU32 xid
      → IsVerdict v
      → Decodes laws
          (xdr_replymsg x mem_alloc f)
          old
          (reply_of xid v (arrived (fresh v) old.ru v))
          (reply_wire xid v)
  xdr_replymsg-Decodes_new xid old v en memory hx h =
      xdr_replymsg-Decodes_got xid old (fresh v) v
        (subst (λ a. IsGot a (fresh v) v) (sym en) (IsGot-fresh v memory h)) hx h
