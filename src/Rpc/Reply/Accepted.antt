-- ===== src/Rpc/Reply/Accepted.antt =====
-- The bytes of accepted replies, over every lawful stream and for results of any lawful filter.
use native.Mathlib.Nat.{zero-add}
use oncrpc4_win.Common.{ℕ, ◌≡◌, ◌≢◌, refl, Option, List, [], ◌++◌, arith, ==_false, sym}
use oncrpc4_win.Common.Words.{IsU32, be32}
use oncrpc4_win.Xdr.Stream.{XdrOps, XdrLaws, Filter}
use oncrpc4_win.Xdr.Codec.{
  Encodes, Decodes, Codec, on_field-Encodes, on_field-Decodes, &&&-Encodes, &&&-Decodes,
}
use oncrpc4_win.Xdr.Scalar.Laws.{xdr_enum-Encodes, xdr_enum-Decodes}
use oncrpc4_win.Rpc.Msg.{OpaqueAuth, AcceptedReply}
use oncrpc4_win.Rpc.Auth.{xdr_opaque_auth}
use oncrpc4_win.Rpc.Auth.Laws.{auth, IsAuth, auth_wire, xdr_opaque_auth-Encodes}
use oncrpc4_win.Rpc.Reply.{accepted_arm, xdr_accepted_reply}
use oncrpc4_win.Rpc.Reply.Denied.{xdr_versions-Encodes, xdr_versions-Decodes}

-- What an accepted call came to: its results, the versions that are served, or a bare status.
pub data Outcome (R : Type 0) : Type 0 where
  results : R → Outcome R
  versions : ℕ → ℕ → Outcome R
  status : ℕ → Outcome R

module _ {R : Type 0} where
  -- The outcome, written into an accepted reply.
  abbrev pub with_outcome : AcceptedReply R → Outcome R → AcceptedReply R
  with_outcome a (results r) = record a { stat = 0; results = r }
  with_outcome a (versions lo hi) = record a { stat = 2; vers = record { low = lo; high = hi } }
  with_outcome a (status k) = record a { stat = k }

module _ {S R : Type 0} {x : XdrOps S} (laws : XdrLaws x) (mem_alloc : ℕ → Option (List ℕ))
    {f : Filter S R} (c : Codec laws f) where
  -- A bare status is none of the two that carry something.
  abbrev pub IsOutcome : Outcome R → Type 0
  IsOutcome (results r) = c.IsValid r
  IsOutcome (versions lo hi) = IsU32 lo × IsU32 hi
  IsOutcome (status k) = IsU32 k × (k ≢ 0) × (k ≢ 2)

  abbrev pub outcome_stat : Outcome R → ℕ
  outcome_stat (results r) = 0
  outcome_stat (versions lo hi) = 2
  outcome_stat (status k) = k

  abbrev pub outcome_wire : Outcome R → List ℕ
  outcome_wire (results r) = c.wire r
  outcome_wire (versions lo hi) = be32 lo ++ be32 hi
  outcome_wire (status k) = []

  accepted_arm-Encodes :
      (a : AcceptedReply R) (o : Outcome R)
      → IsOutcome o
      → Encodes laws (accepted_arm x mem_alloc f) (with_outcome a o) (outcome_wire o)
  unfolding accepted_arm
  accepted_arm-Encodes a (results r) h =
      on_field-Encodes laws _ _ _ (with_outcome a (results r)) _ refl (c.encodes r h)
  accepted_arm-Encodes a (versions lo hi) h =
      on_field-Encodes laws _ _ _ (with_outcome a (versions lo hi)) _ refl
        (xdr_versions-Encodes laws mem_alloc lo hi)
  accepted_arm-Encodes a (status k) (hu, h0, h2) =
      rw (==_false k 0 h0, ==_false k 2 h2)
        (λ s n room. (refl, refl, sym (laws.append-nil s), rw zero-add at room))

  accepted_arm-Decodes :
      (old : AcceptedReply R) (o : Outcome R)
      → IsOutcome o
      → Decodes laws
          (accepted_arm x mem_alloc f)
          (record old { stat = outcome_stat o })
          (with_outcome old o)
          (outcome_wire o)
  unfolding accepted_arm
  accepted_arm-Decodes old (results r) h =
      on_field-Decodes laws _ _ _ (record old { stat = 0 }) r _ (c.decodes old.results r h)
  accepted_arm-Decodes old (versions lo hi) (hl, hh) =
      on_field-Decodes laws _ _ _ (record old { stat = 2 }) (record { low = lo; high = hi }) _
        (xdr_versions-Decodes laws mem_alloc old.vers lo hi hl hh)
  accepted_arm-Decodes old (status k) (hu, h0, h2) =
      rw (==_false k 0 h0, ==_false k 2 h2) (λ s rest input. (refl, refl, input))

  outcome_stat-IsU32 : (o : Outcome R) → IsOutcome o → IsU32 (outcome_stat o)
  outcome_stat-IsU32 (results r) h = omega arith
  outcome_stat-IsU32 (versions lo hi) h = omega arith
  outcome_stat-IsU32 (status k) h = h.0

  stat-with_outcome :
      (a : AcceptedReply R) (o : Outcome R) → (with_outcome a o).stat ≡ outcome_stat o
  stat-with_outcome a (results r) = refl
  stat-with_outcome a (versions lo hi) = refl
  stat-with_outcome a (status k) = refl

  -- The verifier, the status and what it carries.
  unfoldable pub accepted_wire : ℕ → List ℕ → Outcome R → List ℕ
  accepted_wire flavor body o = auth_wire flavor body ++ (be32 (outcome_stat o) ++ outcome_wire o)

  verf-with_outcome : (a : AcceptedReply R) (o : Outcome R) → (with_outcome a o).verf ≡ a.verf
  verf-with_outcome a (results r) = refl
  verf-with_outcome a (versions lo hi) = refl
  verf-with_outcome a (status k) = refl

  pub xdr_accepted_reply-Encodes :
      (a : AcceptedReply R) (flavor : ℕ) (body : List ℕ) (o : Outcome R)
      → a.verf ≡ auth flavor body
      → IsAuth flavor body
      → IsOutcome o
      → Encodes laws
          (xdr_accepted_reply x mem_alloc f)
          (with_outcome a o)
          (accepted_wire flavor body o)
  unfolding xdr_accepted_reply accepted_wire
  xdr_accepted_reply-Encodes a flavor body o ev hv ho =
      &&&-Encodes laws _ _ (with_outcome a o) (auth_wire flavor body) _
        (on_field-Encodes laws _ _ _ (with_outcome a o) _ refl
          (rw (verf-with_outcome a o, ev) (xdr_opaque_auth-Encodes laws mem_alloc flavor body hv)))
        (&&&-Encodes laws _ _ (with_outcome a o) (be32 (outcome_stat o)) _
          (on_field-Encodes laws _ _ _ (with_outcome a o) _ refl
            (rw (stat-with_outcome a o) (xdr_enum-Encodes laws (outcome_stat o))))
          (accepted_arm-Encodes a o ho))

  -- Into a reply whose verifier becomes `got`.
  pub xdr_accepted_reply-Decodes :
      (old : AcceptedReply R) (got : OpaqueAuth) (flavor : ℕ) (body : List ℕ) (o : Outcome R)
      → Decodes laws (xdr_opaque_auth x mem_alloc) old.verf got (auth_wire flavor body)
      → IsOutcome o
      → Decodes laws
          (xdr_accepted_reply x mem_alloc f)
          old
          (with_outcome (record old { verf = got }) o)
          (accepted_wire flavor body o)
  unfolding xdr_accepted_reply accepted_wire
  xdr_accepted_reply-Decodes old got flavor body o hv ho =
      let old' : AcceptedReply R = record old { verf = got } in
      &&&-Decodes laws _ _ old old' _ (auth_wire flavor body) _
        (on_field-Decodes laws _ _ _ old got _ hv)
        (&&&-Decodes laws _ _ old' (record old' { stat = outcome_stat o }) _ (be32 (outcome_stat o))
          _
          (on_field-Decodes laws _ _ _ old' (outcome_stat o) _
            (xdr_enum-Decodes laws old.stat (outcome_stat o) (outcome_stat-IsU32 o ho)))
          (accepted_arm-Decodes old' o ho))
