-- ===== src/Rpc/Reply/Layout.antt =====
-- The layout of reply messages, apart from any stream.
use native.Mathlib.Nat.{zero-add}
use oncrpc4_win.Common.{ℕ, ◌≡◌, ◌≢◌, refl, sym, Option, List, [], ◌++◌}
use oncrpc4_win.Common.Words.{IsU32, be32}
use oncrpc4_win.Xdr.Stream.{XdrOps, XdrLaws, Filter}
use oncrpc4_win.Xdr.Codec.{Codec}
use oncrpc4_win.Xdr.Scalar.{xdr_void}
use oncrpc4_win.Rpc.Auth.Laws.{IsAuth, auth_wire}
use oncrpc4_win.Rpc.Reply.Denied.{IsDenial, denial_wire}
use oncrpc4_win.Rpc.Reply.Accepted.{Outcome, results, versions, status, accepted_wire}
use oncrpc4_win.Rpc.Reply.Message.{Verdict, accepted, denied, IsVerdict, verdict_wire, reply_wire}

module _ {R : Type 0} (body : R → List ℕ) where
  -- `enum accept_stat`, and what it carries.
  abbrev pub outcome_bytes : Outcome R → List ℕ
  outcome_bytes (results r) = be32 0 ++ body r
  outcome_bytes (versions lo hi) = be32 2 ++ (be32 lo ++ be32 hi)
  outcome_bytes (status k) = be32 k ++ []

  -- `enum reply_stat`, and what it carries.
  abbrev pub verdict_bytes : Verdict R → List ℕ
  verdict_bytes (accepted flavor verf o) = be32 0 ++ (auth_wire flavor verf ++ outcome_bytes o)
  verdict_bytes (denied d) = be32 1 ++ denial_wire d

  -- The transaction id, REPLY, and the rest.
  unfoldable pub reply_bytes : ℕ → Verdict R → List ℕ
  reply_bytes xid v = be32 xid ++ (be32 1 ++ verdict_bytes v)

-- What can be sent, if the results can.
abbrev pub IsReply : {R : Type 0} → (R → Type 0) → Verdict R → Type 0
IsReply P (accepted flavor verf (results r)) = IsAuth flavor verf × P r
IsReply P (accepted flavor verf (versions lo hi)) = IsAuth flavor verf × (IsU32 lo × IsU32 hi)
IsReply P (accepted flavor verf (status k)) = IsAuth flavor verf × (IsU32 k × (k ≢ 0) × (k ≢ 2))
IsReply P (denied d) = IsDenial d

module _ {S R : Type 0} {x : XdrOps S} (laws : XdrLaws x) (mem_alloc : ℕ → Option (List ℕ))
    {f : Filter S R} (c : Codec laws f) where
  pub reply_wire-bytes :
      (xid : ℕ) (v : Verdict R) → reply_wire laws mem_alloc c xid v ≡ reply_bytes c.wire xid v
  unfolding reply_wire reply_bytes verdict_wire accepted_wire
  reply_wire-bytes xid (accepted flavor verf (results r)) = refl
  reply_wire-bytes xid (accepted flavor verf (versions lo hi)) = refl
  reply_wire-bytes xid (accepted flavor verf (status k)) = refl
  reply_wire-bytes xid (denied d) = refl

  pub IsReply-IsVerdict : (v : Verdict R) → IsReply c.IsValid v → IsVerdict laws mem_alloc c v
  IsReply-IsVerdict (accepted flavor verf (results r)) h = h
  IsReply-IsVerdict (accepted flavor verf (versions lo hi)) h = h
  IsReply-IsVerdict (accepted flavor verf (status k)) h = h
  IsReply-IsVerdict (denied d) h = h

-- `xdr_void` as the filter of results: they are left to be read later.
unfoldable pub void_codec :
    {S : Type 0} {x : XdrOps S} (laws : XdrLaws x) → Codec laws (xdr_void {S = S} {A = Unit})
unfolding xdr_void
void_codec laws = record {
  IsValid = λ v. Unit;
  wire = λ v. [];
  encodes = λ v h s n room. (refl, refl, sym (laws.append-nil s), rw zero-add at room);
  decodes = λ old v h s rest input. (refl, refl, input);
}
