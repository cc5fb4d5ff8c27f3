-- ===== src/Rpc/Reply/Denied.antt =====
-- The bytes of rejected replies, over every lawful stream.
use oncrpc4_win.Common.{ℕ, refl, Option, List, ◌++◌, arith}
use oncrpc4_win.Common.Words.{IsU32, be32}
use oncrpc4_win.Xdr.Stream.{XdrOps, XdrLaws}
use oncrpc4_win.Xdr.Codec.{
  Encodes, Decodes, on_field-Encodes, on_field-Decodes, &&&-Encodes, &&&-Decodes,
}
use oncrpc4_win.Xdr.Scalar.Laws.{
  xdr_enum-Encodes, xdr_enum-Decodes, xdr_u_int32_t-Encodes, xdr_u_int32_t-Decodes,
}
use oncrpc4_win.Rpc.Msg.{Versions, RejectedReply}
use oncrpc4_win.Rpc.Reply.{xdr_versions, rejected_arm, xdr_rejected_reply}

-- Why a call was denied.
pub data Denial : Type 0 where
  mismatch : ℕ → ℕ → Denial
  bad_auth : ℕ → Denial

-- The denial, written into a rejected reply.
abbrev pub with_denial : RejectedReply → Denial → RejectedReply
with_denial j (mismatch lo hi) = record j { stat = 0; vers = record { low = lo; high = hi } }
with_denial j (bad_auth why) = record j { stat = 1; why = why }

abbrev pub IsDenial : Denial → Type 0
IsDenial (mismatch lo hi) = IsU32 lo × IsU32 hi
IsDenial (bad_auth why) = IsU32 why

unfoldable pub denial_wire : Denial → List ℕ
denial_wire (mismatch lo hi) = be32 0 ++ (be32 lo ++ be32 hi)
denial_wire (bad_auth why) = be32 1 ++ be32 why

module _ {S : Type 0} {x : XdrOps S} (laws : XdrLaws x) (mem_alloc : ℕ → Option (List ℕ)) where
  pub xdr_versions-Encodes :
      (lo hi : ℕ)
      → Encodes laws
          (xdr_versions x mem_alloc)
          (record { low = lo; high = hi })
          (be32 lo ++ be32 hi)
  unfolding xdr_versions
  xdr_versions-Encodes lo hi =
      &&&-Encodes laws _ _ _ (be32 lo) (be32 hi)
        (on_field-Encodes laws _ _ _ _ _ refl (xdr_u_int32_t-Encodes laws lo))
        (on_field-Encodes laws _ _ _ _ _ refl (xdr_u_int32_t-Encodes laws hi))

  pub xdr_versions-Decodes :
      (old : Versions) (lo hi : ℕ)
      → IsU32 lo
      → IsU32 hi
      → Decodes laws
          (xdr_versions x mem_alloc)
          old
          (record { low = lo; high = hi })
          (be32 lo ++ be32 hi)
  unfolding xdr_versions
  xdr_versions-Decodes old lo hi hl hh =
      &&&-Decodes laws _ _ _ (record { low = lo; high = old.high }) _ (be32 lo) (be32 hi)
        (on_field-Decodes laws _ _ _ _ lo _ (xdr_u_int32_t-Decodes laws old.low lo hl))
        (on_field-Decodes laws _ _ _ _ hi _ (xdr_u_int32_t-Decodes laws old.high hi hh))

  -- The status, then the versions or the reason.
  pub xdr_rejected_reply-Encodes :
      (j : RejectedReply) (d : Denial)
      → Encodes laws (xdr_rejected_reply x mem_alloc) (with_denial j d) (denial_wire d)
  unfolding xdr_rejected_reply rejected_arm denial_wire
  xdr_rejected_reply-Encodes j (mismatch lo hi) =
      &&&-Encodes laws _ _ _ (be32 0) (be32 lo ++ be32 hi)
        (on_field-Encodes laws _ _ _ _ _ refl (xdr_enum-Encodes laws 0))
        (on_field-Encodes laws _ _ _ (with_denial j (mismatch lo hi)) _ refl
          (xdr_versions-Encodes lo hi))
  xdr_rejected_reply-Encodes j (bad_auth why) =
      &&&-Encodes laws _ _ _ (be32 1) (be32 why)
        (on_field-Encodes laws _ _ _ _ _ refl (xdr_enum-Encodes laws 1))
        (on_field-Encodes laws _ _ _ (with_denial j (bad_auth why)) _ refl
          (xdr_enum-Encodes laws why))

  pub xdr_rejected_reply-Decodes :
      (old : RejectedReply) (d : Denial)
      → IsDenial d
      → Decodes laws (xdr_rejected_reply x mem_alloc) old (with_denial old d) (denial_wire d)
  unfolding xdr_rejected_reply rejected_arm denial_wire
  xdr_rejected_reply-Decodes old (mismatch lo hi) (hl, hh) =
      &&&-Decodes laws _ _ _ (record old { stat = 0 }) _ (be32 0) (be32 lo ++ be32 hi)
        (on_field-Decodes laws _ _ _ _ 0 _ (xdr_enum-Decodes laws old.stat 0 (omega arith)))
        (on_field-Decodes laws _ _ _ (record old { stat = 0 }) (record { low = lo; high = hi }) _
          (xdr_versions-Decodes old.vers lo hi hl hh))
  xdr_rejected_reply-Decodes old (bad_auth why) h =
      &&&-Decodes laws _ _ _ (record old { stat = 1 }) _ (be32 1) (be32 why)
        (on_field-Decodes laws _ _ _ _ 1 _ (xdr_enum-Decodes laws old.stat 1 (omega arith)))
        (on_field-Decodes laws _ _ _ (record old { stat = 1 }) why _
          (xdr_enum-Decodes laws old.why why h))
