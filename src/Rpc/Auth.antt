-- ===== src/Rpc/Auth.antt =====
-- libsrc/rpc_prot.c: `xdr_opaque_auth` and `xdr_des_block`.
pub mod Laws
use oncrpc4_win.Common.{ℕ, Option, List}
use oncrpc4_win.Xdr.Stream.{XdrOps, Filter, on_field, ◌&&&◌}
use oncrpc4_win.Xdr.Scalar.{xdr_enum}
use oncrpc4_win.Xdr.Opaque.{Counted, xdr_opaque, xdr_bytes}
use oncrpc4_win.Rpc.Msg.{OpaqueAuth, max_auth_bytes}

module _ {S : Type 0} (x : XdrOps S) (mem_alloc : ℕ → Option (List ℕ)) where
  unfoldable pub xdr_opaque_auth : Filter S OpaqueAuth
  xdr_opaque_auth =
      on_field (λ (a : OpaqueAuth). a.flavor) (λ a f. record a { flavor = f }) (xdr_enum x)
      &&& on_field (λ (a : OpaqueAuth). a.body) (λ a b. record a { body = b })
          (xdr_bytes x mem_alloc max_auth_bytes)

-- A `des_block` is eight bytes.
unfoldable pub xdr_des_block : {S : Type 0} → XdrOps S → Filter S (List ℕ)
xdr_des_block x = xdr_opaque x 8
