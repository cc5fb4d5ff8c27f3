-- ===== src/Rpc/Pmap.antt =====
-- libsrc/pmap_prot.c and libsrc/pmap_prot2.c: port mappings and lists of them.
pub mod Laws
use oncrpc4_win.Common.{ℕ, Bool, Option, List}
use oncrpc4_win.Xdr.Stream.{XdrOp, XdrOps, Filter, on_field, ◌&&&◌}
use oncrpc4_win.Xdr.Scalar.{xdr_u_long}
use oncrpc4_win.Rpc.Lists.{list_loop}

-- `struct pmap`.
pub record Pmap : Type 0 where
  pub prog : ℕ
  pub vers : ℕ
  pub prot : ℕ
  pub port : ℕ

module _ {S : Type 0} (x : XdrOps S) where
  unfoldable pub xdr_pmap : Filter S Pmap
  xdr_pmap =
      on_field (λ (p : Pmap). p.prog) (λ p v. record p { prog = v }) (xdr_u_long x)
      &&& on_field (λ (p : Pmap). p.vers) (λ p v. record p { vers = v }) (xdr_u_long x)
      &&& on_field (λ (p : Pmap). p.prot) (λ p v. record p { prot = v }) (xdr_u_long x)
      &&& on_field (λ (p : Pmap). p.port) (λ p v. record p { port = v }) (xdr_u_long x)

  -- A `struct pmaplist` is a mapping and a pointer. On XDR_FREE the loop keeps the address of the
  -- node's `pml_next`, and reads it after the node is freed: what it then finds is up to the
  -- allocator, `reread`.
  unfoldable pub xdr_pmaplist :
      (ℕ → Bool)
      → Pmap
      → ℕ
      → (List Pmap → List Pmap)
      → ℕ
      → XdrOp
      → List Pmap
      → S
      → Option (Bool × List Pmap × S)
  xdr_pmaplist mem_alloc blank size reread = list_loop x mem_alloc blank size xdr_pmap reread
