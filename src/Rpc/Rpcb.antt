-- ===== src/Rpc/Rpcb.antt =====
-- libsrc/rpcb_prot.c: the messages of rpcbind.
use oncrpc4_win.Common.{ℕ, Bool, Option, List, leb}
use oncrpc4_win.Xdr.Stream.{XdrOp, XdrOps, Filter, on_field, holds, ◌&&&◌}
use oncrpc4_win.Xdr.Scalar.{xdr_u_int32_t, xdr_u_int}
use oncrpc4_win.Xdr.Opaque.{Counted, xdr_bytes}
use oncrpc4_win.Xdr.CString.{xdr_string}
use oncrpc4_win.Rpc.Lists.{list_loop}

-- RPC_MAXDATASIZE.
abbrev pub rpc_maxdatasize : ℕ
rpc_maxdatasize = 9000

-- `struct rpcb`.
pub record Rpcb : Type 0 where
  pub prog : ℕ
  pub vers : ℕ
  pub netid : Option (List ℕ)
  pub addr : Option (List ℕ)
  pub owner : Option (List ℕ)

-- `struct rpcb_entry`.
pub record RpcbEntry : Type 0 where
  pub maddr : Option (List ℕ)
  pub nc_netid : Option (List ℕ)
  pub nc_semantics : ℕ
  pub nc_protofmly : Option (List ℕ)
  pub nc_proto : Option (List ℕ)

-- `struct r_rpcb_rmtcallres`: the address, and the results with their length.
pub record RmtCallRes (R : Type 0) : Type 0 where
  pub addr : Option (List ℕ)
  pub results_len : ℕ
  pub results_val : R

-- `struct netbuf`; `data` is `buf` with `len`.
pub record Netbuf : Type 0 where
  pub maxlen : ℕ
  pub contents : Counted

module _ {S : Type 0} (x : XdrOps S) (mem_alloc : ℕ → Option (List ℕ)) where
  unfoldable pub xdr_rpcb : Filter S Rpcb
  xdr_rpcb =
      on_field (λ (r : Rpcb). r.prog) (λ r v. record r { prog = v }) (xdr_u_int32_t x)
      &&& on_field (λ (r : Rpcb). r.vers) (λ r v. record r { vers = v }) (xdr_u_int32_t x)
      &&& on_field (λ (r : Rpcb). r.netid) (λ r v. record r { netid = v })
          (xdr_string x mem_alloc rpc_maxdatasize)
      &&& on_field (λ (r : Rpcb). r.addr) (λ r v. record r { addr = v })
          (xdr_string x mem_alloc rpc_maxdatasize)
      &&& on_field (λ (r : Rpcb). r.owner) (λ r v. record r { owner = v })
          (xdr_string x mem_alloc rpc_maxdatasize)

  unfoldable pub xdr_rpcb_entry : Filter S RpcbEntry
  xdr_rpcb_entry =
      on_field (λ (e : RpcbEntry). e.maddr) (λ e v. record e { maddr = v })
        (xdr_string x mem_alloc rpc_maxdatasize)
      &&& on_field (λ (e : RpcbEntry). e.nc_netid) (λ e v. record e { nc_netid = v })
          (xdr_string x mem_alloc rpc_maxdatasize)
      &&& on_field (λ (e : RpcbEntry). e.nc_semantics) (λ e v. record e { nc_semantics = v })
          (xdr_u_int32_t x)
      &&& on_field (λ (e : RpcbEntry). e.nc_protofmly) (λ e v. record e { nc_protofmly = v })
          (xdr_string x mem_alloc rpc_maxdatasize)
      &&& on_field (λ (e : RpcbEntry). e.nc_proto) (λ e v. record e { nc_proto = v })
          (xdr_string x mem_alloc rpc_maxdatasize)

  -- These loops copy the pointer to the next node before the node is freed.
  unfoldable pub xdr_rpcblist_ptr :
      (ℕ → Bool) → Rpcb → ℕ → ℕ → XdrOp → List Rpcb → S → Option (Bool × List Rpcb × S)
  xdr_rpcblist_ptr mem_alloc_node blank size =
      list_loop x mem_alloc_node blank size xdr_rpcb (λ l. l)

  unfoldable pub xdr_rpcb_entry_list_ptr :
      (ℕ → Bool)
      → RpcbEntry
      → ℕ
      → ℕ
      → XdrOp
      → List RpcbEntry
      → S
      → Option (Bool × List RpcbEntry × S)
  xdr_rpcb_entry_list_ptr mem_alloc_node blank size =
      list_loop x mem_alloc_node blank size xdr_rpcb_entry (λ l. l)

  unfoldable pub xdr_rpcb_rmtcallres : {R : Type 0} → Filter S R → Filter S (RmtCallRes R)
  xdr_rpcb_rmtcallres {R} xdr_res =
      on_field (λ (r : RmtCallRes R). r.addr) (λ r v. record r { addr = v })
        (xdr_string x mem_alloc rpc_maxdatasize)
      &&& on_field (λ (r : RmtCallRes R). r.results_len) (λ r v. record r { results_len = v })
          (xdr_u_int x)
      &&& on_field (λ (r : RmtCallRes R). r.results_val) (λ r v. record r { results_val = v })
          xdr_res

  -- The bound of the bytes is the `maxlen` just sent or received.
  abbrev pub netbuf_bytes : Filter S Netbuf
  netbuf_bytes op b s =
      on_field (λ (b : Netbuf). b.contents) (λ b v. record b { contents = v })
        (xdr_bytes x mem_alloc b.maxlen) op b s

  unfoldable pub xdr_netbuf : Filter S Netbuf
  xdr_netbuf =
      on_field (λ (b : Netbuf). b.maxlen) (λ b v. record b { maxlen = v }) (xdr_u_int32_t x)
      &&& holds (λ b. leb b.maxlen rpc_maxdatasize)
      &&& netbuf_bytes
