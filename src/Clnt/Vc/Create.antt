-- ===== src/Clnt/Vc/Create.antt =====
-- `clnt_vc_create` of libsrc/clnt_vc.c, with `__rpc_get_t_size` of libsrc/rpc_generic.c.
use oncrpc4_win.Common.{
  ℕ, ◌*◌, ◌^◌, Bool, true, false, ◌&&◌, not, Option, none, some, List, ltb, ◌==◌, if◌then◌else◌,
}
use oncrpc4_win.Xdr.Stream.{encode}
use oncrpc4_win.Xdr.Mem.{MemStream, mem_ops, xdrmem_create, getpos}
use oncrpc4_win.Xdr.RecStream.{xdrrec_create}
use oncrpc4_win.Rpc.Msg.{CallMsg, call, rpc_msg_version}
use oncrpc4_win.Rpc.Reply.{xdr_callhdr}
use oncrpc4_win.Clnt.Vc.{CtData}

-- The protocols of `struct __rpc_sockinfo` that are told apart.
pub data Proto : Type 0 where
  tcp udp other : Proto

-- `defsize`, with UDPMSGSIZE and RPC_MAXDATASIZE of the platform's headers.
abbrev pub default_size : ℕ → ℕ → Proto → ℕ
default_size udpmsgsize maxdatasize tcp = 64 * 1024
default_size udpmsgsize maxdatasize udp = udpmsgsize
default_size udpmsgsize maxdatasize other = maxdatasize

-- `__rpc_get_t_size`; `size` is the pattern of an `int`, and a negative one is below the limit.
unfoldable pub rpc_get_t_size : ℕ → ℕ → Proto → ℕ → ℕ
rpc_get_t_size udpmsgsize maxdatasize proto size =
    if size == 0
    then default_size udpmsgsize maxdatasize proto
    else if ltb (256 * 1024) size && ltb size (2 ^ 31)
    then 256 * 1024
    else size

-- What the system grants: memory for the client and its data, a socket that is connected or can be,
-- the protocol that `__rpc_fd2sockinfo` finds, and memory for the address.
pub record Granted : Type 0 where
  pub has_memory : Bool
  pub connected : Bool
  pub sockinfo : Option Proto
  pub has_addr : Bool

-- The call message on the stack, with the fields that are set.
abbrev pub call_msg : CallMsg → ℕ → ℕ → ℕ → CallMsg
call_msg m xid prog vers = record m {
  xid = xid;
  direction = call;
  body = record m.body { rpcvers = rpc_msg_version; prog = prog; vers = vers };
}

module _ {O : Type 0} (mem_alloc : ℕ → Option (List ℕ)) (udpmsgsize maxdatasize : ℕ) where
  -- From `xdr_callhdr` on: `none` is `goto fooy`. `ct` is what `mem_alloc` gave, and the socket.
  -- `xdrmem_create` has set the operation of the stream, which `xdrrec_create` leaves.
  abbrev pub marshalled : Proto → ℕ → ℕ → CtData O → Bool × CallMsg × MemStream → Option (CtData O)
  marshalled proto sendsz recvsz ct (false, m, s) = none
  marshalled proto sendsz recvsz ct (true, m, s) = some (record {
    wait = record ct.wait { usec = 0 };
    waitset = false;
    mcallc = s.mem;
    mpos = getpos s;
    xdrs =
        xdrrec_create encode ct.xdrs.inp.conn (rpc_get_t_size udpmsgsize maxdatasize proto sendsz)
          (rpc_get_t_size udpmsgsize maxdatasize proto recvsz);
  })

  -- The socket's protocol is known.
  abbrev pub with_sockinfo :
      Bool → ℕ → ℕ → ℕ → ℕ → ℕ → ℕ → CallMsg → CtData O → Option Proto → Option (CtData O)
  with_sockinfo has_addr addr xid prog vers sendsz recvsz m ct none = none
  with_sockinfo has_addr addr xid prog vers sendsz recvsz m ct (some proto) =
      if not has_addr
      then none
      else marshalled proto sendsz recvsz ct (
          xdr_callhdr mem_ops mem_alloc encode (call_msg m xid prog vers)
            (xdrmem_create addr ct.mcallc 24))

  -- `addr` is the address of `ct_mcallc`, `xid` what `__RPC_GETXID` gives, and `m` what stands in the
  -- local `call_msg`.
  unfoldable pub clnt_vc_create :
      Granted → ℕ → ℕ → ℕ → ℕ → ℕ → ℕ → CallMsg → CtData O → Option (CtData O)
  clnt_vc_create g addr xid prog vers sendsz recvsz m ct =
      if not g.has_memory
      then none
      else if not g.connected
      then none
      else with_sockinfo g.has_addr addr xid prog vers sendsz recvsz m ct g.sockinfo
