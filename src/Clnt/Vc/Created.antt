-- ===== src/Clnt/Vc/Created.antt =====
-- What a client is when `clnt_vc_create` has made it.
use oncrpc4_win.Common.{
  ℕ, ◌-◌, ◌^◌, ◌<◌, ◌≡◌, refl, sym, ap, ◌∙◌, Bool, true, false, Option, none, some, List, [], ◌++◌,
  drop, length, arith, take-append-drop, length-take,
}
use oncrpc4_win.Common.Words.{be32}
use oncrpc4_win.Xdr.Stream.{encode, XdrOps, XdrLaws}
use oncrpc4_win.Xdr.Codec.{Encoded, Encodes, on_field-Encodes, &&&-Encodes}
use oncrpc4_win.Xdr.Scalar.Laws.{xdr_enum-Encodes, xdr_u_int32_t-Encodes}
use oncrpc4_win.Xdr.Mem.{MemStream, mem_ops, xdrmem_create, getpos}
use oncrpc4_win.Xdr.Mem.Laws.{mem_laws}
use oncrpc4_win.Xdr.Rec.Output.{Holds}
use oncrpc4_win.Xdr.RecIn.Input.{Transport}
use oncrpc4_win.Xdr.RecIn.Fragments.{Held}
use oncrpc4_win.Xdr.RecStream.Create.{xdrrec_create-Holds, xdrrec_create-Held}
use oncrpc4_win.Rpc.Msg.{CallMsg}
use oncrpc4_win.Rpc.Reply.{xdr_callhdr}
use oncrpc4_win.Clnt.Vc.{CtHandle, CtData}
use oncrpc4_win.Clnt.Vc.Header.{header}
use oncrpc4_win.Clnt.Vc.Calls.{IsClient}
use oncrpc4_win.Clnt.Vc.Create.{
  Proto, tcp, udp, other, rpc_get_t_size, Granted, call_msg, marshalled, clnt_vc_create,
}

-- Any size that is asked for becomes one that a stream can use.
size_fits :
    (udpmsgsize maxdatasize : ℕ) (proto : Proto) (size : ℕ)
    → udpmsgsize < 2 ^ 31 - 4
    → maxdatasize < 2 ^ 31 - 4
    → size < 2 ^ 31
    → rpc_get_t_size udpmsgsize maxdatasize proto size < 2 ^ 31 - 4
unfolding rpc_get_t_size
size_fits udpmsgsize maxdatasize tcp size hu hm hs = ground arith
size_fits udpmsgsize maxdatasize udp size hu hm hs = ground arith
size_fits udpmsgsize maxdatasize other size hu hm hs = ground arith

module _ {S : Type 0} {x : XdrOps S} (laws : XdrLaws x) (mem_alloc : ℕ → Option (List ℕ)) where
  xdr_callhdr-Encodes :
      (m : CallMsg) (xid prog vers : ℕ)
      → Encodes laws (xdr_callhdr x mem_alloc) (call_msg m xid prog vers) (header xid prog vers)
  unfolding xdr_callhdr header
  xdr_callhdr-Encodes m0 xid prog vers =
      let m : CallMsg = call_msg m0 xid prog vers in
      &&&-Encodes laws _ _ m (be32 xid) _
        (on_field-Encodes laws _ _ _ m _ refl (xdr_u_int32_t-Encodes laws xid))
        (&&&-Encodes laws _ _ m (be32 0) _
          (on_field-Encodes laws _ _ _ m _ refl (xdr_enum-Encodes laws 0))
          (&&&-Encodes laws _ _ m (be32 2) _
            (on_field-Encodes laws _ _ _ m _ refl (xdr_u_int32_t-Encodes laws 2))
            (&&&-Encodes laws _ _ m (be32 prog) (be32 vers)
              (on_field-Encodes laws _ _ _ m _ refl (xdr_u_int32_t-Encodes laws prog))
              (on_field-Encodes laws _ _ _ m _ refl (xdr_u_int32_t-Encodes laws vers)))))

-- A client that is ready for its first call, on a stream that is between two records both ways.
abbrev pub Made :
    {O : Type 0} {readit : CtHandle O → ℕ → Option (List ℕ) × CtHandle O}
    → Transport readit
    → ℕ
    → ℕ
    → ℕ
    → List ℕ
    → Option (CtData O)
    → Type 0
Made t xid prog vers bs none = ⊥
Made t xid prog vers bs (some ct) =
    IsClient ct xid prog vers × Holds ct.xdrs.out [] [] × Held t ct.xdrs.inp [] bs

module _ {O : Type 0} {readit : CtHandle O → ℕ → Option (List ℕ) × CtHandle O}
    (t : Transport readit) (mem_alloc : ℕ → Option (List ℕ)) (udpmsgsize maxdatasize : ℕ)
    (hu : udpmsgsize < 2 ^ 31 - 4) (hm : maxdatasize < 2 ^ 31 - 4) where
  marshalled-Made :
      (proto : Proto) (addr xid prog vers sendsz recvsz : ℕ) (m : CallMsg) (ct : CtData O)
      (bs : List ℕ)
      → sendsz < 2 ^ 31
      → recvsz < 2 ^ 31
      → t.Delivers ct.xdrs.inp.conn bs
      → (r : Bool × CallMsg × MemStream)
      → Encoded mem_laws m (header xid prog vers) (xdrmem_create addr ct.mcallc 24) 0 r
      → Made t xid prog vers bs
          (marshalled mem_alloc udpmsgsize maxdatasize proto sendsz recvsz ct r)
  unfolding xdrmem_create getpos header be32
  marshalled-Made proto addr xid prog vers sendsz recvsz m ct bs hs hr h (false, m', s)
        (ok, e, out, room) =
      cc
  marshalled-Made proto addr xid prog vers sendsz recvsz m ct bs hs hr h (true, m', s)
        (ok, e, out, room) =
      (
        record {
          behind = drop s.private s.mem;
          marshalled =
              sym (take-append-drop s.private s.mem) ∙ ap (λ w. w ++ drop s.private s.mem) out;
          position = sym (length-take s.private s.mem (omega arith)) ∙ ap length out;
        },
        xdrrec_create-Holds encode ct.xdrs.inp.conn _ _
            (size_fits udpmsgsize maxdatasize proto sendsz hu hm hs)
            (size_fits udpmsgsize maxdatasize proto recvsz hu hm hr),
        xdrrec_create-Held encode ct.xdrs.inp.conn _ _
            (size_fits udpmsgsize maxdatasize proto sendsz hu hm hs)
            (size_fits udpmsgsize maxdatasize proto recvsz hu hm hr) t bs h,
      )

  -- When the system grants what `clnt_vc_create` asks for, and the sizes are not negative, it returns
  -- a client that is ready to call: the header of its calls is marshalled, with the transaction id,
  -- the program and the version, in 20 of the 24 bytes that there are for it; and its stream is at
  -- the end of a record in both directions, with buffers of a size that it can use.
  pub clnt_vc_create-Made :
      (g : Granted) (proto : Proto) (addr xid prog vers sendsz recvsz : ℕ) (m : CallMsg)
      (ct : CtData O) (bs : List ℕ)
      → g ≡ record { has_memory = true; connected = true; sockinfo = some proto; has_addr = true }
      → length ct.mcallc ≡ 24
      → sendsz < 2 ^ 31
      → recvsz < 2 ^ 31
      → t.Delivers ct.xdrs.inp.conn bs
      → Made t xid prog vers bs
          (clnt_vc_create mem_alloc udpmsgsize maxdatasize g addr xid prog vers sendsz recvsz m ct)
  unfolding clnt_vc_create
  clnt_vc_create-Made g proto addr xid prog vers sendsz recvsz m ct bs eg el hs hr h = rw (eg) (
      marshalled-Made proto addr xid prog vers sendsz recvsz (call_msg m xid prog vers) ct bs hs hr
        h
        (xdr_callhdr mem_ops mem_alloc encode (call_msg m xid prog vers)
          (xdrmem_create addr ct.mcallc 24))
        (xdr_callhdr-Encodes mem_laws mem_alloc m xid prog vers (xdrmem_create addr ct.mcallc 24) 0
          (unfold xdrmem_create in
            unfold header in unfold be32 in (omega arith, omega (arith, el)))))
