-- ===== src/Lib.antt =====
-- The XDR library of libsrc, the RPC messages built on it, both ends of a connection, the server's list
-- of callouts and its cache of replies, and the registry of rpcbind.
--
-- Parts of the program, and the files that model them. A stream (`XDR`) is a state with a table of
-- operations; a filter (`xdrproc_t`) encodes, decodes or frees one object on a stream. Filters are
-- composed to the filters of messages, which the transports call.
--
--   include/rpc/xdr.h            Xdr/Stream: `XdrOps` (struct xdr_ops), `Filter` (xdrproc_t), the
--                                combinators `on_field`, `&&&` and `holds` for `&&` chains, and
--                                `XdrLaws`, what a stream owes its filters
--   libsrc/xdr_mem.c             Xdr/Mem (xdrmem_*), Xdr/Mem/Laws
--   libsrc/xdr.c                 Xdr/Scalar (integers, booleans, enumerations), Xdr/Opaque
--                                (xdr_opaque, xdr_bytes), Xdr/CString (xdr_string), Xdr/Union
--   libsrc/xdr_array.c           Xdr/Array
--   libsrc/xdr_reference.c       Xdr/Reference
--   libsrc/xdr_sizeof.c          Xdr/Sizeof
--   libsrc/xdr_rec.c             output: Xdr/Rec, with Xdr/Rec/Output and Xdr/Rec/Bytes; input:
--                                Xdr/RecIn (xdrrec_getbytes, xdrrec_getlong), Xdr/RecIn/Skip
--                                (xdrrec_skiprecord, xdrrec_eof), Xdr/RecIn/Nonblock
--                                (__xdrrec_getrec); Xdr/RecIn/Input and Xdr/RecIn/Fragments say what
--                                a transport delivers and what a record is on the wire
--                                both directions behind one handle: Xdr/RecStream (xdrrec_create,
--                                xdrrec_inline, xdrrec_ops); Xdr/RecStream/Laws and
--                                Xdr/RecStream/Lends show that it keeps the laws of a stream
--   libsrc/rpc_prot.c            Rpc/Auth, Rpc/Reply, Rpc/Reply/Errors (_seterr_reply)
--   libsrc/rpc_callmsg.c         Rpc/CallMsg; its paths in Rpc/CallMsg/Decode (what a stream that lends
--                                its buffer owes a reader), Rpc/CallMsg/Encode, Rpc/CallMsg/Whole,
--                                Rpc/CallMsg/Sizeof (on the counting stream)
--   libsrc/pmap_prot.c, libsrc/pmap_prot2.c    Rpc/Pmap, with the loop of Rpc/Lists
--   libsrc/rpcb_prot.c           Rpc/Rpcb, with the loop of Rpc/Lists
--   libsrc/authunix_prot.c       Rpc/Authunix
--   libsrc/svc.c                 Svc (svc_find, svc_reg, svc_unreg, the search of
--                                svc_getreq_common), with Svc/Find, Svc/Register and Svc/Serve
--   libsrc/svc_dg.c              Svc/Dg, the cache of replies: Svc/Dg/Ring (uc_fifo), Svc/Dg/Chains
--                                (uc_entries), Svc/Dg/Cache, Svc/Dg/Replay
--   libsrc/svc_vc.c              Svc/Vc (svc_vc_recv, svc_vc_getargs, svc_vc_reply, svc_vc_stat), with
--                                Svc/Vc/Calls and Svc/Vc/Replies
--   libsrc/clnt_vc.c             Clnt/Vc (the parts of clnt_vc_call), Clnt/Vc/Call, and Clnt/Vc/Create
--                                (clnt_vc_create, with __rpc_get_t_size of libsrc/rpc_generic.c); what
--                                it sends in Clnt/Vc/Header and Clnt/Vc/Sends, what it waits for in
--                                Clnt/Vc/Replies and Clnt/Vc/Await, and what it returns in
--                                Clnt/Vc/Success, Clnt/Vc/Refusal and Clnt/Vc/Returns; Clnt/Vc/Served
--                                puts the client and the server together
--   libsrc/auth_none.c           Clnt/Auth, with struct auth_ops of include/rpc/auth.h
--   rpcbind/rpcb_svc_com.c, rpcbind/pmap_svc.c    Rpcbind/Registry (map_set, map_unset, find_service,
--                                add_pmaplist, del_pmaplist), with Rpcbind/Registry/Set and
--                                Rpcbind/Registry/Unset
--   include/rpc/rpc_msg.h        Rpc/Msg
--
-- A filter is proved against the laws of a stream, not against one stream: Xdr/Codec says what
-- encoding and decoding an object promise (`Encodes`, `Decodes`), and that this is kept by the
-- combinators; Xdr/Mem/Laws, Xdr/Sizeof/Laws and Xdr/RecStream/Laws show that the memory stream, the
-- counting stream and the record stream keep the laws, so that the transports, which work on a record
-- stream, have the filters of messages with all that is proved of them. Xdr/RoundTrip and
-- Rpc/RoundTrip put the two directions together. Xdr/Kept and Xdr/Memory are about all streams, lawful
-- or not. Tests runs the models at concrete inputs.
--
-- Numbers. Integers are bit patterns in ℕ, and `long` has 32 bits, as on Windows; the addresses that
-- xdrmem_setpos compares have 32 bits too. Sizes and counts
-- wrap at 2^32 where the code computes with `u_int`. Memory is lists of bytes; an object that a
-- pointer may own is an `Option`. The allocator is a parameter: it returns a buffer or fails; what it
-- keeps account of is not modelled, so that to free a buffer is to forget it.
--
-- Fuel. The loop over linked lists takes one round for each element and one for the end of the list;
-- the decoder's loop has no bound of its own in the code, it ends with the input. The loop of
-- svc_unreg takes at most one round for each callout, and one more; that of xdrrec_putbytes at most
-- one for each byte, and two more. The input of a record stream takes at most two rounds for a byte,
-- one that fills the buffer and one that empties it, and as many for a header; to skip a record it
-- takes at most as many as the record has bytes on the wire, which are at most five for each of its
-- own and four more. The loop of clnt_vc_call takes a round for each reply, and its calls are at most
-- three, since it refreshes the credentials twice at most.
--
-- Not modelled: the position of a record stream (xdrrec_getpos, xdrrec_setpos), the sockets of the
-- transports and the locks around them, new connections of a server, the control operations of a
-- client, the table of server transports and the binder's daemon around its registry; stdio and
-- floating point, which are the platform's; rpcgen, rpcinfo and the Windows service wrappers, which
-- are tools around the library; ucpp, which is a copy of another project.
pub mod Common
pub mod Xdr
pub mod Rpc
pub mod Svc
pub mod Rpcbind
pub mod Clnt
pub mod Tests
