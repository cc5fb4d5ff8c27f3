-- ===== src/Rpc.antt =====
-- RPC messages: include/rpc/rpc_msg.h, and the filters of libsrc/rpc_prot.c and
-- libsrc/rpc_callmsg.c.
pub mod CallMsg
pub mod Msg
pub mod Auth
pub mod Reply
pub mod Lists
pub mod Authunix
pub mod Rpcb
pub mod Pmap
pub mod RoundTrip
