-- ===== src/Rpc/Msg.antt =====
-- The message types of include/rpc/rpc_msg.h. The arms of a C union are fields of their own: the
-- code reads the arm that it wrote, or that the discriminant names. Enumerators are their numbers.
use oncrpc4_win.Common.{ℕ}
use oncrpc4_win.Xdr.Opaque.{Counted}

-- `struct opaque_auth`; `body` is `oa_base` with `oa_length`.
pub record OpaqueAuth : Type 0 where
  pub flavor : ℕ
  pub body : Counted

-- MAX_AUTH_BYTES.
abbrev pub max_auth_bytes : ℕ
max_auth_bytes = 400

-- `enum msg_type`.
abbrev pub call : ℕ
call = 0

abbrev pub reply : ℕ
reply = 1

-- `enum reply_stat`.
abbrev pub msg_accepted : ℕ
msg_accepted = 0

abbrev pub msg_denied : ℕ
msg_denied = 1

-- `enum accept_stat`.
abbrev pub success : ℕ
success = 0

abbrev pub prog_unavail : ℕ
prog_unavail = 1

abbrev pub prog_mismatch : ℕ
prog_mismatch = 2

abbrev pub proc_unavail : ℕ
proc_unavail = 3

abbrev pub garbage_args : ℕ
garbage_args = 4

abbrev pub system_err : ℕ
system_err = 5

-- `enum reject_stat`.
abbrev pub rpc_mismatch : ℕ
rpc_mismatch = 0

abbrev pub auth_error : ℕ
auth_error = 1

-- RPC_MSG_VERSION.
abbrev pub rpc_msg_version : ℕ
rpc_msg_version = 2

-- `struct call_body`.
pub record CallBody : Type 0 where
  pub rpcvers : ℕ
  pub prog : ℕ
  pub vers : ℕ
  pub proc : ℕ
  pub cred : OpaqueAuth
  pub verf : OpaqueAuth

-- `AR_versions` and `RJ_versions`.
pub record Versions : Type 0 where
  pub low : ℕ
  pub high : ℕ

-- `struct accepted_reply`; the results are an object of type `R`.
pub record AcceptedReply (R : Type 0) : Type 0 where
  pub verf : OpaqueAuth
  pub stat : ℕ
  pub vers : Versions
  pub results : R

-- `struct rejected_reply`.
pub record RejectedReply : Type 0 where
  pub stat : ℕ
  pub vers : Versions
  pub why : ℕ

-- The union `ru` of `struct reply_body`.
pub record ReplyArms (R : Type 0) : Type 0 where
  pub acpt : AcceptedReply R
  pub rjct : RejectedReply

-- `struct rpc_msg` of a call, and of a reply.
pub record CallMsg : Type 0 where
  pub xid : ℕ
  pub direction : ℕ
  pub body : CallBody

pub record ReplyMsg (R : Type 0) : Type 0 where
  pub xid : ℕ
  pub direction : ℕ
  pub stat : ℕ
  pub ru : ReplyArms R
