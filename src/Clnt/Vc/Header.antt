-- ===== src/Clnt/Vc/Header.antt =====
-- The header that a client marshals once, and the transaction id that each call has.
use oncrpc4_win.Common.{
  ℕ, ◌+◌, ◌-◌, ◌*◌, ◌/◌, ◌%◌, ◌^◌, ◌<◌, ◌≡◌, refl, sym, ap, List, [], ◌∷◌, ◌++◌, arith,
}
use oncrpc4_win.Common.Words.{IsU32, be32, word, word_of}
use oncrpc4_win.Xdr.Opaque.{rndup}
use oncrpc4_win.Xdr.Opaque.Laws.{units}
use oncrpc4_win.Rpc.Auth.Laws.{auth_wire}
use oncrpc4_win.Rpc.CallMsg.Laws.{Call, call_wire}
use oncrpc4_win.Clnt.Vc.{next_xid}

-- What `xdr_callhdr` puts at `ct_mcallc`, in 20 of 24 bytes.
unfoldable pub header : ℕ → ℕ → ℕ → List ℕ
header xid prog vers = be32 xid ++ (be32 0 ++ (be32 2 ++ (be32 prog ++ be32 vers)))

-- The id of the next call.
unfoldable pub xid_after : ℕ → ℕ
xid_after xid = word_of (next_xid (be32 xid))

four :
    {a b c d a' b' c' d' : ℕ}
    → a ≡ a'
    → b ≡ b'
    → c ≡ c'
    → d ≡ d'
    → ◌≡◌ {A = List ℕ} (a ∷ b ∷ c ∷ d ∷ []) (a' ∷ b' ∷ c' ∷ d' ∷ [])
four ea eb ec ed = rw (ea, eb, ec, ed) refl

bytes_word :
    (a b c d : ℕ)
    → a < 256
    → b < 256
    → c < 256
    → d < 256
    → be32 (word_of (a ∷ b ∷ c ∷ d ∷ [])) ≡ a ∷ b ∷ c ∷ d ∷ []
unfolding be32 word_of word
bytes_word a b c d ha hb hc hd = four (omega arith) (omega arith) (omega arith) (omega arith)

-- The number that a little-endian machine reads, less one.
abbrev less_one : ℕ → ℕ → ℕ → ℕ → ℕ
less_one a b c d = (a + b * 256 + c * 65536 + d * 16777216 + (2 ^ 32 - 1)) % 2 ^ 32

next_bytes :
    (a b c d : ℕ) (tail : List ℕ)
    → next_xid (a ∷ b ∷ c ∷ d ∷ tail) ≡ be32 (word_of (next_xid (a ∷ b ∷ c ∷ d ∷ []))) ++ tail
unfolding next_xid
next_bytes a b c d tail =
    let v : ℕ = less_one a b c d in
    ap (λ t. t ++ tail)
      (sym (
        bytes_word (v % 256) (v / 256 % 256) (v / 65536 % 256) (v / 16777216) (omega arith)
          (omega arith) (omega arith) (omega arith)))

-- Each call has its own id in front, and the rest of the header as it was.
pub next_xid-append :
    (xid : ℕ) (tail : List ℕ) → next_xid (be32 xid ++ tail) ≡ be32 (xid_after xid) ++ tail
unfolding xid_after be32
next_xid-append xid tail =
    next_bytes (xid / 2 ^ 24 % 256) (xid / 2 ^ 16 % 256) (xid / 2 ^ 8 % 256) (xid % 256) tail

four_bytes :
    (a b c d : ℕ) → a < 256 → b < 256 → c < 256 → d < 256 → IsU32 (word_of (a ∷ b ∷ c ∷ d ∷ []))
unfolding word_of word
four_bytes a b c d ha hb hc hd = omega arith

pub xid_after-IsU32 : (xid : ℕ) → IsU32 (xid_after xid)
unfolding xid_after be32 next_xid
xid_after-IsU32 xid =
    let v : ℕ =
      less_one (xid / 2 ^ 24 % 256) (xid / 2 ^ 16 % 256) (xid / 2 ^ 8 % 256) (xid % 256) in
    four_bytes (v % 256) (v / 256 % 256) (v / 65536 % 256) (v / 16777216) (omega arith)
      (omega arith) (omega arith) (omega arith)

-- A call with empty credentials and an empty verifier.
abbrev pub none_call : ℕ → ℕ → ℕ → ℕ → Call
none_call xid prog vers proc = record {
  xid = xid;
  prog = prog;
  vers = vers;
  proc = proc;
  cred_flavor = 0;
  cred = [];
  verf_flavor = 0;
  verf = [];
}

-- With AUTH_NONE, what a client sends is a call in the layout of the protocol, and its arguments.
pub authnone_call :
    (xid prog vers proc : ℕ) (bs : List ℕ)
    → (header xid prog vers ++ be32 proc) ++ ((auth_wire 0 [] ++ auth_wire 0 []) ++ bs)
      ≡ call_wire (none_call xid prog vers proc) ++ bs
unfolding header be32 call_wire auth_wire units rndup
authnone_call xid prog vers proc bs = refl
