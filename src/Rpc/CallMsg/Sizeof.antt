-- ===== src/Rpc/CallMsg/Sizeof.antt =====
-- The size of a call, which `xdr_sizeof` takes with or without a buffer to lend.
use oncrpc4_win.Common.{
  ℕ, ◌+◌, ◌%◌, ◌^◌, ◌≡◌, refl, ap, ◌∙◌, Bool, true, false, Option, none, some, List, length, arith,
  if◌then◌else◌, ltb-false, ==_false,
}
use oncrpc4_win.Xdr.Sizeof.{SizeStream, x_inline, scratch, size_ops, xdr_sizeof}
use oncrpc4_win.Xdr.Sizeof.Laws.{start, size_laws}
use oncrpc4_win.Rpc.Msg.{CallMsg}
use oncrpc4_win.Rpc.Auth.Laws.{auth}
use oncrpc4_win.Rpc.CallMsg.{round_up, call_size, encode_at, poke_auth, xdr_callmsg}
use oncrpc4_win.Rpc.CallMsg.Laws.{Call, IsCall, message_of, call_wire, call_fields-Encodes}
use oncrpc4_win.Rpc.CallMsg.Encode.{length-call_wire}

module _ (mem_alloc lent : ℕ → Option (List ℕ)) where
  abbrev IsSized : ℕ → Bool × CallMsg × SizeStream → Type 0
  IsSized n (ok, m, s) = (ok ≡ true) × (s.handy % 2 ^ 32 ≡ n % 2 ^ 32)

  poke_auth_same :
      (flavor : ℕ) (body : List ℕ) (s : SizeStream) (p : ℕ)
      → poke_auth (size_ops lent) mem_alloc (auth flavor body) s p ≡ s
  unfolding size_ops
  poke_auth_same flavor body s p = ground arith

  poked-IsSized :
      (c : Call) (s : SizeStream) (p n : ℕ)
      → s.handy % 2 ^ 32 ≡ n % 2 ^ 32
      → IsSized n (encode_at (size_ops lent) mem_alloc (message_of c) (some p, s))
  unfolding size_ops
  poked-IsSized c s p n e = (
    refl,
    ap (λ (s : SizeStream). s.handy % 2 ^ 32)
          (poke_auth_same c.verf_flavor c.verf
              (poke_auth (size_ops lent) mem_alloc (auth c.cred_flavor c.cred) s (p + 24))
              (p + 32 + round_up (length c.cred))
            ∙ poke_auth_same c.cred_flavor c.cred s (p + 24))
        ∙ e,
  )

  -- What the stream has lent, or not.
  lent-IsSized :
      (c : Call) (o : Option (List ℕ))
      → IsCall c
      → IsSized (length (call_wire c)) (
          encode_at
            (size_ops lent)
            mem_alloc
            (message_of c)
            (scratch o (call_size (size_ops lent) mem_alloc (message_of c)) start))
  unfolding size_laws
  lent-IsSized c none h =
      let (ok, e, count, room) = call_fields-Encodes (size_laws lent) mem_alloc c h start 0 tt in
      (ok, count ∙ omega arith)
  lent-IsSized c (some buf) h =
      poked-IsSized c
        (scratch (some buf) (call_size (size_ops lent) mem_alloc (message_of c)) start).1 0
        (length (call_wire c)) (omega (arith, length-call_wire (size_ops lent) mem_alloc c))

  counted :
      (n : ℕ) (r : Bool × CallMsg × SizeStream)
      → IsSized n r
      → (let (stat, _, x) = r in if stat then x.handy else 0) % 2 ^ 32 ≡ n % 2 ^ 32
  counted n (false, m, s) (ok, e) = cc
  counted n (true, m, s) (ok, e) = e

  asked :
      (c : Call)
      → x_inline lent start (call_size (size_ops lent) mem_alloc (message_of c))
        ≡ scratch
            (lent (call_size (size_ops lent) mem_alloc (message_of c)))
            (call_size (size_ops lent) mem_alloc (message_of c))
            start
  unfolding x_inline
  asked c =
      let n : ℕ = call_size (size_ops lent) mem_alloc (message_of c) in
      rw (==_false n 0 (omega arith), ltb-false n 0 (omega arith)) refl

  wire-IsU32 : (c : Call) → IsCall c → length (call_wire c) % 2 ^ 32 ≡ length (call_wire c)
  unfolding round_up
  wire-IsU32 c h = omega (
    arith,
    length-call_wire (size_ops lent) mem_alloc c,
    h.cred_fits.body_fits,
    h.verf_fits.body_fits,
  )

  -- Whether the counting stream has memory to lend, so that xdr_callmsg writes into a scratch
  -- buffer, or has not, so that it goes through the filters of the fields: xdr_sizeof returns the
  -- number of bytes that the call has in the layout of the protocol.
  pub xdr_sizeof-xdr_callmsg :
      (c : Call)
      → IsCall c
      → xdr_sizeof lent (λ x. xdr_callmsg x mem_alloc) (message_of c) % 2 ^ 32
        ≡ length (call_wire c)
  unfolding xdr_sizeof xdr_callmsg size_ops
  xdr_sizeof-xdr_callmsg c h =
      rw
        (
          ltb-false 400 (length c.cred) h.cred_fits.body_fits,
          ltb-false 400 (length c.verf) h.verf_fits.body_fits,
          asked c,
        )
        (counted (length (call_wire c))
            (encode_at (size_ops lent) mem_alloc (message_of c) (
              scratch (lent (call_size (size_ops lent) mem_alloc (message_of c)))
                (call_size (size_ops lent) mem_alloc (message_of c)) start))
            (lent-IsSized c (lent (call_size (size_ops lent) mem_alloc (message_of c))) h)
          ∙ wire-IsU32 c h)
