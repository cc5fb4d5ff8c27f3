-- ===== src/Rpc/CallMsg/Encode.antt =====
-- The fast path of `xdr_callmsg` on XDR_ENCODE, in the buffer of a memory stream.
use oncrpc4_win.Common.{
  ℕ, ◌+◌, ◌≡◌, refl, sym, ap, ◌∙◌, true, Option, List, [], ◌∷◌, ◌++◌, length, take, drop, arith,
  write_at, append_assoc, length-append, drop-append_length, take-append_length, ==_false,
  append-nil, take_all,
}
use oncrpc4_win.Common.Words.{be32}
use oncrpc4_win.Xdr.Mem.{MemStream, mem_ops}
use oncrpc4_win.Xdr.Stream.{XdrOps}
use oncrpc4_win.Xdr.Opaque.{rndup}
use oncrpc4_win.Xdr.Opaque.Laws.{units, length-units}
use oncrpc4_win.Rpc.Auth.Laws.{auth, auth_wire}
use oncrpc4_win.Rpc.CallMsg.{round_up, poke_auth, poke_call, call_size}
use oncrpc4_win.Rpc.CallMsg.Decode.{round_up_lem}
use oncrpc4_win.Rpc.CallMsg.Laws.{Call, message_of, call_wire}

one_word : (a : ℕ) → length (be32 a) ≡ 4
unfolding be32
one_word a = refl

two_words : (a b : ℕ) → length (be32 a ++ be32 b) ≡ 8
unfolding be32
two_words a b = refl

three_words : (a b c : ℕ) → length (be32 a ++ (be32 b ++ be32 c)) ≡ 12
unfolding be32
three_words a b c = refl

-- `memmove` into a buffer that is known in parts.
write_at-append :
    (before old bs after : List ℕ)
    → length old ≡ length bs
    → write_at (before ++ (old ++ after)) (length before) bs ≡ (before ++ bs) ++ after
write_at-append before old bs after e =
    ap (λ t. t ++ (bs ++ drop (length before + length bs) (before ++ (old ++ after))))
      (take-append_length before (old ++ after) (length before) refl)
    ∙ ap (λ t. before ++ (bs ++ t))
        (ap (drop (length before + length bs)) (sym (append_assoc before old after))
          ∙ drop-append_length (before ++ old) after (length before + length bs)
              (omega (arith, e, length-append before old)))
    ∙ sym (append_assoc before bs after)

length-auth_wire :
    (flavor : ℕ) (body : List ℕ) → length (auth_wire flavor body) ≡ 8 + round_up (length body)
unfolding auth_wire
length-auth_wire flavor body = omega (
  arith,
  length-append (be32 flavor) (be32 (length body) ++ units (length body) body),
  length-append (be32 (length body)) (units (length body) body),
  one_word flavor,
  one_word (length body),
  length-units (length body) body (omega arith),
  round_up_lem (length body),
)

-- The size that `xdr_callmsg` asks the stream for is that of the layout.
pub length-call_wire :
    {S : Type 0} (x : XdrOps S) (mem_alloc : ℕ → Option (List ℕ)) (c : Call)
    → length (call_wire c) ≡ call_size x mem_alloc (message_of c)
unfolding call_wire be32
length-call_wire x mem_alloc c = omega (
  arith,
  length-append (auth_wire c.cred_flavor c.cred) (auth_wire c.verf_flavor c.verf),
  length-auth_wire c.cred_flavor c.cred,
  length-auth_wire c.verf_flavor c.verf,
)

module _ (mem_alloc : ℕ → Option (List ℕ)) where
  poke_next :
      (s : MemStream) (p : ℕ) (before old bs after : List ℕ)
      → s.mem ≡ before ++ (old ++ after)
      → p ≡ length before
      → length old ≡ length bs
      → (mem_ops.poke s p bs).mem ≡ (before ++ bs) ++ after
  unfolding mem_ops
  poke_next s p before old bs after em ep e =
      ap (λ t. write_at t p bs) em
      ∙ ap (λ q. write_at (before ++ (old ++ after)) q bs) ep
      ∙ write_at-append before old bs after e

  -- The header and the body of an authenticator.
  poke_auth_lem :
      (flavor : ℕ) (body : List ℕ) (s : MemStream) (p : ℕ) (before header room after : List ℕ)
      → s.mem ≡ before ++ (header ++ (room ++ after))
      → p ≡ length before
      → length header ≡ 8
      → length room ≡ length body
      → (poke_auth mem_ops mem_alloc (auth flavor body) s p).mem
        ≡ ((before ++ (be32 flavor ++ be32 (length body))) ++ body) ++ after
  poke_auth_lem flavor [] s p before header [] after em ep eh er =
      poke_next s p before header (be32 flavor ++ be32 0) after em ep
        (eh ∙ sym (two_words flavor 0))
      ∙ ap (λ t. t ++ after) (sym (append-nil (before ++ (be32 flavor ++ be32 0))))
  poke_auth_lem flavor [] s p before header (r ∷ room) after em ep eh er = absurd (omega arith)
  poke_auth_lem flavor (b ∷ bs) s p before header room after em ep eh er =
      let body : List ℕ = b ∷ bs in
      let words : List ℕ = be32 flavor ++ be32 (length body) in
      let whole : take (length body) body ≡ body = take_all (length body) body (omega arith) in
      let eight : length words ≡ 8 = two_words flavor (length body) in
      let t : MemStream = mem_ops.poke s p words in
      rw (==_false (length body) 0 (omega arith)) (
        poke_next t (p + 8) (before ++ words) room (take (length body) body) after
          (poke_next s p before header words (room ++ after) em ep (eh ∙ sym eight))
          (omega (arith, ep, eight, length-append before words)) (er ∙ sym (ap length whole))
        ∙ ap (λ w. ((before ++ words) ++ w) ++ after) whole)

  stays :
      (flavor : ℕ) (body : List ℕ) (s : MemStream) (p : ℕ)
      → (poke_auth mem_ops mem_alloc (auth flavor body) s p).private ≡ s.private
  unfolding mem_ops
  stays flavor body s p = ground arith

  keeps :
      (flavor : ℕ) (body : List ℕ) (s : MemStream) (p : ℕ)
      → (poke_auth mem_ops mem_alloc (auth flavor body) s p).handy ≡ s.handy
  unfolding mem_ops
  keeps flavor body s p = ground arith

  -- The bytes of a call in the buffer; the padding is what stood there.
  abbrev pub inline_wire : Call → List ℕ → List ℕ → List ℕ
  inline_wire c pad1 pad2 =
      (be32 c.xid ++ be32 0)
      ++ (be32 2
          ++ ((be32 c.prog ++ (be32 c.vers ++ be32 c.proc))
              ++ ((be32 c.cred_flavor ++ be32 (length c.cred))
                  ++ (c.cred
                      ++ (pad1
                          ++ ((be32 c.verf_flavor ++ be32 (length c.verf)) ++ (c.verf ++ pad2)))))))

  pub poke_call_lem :
      (c : Call) (s : MemStream) (p : ℕ) (before h1 h2 h3 h4 cred pad1 h5 verf pad2 after : List ℕ)
      → s.mem
        ≡ before
          ++ (h1 ++ (h2 ++ (h3 ++ (h4 ++ (cred ++ (pad1 ++ (h5 ++ (verf ++ (pad2 ++ after)))))))))
      → p ≡ length before
      → length h1 ≡ 8
      → length h2 ≡ 4
      → length h3 ≡ 12
      → length h4 ≡ 8
      → length cred ≡ length c.cred
      → length pad1 ≡ rndup (length c.cred)
      → length h5 ≡ 8
      → length verf ≡ length c.verf
      → let r = poke_call mem_ops mem_alloc (message_of c) s p in
        (r.0 ≡ true)
        × (r.2.mem ≡ before ++ (inline_wire c pad1 pad2 ++ after))
        × (r.2.private ≡ s.private)
        × (r.2.handy ≡ s.handy)
  unfolding mem_ops
  poke_call_lem c s p before h1 h2 h3 h4 cred pad1 h5 verf pad2 after em ep e1 e2 e3 e4 ec ep1 e5
        ev =
      let w1 : List ℕ = be32 c.xid ++ be32 0 in
      let w3 : List ℕ = be32 c.prog ++ (be32 c.vers ++ be32 c.proc) in
      let w4 : List ℕ = be32 c.cred_flavor ++ be32 (length c.cred) in
      let w5 : List ℕ = be32 c.verf_flavor ++ be32 (length c.verf) in
      let b1 : List ℕ = before ++ w1 in
      let b2 : List ℕ = b1 ++ be32 2 in
      let b3 : List ℕ = b2 ++ w3 in
      let b4 : List ℕ = (b3 ++ w4) ++ c.cred in
      let s1 : MemStream = mem_ops.poke s p w1 in
      let s2 : MemStream = mem_ops.poke s1 (p + 8) (be32 2) in
      let s3 : MemStream = mem_ops.poke s2 (p + 12) w3 in
      let s4 : MemStream = poke_auth mem_ops mem_alloc (auth c.cred_flavor c.cred) s3 (p + 24) in
      let l1 : length b1 ≡ p + 8 = omega (arith, length-append before w1, two_words c.xid 0, ep) in
      let l2 : length b2 ≡ p + 12 = omega (arith, length-append b1 (be32 2), one_word 2, l1) in
      let l3 : length b3 ≡ p + 24 =
        omega (arith, length-append b2 w3, three_words c.prog c.vers c.proc, l2) in
      let l4 : length (b4 ++ pad1) ≡ p + 32 + round_up (length c.cred) = omega (
        arith,
        length-append b4 pad1,
        length-append (b3 ++ w4) c.cred,
        length-append b3 w4,
        two_words c.cred_flavor (length c.cred),
        round_up_lem (length c.cred),
        l3,
        ep1,
      ) in
      let m1 = poke_next s p before h1 w1 _ em ep (e1 ∙ sym (two_words c.xid 0)) in
      let m2 = poke_next s1 (p + 8) b1 h2 (be32 2) _ m1 (sym l1) (e2 ∙ sym (one_word 2)) in
      let m3 =
        poke_next s2 (p + 12) b2 h3 w3 _ m2 (sym l2)
          (e3 ∙ sym (three_words c.prog c.vers c.proc)) in
      let m4 = poke_auth_lem c.cred_flavor c.cred s3 (p + 24) b3 h4 cred _ m3 (sym l3) e4 ec in
      let m5 =
        poke_auth_lem c.verf_flavor c.verf s4 (p + 32 + round_up (length c.cred)) (b4 ++ pad1) h5
          verf (pad2 ++ after) (m4 ∙ sym (append_assoc b4 pad1 (h5 ++ (verf ++ (pad2 ++ after)))))
          (sym l4) e5 ev in
      (
        refl,
        m5 ∙ simp append_assoc refl,
        stays c.verf_flavor c.verf s4 (p + 32 + round_up (length c.cred))
            ∙ stays c.cred_flavor c.cred s3 (p + 24),
        keeps c.verf_flavor c.verf s4 (p + 32 + round_up (length c.cred))
            ∙ keeps c.cred_flavor c.cred s3 (p + 24),
      )
