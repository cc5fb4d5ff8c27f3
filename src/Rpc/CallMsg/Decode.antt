-- ===== src/Rpc/CallMsg/Decode.antt =====
-- The fast path of `xdr_callmsg` on XDR_DECODE reads what the filters of the fields would read.
use mathlib.Core.Path.{subst}
use oncrpc4_win.Common.{
  ℕ, ◌+◌, ◌≤◌, ◌≡◌, refl, sym, ap, ◌∙◌, Bool, true, false, Option, none, some, List, [], ◌∷◌, ◌++◌,
  length, take, drop, write_at, arith, replicate, take_all, take-append_length, length-append,
  length-replicate, ltb-false, ==_false,
}
use oncrpc4_win.Common.Words.{IsU32, be32, word_of, word_be32}
use oncrpc4_win.Xdr.Stream.{decode, XdrOps, XdrLaws}
use oncrpc4_win.Xdr.Codec.{Decoded, on_field-Decodes, &&&-Decodes}
use oncrpc4_win.Xdr.Scalar.Laws.{xdr_enum-Decodes, xdr_u_int-Decodes}
use oncrpc4_win.Xdr.Scalar.{xdr_enum, xdr_u_int}
use oncrpc4_win.Xdr.Opaque.{rndup, xdr_opaque}
use oncrpc4_win.Xdr.Opaque.Laws.{units, length-units, xdr_opaque-Decodes}
use oncrpc4_win.Rpc.Msg.{OpaqueAuth}
use oncrpc4_win.Rpc.Auth.Laws.{received, IsAuth, auth_wire}
use oncrpc4_win.Rpc.CallMsg.{
  round_up, set_len, set_base, take_body, get_body, get_header, then_body,
}

pub round_up_lem : (n : ℕ) → round_up n ≡ n + rndup n
unfolding round_up rndup
round_up_lem n = ground arith

-- What a stream that lends its buffer owes a reader: either it lends nothing, and nothing has
-- changed, or the address shows the bytes that are next, and these have been read.
abbrev pub Lent :
    {S : Type 0} {x : XdrOps S} (laws : XdrLaws x) → List ℕ → List ℕ → Option ℕ × S → Type 0
Lent laws bs rest (none, s) = laws.Input s (bs ++ rest)
Lent {x} laws bs rest (some p, s) =
    ((n : ℕ) → n ≤ length bs → x.peek s p n ≡ take n bs) × laws.Input s rest

pub record InlineLaws {S : Type 0} {x : XdrOps S} (laws : XdrLaws x) : Type 0 where
  pub inline_lem :
      (s : S) (bs rest : List ℕ)
      → laws.Input s (bs ++ rest)
      → Lent laws bs rest (x.inline s (length bs))

-- The authenticator whose header has been read, and its buffer.
abbrev pub headed : ℕ → ℕ → List ℕ → ℕ → OpaqueAuth
headed flavor n buffer old = record {
  flavor = flavor;
  body = record { base = some buffer; len = n };
}

pub same_header :
    (flavor n : ℕ) (old : OpaqueAuth) (buffer : List ℕ)
    → old.body.base ≡ some buffer
    → set_len (record old { flavor = flavor }) n ≡ headed flavor n buffer 0
same_header flavor n old buffer eb =
    ap (λ b. record { flavor = flavor; body = record { base = b; len = n } }) eb

module _ {S : Type 0} {x : XdrOps S} (laws : XdrLaws x) (mem_alloc : ℕ → Option (List ℕ)) where
  set_base-Decoded :
      (a : OpaqueAuth) (cp rest : List ℕ) (r : Bool × List ℕ × S)
      → Decoded laws cp rest r
      → Decoded laws (set_base a cp) rest (let (b, c, s) = r in (b, set_base a c, s))
  set_base-Decoded a cp rest (b, c, s) (ok, e, input) = (ok, ap (set_base a) e, input)

  shown_body :
      (flavor : ℕ) (body : List ℕ) (p : ℕ) (s : S)
      → ((n : ℕ)
          → n ≤ length (units (length body) body)
          → x.peek s p n ≡ take n (units (length body) body))
      → x.peek s p (length body) ≡ body
  unfolding units
  shown_body flavor body p s shown =
      let pad : List ℕ = replicate (rndup (length body)) 0 in
      let whole : take (length body) body ≡ body = take_all (length body) body (omega arith) in
      shown (length body) (
        omega (
          arith,
          length-units (length body) body (omega arith),
          length-append (take (length body) body) pad,
          ap length whole,
        ))
      ∙ ap (λ b. take (length body) (b ++ pad)) whole
      ∙ take-append_length body pad (length body) refl

  take_body-Decoded :
      (flavor : ℕ) (body buffer rest : List ℕ) (r : Option ℕ × S)
      → Lent laws (units (length body) body) rest r
      → Decoded laws
          (received flavor body buffer)
          rest
          (take_body x mem_alloc (headed flavor (length body) buffer 0) buffer r)
  unfolding units
  take_body-Decoded flavor body buffer rest (none, s) input =
      set_base-Decoded (headed flavor (length body) buffer 0) (write_at buffer 0 body) rest
        (xdr_opaque x (length body) decode buffer s)
        (xdr_opaque-Decodes laws (length body) buffer body (replicate (rndup (length body)) 0) refl
          (length-replicate {A = ℕ} (rndup (length body)) 0) s rest
          (rw (take_all (length body) body (omega arith)) at input))
  take_body-Decoded flavor body buffer rest (some p, s) (shown, input) =
      let same : x.peek s p (length body) ≡ body = shown_body flavor body p s shown in
      (
        refl,
        ap (λ b. set_base (headed flavor (length body) buffer 0) (write_at buffer 0 b)) same,
        input,
      )

  unit_pad : units 0 [] ≡ []
  unfolding units rndup
  unit_pad = refl

  -- The body of an authenticator, whatever the stream lends.
  pub get_body-Decoded :
      (inl_laws : InlineLaws laws) (flavor : ℕ) (body buffer rest : List ℕ) (s : S)
      → length body ≤ 400
      → laws.Input s (units (length body) body ++ rest)
      → Decoded laws
          (received flavor body buffer)
          rest
          (get_body x mem_alloc (headed flavor (length body) buffer 0) s)
  unfolding get_body
  get_body-Decoded inl_laws flavor [] buffer rest s h input = (refl, refl, rw unit_pad at input)
  get_body-Decoded inl_laws flavor (b ∷ bs) buffer rest s h input =
      let body : List ℕ = b ∷ bs in
      let size : length (units (length body) body) ≡ round_up (length body) =
        length-units (length body) body (omega arith) ∙ sym (round_up_lem (length body)) in
      rw (==_false (length body) 0 (omega arith), ltb-false 400 (length body) h)
        (take_body-Decoded flavor body buffer rest (x.inline s (round_up (length body))) (
          subst (λ n. Lent laws (units (length body) body) rest (x.inline s n)) size
            (inl_laws.inline_lem s (units (length body) body) rest input)))

  -- The flavor and the length, whatever the stream lends.
  get_header-Decoded :
      (flavor n : ℕ) (old : OpaqueAuth) (buffer rest : List ℕ) (r : Option ℕ × S)
      → old.body.base ≡ some buffer
      → IsU32 flavor
      → IsU32 n
      → Lent laws (be32 flavor ++ be32 n) rest r
      → Decoded laws (headed flavor n buffer 0) rest (get_header x mem_alloc old r)
  unfolding be32 word_of
  get_header-Decoded flavor n old buffer rest (none, s) eb hf hn input =
      let (ok, got, left) =
        &&&-Decodes laws _ _ old (record old { flavor = flavor })
          (set_len (record old { flavor = flavor }) n) (be32 flavor) (be32 n)
          (on_field-Decodes laws _ _ (xdr_enum x) old flavor (be32 flavor)
            (xdr_enum-Decodes laws old.flavor flavor hf))
          (on_field-Decodes laws _ _ (xdr_u_int x) (record old { flavor = flavor }) n (be32 n)
            (xdr_u_int-Decodes laws old.body.len n hn))
          s rest input in
      (ok, got ∙ same_header flavor n old buffer eb, left)
  get_header-Decoded flavor n old buffer rest (some p, s) eb hf hn (shown, input) =
      let bs : x.peek s p 8 ≡ be32 flavor ++ be32 n = shown 8 (omega arith) in
      (
        refl,
        ap (λ w. set_len (record old { flavor = word_of w }) (word_of (drop 4 w))) bs
            ∙ ap (λ w. set_len (record old { flavor = w }) (word_of (be32 n))) (word_be32 flavor hf)
            ∙ ap (λ w. set_len (record old { flavor = flavor }) w) (word_be32 n hn)
            ∙ same_header flavor n old buffer eb,
        input,
      )

  then_body-Decoded :
      (inl_laws : InlineLaws laws) (flavor : ℕ) (body buffer rest : List ℕ)
      (r : Bool × OpaqueAuth × S)
      → length body ≤ 400
      → Decoded laws (headed flavor (length body) buffer 0) (units (length body) body ++ rest) r
      → Decoded laws (received flavor body buffer) rest (then_body x mem_alloc r)
  then_body-Decoded inl_laws flavor body buffer rest (false, a, s) h (ok, e, input) = cc
  then_body-Decoded inl_laws flavor body buffer rest (true, a, s) h (ok, e, input) =
      subst (λ w. Decoded laws (received flavor body buffer) rest (get_body x mem_alloc w s))
        (sym e) (get_body-Decoded inl_laws flavor body buffer rest s h input)

  -- An authenticator, whatever the stream lends.
  pub get_auth-Decoded :
      (inl_laws : InlineLaws laws) (flavor : ℕ) (body : List ℕ) (old : OpaqueAuth)
      (buffer rest : List ℕ) (s : S)
      → old.body.base ≡ some buffer
      → IsAuth flavor body
      → laws.Input s (auth_wire flavor body ++ rest)
      → Decoded laws
          (received flavor body buffer)
          rest
          (then_body x mem_alloc (get_header x mem_alloc old (x.inline s 8)))
  unfolding auth_wire be32
  get_auth-Decoded inl_laws flavor body old buffer rest s eb h input =
      then_body-Decoded inl_laws flavor body buffer rest (get_header x mem_alloc old (x.inline s 8))
        h.body_fits
        (get_header-Decoded flavor (length body) old buffer (units (length body) body ++ rest)
          (x.inline s 8) eb h.flavor_fits (omega (arith, h.body_fits))
          (inl_laws.inline_lem s (be32 flavor ++ be32 (length body))
            (units (length body) body ++ rest) input))
