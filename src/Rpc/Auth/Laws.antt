-- ===== src/Rpc/Auth/Laws.antt =====
-- The bytes of an authenticator, and what is made of them with a buffer and without one.
use mathlib.Core.Path.{subst, sym}
use oncrpc4_win.Common.{
  ℕ, ◌≤◌, ◌<◌, ◌≡◌, refl, Option, none, some, List, [], ◌∷◌, ◌++◌, length, replicate, arith,
  take_all, write_at, length-replicate,
}
use oncrpc4_win.Common.Words.{IsU32, be32}
use oncrpc4_win.Xdr.Mem.{MemStream, mem_ops}
use oncrpc4_win.Xdr.Mem.Laws.{InBounds, mem-IsKept}
use oncrpc4_win.Xdr.Stream.{XdrOp, XdrOps, XdrLaws, IsKept}
use oncrpc4_win.Xdr.Codec.{
  Encodes, Decodes, Keeps, on_field-Encodes, on_field-Decodes, &&&-Encodes, &&&-Decodes,
  on_field-Keeps, &&&-Keeps,
}
use oncrpc4_win.Xdr.Scalar.{xdr_enum}
use oncrpc4_win.Xdr.Scalar.Laws.{xdr_enum-Encodes, xdr_enum-Decodes}
use oncrpc4_win.Xdr.Scalar.Kept.{xdr_enum-Keeps}
use oncrpc4_win.Xdr.Kept.{xdr_bytes-Keeps}
use oncrpc4_win.Xdr.Opaque.{rndup, xdr_bytes}
use oncrpc4_win.Xdr.Opaque.Laws.{units}
use oncrpc4_win.Xdr.Opaque.Bytes.{
  counted, xdr_bytes-Encodes, xdr_bytes-Decodes_into, xdr_bytes-Decodes_new, xdr_bytes-Decodes-none,
}
use oncrpc4_win.Rpc.Msg.{OpaqueAuth, max_auth_bytes}
use oncrpc4_win.Rpc.Auth.{xdr_opaque_auth}

-- An authenticator with a body of its own.
abbrev pub auth : ℕ → List ℕ → OpaqueAuth
auth flavor body = record { flavor = flavor; body = counted (some body) (length body) }

-- What is received into a buffer: the body stands at its front.
abbrev pub received : ℕ → List ℕ → List ℕ → OpaqueAuth
received flavor body buffer = record {
  flavor = flavor;
  body = counted (some (write_at buffer 0 body)) (length body);
}

-- `_null_auth`, and what is received in its place.
abbrev pub null_auth : OpaqueAuth
null_auth = record { flavor = 0; body = counted none 0 }

abbrev pub allocated : ℕ → List ℕ → OpaqueAuth
allocated flavor [] = record { flavor = flavor; body = counted none 0 }
allocated flavor (b ∷ bs) = auth flavor (b ∷ bs)

-- What can be sent: a flavor of 32 bits, and at most MAX_AUTH_BYTES of body.
pub record IsAuth (flavor : ℕ) (body : List ℕ) : Type 0 where
  pub flavor_fits : IsU32 flavor
  pub body_fits : length body ≤ 400

-- The flavor, the length, the body and zeros up to a whole unit.
unfoldable pub auth_wire : ℕ → List ℕ → List ℕ
auth_wire flavor body = be32 flavor ++ (be32 (length body) ++ units (length body) body)

module _ {S : Type 0} {x : XdrOps S} (laws : XdrLaws x) (mem_alloc : ℕ → Option (List ℕ)) where
  pub xdr_opaque_auth-Encodes :
      (flavor : ℕ) (body : List ℕ)
      → IsAuth flavor body
      → Encodes laws (xdr_opaque_auth x mem_alloc) (auth flavor body) (auth_wire flavor body)
  unfolding xdr_opaque_auth auth_wire
  xdr_opaque_auth-Encodes flavor body h =
      &&&-Encodes laws _ _ (auth flavor body) (be32 flavor) _
        (on_field-Encodes laws _ _ (xdr_enum x) (auth flavor body) (be32 flavor) refl
          (xdr_enum-Encodes laws flavor))
        (on_field-Encodes laws _ _ (xdr_bytes x mem_alloc max_auth_bytes) (auth flavor body) _ refl
          (xdr_bytes-Encodes laws mem_alloc 400 (length body) body h.body_fits (omega arith)))

  -- Into an authenticator that has a buffer, such as the server's `cred_area`: the body replaces
  -- the front of the buffer, and `oa_length` says how far.
  pub xdr_opaque_auth-Decodes :
      (flavor : ℕ) (body : List ℕ) (old_flavor old_len : ℕ) (buffer : List ℕ)
      → IsAuth flavor body
      → Decodes laws
          (xdr_opaque_auth x mem_alloc)
          (record { flavor = old_flavor; body = counted (some buffer) old_len })
          (received flavor body buffer)
          (auth_wire flavor body)
  unfolding xdr_opaque_auth auth_wire units
  xdr_opaque_auth-Decodes flavor body old_flavor old_len buffer h =
      rw (take_all (length body) body (omega arith)) (
        &&&-Decodes laws _ _ _ (record { flavor = flavor; body = counted (some buffer) old_len }) _
          (be32 flavor) _
          (on_field-Decodes laws _ _ (xdr_enum x) _ flavor (be32 flavor)
            (xdr_enum-Decodes laws old_flavor flavor h.flavor_fits))
          (on_field-Decodes laws _ _ (xdr_bytes x mem_alloc max_auth_bytes) _ _ _ (
            xdr_bytes-Decodes_into laws mem_alloc 400 (length body) old_len buffer body
              (replicate (rndup (length body)) 0) (omega (arith, h.body_fits)) h.body_fits refl
              (length-replicate (rndup (length body)) 0))))

  pub xdr_opaque_auth-Decodes_at :
      (flavor : ℕ) (body : List ℕ) (old : OpaqueAuth) (buffer : List ℕ)
      → old.body.base ≡ some buffer
      → IsAuth flavor body
      → Decodes laws
          (xdr_opaque_auth x mem_alloc)
          old
          (received flavor body buffer)
          (auth_wire flavor body)
  xdr_opaque_auth-Decodes_at flavor body old buffer eb h =
      subst
        (λ b.
          Decodes laws (xdr_opaque_auth x mem_alloc)
            (record { flavor = old.flavor; body = counted b old.body.len })
            (received flavor body buffer) (auth_wire flavor body))
        (sym eb) (xdr_opaque_auth-Decodes flavor body old.flavor old.body.len buffer h)

  no_body :
      (flavor : ℕ)
      → IsAuth flavor []
      → Decodes laws
          (xdr_opaque_auth x mem_alloc)
          null_auth
          (allocated flavor [])
          (auth_wire flavor [])
  unfolding xdr_opaque_auth auth_wire units rndup
  no_body flavor h =
      &&&-Decodes laws _ _ null_auth (record { flavor = flavor; body = counted none 0 }) _
        (be32 flavor) _
        (on_field-Decodes laws _ _ (xdr_enum x) null_auth flavor (be32 flavor)
          (xdr_enum-Decodes laws 0 flavor h.flavor_fits))
        (on_field-Decodes laws _ _ (xdr_bytes x mem_alloc max_auth_bytes) _ _ _
          (xdr_bytes-Decodes-none laws mem_alloc 400 0))

  -- Into an authenticator without a buffer, such as a client's `_null_auth`: a buffer is allocated
  -- for the body, if there is any.
  pub xdr_opaque_auth-Decodes_new :
      (flavor : ℕ) (body : List ℕ)
      → ((n : ℕ)
          → 0 < n
          → n ≤ 400
          → (buffer : List ℕ) × (mem_alloc n ≡ some buffer) × (length buffer ≡ n))
      → IsAuth flavor body
      → Decodes laws
          (xdr_opaque_auth x mem_alloc)
          null_auth
          (allocated flavor body)
          (auth_wire flavor body)
  unfolding xdr_opaque_auth auth_wire units
  xdr_opaque_auth-Decodes_new flavor [] memory h = no_body flavor h
  xdr_opaque_auth-Decodes_new flavor (b ∷ bs) memory h =
      let body : List ℕ = b ∷ bs in
      let (buffer, ea, ef) = memory (length body) (omega arith) h.body_fits in
      rw (take_all (length bs) bs (omega arith)) (
        &&&-Decodes laws _ _ null_auth (record { flavor = flavor; body = counted none 0 }) _
          (be32 flavor) _
          (on_field-Decodes laws _ _ (xdr_enum x) null_auth flavor (be32 flavor)
            (xdr_enum-Decodes laws 0 flavor h.flavor_fits))
          (on_field-Decodes laws _ _ (xdr_bytes x mem_alloc max_auth_bytes) _ _ _ (
            xdr_bytes-Decodes_new laws mem_alloc 400 (length body) 0 buffer body
              (replicate (rndup (length body)) 0) (omega (arith, h.body_fits)) (omega arith)
              h.body_fits ea ef refl (length-replicate (rndup (length body)) 0))))

pub xdr_opaque_auth-Keeps :
    {S : Type 0} {x : XdrOps S} {P : S → Type 0} (k : IsKept x P) (mem_alloc : ℕ → Option (List ℕ))
    → Keeps P (xdr_opaque_auth x mem_alloc)
unfolding xdr_opaque_auth
xdr_opaque_auth-Keeps {x} k mem_alloc =
    &&&-Keeps _ _ (on_field-Keeps _ _ (xdr_enum x) (xdr_enum-Keeps k))
      (on_field-Keeps _ _ (xdr_bytes x mem_alloc max_auth_bytes) (xdr_bytes-Keeps k mem_alloc 400))

-- On a memory stream, whatever the operation, the object, the bytes that have arrived and the
-- outcome, an authenticator is sent, received or freed without leaving the buffer.
xdr_opaque_auth-InBounds :
    (mem_alloc : ℕ → Option (List ℕ)) (end : ℕ) (op : XdrOp) (a : OpaqueAuth) (s : MemStream)
    → InBounds end s
    → InBounds end (xdr_opaque_auth mem_ops mem_alloc op a s).2
xdr_opaque_auth-InBounds mem_alloc end = xdr_opaque_auth-Keeps (mem-IsKept end) mem_alloc
