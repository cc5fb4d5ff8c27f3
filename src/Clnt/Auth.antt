-- ===== src/Clnt/Auth.antt =====
-- `struct auth_ops` of include/rpc/auth.h, and libsrc/auth_none.c.
use oncrpc4_win.Common.{
  ℕ, ◌+◌, length, ◌≡◌, refl, sym, Bool, true, false, Option, List, [], ◌++◌, take, replicate, ◌%◌,
  ◌==◌,
}
use oncrpc4_win.Xdr.Stream.{encode, XdrOps, XdrLaws, Wrote, on_field, ◌&&&◌}
use oncrpc4_win.Xdr.Codec.{Encoded}
use mathlib.Core.Path.{subst}
use oncrpc4_win.Common.Words.{be32}
use oncrpc4_win.Xdr.Scalar.{xdr_enum}
use oncrpc4_win.Xdr.Opaque.{rndup, xdr_opaque, xdr_bytes}
use oncrpc4_win.Xdr.Opaque.Laws.{units}
use oncrpc4_win.Xdr.Mem.{MemStream, mem_ops, xdrmem_create, getpos}
use oncrpc4_win.Rpc.Msg.{OpaqueAuth}
use oncrpc4_win.Rpc.Auth.{xdr_opaque_auth}
use oncrpc4_win.Rpc.Auth.Laws.{null_auth, auth_wire}

-- `ah_marshal`, `ah_validate` and `ah_refresh` of a handle whose private part is `A`.
pub record AuthOps (A S : Type 0) : Type 0 where
  pub marshal : A → S → Bool × A × S
  pub validate : A → OpaqueAuth → Bool × A
  pub refresh : A → Bool × A

-- `struct authnone_private`.
pub record AuthnonePrivate : Type 0 where
  pub marshalled_client : List ℕ
  pub mcnt : ℕ

-- MAX_MARSHAL_SIZE.
abbrev pub max_marshal_size : ℕ
max_marshal_size = 20

-- The two authenticators in the buffer, where `calloc` has given one at the address `addr`.
module _ (mem_alloc : ℕ → Option (List ℕ)) (addr : ℕ) where
  unfoldable pub authnone_create : AuthnonePrivate
  unfolding xdr_opaque_auth xdrmem_create getpos
  authnone_create =
      let s = xdrmem_create addr (replicate max_marshal_size 0) max_marshal_size in
      let s1 = (xdr_opaque_auth mem_ops mem_alloc encode null_auth s).2 in
      let s2 = (xdr_opaque_auth mem_ops mem_alloc encode null_auth s1).2 in
      record { marshalled_client = s2.mem; mcnt = getpos s2 }

-- `authnone_marshal`, `authnone_validate` and `authnone_refresh`.
unfoldable pub authnone_ops : {S : Type 0} → XdrOps S → AuthOps AuthnonePrivate S
authnone_ops x = record {
  marshal = λ ap s. let (r, s') = x.putbytes s (take ap.mcnt ap.marshalled_client) in (r, ap, s');
  validate = λ ap verf. (true, ap);
  refresh = λ ap. (false, ap);
}

module _ (mem_alloc : ℕ → Option (List ℕ)) where
  made_bytes :
      (b : Bool)
      → let s : MemStream = record { mem = replicate 20 0; private = 0; handy = 20; aligned = b } in
        let s1 : MemStream = (xdr_opaque_auth mem_ops mem_alloc encode null_auth s).2 in
        let s2 : MemStream = (xdr_opaque_auth mem_ops mem_alloc encode null_auth s1).2 in
        take s2.private s2.mem ≡ auth_wire 0 [] ++ auth_wire 0 []
  unfolding xdr_opaque_auth mem_ops auth_wire xdr_enum xdr_bytes xdr_opaque units rndup be32
      on_field ◌&&&◌
  made_bytes true = refl
  made_bytes false = refl

  -- AUTH_NONE marshals two empty authenticators, wherever its buffer stands.
  pub authnone_bytes :
      (addr : ℕ)
      → let ap = authnone_create mem_alloc addr in
        take ap.mcnt ap.marshalled_client ≡ auth_wire 0 [] ++ auth_wire 0 []
  unfolding authnone_create xdrmem_create getpos
  authnone_bytes addr = made_bytes (addr % 4 == 0)

  marshalled :
      {S : Type 0} {x : XdrOps S} (laws : XdrLaws x) (ap : AuthnonePrivate) (w : List ℕ) (s : S)
      (n : ℕ) (r : Bool × S)
      → Wrote laws.Room laws.append laws.output s w n r
      → Encoded laws ap w s n (let (b, s') = r in (b, ap, s'))
  marshalled laws ap w s n (b, s') (ok, out, room) = (ok, refl, out, room)

  -- Over any lawful stream.
  pub authnone_marshal-Encoded :
      {S : Type 0} {x : XdrOps S} (laws : XdrLaws x) (addr : ℕ) (s : S) (n : ℕ)
      → laws.Room s (length (auth_wire 0 [] ++ auth_wire 0 []) + n)
      → Encoded laws
          (authnone_create mem_alloc addr)
          (auth_wire 0 [] ++ auth_wire 0 [])
          s
          n
          ((authnone_ops x).marshal (authnone_create mem_alloc addr) s)
  unfolding authnone_ops
  authnone_marshal-Encoded {x} laws addr s n room =
      let ap = authnone_create mem_alloc addr in
      let w : List ℕ = take ap.mcnt ap.marshalled_client in
      marshalled laws ap (auth_wire 0 [] ++ auth_wire 0 []) s n (x.putbytes s w) (
        subst
          (λ b.
            Wrote laws.Room laws.append laws.output s (auth_wire 0 [] ++ auth_wire 0 []) n
              (x.putbytes s b))
          (sym (authnone_bytes addr))
          (laws.putbytes_lem s (auth_wire 0 [] ++ auth_wire 0 []) n room))
