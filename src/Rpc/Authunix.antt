-- ===== src/Rpc/Authunix.antt =====
-- libsrc/authunix_prot.c: the parameters of AUTH_UNIX.
use oncrpc4_win.Common.{ℕ, Bool, Option, List}
use oncrpc4_win.Xdr.Stream.{XdrOps, Filter, on_field, ◌&&&◌}
use oncrpc4_win.Xdr.Scalar.{xdr_u_long, xdr_int}
use oncrpc4_win.Xdr.CString.{xdr_string}
use oncrpc4_win.Xdr.Array.{CountedArray, xdr_array}

-- `struct authunix_parms`; `gids` is `aup_gids` with `aup_len`.
pub record AuthunixParms : Type 0 where
  pub time : ℕ
  pub machname : Option (List ℕ)
  pub uid : ℕ
  pub gid : ℕ
  pub gids : CountedArray ℕ

-- MAX_MACHINE_NAME and NGRPS.
abbrev pub max_machine_name : ℕ
max_machine_name = 255

abbrev pub ngrps : ℕ
ngrps = 16

-- The allocator serves the name by its bytes, and the groups, of four bytes each, by a yes or no.
unfoldable pub xdr_authunix_parms :
    {S : Type 0} → XdrOps S → (ℕ → Option (List ℕ)) → (ℕ → Bool) → Filter S AuthunixParms
xdr_authunix_parms x mem_alloc mem_alloc_array =
    on_field (λ (p : AuthunixParms). p.time) (λ p v. record p { time = v }) (xdr_u_long x)
    &&& on_field (λ (p : AuthunixParms). p.machname) (λ p v. record p { machname = v })
        (xdr_string x mem_alloc max_machine_name)
    &&& on_field (λ (p : AuthunixParms). p.uid) (λ p v. record p { uid = v }) (xdr_int x)
    &&& on_field (λ (p : AuthunixParms). p.gid) (λ p v. record p { gid = v }) (xdr_int x)
    &&& on_field (λ (p : AuthunixParms). p.gids) (λ p v. record p { gids = v })
        (xdr_array x mem_alloc_array 0 4 (xdr_int x) ngrps)
