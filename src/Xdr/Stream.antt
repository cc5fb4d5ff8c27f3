-- ===== src/Xdr/Stream.antt =====
-- The interface between XDR filters and streams: include/rpc/xdr.h (`enum xdr_op`, `struct
-- xdr_ops`), and what a filter may rely on when the stream is in good order.
use oncrpc4_win.Common.{ℕ, ◌+◌, ◌≡◌, Bool, true, false, Option, none, some, List, [], ◌++◌, length}
use oncrpc4_win.Common.Words.{IsU32, be32}

-- `enum xdr_op`.
pub data XdrOp : Type 0 where
  encode decode free : XdrOp

-- `struct xdr_ops` over the stream state `S`, which is what `x_private`, `x_base` and `x_handy`
-- stand for. A `long` is its 32-bit pattern. A read returns its bytes, or `none` on FALSE; `inline`
-- returns an address in the stream's buffer, or `none` on NULL, and `peek` and `poke` read and
-- write the memory at such an address.
pub record XdrOps (S : Type 0) : Type 0 where
  pub getlong : S → Option ℕ × S
  pub putlong : S → ℕ → Bool × S
  pub getbytes : S → ℕ → Option (List ℕ) × S
  pub putbytes : S → List ℕ → Bool × S
  pub inline : S → ℕ → Option ℕ × S
  pub peek : S → ℕ → ℕ → List ℕ
  pub poke : S → ℕ → List ℕ → S

-- An `xdrproc_t` applied to the object that it points to: `TRUE` or `FALSE`, the object, the stream.
abbrev pub Filter : Type 0 → Type 0 → Type 0
Filter S A = XdrOp → A → S → Bool × A × S

-- `if (!put) return FALSE; ...`: what follows a write, and what follows a read.
abbrev pub and_put : {S : Type 0} → Bool × S → (S → Bool × S) → Bool × S
and_put (false, s) k = (false, s)
and_put (true, s) k = k s

abbrev pub and_get : {S A B : Type 0} → Option A × S → (A → S → Option B × S) → Option B × S
and_get (none, s) k = (none, s)
and_get (some a, s) k = k a s

-- `f(xdrs, &r->a)`, `f(xdrs, r) && g(xdrs, r)` and a test of the object, as filters of the object.
unfoldable pub on_field : {S R A : Type 0} → (R → A) → (R → A → R) → Filter S A → Filter S R
on_field get set f op r s = let (b, a, s') = f op (get r) s in (b, set r a, s')

abbrev pub and_run : {S R : Type 0} → Filter S R → XdrOp → Bool × R × S → Bool × R × S
and_run g op (false, r, s) = (false, r, s)
and_run g op (true, r, s) = g op r s

infixr 35 ◌&&&◌
unfoldable pub ◌&&&◌ : {S R : Type 0} → Filter S R → Filter S R → Filter S R
◌&&&◌ f g op r s = and_run g op (f op r s)

unfoldable pub holds : {S R : Type 0} → (R → Bool) → Filter S R
holds test op r s = (test r, r, s)

-- A write of `bs` went well: it returned TRUE, its bytes follow what was there, and `n` bytes more
-- still fit.
abbrev pub Wrote :
    {S Sink : Type 0}
    → (S → ℕ → Type 0)
    → (Sink → List ℕ → Sink)
    → (S → Sink)
    → S
    → List ℕ
    → ℕ
    → Bool × S
    → Type 0
Wrote Room append output s bs n (r, s') =
    (r ≡ true) × (output s' ≡ append (output s) bs) × Room s' n

-- A read that returned `a` and left the input `rest`.
abbrev pub Took : {S A : Type 0} → (S → List ℕ → Type 0) → A → List ℕ → Option A × S → Type 0
Took Input a rest (r, s') = (r ≡ some a) × Input s' rest

-- What a stream owes its filters. `Room s n`: `s` can take `n` more bytes. `output s`: what was
-- written so far, which is the bytes, or as much of them as the stream keeps; `append` adds bytes to
-- it. `Input s bs`: reading from `s` yields `bs`.
pub record XdrLaws {S : Type 0} (x : XdrOps S) : Type 1 where
  pub Room : S → ℕ → Type 0
  pub Sink : Type 0
  pub append : Sink → List ℕ → Sink
  pub output : S → Sink
  pub Input : S → List ℕ → Type 0
  pub append-nil : (s : S) → append (output s) [] ≡ output s
  pub append-append : (o : Sink) (bs cs : List ℕ) → append (append o bs) cs ≡ append o (bs ++ cs)
  pub putlong_lem :
      (s : S) (v n : ℕ) → Room s (4 + n) → Wrote Room append output s (be32 v) n (x.putlong s v)
  pub putbytes_lem :
      (s : S) (bs : List ℕ) (n : ℕ)
      → Room s (length bs + n)
      → Wrote Room append output s bs n (x.putbytes s bs)
  pub getlong_lem :
      (s : S) (v : ℕ) (rest : List ℕ)
      → IsU32 v
      → Input s (be32 v ++ rest)
      → Took Input v rest (x.getlong s)
  pub getbytes_lem :
      (s : S) (bs rest : List ℕ)
      → Input s (bs ++ rest)
      → Took Input bs rest (x.getbytes s (length bs))

-- An invariant that every operation keeps, whether it succeeds or fails.
pub record IsKept {S : Type 0} (x : XdrOps S) (P : S → Type 0) : Type 0 where
  pub getlong_kept : (s : S) → P s → P (x.getlong s).1
  pub putlong_kept : (s : S) (v : ℕ) → P s → P (x.putlong s v).1
  pub getbytes_kept : (s : S) (n : ℕ) → P s → P (x.getbytes s n).1
  pub putbytes_kept : (s : S) (bs : List ℕ) → P s → P (x.putbytes s bs).1
