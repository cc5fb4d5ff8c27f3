-- ===== src/Xdr/Memory.antt =====
-- What `xdr_bytes` and `xdr_string` leave behind the pointer, and the bound that `xdr_bytes` keeps, on
-- any stream, lawful or not.
use oncrpc4_win.Common.{
  sym, ap, ◌∙◌, ℕ, ◌+◌, ◌%◌, ◌^◌, ◌≤◌, ◌≡◌, ◌≢◌, refl, Bool, true, false, Option, none, some, List,
  [], ◌∷◌, arith, not, ◌<◌, write_at,
}
use oncrpc4_win.Xdr.Stream.{XdrOp, encode, decode, free, XdrOps}
use oncrpc4_win.Xdr.Scalar.{xdr_u_int}
use oncrpc4_win.Xdr.Opaque.{
  xdr_opaque, Counted, keep_or_free, read_into, counted_bytes, sized, is_free, xdr_bytes,
}
use oncrpc4_win.Xdr.CString.{strlen, keep_or_free_string, read_string, sized_string, xdr_string}
use oncrpc4_win.Xdr.Opaque.Bytes.{counted}

module _ {S : Type 0} (x : XdrOps S) (mem_alloc : ℕ → Option (List ℕ)) where
  keep_or_free-freed :
      (n : ℕ) (r : Bool × List ℕ × S)
      → (keep_or_free true n r).0 ≡ false
      → (keep_or_free true n r).1.base ≡ none
  keep_or_free-freed n (false, cp, s) h = refl
  keep_or_free-freed n (true, cp, s) h = cc

  read_into-freed :
      (n : ℕ) (o : Option (List ℕ)) (s : S)
      → (read_into x mem_alloc true n o s).0 ≡ false
      → (read_into x mem_alloc true n o s).1.base ≡ none
  read_into-freed n none s h = refl
  read_into-freed n (some cp) s h = keep_or_free-freed n (xdr_opaque x n decode cp s) h

  sized-freed :
      (maxsize : ℕ) (r : Bool × ℕ × S)
      → (sized x mem_alloc maxsize decode none r).0 ≡ false
      → (sized x mem_alloc maxsize decode none r).1.base ≡ none
  sized-freed maxsize (false, n, s) h = refl
  sized-freed maxsize (true, n, s) h = ground (arith, read_into-freed n (mem_alloc n) s)

  keep_or_free-len : (a : Bool) (n : ℕ) (r : Bool × List ℕ × S) → (keep_or_free a n r).1.len ≡ n
  keep_or_free-len a n (false, cp, s) = refl
  keep_or_free-len a n (true, cp, s) = refl

  read_into-len :
      (a : Bool) (n : ℕ) (o : Option (List ℕ)) (s : S) → (read_into x mem_alloc a n o s).1.len ≡ n
  read_into-len a n none s = refl
  read_into-len a n (some cp) s = keep_or_free-len a n (xdr_opaque x n decode cp s)

  counted_bytes-len :
      (op : XdrOp) (o : Option (List ℕ)) (n : ℕ) (s : S)
      → (counted_bytes x mem_alloc op o n s).1.len ≡ n
  counted_bytes-len encode o n s = refl
  counted_bytes-len decode none n s = ground (arith, read_into-len true n (mem_alloc n) s)
  counted_bytes-len decode (some cp) n s = ground (arith, read_into-len false n (some cp) s)
  counted_bytes-len free o n s = refl

  not-is_free : (op : XdrOp) → op ≢ free → not (is_free op) ≡ true
  not-is_free encode h = refl
  not-is_free decode h = refl
  not-is_free free h = absurd (h refl)

  sized-bounded :
      (maxsize : ℕ) (op : XdrOp) (o : Option (List ℕ)) (r : Bool × ℕ × S)
      → op ≢ free
      → (sized x mem_alloc maxsize op o r).0 ≡ true
      → (sized x mem_alloc maxsize op o r).1.len ≤ maxsize
  sized-bounded maxsize op o (false, n, s) ho h = cc
  sized-bounded maxsize op o (true, n, s) ho h =
      ground (arith, not-is_free op ho, counted_bytes-len op o n s)

  -- Whatever is encoded or decoded is within the bound that the protocol sets.
  xdr_bytes_bounded :
      (maxsize : ℕ) (op : XdrOp) (v : Counted) (s : S)
      → op ≢ free
      → (xdr_bytes x mem_alloc maxsize op v s).0 ≡ true
      → (xdr_bytes x mem_alloc maxsize op v s).1.len ≤ maxsize
  unfolding xdr_bytes
  xdr_bytes_bounded maxsize op v s ho h =
      sized-bounded maxsize op v.base (xdr_u_int x op v.len s) ho h

  -- XDR_FREE always succeeds, drops the buffer and leaves the stream alone.
  xdr_bytes_free :
      (maxsize : ℕ) (v : Counted) (s : S)
      → xdr_bytes x mem_alloc maxsize free v s ≡ (true, counted none v.len, s)
  unfolding xdr_bytes xdr_u_int
  xdr_bytes_free maxsize v s = ground arith

  freed_again :
      (maxsize : ℕ) (v : Counted) (s : S)
      → v.base ≡ none
      → (v.base ≡ none) × (xdr_bytes x mem_alloc maxsize free v s ≡ (true, v, s))
  freed_again maxsize v s e =
      (e, xdr_bytes_free maxsize v s ∙ ap (λ b. (true, counted b v.len, s)) (sym e))

  -- On any stream, decoding bytes into a null pointer that fails leaves the pointer null, so that a
  -- later XDR_FREE of the object returns TRUE and changes neither the object nor the stream.
  pub xdr_bytes_failed-free :
      (maxsize old_len : ℕ) (s s' : S)
      → (xdr_bytes x mem_alloc maxsize decode (counted none old_len) s).0 ≡ false
      → let v = (xdr_bytes x mem_alloc maxsize decode (counted none old_len) s).1 in
        (v.base ≡ none) × (xdr_bytes x mem_alloc maxsize free v s' ≡ (true, v, s'))
  unfolding xdr_bytes
  xdr_bytes_failed-free maxsize old_len s s' h =
      freed_again maxsize (sized x mem_alloc maxsize decode none (xdr_u_int x decode old_len s)).1
        s' (sized-freed maxsize (xdr_u_int x decode old_len s) h)

  keep_or_free_string-freed :
      (r : Bool × List ℕ × S)
      → (keep_or_free_string true r).0 ≡ false
      → (keep_or_free_string true r).1 ≡ none
  keep_or_free_string-freed (false, cp, s) h = refl
  keep_or_free_string-freed (true, cp, s) h = cc

  read_string-freed :
      (n : ℕ) (o : Option (List ℕ)) (s : S)
      → (read_string x mem_alloc true n o s).0 ≡ false
      → (read_string x mem_alloc true n o s).1 ≡ none
  read_string-freed n none s h = refl
  read_string-freed n (some cp) s h =
      keep_or_free_string-freed (xdr_opaque x n decode (write_at cp n (0 ∷ [])) s) h

  sized_string-freed :
      (maxsize : ℕ) (r : Bool × ℕ × S)
      → (sized_string x mem_alloc maxsize decode none r).0 ≡ false
      → (sized_string x mem_alloc maxsize decode none r).1 ≡ none
  sized_string-freed maxsize (false, n, s) h = refl
  sized_string-freed maxsize (true, n, s) h =
      ground (arith, read_string-freed n (mem_alloc ((n + 1) % 2 ^ 32)) s)

  string_freed_again :
      (maxsize : ℕ) (sp : Option (List ℕ)) (s : S)
      → sp ≡ none
      → (sp ≡ none) × (xdr_string x mem_alloc maxsize free sp s ≡ (true, sp, s))
  unfolding xdr_string
  string_freed_again maxsize none s e = (e, refl)
  string_freed_again maxsize (some sp) s e = cc

  -- On any stream, decoding a string into a null pointer that fails leaves the pointer null, so that
  -- a later XDR_FREE of the string returns TRUE and changes neither the pointer nor the stream.
  pub xdr_string_failed-free :
      (maxsize : ℕ) (s s' : S)
      → (xdr_string x mem_alloc maxsize decode none s).0 ≡ false
      → let sp = (xdr_string x mem_alloc maxsize decode none s).1 in
        (sp ≡ none) × (xdr_string x mem_alloc maxsize free sp s' ≡ (true, sp, s'))
  unfolding xdr_string
  xdr_string_failed-free maxsize s s' h =
      string_freed_again maxsize
        (sized_string x mem_alloc maxsize decode none (xdr_u_int x decode 0 s)).1 s'
        (sized_string-freed maxsize (xdr_u_int x decode 0 s) h)

  -- A string longer than the bound is not freed: XDR_FREE reports a failure and keeps the pointer.
  xdr_string_free_overlong :
      (maxsize : ℕ) (sp : List ℕ) (s : S)
      → maxsize < strlen sp % 2 ^ 32
      → xdr_string x mem_alloc maxsize free (some sp) s ≡ (false, some sp, s)
  unfolding xdr_string xdr_u_int
  xdr_string_free_overlong maxsize sp s h = ground arith
