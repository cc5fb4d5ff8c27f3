-- ===== src/Xdr/Sizeof.antt =====
-- libsrc/xdr_sizeof.c: a stream that counts the bytes written to it and keeps none of them.
pub mod Laws
use oncrpc4_win.Common.{
  ℕ, ◌+◌, ◌%◌, ◌^◌, Bool, true, false, Option, none, some, List, [], ltb, ◌==◌, if◌then◌else◌,
  length,
}
use oncrpc4_win.Xdr.Stream.{XdrOp, encode, XdrOps, Filter}

-- `x_handy`, the scratch buffer at `x_private`, and its size, which is kept in `x_base`.
pub record SizeStream : Type 0 where
  pub handy : ℕ
  pub private : Option (List ℕ)
  pub base : ℕ

-- `x_handy` is an unsigned int.
abbrev pub count_more : SizeStream → ℕ → SizeStream
count_more s len = record s { handy = (s.handy + len) % 2 ^ 32 }

abbrev pub scratch : Option (List ℕ) → ℕ → SizeStream → Option ℕ × SizeStream
scratch none len s = (none, record s { private = none; base = 0 })
scratch (some buf) len s =
    (some 0, record s { handy = (s.handy + len) % 2 ^ 32; private = some buf; base = len })

module _ (mem_alloc : ℕ → Option (List ℕ)) where
  -- `XDR_ENCODE` is the only operation that `xdr_sizeof` sets. A scratch buffer that is large enough
  -- is used again, any other is replaced.
  unfoldable pub x_inline : SizeStream → ℕ → Option ℕ × SizeStream
  x_inline s len =
      if len == 0
      then (none, s)
      else if ltb len s.base
      then (some 0, count_more s len)
      else scratch (mem_alloc len) len s

  -- Reading is `harmless`, which returns FALSE.
  unfoldable pub size_ops : XdrOps SizeStream
  size_ops = record {
    getlong = λ s. (none, s);
    putlong = λ s v. (true, count_more s 4);
    getbytes = λ s n. (none, s);
    putbytes = λ s bs. (true, count_more s (length bs));
    inline = x_inline;
    peek = λ s p len. [];
    poke = λ s p bs. s;
  }

  -- The count if the filter succeeds, and 0 if it fails.
  unfoldable pub xdr_sizeof : {A : Type 0} → (XdrOps SizeStream → Filter SizeStream A) → A → ℕ
  unfolding size_ops
  xdr_sizeof func v =
      let (stat, _, x) = func size_ops encode v (record { handy = 0; private = none; base = 0 }) in
      if stat then x.handy else 0
