-- ===== src/Rpc/CallMsg/Inline.antt =====
-- The memory stream lends its buffer faithfully, where it is aligned.
use oncrpc4_win.Common.{
  ℕ, refl, sym, ap, ◌∙◌, Bool, true, false, List, ◌++◌, length, take, drop, leb-true, if◌then◌else◌,
  arith, window_split, take-take, drop-drop,
}
use oncrpc4_win.Xdr.Mem.{MemStream, mem_ops, inline_aligned, inline_unaligned}
use oncrpc4_win.Xdr.Mem.Laws.{MemInput, mem_laws}
use oncrpc4_win.Rpc.CallMsg.Decode.{Lent, InlineLaws}

aligned-Lent :
    (s : MemStream) (bs rest : List ℕ)
    → MemInput s (bs ++ rest)
    → Lent mem_laws bs rest (inline_aligned s (length bs))
unfolding inline_aligned mem_ops
aligned-Lent s bs rest h =
    let (le, shown, left) =
      window_split (length bs) s.handy (drop s.private s.mem) bs rest h.0 refl in
    rw (leb-true (length bs) s.handy le) (
      λ n few. sym (take-take n (length bs) (drop s.private s.mem) few) ∙ ap (take n) shown,
      (rw (← drop-drop (length bs) s.private s.mem) left, omega arith),
    )

either-Lent :
    (b : Bool) (s : MemStream) (bs rest : List ℕ)
    → MemInput s (bs ++ rest)
    → Lent mem_laws bs rest
        (if b then inline_aligned s (length bs) else inline_unaligned s (length bs))
unfolding inline_unaligned
either-Lent true s bs rest h = aligned-Lent s bs rest h
either-Lent false s bs rest h = h

mem-Lent :
    (s : MemStream) (bs rest : List ℕ)
    → MemInput s (bs ++ rest)
    → Lent mem_laws bs rest (mem_ops.inline s (length bs))
unfolding mem_ops
mem-Lent s = either-Lent s.aligned s

pub mem_inline : InlineLaws mem_laws
mem_inline = record { inline_lem = mem-Lent }
