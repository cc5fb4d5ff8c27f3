-- ===== src/Xdr/RecIn/Sizes.antt =====
-- How much of the stream a record takes: at most five bytes for each of its own, and four more.
use oncrpc4_win.Common.{
  ℕ, ◌+◌, ◌*◌, ◌≤◌, ◌≡◌, ap, Bool, true, false, Option, List, ◌++◌, length, arith, length-append,
}
use oncrpc4_win.Common.Words.{be32}
use oncrpc4_win.Xdr.RecIn.Input.{Transport}
use oncrpc4_win.Xdr.RecIn.{InStream}
use oncrpc4_win.Xdr.RecIn.Fragments.{Frags, last_fragment, fragment, After, Held}

framed_length :
    (v : ℕ) (f rest stream : List ℕ)
    → stream ≡ be32 v ++ (f ++ rest)
    → length stream ≡ 4 + length f + length rest
unfolding be32
framed_length v f rest stream e = omega (arith, ap length e, length-append f rest)

pub length-Frags :
    {stream bs more : List ℕ}
    → Frags stream bs more
    → (length stream ≤ 5 * length bs + 4 + length more)
      × (length bs + length more + 4 ≤ length stream)
length-Frags {stream} {bs} {more} (last_fragment small e) =
    let n = framed_length _ bs more stream e in (omega (arith, n), omega (arith, n))
length-Frags {stream} {bs} {more} (fragment f later rest some_bytes small e eb fs) =
    let n = framed_length _ f rest stream e in
    let (upper, lower) = length-Frags fs in
    let b : length bs ≡ length f + length later =
      omega (arith, ap length eb, length-append f later) in
    (omega (arith, n, upper, b, some_bytes), omega (arith, n, lower, b))

After-length :
    (l : Bool) (rest later more : List ℕ)
    → After l rest later more
    → length rest ≤ 5 * length later + 4 + length more
After-length true rest later more (e, er) = omega (arith, ap length er)
After-length false rest later more fs = (length-Frags fs).0

pub length-Held :
    {C : Type 0} {readit : C → ℕ → Option (List ℕ) × C} (t : Transport readit) (s : InStream C)
    (bs more : List ℕ) (held : Held t s bs more)
    → length held.at_stream ≤ 5 * length bs + 4 + length more
length-Held t s bs more held =
    let p = held.pending in
    omega (
      arith,
      ap length p.wire,
      length-append p.now p.rest,
      ap length p.bytes,
      length-append p.now p.later,
      After-length held.l p.rest p.later more p.after,
    )
