-- ===== src/Tests/Rec.antt =====
-- Runs of the output of a record stream.
use oncrpc4_win.Common.{ℕ, ◌≡◌, refl, Bool, true, false, List, [], ◌∷◌, ◌++◌, replicate, arith}
use oncrpc4_win.Common.Words.{be32}
use oncrpc4_win.Xdr.Rec.{OutStream, xdrrec_putlong, xdrrec_putbytes, xdrrec_endofrecord}
use oncrpc4_win.Xdr.Rec.Output.{start, Holds, xdrrec_putlong_lem, xdrrec_endofrecord_lem}
use oncrpc4_win.Xdr.Rec.Bytes.{PutAll, xdrrec_putbytes_lem}

abbrev takes : List ℕ → List ℕ → Bool
takes sent bs = true

-- A stream with a buffer of 100 bytes, 2 of them free.
abbrev stream : OutStream
stream = record { sent = []; ready = []; frag = replicate 94 1; sendsize = 100; frag_sent = false }

stream-Holds : Holds stream [] (replicate 94 1)
stream-Holds = record {
  opened = [];
  framed = start;
  content = refl;
  fits = omega arith;
  large = omega arith;
  small = omega arith;
}

-- The word does not fit the first fragment.
xdrrec_putlong_lem_example :
    ((xdrrec_putlong takes stream 7).0 ≡ true)
    × Holds (xdrrec_putlong takes stream 7).1 [] (replicate 94 1 ++ be32 7)
xdrrec_putlong_lem_example =
    xdrrec_putlong_lem takes (λ sent bs. refl) stream [] (replicate 94 1) 7 stream-Holds

xdrrec_putbytes_lem_example :
    PutAll [] (replicate 94 1 ++ (5 ∷ 6 ∷ 7 ∷ [])) (xdrrec_putbytes takes 5 stream (5 ∷ 6 ∷ 7 ∷ []))
xdrrec_putbytes_lem_example =
    xdrrec_putbytes_lem takes (λ sent bs. refl) 5 stream [] (replicate 94 1) (5 ∷ 6 ∷ 7 ∷ [])
      (omega arith) stream-Holds

xdrrec_endofrecord_lem_example :
    ((xdrrec_endofrecord takes stream false).0 ≡ true)
    × Holds (xdrrec_endofrecord takes stream false).1 (replicate 94 1 ∷ []) []
xdrrec_endofrecord_lem_example =
    xdrrec_endofrecord_lem takes (λ sent bs. refl) stream [] (replicate 94 1) false stream-Holds
