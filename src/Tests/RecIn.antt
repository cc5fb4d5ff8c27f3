-- ===== src/Tests/RecIn.antt =====
-- Runs of the input of a record stream.
use oncrpc4_win.Xdr.RecIn.Nonblock.{xprt_morereqs, xdrrec_getrec, ready}
use oncrpc4_win.Xdr.RecIn.Getrec.{Came, xdrrec_getrec_lem}
use oncrpc4_win.Common.{
  zero, suc, ℕ, ◌+◌, ◌^◌, ◌<◌, ◌≡◌, refl, ap, Bool, true, false, Option, none, some, List, [], ◌∷◌,
  length, take, drop, arith,
}
use oncrpc4_win.Common.Words.{be32}
use oncrpc4_win.Xdr.RecIn.{InStream, xdrrec_getbytes, xdrrec_getlong}
use oncrpc4_win.Xdr.RecIn.Input.{Received, Transport}
use oncrpc4_win.Xdr.RecIn.Fragments.{Frags, last_fragment, fragment, Held}
use oncrpc4_win.Xdr.RecIn.Laws.{Next}
use oncrpc4_win.Xdr.RecIn.Skip.{xdrrec_skiprecord}
use oncrpc4_win.Xdr.RecIn.Records.{
  xdrrec_getbytes-Next, NextLong, xdrrec_getlong-Next, Before, xdrrec_skiprecord-Before,
}

-- A connection that delivers one byte with each read.
abbrev deliver : List ℕ → ℕ → Option (List ℕ) × List ℕ
deliver [] n = (none, [])
deliver (b ∷ bs) n = (some (b ∷ []), bs)

deliver_lem :
    (c bs : List ℕ) (n : ℕ)
    → c ≡ bs
    → 0 < length bs
    → 0 < n
    → Received (λ d ds. d ≡ ds) bs n (deliver c n)
deliver_lem [] bs n e h hn = absurd (omega (arith, ap length e))
deliver_lem (b ∷ c) bs n e h hn = (omega arith, omega arith, (c, e, refl))

abbrev byte_wise : Transport deliver
byte_wise = record { Delivers = λ c bs. c ≡ bs; read_lem = deliver_lem }

-- A record of six bytes in two fragments, and the first bytes of another.
abbrev fragments : List ℕ
fragments = 0 ∷ 0 ∷ 0 ∷ 3 ∷ 1 ∷ 2 ∷ 3 ∷ 128 ∷ 0 ∷ 0 ∷ 3 ∷ 4 ∷ 5 ∷ 6 ∷ 128 ∷ []

fragments-Frags : Frags fragments (1 ∷ 2 ∷ 3 ∷ 4 ∷ 5 ∷ 6 ∷ []) (128 ∷ [])
unfolding be32
fragments-Frags =
    fragment (1 ∷ 2 ∷ 3 ∷ []) (4 ∷ 5 ∷ 6 ∷ []) (128 ∷ 0 ∷ 0 ∷ 3 ∷ 4 ∷ 5 ∷ 6 ∷ 128 ∷ [])
      (omega arith) (omega arith) refl refl (last_fragment (omega arith) refl)

-- The stream after the record before has been skipped, with three bytes in its buffer.
abbrev stream : InStream (List ℕ)
stream = record {
  conn = drop 3 fragments;
  unread = take 3 fragments;
  boundry = 100;
  in_size = 100;
  fbtbc = 0;
  last_frag = false;
  nonblock = false;
}

abbrev stream-Held : Held byte_wise stream (1 ∷ 2 ∷ 3 ∷ 4 ∷ 5 ∷ 6 ∷ []) (128 ∷ [])
stream-Held = record {
  at_stream = fragments;
  k = 0;
  l = false;
  at = record {
    blocking = refl;
    roomy = omega arith;
    left = refl;
    is_last = refl;
    coming = drop 3 fragments;
    split = refl;
    delivers = refl;
  };
  pending = record {
    now = [];
    later = 1 ∷ 2 ∷ 3 ∷ 4 ∷ 5 ∷ 6 ∷ [];
    rest = fragments;
    wire = refl;
    count = refl;
    bytes = refl;
    after = fragments-Frags;
  };
}

xdrrec_getbytes-Next_example :
    Next byte_wise (128 ∷ []) 5 (1 ∷ 2 ∷ 3 ∷ 4 ∷ 5 ∷ 6 ∷ []) (xdrrec_getbytes deliver 12 stream 5)
xdrrec_getbytes-Next_example =
    xdrrec_getbytes-Next byte_wise stream 5 (1 ∷ 2 ∷ 3 ∷ 4 ∷ 5 ∷ 6 ∷ []) (128 ∷ []) stream-Held

xdrrec_getlong-Next_example :
    NextLong byte_wise (128 ∷ []) (1 ∷ 2 ∷ 3 ∷ 4 ∷ 5 ∷ 6 ∷ []) (xdrrec_getlong deliver stream)
xdrrec_getlong-Next_example =
    xdrrec_getlong-Next byte_wise stream (1 ∷ 2 ∷ 3 ∷ 4 ∷ 5 ∷ 6 ∷ []) (128 ∷ []) stream-Held

xdrrec_skiprecord-Before_example : Before byte_wise (128 ∷ []) (xdrrec_skiprecord deliver 16 stream)
xdrrec_skiprecord-Before_example =
    xdrrec_skiprecord-Before byte_wise 16 stream (1 ∷ 2 ∷ 3 ∷ 4 ∷ 5 ∷ 6 ∷ []) (128 ∷ []) stream-Held
      (omega arith)

-- A nonblocking connection, by what each read finds.
abbrev feed : List (List ℕ) → ℕ → Option (List ℕ) × List (List ℕ)
feed cs zero = (some [], cs)
feed [] (suc n) = (none, [])
feed (c ∷ cs) (suc n) = (some c, cs)

abbrev never : ℕ → Bool
never n = false

-- Two bytes of three; the last is still to come.
xdrrec_getrec_lem_example :
    let r =
      xdrrec_getrec never feed
        (ready never feed (be32 (2 ^ 31 + 3) ∷ (7 ∷ 8 ∷ []) ∷ (9 ∷ []) ∷ []) 400 100)
        false in
    (r.0 ≡ false)
    × (r.1 ≡ xprt_morereqs)
    × Came never feed false 3 (7 ∷ 8 ∷ []) ((9 ∷ []) ∷ []) true r
xdrrec_getrec_lem_example =
    xdrrec_getrec_lem never feed (be32 (2 ^ 31 + 3) ∷ (7 ∷ 8 ∷ []) ∷ (9 ∷ []) ∷ [])
      ((7 ∷ 8 ∷ []) ∷ (9 ∷ []) ∷ []) ((9 ∷ []) ∷ []) (2 ^ 31 + 3) 3 400 100 (7 ∷ 8 ∷ []) false true
      (omega arith) (omega arith) (omega arith) (omega arith) (omega arith) (omega arith) refl refl
      refl
