-- ===== src/Xdr/RecIn/Nonblock.antt =====
-- libsrc/xdr_rec.c, the input of a nonblocking record stream: `__xdrrec_getrec` gathers a record
-- over several calls.
use oncrpc4_win.Common.{
  ℕ, ◌+◌, ◌-◌, ◌%◌, ◌^◌, ◌≤◌, ◌<◌, ◌≡◌, ap, ◌∙◌, Bool, true, false, ◌||◌, Option, none, some, List,
  [], ◌∷◌, ◌++◌, length, ltb, leb, ◌==◌, if◌then◌else◌, arith, Bool-cases, inl, inr, ltb-false,
}
use oncrpc4_win.Common.Words.{be32, word_of, word_be32}

-- `enum xprt_stat`.
pub data XprtStat : Type 0 where
  xprt_died xprt_morereqs xprt_idle : XprtStat

-- `RECSTREAM` of a nonblocking connection. `hdr` holds the `in_hdrlen` bytes of the header read so
-- far, `received` the first `in_received` bytes of the buffer, and `unread` the bytes from
-- `in_finger` to `in_boundry` once a record is whole.
pub record NonblockStream (C : Type 0) : Type 0 where
  pub conn : C
  pub hdr : List ℕ
  pub in_header : ℕ
  pub in_haveheader : Bool
  pub received : List ℕ
  pub in_reclen : ℕ
  pub in_maxrec : ℕ
  pub recvsize : ℕ
  pub in_size : ℕ
  pub last_frag : Bool
  pub fbtbc : ℕ
  pub unread : List ℕ

-- `__xdrrec_setnonblock`, `nonblock` apart.
unfoldable pub xdrrec_setnonblock : {C : Type 0} → NonblockStream C → ℕ → NonblockStream C
xdrrec_setnonblock s maxrec = record s { in_maxrec = if maxrec == 0 then s.recvsize else maxrec }

abbrev pub no_input : Bool → XprtStat
no_input true = xprt_died
no_input false = xprt_idle

-- `realloc` of a size succeeds or not; `readit` returns -1, `none`, or bytes. The lengths are far
-- below the largest `int`.
module _ {C : Type 0} (can_realloc : ℕ → Bool) (readit : C → ℕ → Option (List ℕ) × C) where
  abbrev pub Answer : Type 0
  Answer = Bool × XprtStat × NonblockStream C

  -- The buffer's contents move with it. `in_boundry` is no field of the model: `__xdrrec_getrec` sets
  -- it when a record is complete.
  unfoldable pub realloc_stream : NonblockStream C → ℕ → Bool × NonblockStream C
  realloc_stream s size =
      if ltb s.recvsize size
      then (if can_realloc size
          then (true, record s { recvsize = size; in_size = size })
          else (false, s))
      else (true, s)

  -- All the bytes that are asked for have come, or not.
  abbrev pub after_body : NonblockStream C → Answer
  after_body s =
      if length s.received == s.in_reclen
      then (let t = record s { in_haveheader = false; hdr = [] } in
          if t.last_frag
          then (
            true,
            xprt_morereqs,
            record t { fbtbc = t.in_reclen; unread = t.received; in_reclen = 0; received = [] },
          )
          else (false, xprt_morereqs, t))
      else (false, xprt_morereqs, s)

  abbrev pub got_body : Bool → NonblockStream C → Option (List ℕ) × C → Answer
  got_body expectdata s (none, c) = (false, xprt_died, record s { conn = c })
  got_body expectdata s (some [], c) = (false, no_input expectdata, record s { conn = c })
  got_body expectdata s (some (b ∷ bs), c) =
      after_body (record s { conn = c; received = s.received ++ (b ∷ bs) })

  abbrev pub read_body : Bool → NonblockStream C → Answer
  read_body expectdata s = got_body expectdata s (readit s.conn (s.in_reclen - length s.received))

  abbrev pub with_room : Bool → Bool × NonblockStream C → Answer
  with_room expectdata (false, s) = (false, xprt_died, s)
  with_room expectdata (true, s) = read_body expectdata (
      if leb (2 ^ 31) s.in_header
      then record s { in_header = s.in_header - 2 ^ 31; last_frag = true }
      else s)

  abbrev pub with_header : Bool → NonblockStream C → Answer
  with_header expectdata s =
      let fraglen = s.in_header % 2 ^ 31 in
      let t = record s { in_reclen = s.in_reclen + fraglen } in
      if (fraglen == 0 || ltb s.in_maxrec fraglen) || ltb s.in_maxrec (s.in_reclen + fraglen)
      then (false, xprt_died, s)
      else with_room expectdata
          (if ltb t.recvsize t.in_reclen then realloc_stream t t.in_reclen else (true, t))

  abbrev pub got_header : Bool → NonblockStream C → Option (List ℕ) × C → Answer
  got_header expectdata s (none, c) = (false, xprt_died, record s { conn = c })
  got_header expectdata s (some [], c) = (false, no_input expectdata, record s { conn = c })
  got_header expectdata s (some (b ∷ bs), c) =
      let t = record s { conn = c; hdr = s.hdr ++ (b ∷ bs) } in
      if ltb (length t.hdr) 4
      then (false, xprt_morereqs, t)
      else with_header expectdata (record t { in_header = word_of t.hdr })

  unfoldable pub xdrrec_getrec : NonblockStream C → Bool → Answer
  xdrrec_getrec s expectdata =
      if s.in_haveheader
      then read_body expectdata s
      else got_header expectdata s (readit s.conn (4 - length s.hdr))

  -- A stream between two records, as `xdrrec_create` and `__xdrrec_setnonblock` leave it.
  abbrev pub ready : C → ℕ → ℕ → NonblockStream C
  ready c maxrec size = record {
    conn = c;
    hdr = [];
    in_header = 0;
    in_haveheader = false;
    received = [];
    in_reclen = 0;
    in_maxrec = maxrec;
    recvsize = size;
    in_size = size;
    last_frag = true;
    fbtbc = 0;
    unread = [];
  }

  -- The header of a fragment of `n` bytes has been read.
  abbrev pub headed : C → ℕ → ℕ → ℕ → ℕ → NonblockStream C
  headed c maxrec size header n = record (ready c maxrec size) {
    hdr = be32 header;
    in_header = header % 2 ^ 31;
    in_reclen = n;
  }

  header_accepted :
      (header n maxrec : ℕ)
      → header % 2 ^ 31 ≡ n
      → 0 < n
      → n ≤ maxrec
      → ((header % 2 ^ 31 == 0 || ltb maxrec (header % 2 ^ 31)) || ltb maxrec (0 + header % 2 ^ 31))
        ≡ false
  header_accepted header n maxrec e h hm = ground arith

  below :
      (header : ℕ)
      → header < 2 ^ 32
      → leb (2 ^ 31) header ≡ true
      → header - 2 ^ 31 ≡ header % 2 ^ 31
  below header h e = ground arith

  same_below : (header : ℕ) → leb (2 ^ 31) header ≡ false → header ≡ header % 2 ^ 31
  same_below header e = ground arith

  unmarked :
      (c : C) (bs : List ℕ) (header n maxrec size : ℕ)
      → header < 2 ^ 32
      → let s = record (ready c maxrec size) { hdr = bs; in_header = header; in_reclen = n } in
        (if leb (2 ^ 31) header
          then record s { in_header = header - 2 ^ 31; last_frag = true }
          else s)
        ≡ record s { in_header = header % 2 ^ 31 }
  unmarked c bs header n maxrec size h =
      let s = record (ready c maxrec size) { hdr = bs; in_header = header; in_reclen = n } in
      elim (Bool-cases (leb (2 ^ 31) header)) [
        | inl e ↦ rw e (ap (λ w. record s { in_header = w }) (below header h e))
        | inr e ↦ rw e (ap (λ w. record s { in_header = w }) (same_below header e))
      ]

  accepted :
      (c : C) (bs : List ℕ) (header n maxrec size : ℕ) (expectdata : Bool)
      → header < 2 ^ 32
      → header % 2 ^ 31 ≡ n
      → 0 < n
      → n ≤ maxrec
      → n ≤ size
      → with_header expectdata (record (ready c maxrec size) { hdr = bs; in_header = header })
        ≡ read_body expectdata
            (record (ready c maxrec size) { hdr = bs; in_header = header % 2 ^ 31; in_reclen = n })
  accepted c bs header n maxrec size expectdata hh e h hm hs =
      let sum : 0 + header % 2 ^ 31 ≡ n = omega (arith, e) in
      rw (header_accepted header n maxrec e h hm, sum, ltb-false size n hs)
        (ap (read_body expectdata) (unmarked c bs header n maxrec size hh))

  pub first_read :
      (c c' : C) (header n maxrec size : ℕ) (expectdata : Bool)
      → header < 2 ^ 32
      → header % 2 ^ 31 ≡ n
      → 0 < n
      → n ≤ maxrec
      → n ≤ size
      → readit c 4 ≡ (some (be32 header), c')
      → xdrrec_getrec (ready c maxrec size) expectdata
        ≡ got_body expectdata (headed c' maxrec size header n) (readit c' n)
  unfolding xdrrec_getrec be32 word_of
  first_read c c' header n maxrec size expectdata hh e h hm hs er =
      ap (got_header expectdata (ready c maxrec size)) er
      ∙ ap
          (λ w.
            with_header expectdata
              (record (ready c' maxrec size) { hdr = be32 header; in_header = w }))
          (word_be32 header hh)
      ∙ accepted c' (be32 header) header n maxrec size expectdata hh e h hm hs
      ∙ (let whole : n - 0 ≡ n = omega arith in
          ap (λ m. got_body expectdata (headed c' maxrec size header n) (readit c' m)) whole)
