-- ===== src/Xdr/RecStream.antt =====
-- libsrc/xdr_rec.c: both directions of a record stream behind one `XDR` handle, as `xdrrec_ops`
-- offers them to the filters.
pub mod Deframe
pub mod Laws
pub mod Lends
pub mod Written
pub mod Create
use oncrpc4_win.Common.{
  ℕ, ◌+◌, ◌-◌, ◌*◌, ◌/◌, ◌%◌, ◌^◌, Bool, true, false, ◌&&◌, Option, none, some, List, [], ◌++◌,
  length, take, drop, write_at, ltb, leb, if◌then◌else◌,
}
use oncrpc4_win.Xdr.Stream.{XdrOp, encode, decode, free, XdrOps}
use oncrpc4_win.Xdr.Rec.{
  OutStream, out_finger, append_frag, xdrrec_putlong, xdrrec_putbytes, xdrrec_endofrecord,
}
use oncrpc4_win.Xdr.RecIn.{InStream, Reads, xdrrec_getlong, xdrrec_getbytes}
use oncrpc4_win.Xdr.RecIn.Skip.{Moves, is_nil, xdrrec_skiprecord, xdrrec_eof}
use oncrpc4_win.Xdr.RecIn.Nonblock.{
  XprtStat, xprt_died, xprt_morereqs, xprt_idle, NonblockStream, xdrrec_setnonblock, xdrrec_getrec,
}

-- The part of `RECSTREAM` that only a nonblocking stream uses.
pub record Gathered : Type 0 where
  pub hdr : List ℕ
  pub in_header : ℕ
  pub in_haveheader : Bool
  pub received : List ℕ
  pub in_reclen : ℕ
  pub in_maxrec : ℕ
  pub recvsize : ℕ

-- `XDR` and the `RECSTREAM` that `x_private` points to. `lent` is what stands in the input buffer
-- from the address on that `xdrrec_inline` returned last, and `gathered` what `__xdrrec_getrec`
-- keeps of a record that it gathers; `in_maxrec` is not set before `__xdrrec_setnonblock`.
pub record RecStream (C : Type 0) : Type 0 where
  pub x_op : XdrOp
  pub inp : InStream C
  pub out : OutStream
  pub lent : List ℕ
  pub gathered : Gathered

-- The stream as `__xdrrec_getrec` sees it.
abbrev pub as_nonblock : {C : Type 0} → RecStream C → NonblockStream C
as_nonblock s = record {
  conn = s.inp.conn;
  hdr = s.gathered.hdr;
  in_header = s.gathered.in_header;
  in_haveheader = s.gathered.in_haveheader;
  received = s.gathered.received;
  in_reclen = s.gathered.in_reclen;
  in_maxrec = s.gathered.in_maxrec;
  recvsize = s.gathered.recvsize;
  in_size = s.inp.in_size;
  last_frag = s.inp.last_frag;
  fbtbc = s.inp.fbtbc;
  unread = s.inp.unread;
}

-- What stands from the offset `at` of the buffer on, once its first bytes are `received`.
abbrev pub overwritten : ℕ → List ℕ → List ℕ → List ℕ
overwritten at received unread =
    take (length unread) (drop at received) ++ drop (length received - at) unread

abbrev pub gathered_of : {C : Type 0} → NonblockStream C → Gathered
gathered_of n = record {
  hdr = n.hdr;
  in_header = n.in_header;
  in_haveheader = n.in_haveheader;
  received = n.received;
  in_reclen = n.in_reclen;
  in_maxrec = n.in_maxrec;
  recvsize = n.recvsize;
}

-- A whole record stands in the buffer from its beginning on; the parts of one overwrite what is
-- unread there.
abbrev pub from_nonblock :
    {C : Type 0} → RecStream C → Bool × XprtStat × NonblockStream C → Bool × XprtStat × RecStream C
from_nonblock s (true, stat, n) = (
  true,
  stat,
  record s {
    inp = record s.inp {
      conn = n.conn;
      unread = n.unread;
      boundry = length n.unread;
      in_size = n.in_size;
      fbtbc = n.fbtbc;
      last_frag = n.last_frag;
    };
    gathered = gathered_of n;
  },
)
from_nonblock s (false, stat, n) = (
  false,
  stat,
  record s {
    inp = record s.inp {
      conn = n.conn;
      unread = overwritten (s.inp.boundry - length s.inp.unread) n.received s.inp.unread;
      in_size = n.in_size;
      last_frag = n.last_frag;
    };
    gathered = gathered_of n;
  },
)

-- `fix_buf_size`.
unfoldable pub fix_buf_size : ℕ → ℕ
fix_buf_size s = let n = if ltb s 100 then 4000 else s in (n + 3) % 2 ^ 32 / 4 * 4

-- `__xdrrec_setnonblock` of the handle.
abbrev pub set_nonblock : {C : Type 0} → RecStream C → ℕ → RecStream C
set_nonblock s maxrec = record s {
  inp = record s.inp { nonblock = true };
  gathered = gathered_of (xdrrec_setnonblock (as_nonblock s) maxrec);
}

-- `xdrrec_create`, where there is memory: the input buffer is used up, and behind the end of a
-- record.
unfoldable pub xdrrec_create : {C : Type 0} → XdrOp → C → ℕ → ℕ → RecStream C
xdrrec_create op conn sendsize recvsize = record {
  x_op = op;
  inp = record {
    conn = conn;
    unread = [];
    boundry = fix_buf_size recvsize;
    in_size = fix_buf_size recvsize;
    fbtbc = 0;
    last_frag = true;
    nonblock = false;
  };
  out = record {
    sent = [];
    ready = [];
    frag = [];
    sendsize = fix_buf_size sendsize;
    frag_sent = false;
  };
  lent = [];
  gathered = record {
    hdr = [];
    in_header = 0;
    in_haveheader = false;
    received = [];
    in_reclen = 0;
    in_maxrec = 0;
    recvsize = fix_buf_size recvsize;
  };
}

-- What the stream knows of its transport and its memory. `readit` returns -1, `none`, or bytes;
-- `writeit`, given what was sent before, takes all the bytes or fails, which leaves the connection
-- as `write_failed` says. `stale s len` is what stands in the output buffer in the `len` bytes from
-- `out_finger` on, and `can_realloc` whether `realloc` of a size succeeds.
pub record Handle (C : Type 0) : Type 0 where
  pub readit : C → ℕ → Option (List ℕ) × C
  pub writeit : List ℕ → List ℕ → Bool
  pub write_failed : C → C
  pub stale : OutStream → ℕ → List ℕ
  pub can_realloc : ℕ → Bool

-- The fuel of the loops is enough on any transport that delivers its bytes.
module _ {C : Type 0} (io : Handle C) where
  abbrev pub with_input :
      {A : Type 0} → RecStream C → Option (Option A × InStream C) → Option A × RecStream C
  with_input s none = (none, s)
  with_input s (some (r, i)) = (r, record s { inp = i })

  abbrev pub with_output : RecStream C → Bool × OutStream → Bool × RecStream C
  with_output s (true, o) = (true, record s { out = o })
  with_output s (false, o) =
      (false, record s { inp = record s.inp { conn = io.write_failed s.inp.conn }; out = o })

  abbrev pub put_bytes : RecStream C → Option (Bool × OutStream) → Bool × RecStream C
  put_bytes s none = (false, s)
  put_bytes s (some r) = with_output s r

  -- The switch of `xdrrec_inline` on `x_op`. An address in the open fragment is its offset there.
  unfoldable pub xdrrec_inline : XdrOp → RecStream C → ℕ → Option ℕ × RecStream C
  xdrrec_inline encode s len =
      if leb (out_finger s.out + len) s.out.sendsize
      then (
        some (length s.out.frag),
        record s { out = append_frag io.writeit (io.stale s.out len) s.out },
      )
      else (none, s)
  xdrrec_inline decode s len =
      if leb len s.inp.fbtbc && leb len (length s.inp.unread)
      then (
        some 0,
        record s {
          inp = record s.inp { fbtbc = s.inp.fbtbc - len; unread = drop len s.inp.unread };
          lent = s.inp.unread;
        },
      )
      else (none, s)
  xdrrec_inline free s len = (none, s)

  unfoldable pub rec_ops : XdrOps (RecStream C)
  rec_ops = record {
    getlong = λ s. with_input s (xdrrec_getlong io.readit s.inp);
    putlong = λ s v. with_output s (xdrrec_putlong io.writeit s.out v);
    getbytes = λ s n. with_input s (xdrrec_getbytes io.readit (2 * n + 2) s.inp n);
    putbytes = λ s bs. put_bytes s (xdrrec_putbytes io.writeit (length bs + 2) s.out bs);
    inline = λ s len. xdrrec_inline s.x_op s len;
    peek = λ s p len. take len (drop p s.lent);
    poke = λ s p bs. record s { out = record s.out { frag = write_at s.out.frag p bs } };
  }

  -- `xdrrec_endofrecord` of the handle.
  abbrev pub end_record : RecStream C → Bool → Bool × RecStream C
  end_record s sendnow = with_output s (xdrrec_endofrecord io.writeit s.out sendnow)

  abbrev pub moved : RecStream C → Moves io.readit → Option (Bool × RecStream C)
  moved s none = none
  moved s (some (r, i)) = some (r, record s { inp = i })

  -- What a nonblocking stream makes of a call of `__xdrrec_getrec`: the record is used up.
  abbrev pub use_up : Bool × XprtStat × RecStream C → Bool × RecStream C
  use_up (true, stat, s) = (true, record s { inp = record s.inp { fbtbc = 0 } })
  use_up (false, xprt_morereqs, s) =
      if is_nil io.readit s.inp.unread
      then (true, record s { inp = record s.inp { fbtbc = 0 } })
      else (false, s)
  use_up (false, xprt_died, s) = (false, s)
  use_up (false, xprt_idle, s) = (false, s)

  abbrev pub getrec : RecStream C → Bool → Bool × XprtStat × RecStream C
  getrec s expectdata =
      from_nonblock s (xdrrec_getrec io.can_realloc io.readit (as_nonblock s) expectdata)

  -- `xdrrec_skiprecord` of the handle.
  unfoldable pub skip_record : ℕ → RecStream C → Option (Bool × RecStream C)
  skip_record fuel s =
      if s.inp.nonblock
      then some (use_up (getrec s false))
      else moved s (xdrrec_skiprecord io.readit fuel s.inp)

  -- `xdrrec_eof` of the handle.
  abbrev pub at_eof : ℕ → RecStream C → Option (Bool × RecStream C)
  at_eof fuel s = moved s (xdrrec_eof io.readit fuel s.inp)
