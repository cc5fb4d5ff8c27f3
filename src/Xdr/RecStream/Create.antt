-- ===== src/Xdr/RecStream/Create.antt =====
-- A record stream that has just been created is at the end of an empty record, in both directions.
use oncrpc4_win.Common.{ℕ, ◌-◌, ◌^◌, ◌≤◌, ◌<◌, refl, true, Option, List, [], arith}
use oncrpc4_win.Xdr.Stream.{XdrOp}
use oncrpc4_win.Xdr.Rec.Output.{Holds, start}
use oncrpc4_win.Xdr.RecIn.Input.{Transport}
use oncrpc4_win.Xdr.RecIn.Fragments.{Held}
use oncrpc4_win.Xdr.RecStream.{fix_buf_size, xdrrec_create}

-- Any size that is asked for becomes one that the stream can use.
fix_buf_size_lem : (n : ℕ) → n < 2 ^ 31 - 4 → (100 ≤ fix_buf_size n) × (fix_buf_size n < 2 ^ 31)
unfolding fix_buf_size
fix_buf_size_lem n h = (ground arith, ground arith)

module _ {C : Type 0} (op : XdrOp) (conn : C) (sendsize recvsize : ℕ) (hs : sendsize < 2 ^ 31 - 4)
    (hr : recvsize < 2 ^ 31 - 4) where
  pub xdrrec_create-Holds : Holds (xdrrec_create op conn sendsize recvsize).out [] []
  unfolding xdrrec_create
  xdrrec_create-Holds =
      let (large, small) = fix_buf_size_lem sendsize hs in
      record {
        opened = [];
        framed = start;
        content = refl;
        fits = omega (arith, large);
        large = large;
        small = small;
      }

  pub xdrrec_create-Held :
      {readit : C → ℕ → Option (List ℕ) × C} (t : Transport readit) (bs : List ℕ)
      → t.Delivers conn bs
      → Held t (xdrrec_create op conn sendsize recvsize).inp [] bs
  unfolding xdrrec_create
  xdrrec_create-Held t bs h = record {
    at_stream = bs;
    k = 0;
    l = true;
    at = record {
      blocking = refl;
      roomy = omega (arith, (fix_buf_size_lem recvsize hr).0);
      left = refl;
      is_last = refl;
      coming = bs;
      split = refl;
      delivers = h;
    };
    pending = record {
      now = [];
      later = [];
      rest = bs;
      wire = refl;
      count = refl;
      bytes = refl;
      after = (refl, refl);
    };
  }
