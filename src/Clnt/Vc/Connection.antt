-- ===== src/Clnt/Vc/Connection.antt =====
-- What a connection owes a client, and the errors that it does not report.
use oncrpc4_win.Common.{ℕ, ◌<◌, ◌≡◌, refl, ◌∙◌, Option, none, some, List, length}
use oncrpc4_win.Xdr.RecIn.{InStream}
use oncrpc4_win.Xdr.RecIn.Input.{Received, Transport}
use oncrpc4_win.Xdr.RecIn.Fragments.{Held}
use oncrpc4_win.Xdr.RecStream.{Handle}
use oncrpc4_win.Rpc.Reply.Errors.{RpcErr}
use oncrpc4_win.Clnt.Vc.{CtHandle}

-- While bytes are to come, `read_vc` returns some of them, and leaves `ct_error` alone.
pub record Connection {O : Type 0} (io : Handle (CtHandle O)) : Type 1 where
  pub Delivers : O → List ℕ → Type 0
  pub read_lem :
      (c : CtHandle O) (bs : List ℕ) (n : ℕ)
      → Delivers c.os bs
      → 0 < length bs
      → 0 < n
      → Received (λ d ds. Delivers d.os ds × (d.error ≡ c.error)) bs n (io.readit c n)

module _ {O : Type 0} {io : Handle (CtHandle O)} (conn : Connection io) where
  steady_read :
      (err err' : RpcErr) (bs : List ℕ) (n : ℕ) (r : Option (List ℕ) × CtHandle O)
      → err' ≡ err
      → Received (λ d ds. conn.Delivers d.os ds × (d.error ≡ err')) bs n r
      → Received (λ d ds. conn.Delivers d.os ds × (d.error ≡ err)) bs n r
  steady_read err err' bs n (none, c) e g = g
  steady_read err err' bs n (some chunk, c) e (some_read, few, (rest, er, (d, same))) =
      (some_read, few, (rest, er, (d, same ∙ e)))

  -- The transport, as long as `ct_error` is `err`.
  unfoldable pub steady : RpcErr → Transport io.readit
  unfolding steady_read
  steady err = record {
    Delivers = λ c bs. conn.Delivers c.os bs × (c.error ≡ err);
    read_lem = λ c bs n (d, e) h hn.
        steady_read err c.error bs n (io.readit c n) e (conn.read_lem c bs n d h hn);
  }

  abbrev pub with_error : RpcErr → InStream (CtHandle O) → InStream (CtHandle O)
  with_error err i = record i { conn = record i.conn { error = err } }

  -- An error that is set does not change what is delivered.
  pub with_error-Held :
      (err err' : RpcErr) (i : InStream (CtHandle O)) (bs more : List ℕ)
      → Held (steady err) i bs more
      → Held (steady err') (with_error err' i) bs more
  unfolding steady
  with_error-Held err err' i bs more h = record {
    at_stream = h.at_stream;
    k = h.k;
    l = h.l;
    at = record {
      blocking = h.at.blocking;
      roomy = h.at.roomy;
      left = h.at.left;
      is_last = h.at.is_last;
      coming = h.at.coming;
      split = h.at.split;
      delivers = (h.at.delivers.0, refl);
    };
    pending = h.pending;
  }

  pub error_of :
      (err : RpcErr) (i : InStream (CtHandle O)) (bs more : List ℕ)
      → Held (steady err) i bs more
      → i.conn.error ≡ err
  unfolding steady
  error_of err i bs more h = h.at.delivers.1
