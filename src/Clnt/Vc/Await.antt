-- ===== src/Clnt/Vc/Await.antt =====
-- The client waits for the reply to its own call.
use mathlib.Core.Path.{subst}
use oncrpc4_win.Common.{
  ℕ, zero, suc, ◌+◌, ◌*◌, ◌<◌, ◌≡◌, ◌≢◌, refl, sym, ap, ◌∙◌, Bool, true, false, Option, none, some,
  List, [], ◌∷◌, ◌++◌, length, map, ◌==◌, arith, length-append, ==_false, ==_refl, if_true,
  if_false,
}
use oncrpc4_win.Xdr.Stream.{decode}
use oncrpc4_win.Xdr.Codec.{Decoded}
use oncrpc4_win.Xdr.Scalar.{xdr_void}
use oncrpc4_win.Xdr.Rec.{OutStream}
use oncrpc4_win.Xdr.RecIn.{InStream}
use oncrpc4_win.Xdr.RecIn.Input.{Transport}
use oncrpc4_win.Xdr.RecIn.Fragments.{Frags}
use oncrpc4_win.Xdr.RecIn.Skip.{Moves, xdrrec_skiprecord}
use oncrpc4_win.Xdr.RecIn.Records.{Before, xdrrec_skiprecord-Before}
use oncrpc4_win.Xdr.RecIn.Sizes.{length-Frags, length-Held}
use oncrpc4_win.Xdr.RecStream.{Handle, RecStream, rec_ops, moved, use_up, getrec, skip_record}
use oncrpc4_win.Xdr.RecStream.Laws.{Reading, rec_laws}
use oncrpc4_win.Rpc.Msg.{ReplyMsg, ReplyArms}
use oncrpc4_win.Rpc.Reply.{xdr_replymsg}
use oncrpc4_win.Rpc.Reply.Message.{arrived, fresh, reply_of, xdr_replymsg-Decodes_new}
use oncrpc4_win.Rpc.Reply.Layout.{reply_bytes, reply_wire-bytes, IsReply-IsVerdict, void_codec}
use oncrpc4_win.Clnt.Vc.Replies.{
  Reply, nothing, reply_record, IsReplied, Carries, AreStale, HasMemory,
}
use oncrpc4_win.Clnt.Vc.{CtHandle, fresh_reply, Awaited, after_reply, after_skip, await_reply}

module _ {O : Type 0} (io : Handle (CtHandle O)) (t : Transport io.readit)
    (taken : (sent bs : List ℕ) → io.writeit sent bs ≡ true) (mem_alloc : ℕ → Option (List ℕ)) where
  -- What a message says, and that the stream is behind it.
  abbrev pub Said : OutStream → List ℕ → Reply → ReplyMsg Unit → RecStream (CtHandle O) → Type 0
  Said o later r m s =
      ((u : ReplyArms Unit) × (m
          ≡ reply_of r.xid r.verdict (arrived (fresh r.verdict) u r.verdict)))
      × Reading io t taken o later s r.rest

  -- The reply has come.
  abbrev pub Came : OutStream → List ℕ → Reply → Awaited io mem_alloc → Type 0
  Came o later r none = ⊥
  Came o later r (some (ok, m, s)) = (ok ≡ true) × Said o later r m s

  decoded_on :
      (P : Awaited io mem_alloc → Type 0) (o : OutStream) (i : InStream (CtHandle O))
      (later : List ℕ) (x_id : ℕ) (r : Reply) (u : ReplyArms Unit)
      (go : ReplyMsg Unit → RecStream (CtHandle O) → Awaited io mem_alloc)
      → ((m : ReplyMsg Unit) (s : RecStream (CtHandle O))
          → Said o later r m s
          → P (after_reply io mem_alloc go x_id (true, m, s)))
      → (d : Bool × ReplyMsg Unit × RecStream (CtHandle O))
      → Decoded
          (rec_laws io t taken i o [] later)
          (reply_of r.xid r.verdict (arrived (fresh r.verdict) u r.verdict))
          r.rest
          d
      → P (after_reply io mem_alloc go x_id d)
  unfolding rec_laws
  decoded_on P o i later x_id r u go next (false, m, s) (ok, e, left) = cc
  decoded_on P o i later x_id r u go next (true, m, s) (ok, e, left) = next m s ((u, e), left)

  -- A record that holds a reply is decoded, whoever it is for.
  skipped_on :
      (P : Awaited io mem_alloc → Type 0) (o : OutStream) (more later : List ℕ) (x_id : ℕ)
      (r : Reply) (m : ReplyMsg Unit) (s : RecStream (CtHandle O))
      (go : ReplyMsg Unit → RecStream (CtHandle O) → Awaited io mem_alloc)
      → s.x_op ≡ decode
      → s.out ≡ o
      → HasMemory mem_alloc
      → IsReplied r
      → Frags more (reply_record r) later
      → ((m : ReplyMsg Unit) (s : RecStream (CtHandle O))
          → Said o later r m s
          → P (after_reply io mem_alloc go x_id (true, m, s)))
      → (w : Moves io.readit) → Before t more w
      → P (after_skip io mem_alloc go x_id (fresh_reply m) (moved io s w))
  unfolding rec_laws void_codec
  skipped_on P o more later x_id r m s go ed eo memory hr frags next none g = absurd g
  skipped_on P o more later x_id r m s go ed eo memory hr frags next (some (false, i)) (ok, _, _) =
      cc
  skipped_on P o more later x_id r m s go ed eo memory hr frags next (some (true, i))
        (ok, at_i, held) =
      let laws = rec_laws io t taken i o [] later in
      let s1 = record s { inp = i } in
      let u = (fresh_reply m).ru in
      decoded_on P o i later x_id r u go next
        (xdr_replymsg (rec_ops io) mem_alloc xdr_void decode (fresh_reply m) s1)
        (xdr_replymsg-Decodes_new laws mem_alloc (void_codec laws) r.xid (fresh_reply m) r.verdict
          refl memory hr.xid_fits
          (IsReply-IsVerdict laws mem_alloc (void_codec laws) r.verdict hr.verdict_fits) s1 r.rest
          (subst (λ w. laws.Input s1 (w ++ r.rest))
            (sym (reply_wire-bytes laws mem_alloc (void_codec laws) r.xid r.verdict))
            (ed, held (reply_record r) later frags, eo)))

  round_on :
      (P : Awaited io mem_alloc → Type 0) (o : OutStream) (fuel : ℕ) (bs more later : List ℕ)
      (x_id : ℕ) (r : Reply) (m : ReplyMsg Unit) (s : RecStream (CtHandle O))
      (go : ReplyMsg Unit → RecStream (CtHandle O) → Awaited io mem_alloc)
      → Reading io t taken o more s bs
      → 5 * (length bs + length more) + 4 < fuel
      → HasMemory mem_alloc
      → IsReplied r
      → Frags more (reply_record r) later
      → ((m : ReplyMsg Unit) (s : RecStream (CtHandle O))
          → Said o later r m s
          → P (after_reply io mem_alloc go x_id (true, m, s)))
      → P (after_skip io mem_alloc go x_id (fresh_reply m) (skip_record io fuel s))
  unfolding skip_record
  round_on P o fuel bs more later x_id r m s go (ed, held, eo) hf memory hr frags next =
      if_false (λ w. P (after_skip io mem_alloc go x_id (fresh_reply m) w)) s.inp.nonblock
        (some (use_up io (getrec io s false))) (moved io s (xdrrec_skiprecord io.readit fuel s.inp))
        held.at.blocking
        (skipped_on P o more later x_id r m s go ed eo memory hr frags next
          (xdrrec_skiprecord io.readit fuel s.inp)
          (xdrrec_skiprecord-Before t fuel s.inp bs more held
            (omega (arith, hf, length-Held t s.inp bs more held))))

  own_Came :
      (o : OutStream) (later : List ℕ) (r : Reply)
      (go : ReplyMsg Unit → RecStream (CtHandle O) → Awaited io mem_alloc) (m : ReplyMsg Unit)
      (s : RecStream (CtHandle O))
      → Said o later r m s
      → Came o later r (after_reply io mem_alloc go r.xid (true, m, s))
  own_Came o later r go m s ((u, e), left) =
      if_true (Came o later r) (m.xid == r.xid) (some (true, m, s)) (go m s)
        (ap (λ (m : ReplyMsg Unit). m.xid == r.xid) e ∙ ==_refl r.xid) (refl, ((u, e), left))

  other_Came :
      (P : Awaited io mem_alloc → Type 0) (o : OutStream) (later : List ℕ) (x_id : ℕ) (r : Reply)
      (go : ReplyMsg Unit → RecStream (CtHandle O) → Awaited io mem_alloc) (m : ReplyMsg Unit)
      (s : RecStream (CtHandle O))
      → r.xid ≢ x_id
      → Said o later r m s
      → P (go m s)
      → P (after_reply io mem_alloc go x_id (true, m, s))
  other_Came P o later x_id r go m s ne ((u, e), left) next =
      if_false P (m.xid == x_id) (some (true, m, s)) (go m s)
        (ap (λ (m : ReplyMsg Unit). m.xid == x_id) e ∙ ==_false r.xid x_id ne) next

  -- However many replies to other calls come first, whatever their verdicts, and however all of them
  -- are fragmented and delivered: the loop passes over them and stops at the first reply with the
  -- transaction id of the call, which it returns as it was sent, with what follows in its record
  -- still to be read. It makes one round for each reply; the rounds of each skip are bounded by the
  -- bytes to come.
  pub await_reply-Came :
      (stale : List Reply) (rounds fuel : ℕ) (r : Reply) (m : ReplyMsg Unit) (o : OutStream)
      (bs more after later : List ℕ) (s : RecStream (CtHandle O))
      → Reading io t taken o more s bs
      → length stale < rounds
      → 5 * (length bs + length more) + 4 < fuel
      → HasMemory mem_alloc
      → AreStale r.xid stale
      → Carries more (map reply_record stale) after
      → IsReplied r
      → Frags after (reply_record r) later
      → Came o later r (await_reply io mem_alloc rounds fuel r.xid m s)
  unfolding await_reply
  await_reply-Came stale zero fuel r m o bs more after later s reading hr hf memory hs carries h
        own =
      absurd (omega arith)
  await_reply-Came [] (suc rounds) fuel r m o bs more after later s reading hr hf memory hs carries
        h own =
      round_on (Came o later r) o fuel bs more later r.xid r m s
        (await_reply io mem_alloc rounds fuel r.xid) reading hf memory h
        (subst (λ w. Frags w (reply_record r) later) (sym carries) own)
        (own_Came o later r (await_reply io mem_alloc rounds fuel r.xid))
  await_reply-Came (q ∷ stale) (suc rounds) fuel r m o bs more after later s reading hr hf memory
        (ne, hq, hs) (rest, frags, carries) h own =
      let go = await_reply io mem_alloc rounds fuel r.xid in
      round_on (Came o later r) o fuel bs more rest r.xid q m s go reading hf memory hq frags
        (λ m' s' said. other_Came (Came o later r) o rest r.xid q go m' s' ne said (
          await_reply-Came stale rounds fuel r m' o q.rest rest after later s' said.1
            (omega (arith, hr))
            (omega (
              arith,
              hf,
              (length-Frags frags).1,
              length-append (reply_bytes nothing q.xid q.verdict) q.rest,
            ))
            memory hs carries h own))
