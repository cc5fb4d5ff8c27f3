-- ===== src/Rpc/CallMsg/Buffer.antt =====
-- A call that is written into the buffer that an aligned memory stream lends.
use mathlib.Core.Path.{subst}
use oncrpc4_win.Common.{
  ◌-◌, ℕ, ◌+◌, ◌≤◌, ◌≡◌, refl, sym, ap, ◌∙◌, true, Option, some, List, ◌++◌, length, take, drop,
  if◌then◌else◌, arith, append_assoc, take-append-drop, ltb-false, leb-true, length-take,
  length-drop, drop-drop,
}
use oncrpc4_win.Xdr.Stream.{encode}
use oncrpc4_win.Xdr.Mem.{MemStream, advance, mem_ops, inline_aligned, inline_unaligned}
use oncrpc4_win.Xdr.Opaque.{rndup}
use oncrpc4_win.Rpc.CallMsg.{call_size, xdr_callmsg}
use oncrpc4_win.Rpc.CallMsg.Laws.{Call, IsCall, message_of, call_wire}
use oncrpc4_win.Rpc.CallMsg.Encode.{inline_wire, poke_call_lem, length-call_wire}

-- The memory of the stream, cut where the parts of the call will stand: `pad1` and `pad2` are the
-- bytes between the bodies and the next multiple of four.
pub record Parts (c : Call) (s : MemStream) : Type 0 where
  pub before : List ℕ
  pub words : List ℕ
  pub cred : List ℕ
  pub pad1 : List ℕ
  pub verf_words : List ℕ
  pub verf : List ℕ
  pub pad2 : List ℕ
  pub after : List ℕ
  pub parts :
      s.mem ≡ before ++ (words ++ (cred ++ (pad1 ++ (verf_words ++ (verf ++ (pad2 ++ after))))))
  pub at : s.private ≡ length before
  pub words_size : length words ≡ 32
  pub cred_size : length cred ≡ length c.cred
  pub pad1_size : length pad1 ≡ rndup (length c.cred)
  pub verf_words_size : length verf_words ≡ 8
  pub verf_size : length verf ≡ length c.verf
  pub pad2_size : length pad2 ≡ rndup (length c.verf)

piece :
    (k n : ℕ) (xs rest : List ℕ)
    → drop k xs ++ rest ≡ take n (drop k xs) ++ (drop (k + n) xs ++ rest)
piece k n xs rest =
    ap (λ t. t ++ rest) (sym (take-append-drop n (drop k xs)))
    ∙ append_assoc (take n (drop k xs)) (drop n (drop k xs)) rest
    ∙ ap (λ t. take n (drop k xs) ++ (t ++ rest)) (drop-drop n k xs)

-- The eight words, as they are written.
cut :
    (words : List ℕ) (rest : List ℕ)
    → words ++ rest
      ≡ take 8 words
        ++ (take 4 (drop 8 words) ++ (take 12 (drop 12 words) ++ (drop 24 words ++ rest)))
cut words rest =
    piece 0 8 words rest
    ∙ ap (λ t. take 8 words ++ t)
        (piece 8 4 words rest ∙ ap (λ t. take 4 (drop 8 words) ++ t) (piece 12 12 words rest))

module _ (mem_alloc : ℕ → Option (List ℕ)) where
  inlined :
      (c : Call) (s : MemStream)
      → s.aligned ≡ true
      → call_size mem_ops mem_alloc (message_of c) ≤ s.handy
      → mem_ops.inline s (call_size mem_ops mem_alloc (message_of c))
        ≡ (some s.private, advance s (call_size mem_ops mem_alloc (message_of c)))
  unfolding mem_ops inline_aligned inline_unaligned
  inlined c s ea h =
      subst
        (λ b.
          (if b
            then inline_aligned s (call_size mem_ops mem_alloc (message_of c))
            else inline_unaligned s (call_size mem_ops mem_alloc (message_of c)))
          ≡ (some s.private, advance s (call_size mem_ops mem_alloc (message_of c))))
        (sym ea) (rw (leb-true (call_size mem_ops mem_alloc (message_of c)) s.handy h) refl)

  -- On an aligned memory stream with room for the call, whose credentials and verifier have at most
  -- 400 bytes each, xdr_callmsg writes the words and the bodies of the call into the stream's
  -- buffer and moves behind them: by as many bytes as the layout of the protocol has. The padding
  -- behind a body is not written: the bytes that the buffer held there become a part of the message.
  pub xdr_callmsg_inline :
      (c : Call) (s : MemStream) (b : Parts c s)
      → IsCall c
      → s.aligned ≡ true
      → call_size mem_ops mem_alloc (message_of c) ≤ s.handy
      → let r = xdr_callmsg mem_ops mem_alloc encode (message_of c) s in
        (r.0 ≡ true)
        × (r.2.mem ≡ b.before ++ (inline_wire mem_alloc c b.pad1 b.pad2 ++ b.after))
        × (r.2.private ≡ s.private + length (call_wire c))
        × (r.2.handy ≡ s.handy - length (call_wire c))
  unfolding xdr_callmsg
  xdr_callmsg_inline c s b h ea room =
      rw
        (
          length-call_wire mem_ops mem_alloc c,
          ltb-false 400 (length c.cred) h.cred_fits.body_fits,
          ltb-false 400 (length c.verf) h.verf_fits.body_fits,
          inlined c s ea room,
        )
        (poke_call_lem mem_alloc c (advance s (call_size mem_ops mem_alloc (message_of c)))
          s.private b.before (take 8 b.words) (take 4 (drop 8 b.words)) (take 12 (drop 12 b.words))
          (drop 24 b.words) b.cred b.pad1 b.verf_words b.verf b.pad2 b.after
          (b.parts
            ∙ ap (λ t. b.before ++ t)
                (cut b.words
                  (b.cred ++ (b.pad1 ++ (b.verf_words ++ (b.verf ++ (b.pad2 ++ b.after)))))))
          b.at (length-take 8 b.words (omega (arith, b.words_size)))
          (length-take 4 (drop 8 b.words) (omega (arith, b.words_size, length-drop 8 b.words)))
          (length-take 12 (drop 12 b.words) (omega (arith, b.words_size, length-drop 12 b.words)))
          (omega (arith, b.words_size, length-drop 24 b.words)) b.cred_size b.pad1_size
          b.verf_words_size b.verf_size)
