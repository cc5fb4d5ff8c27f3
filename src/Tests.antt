-- ===== src/Tests.antt =====
-- Runs of the models at concrete inputs.
mod Xdr
mod Composite
mod Limits
mod Rpc
mod Svc
mod Rec
mod RecIn
mod Dg
mod CallMsg
mod Rpcbind
mod Vc
mod Clnt
mod Exchange
use oncrpc4_win.Common.{
  ℕ, ◌+◌, ◌≤◌, ◌≡◌, sym, ◌∙◌, true, List, [], ◌++◌, length, take, replicate, arith, take_all,
  append-nil,
}
use oncrpc4_win.Xdr.Mem.{MemStream}
use oncrpc4_win.Xdr.Mem.Laws.{MemRoom, MemInput}

-- 64 bytes to write to, and some bytes to read from.
abbrev pub sink : MemStream
sink = record { mem = replicate 64 7; private = 0; handy = 64; aligned = true }

abbrev pub source : List ℕ → MemStream
source bs = record { mem = bs; private = 0; handy = length bs; aligned = true }

pub sink-MemRoom : (n : ℕ) → n ≤ 64 → MemRoom sink n
sink-MemRoom n h = (h, omega arith)

pub source-MemInput : (bs : List ℕ) → MemInput (source bs) (bs ++ [])
source-MemInput bs = (take_all (length bs) bs (omega arith) ∙ sym (append-nil bs), omega arith)
