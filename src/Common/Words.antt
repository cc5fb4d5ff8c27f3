-- ===== src/Common/Words.antt =====
-- Machine words on the wire: a 32-bit word as four bytes, highest first, and the casts between
-- the widths that the XDR routines make. A `long` is 32 bits wide, as on Windows.
use Prim.Native.Nat.{ℕ, ◌+◌, ◌-◌, ◌*◌, ◌/◌, ◌%◌, ◌^◌, ◌<◌}
use mathlib.Core.Path.{◌≡◌}
use mathlib.Core.List.{List, [], ◌∷◌}
use native.Mathlib.Omega.{arith}
use oncrpc4_win.Common.Tests.{ltb, if◌then◌else◌}

abbrev pub IsByte : ℕ → Type 0
IsByte b = b < 256

abbrev pub IsU32 : ℕ → Type 0
IsU32 v = v < 2 ^ 32

-- `htonl`, as the four bytes that it leaves in memory.
unfoldable pub be32 : ℕ → List ℕ
be32 v = (v / 2 ^ 24 % 256) ∷ (v / 2 ^ 16 % 256) ∷ (v / 2 ^ 8 % 256) ∷ (v % 256) ∷ []

-- `ntohl` of the four bytes in memory.
unfoldable pub word : ℕ → ℕ → ℕ → ℕ → ℕ
word a b c d = a * 2 ^ 24 + b * 2 ^ 16 + c * 2 ^ 8 + d

-- The word at the front of some bytes.
unfoldable pub word_of : List ℕ → ℕ
unfolding word
word_of (a ∷ b ∷ c ∷ d ∷ _) = word a b c d
word_of _ = 0

pub word_be32 :
    (v : ℕ) → IsU32 v → word (v / 2 ^ 24 % 256) (v / 2 ^ 16 % 256) (v / 2 ^ 8 % 256) (v % 256) ≡ v
unfolding word
word_be32 v h = omega arith

-- Sign extension from 16 bits, and from 8 bits, to 32 bits, on bit patterns.
unfoldable pub sext16 : ℕ → ℕ
sext16 v = if ltb v (2 ^ 15) then v else v + (2 ^ 32 - 2 ^ 16)

unfoldable pub sext8 : ℕ → ℕ
sext8 v = if ltb v (2 ^ 7) then v else v + (2 ^ 32 - 2 ^ 8)

pub sext16-mod : (v : ℕ) → v < 2 ^ 16 → sext16 v % 2 ^ 16 ≡ v
unfolding sext16
sext16-mod v h = ground arith

pub sext16-IsU32 : (v : ℕ) → v < 2 ^ 16 → IsU32 (sext16 v)
unfolding sext16
sext16-IsU32 v h = ground arith

pub sext8-mod : (v : ℕ) → v < 2 ^ 8 → sext8 v % 2 ^ 8 ≡ v
unfolding sext8
sext8-mod v h = ground arith

pub sext8-IsU32 : (v : ℕ) → v < 2 ^ 8 → IsU32 (sext8 v)
unfolding sext8
sext8-IsU32 v h = ground arith
