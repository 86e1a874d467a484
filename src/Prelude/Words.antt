-- ===== src/Prelude/Words.antt =====
-- C words as native numbers: one bit of a mask, and the byte order of the network on a little-endian
-- host.
use Prim.Native.Nat.{ℕ, ◌+◌, ◌-◌, ◌*◌, ◌/◌, ◌%◌, ◌^◌, ◌<◌}
use mathlib.Core.Path.{◌≡◌}
use mathlib.Core.Bool.{Bool}
use native.Mathlib.Omega.{arith}
use routerd.Prelude.Tests.{if◌then◌else◌, ◌==◌}

-- `!!(w & (1U << k))`
abbrev pub has_bit : ℕ → ℕ → Bool
has_bit w k = w / 2 ^ k % 2 == 1

-- `w | (1U << k)`
abbrev pub set_bit : ℕ → ℕ → ℕ
set_bit w k = if has_bit w k then w else w + 2 ^ k

-- `w & ~(1U << k)`
abbrev pub clear_bit : ℕ → ℕ → ℕ
clear_bit w k = if has_bit w k then w - 2 ^ k else w

-- `(uint32_t)~0`
abbrev pub invalid : ℕ
invalid = 0xffff_ffff

-- `htons` and `ntohs` swap the two bytes.
abbrev pub htons : ℕ → ℕ
htons x = x % 256 * 256 + x / 256 % 256

-- `htonl` and `ntohl` reverse the four bytes.
abbrev pub htonl : ℕ → ℕ
htonl x =
    x % 256 * 0x100_0000
    + x / 256 % 256 * 0x1_0000
    + x / 0x1_0000 % 256 * 256
    + x / 0x100_0000 % 256

pub htons-htons : (x : ℕ) → x < 2 ^ 16 → htons (htons x) ≡ x
htons-htons x h = omega arith

pub htonl-htonl : (x : ℕ) → x < 2 ^ 32 → htonl (htonl x) ≡ x
htonl-htonl x h = omega arith
