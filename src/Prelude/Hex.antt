-- ===== src/Prelude/Hex.antt =====
-- Hexadecimal digits, as printf writes them.
use Prim.Native.Nat.{ℕ, ◌+◌, ◌/◌, ◌%◌}
use mathlib.Core.List.{List, [], ◌∷◌}
use routerd.Prelude.Tests.{ltb, if◌then◌else◌}

abbrev pub hex_digit : ℕ → ℕ
hex_digit d = if ltb d 10 then 48 + d else 87 + d

-- "%02x" of a byte
abbrev pub hex2 : ℕ → List ℕ
hex2 b = hex_digit (b / 16 % 16) ∷ hex_digit (b % 16) ∷ []
