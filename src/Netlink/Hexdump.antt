-- ===== src/Netlink/Hexdump.antt =====
-- `hexdump` of netlink_scripts/*/hexdump.h: what it prints of a buffer, as the list of the texts that its
-- calls of fprintf write.
pub mod Reading
use routerd.Prelude.{
  ℕ, zero, suc, ◌+◌, ◌-◌, ◌*◌, ◌/◌, ◌%◌, ◌^◌, List, [], ◌∷◌, ◌++◌, ◌&&◌, ◌==◌, ltb, leb, length,
  take, replicate, hex_digit, hex2, if◌then◌else◌,
}

abbrev pub drop : ℕ → List ℕ → List ℕ
drop zero xs = xs
drop (suc n) [] = []
drop (suc n) (x ∷ xs) = drop n xs

-- The digits of a number before its last four, which only a large one has. A `size_t` has sixteen.
unfoldable pub high_digits : ℕ → ℕ → List ℕ
high_digits zero x = []
high_digits (suc n) x =
    let rest = high_digits n (x / 16) in if x == 0 then [] else rest ++ hex_digit (x % 16) ∷ []

-- "%04zx:   "
abbrev pub row_text : ℕ → List ℕ
row_text row =
    high_digits 12 (row / 2 ^ 16)
    ++ (hex2 (row / 256) ++ (hex2 row ++ b':' ∷ b' ' ∷ b' ' ∷ b' ' ∷ []))

-- The two digits of each byte of the row, from index i on.
unfoldable pub hex_cells : ℕ → List ℕ → List (List ℕ)
hex_cells i [] = []
hex_cells i (c ∷ cs) =
    (if i == 8 then (b' ' ∷ []) ∷ [] else []) ++ (b' ' ∷ hex2 c) ∷ hex_cells (i + 1) cs

-- The bytes of the row as characters, with points for those that are not printed.
abbrev pub printed : ℕ → ℕ
printed c = if leb 0x20 c && leb c 0x7e then c else b'.'

unfoldable pub char_cells : ℕ → List ℕ → List (List ℕ)
char_cells i [] = []
char_cells i (c ∷ cs) =
    (if i == 8 then (b' ' ∷ b' ' ∷ []) ∷ [] else []) ++ (printed c ∷ []) ∷ char_cells (i + 1) cs

abbrev pub blanks : List ℕ
blanks = b' ' ∷ b' ' ∷ b' ' ∷ []

-- One round of the loop.
abbrev pub row_cells : ℕ → List ℕ → List (List ℕ)
row_cells row cs =
    row_text row
    ∷ (hex_cells 0 cs
        ++ (replicate (16 - length cs) blanks ++ (blanks ∷ (char_cells 0 cs ++ (10 ∷ []) ∷ []))))

-- The loop, with the rounds that may be left. Each takes a byte at least.
unfoldable pub hexdump_rows : ℕ → ℕ → List ℕ → List (List ℕ)
hexdump_rows zero row bytes = []
hexdump_rows (suc fuel) row [] = []
hexdump_rows (suc fuel) row (c ∷ cs) =
    let n = if ltb (length (c ∷ cs)) 16 then length (c ∷ cs) else 16 in
    row_cells row (take n (c ∷ cs)) ++ hexdump_rows fuel (row + n) (drop n (c ∷ cs))

unfoldable pub hexdump : List ℕ → List (List ℕ)
hexdump buffer = hexdump_rows (length buffer) 0 buffer
