-- ===== src/Netlink/Hexdump/Reading.antt =====
-- The bytes that can be read off what `hexdump` prints.
use routerd.Prelude.{
  ℕ, zero, suc, ◌+◌, ◌-◌, ◌*◌, ◌/◌, ◌%◌, ◌^◌, ◌≤◌, ◌<◌, ◌≡◌, refl, sym, ap, ap₂, ◌∙◌, inl, inr,
  List, [], ◌∷◌, ◌++◌, append_assoc, append-nil, ◌&&◌, ◌==◌, ltb, leb, Bool-cases, length, take,
  replicate, hex_digit, hex2, All, Option, none, some, if◌then◌else◌, arith,
}
use routerd.Netlink.Hexdump.{
  drop, high_digits, row_text, hex_cells, char_cells, blanks, row_cells, hexdump_rows, hexdump,
}

-- The value of a hexadecimal digit.
abbrev pub digit_value : ℕ → Option ℕ
digit_value c =
    if leb 48 c && leb c 57
    then some (c - 48)
    else if leb 97 c && leb c 102
    then some (c - 87)
    else none

abbrev byte_of : Option ℕ → Option ℕ → List ℕ
byte_of (some x) (some y) = (16 * x + y) ∷ []
byte_of _ _ = []

-- A text of a blank and two digits is read as a byte, all others are passed over.
abbrev pub read_cell : List ℕ → List ℕ
read_cell (s ∷ a ∷ b ∷ []) = byte_of (digit_value a) (digit_value b)
read_cell _ = []

abbrev pub read_cells : List (List ℕ) → List ℕ
read_cells [] = []
read_cells (t ∷ ts) = read_cell t ++ read_cells ts

read_cells-append : (ts us : List (List ℕ)) → read_cells (ts ++ us) ≡ read_cells ts ++ read_cells us
read_cells-append [] us = refl
read_cells-append (t ∷ ts) us =
    ap (λ x. read_cell t ++ x) (read_cells-append ts us)
    ∙ sym (append_assoc (read_cell t) (read_cells ts) (read_cells us))

digit_value-hex_digit : (d : ℕ) → d < 16 → digit_value (hex_digit d) ≡ some d
digit_value-hex_digit d h = ground (arith, h)

read_cell-hex2 : (c : ℕ) → c < 256 → read_cell (b' ' ∷ hex2 c) ≡ c ∷ []
read_cell-hex2 c h =
    let v : 16 * (c / 16 % 16) + c % 16 ≡ c = omega (arith, h) in
    ap₂ byte_of (digit_value-hex_digit (c / 16 % 16) (omega arith))
      (digit_value-hex_digit (c % 16) (omega arith))
    ∙ ap (λ x. x ∷ []) v

read_cells-hex_cells :
    (i : ℕ) (cs : List ℕ) → All (λ c. c < 256) cs → read_cells (hex_cells i cs) ≡ cs
unfolding hex_cells
read_cells-hex_cells i [] a = refl
read_cells-hex_cells i (c ∷ cs) a = elim (Bool-cases (i == 8)) [
  | inl t ↦ rw t (ap₂ ◌++◌ (read_cell-hex2 c a.0) (read_cells-hex_cells (i + 1) cs a.1))
  | inr t ↦ rw t (ap₂ ◌++◌ (read_cell-hex2 c a.0) (read_cells-hex_cells (i + 1) cs a.1))
]

read_cells-char_cells : (i : ℕ) (cs : List ℕ) → read_cells (char_cells i cs) ≡ []
unfolding char_cells
read_cells-char_cells i [] = refl
read_cells-char_cells i (c ∷ cs) = elim (Bool-cases (i == 8)) [
  | inl t ↦ rw t (read_cells-char_cells (i + 1) cs)
  | inr t ↦ rw t (read_cells-char_cells (i + 1) cs)
]

read_cells-blanks : (n : ℕ) → read_cells (replicate n blanks) ≡ []
read_cells-blanks zero = refl
read_cells-blanks (suc n) = read_cells-blanks n

-- A text of more than three characters.
read_cell-long : (a b c d : ℕ) (xs ys : List ℕ) → read_cell (xs ++ a ∷ b ∷ c ∷ d ∷ ys) ≡ []
read_cell-long a b c d [] ys = refl
read_cell-long a b c d (x ∷ []) ys = refl
read_cell-long a b c d (x ∷ y ∷ []) ys = refl
read_cell-long a b c d (x ∷ y ∷ z ∷ []) ys = refl
read_cell-long a b c d (x ∷ y ∷ z ∷ w ∷ xs) ys = refl

read_cells-row_cells :
    (row : ℕ) (cs : List ℕ) → All (λ c. c < 256) cs → read_cells (row_cells row cs) ≡ cs
read_cells-row_cells row cs a =
    let after : read_cells (char_cells 0 cs ++ (10 ∷ []) ∷ []) ≡ [] =
      read_cells-append (char_cells 0 cs) ((10 ∷ []) ∷ [])
      ∙ ap (λ x. x ++ []) (read_cells-char_cells 0 cs) in
    let head : read_cell (row_text row) ≡ [] =
      read_cell-long (hex_digit (row / 256 / 16 % 16)) (hex_digit (row / 256 % 16))
        (hex_digit (row / 16 % 16)) (hex_digit (row % 16)) (high_digits 12 (row / 2 ^ 16))
        (b':' ∷ b' ' ∷ b' ' ∷ b' ' ∷ []) in
    let padding = replicate (16 - length cs) blanks in
    let tail = blanks ∷ (char_cells 0 cs ++ (10 ∷ []) ∷ []) in
    ap₂ ◌++◌ head (
      read_cells-append (hex_cells 0 cs) (padding ++ tail)
      ∙ ap₂ ◌++◌ (read_cells-hex_cells 0 cs a)
          (read_cells-append padding tail ∙ ap₂ ◌++◌ (read_cells-blanks (16 - length cs)) after))
    ∙ append-nil cs

All-take : (n : ℕ) (cs : List ℕ) → All (λ c. c < 256) cs → All (λ c. c < 256) (take n cs)
All-take zero cs a = tt
All-take (suc n) [] a = tt
All-take (suc n) (c ∷ cs) a = (a.0, All-take n cs a.1)

All-drop : (n : ℕ) (cs : List ℕ) → All (λ c. c < 256) cs → All (λ c. c < 256) (drop n cs)
All-drop zero cs a = a
All-drop (suc n) [] a = tt
All-drop (suc n) (c ∷ cs) a = All-drop n cs a.1

take-append-drop : (n : ℕ) (cs : List ℕ) → take n cs ++ drop n cs ≡ cs
take-append-drop zero cs = refl
take-append-drop (suc n) [] = refl
take-append-drop (suc n) (c ∷ cs) = ap (λ x. c ∷ x) (take-append-drop n cs)

length-drop : (n : ℕ) (cs : List ℕ) → length (drop n cs) ≤ length cs
length-drop zero cs = omega arith
length-drop (suc n) [] = omega arith
length-drop (suc n) (c ∷ cs) = omega (arith, length-drop n cs)

-- A row and what is read behind it.
row_and_rest :
    (row k : ℕ) (c : ℕ) (cs : List ℕ) (rest : List (List ℕ))
    → All (λ c. c < 256) (c ∷ cs)
    → read_cells rest ≡ drop k cs
    → read_cells (row_cells row (c ∷ take k cs) ++ rest) ≡ c ∷ cs
row_and_rest row k c cs rest a e =
    read_cells-append (row_cells row (c ∷ take k cs)) rest
    ∙ ap₂ ◌++◌ (read_cells-row_cells row (c ∷ take k cs) (a.0, All-take k cs a.1)) e
    ∙ ap (λ x. c ∷ x) (take-append-drop k cs)

hexdump_rows-bytes :
    (fuel row : ℕ) (cs : List ℕ)
    → length cs ≤ fuel
    → All (λ c. c < 256) cs
    → read_cells (hexdump_rows fuel row cs) ≡ cs
unfolding hexdump_rows
hexdump_rows-bytes zero row [] l a = refl
hexdump_rows-bytes zero row (c ∷ cs) l a = absurd (omega (arith, l))
hexdump_rows-bytes (suc fuel) row [] l a = refl
hexdump_rows-bytes (suc fuel) row (c ∷ cs) l a = elim (Bool-cases (ltb (length (c ∷ cs)) 16)) [
  | inl t ↦ rw t (
      row_and_rest row (length cs) c cs _ a (
        hexdump_rows-bytes fuel (row + suc (length cs)) (drop (length cs) cs)
          (omega (arith, l, length-drop (length cs) cs)) (All-drop (length cs) cs a.1)))
  | inr t ↦ rw t (
      row_and_rest row 15 c cs _ a (
        hexdump_rows-bytes fuel (row + suc 15) (drop 15 cs) (omega (arith, l, length-drop 15 cs))
          (All-drop 15 cs a.1)))
]

-- From the dump of any buffer its bytes can be read: the texts of a blank and two digits are the bytes
-- in their order, and no other text of the dump reads like one. Rows are printed till all are.
pub read-hexdump :
    (buffer : List ℕ) → All (λ c. c < 256) buffer → read_cells (hexdump buffer) ≡ buffer
unfolding hexdump
read-hexdump buffer a = hexdump_rows-bytes (length buffer) 0 buffer (omega arith) a
