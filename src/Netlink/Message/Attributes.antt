-- ===== src/Netlink/Message/Attributes.antt =====
-- The attributes that stand in the memory of netlink_scripts/*/netlink.h, one behind the other.
use routerd.Prelude.{ℕ, ◌+◌, ◌^◌, ◌≤◌, ◌<◌, ◌≡◌, refl, inl, inr, List, [], ◌∷◌, ◌++◌, length, arith}
use routerd.Netlink.Memory.{Stands, Wrote, Stands-Wrote}
use routerd.Netlink.Message.{align, rta_size, rta_length, rta_header}

-- A type and the data.
abbrev pub Attr : Type 0
Attr = ℕ × List ℕ

-- The type and the length are words of 16 bits.
abbrev pub FitsWords : Attr → Type 0
FitsWords a = (a.0 < 2 ^ 16) × (rta_length (length a.1) < 2 ^ 16)

-- What an attribute takes with its padding, and what several take.
abbrev pub room : Attr → ℕ
room a = align (rta_length (length a.1))

abbrev pub rooms : List Attr → ℕ
rooms [] = 0
rooms (a ∷ attrs) = room a + rooms attrs

-- The attribute stands in memory from index i on.
abbrev pub StandsAttr : List ℕ → ℕ → Attr → Type 0
StandsAttr mem i a =
    Stands mem i (rta_header a.0 (rta_length (length a.1))) × Stands mem (i + rta_size) a.1

-- From index i up to the end the attributes stand, each at the padded end of the one before.
abbrev pub Holds : List ℕ → ℕ → List Attr → ℕ → Type 0
Holds mem i [] end = i ≡ end
Holds mem i (a ∷ attrs) end = StandsAttr mem i a × Holds mem (i + room a) attrs end

pub Holds-rooms :
    (mem : List ℕ) (i : ℕ) (attrs : List Attr) (end : ℕ)
    → Holds mem i attrs end
    → i + rooms attrs ≡ end
Holds-rooms mem i [] end h = omega (arith, h)
Holds-rooms mem i (a ∷ attrs) end h = omega (arith, Holds-rooms mem (i + room a) attrs end h.1)

pub Holds-append :
    (mem : List ℕ) (i : ℕ) (attrs : List Attr) (end : ℕ) (a : Attr)
    → Holds mem i attrs end
    → StandsAttr mem end a
    → Holds mem i (attrs ++ a ∷ []) (end + room a)
Holds-append mem i [] end a h s = rw (h) (s, refl)
Holds-append mem i (b ∷ attrs) end a h s = (h.0, Holds-append mem (i + room b) attrs end a h.1 s)

-- A copy behind the attributes leaves them standing.
pub Holds-Wrote :
    (xs zs : List ℕ) (i j : ℕ) (ys : List ℕ) (attrs : List Attr) (end : ℕ)
    → end ≤ j
    → Wrote xs j ys zs
    → Holds xs i attrs end
    → Holds zs i attrs end
Holds-Wrote xs zs i j ys [] end l w h = h
Holds-Wrote xs zs i j ys (a ∷ attrs) end l w h =
    let below : i + room a ≤ end = omega (arith, Holds-rooms xs (i + room a) attrs end h.1) in
    (
      (
        Stands-Wrote xs zs i j ys (rta_header a.0 (rta_length (length a.1)))
            (inl (omega (arith, below, l))) w h.0.0,
        Stands-Wrote xs zs (i + rta_size) j ys a.1 (inl (omega (arith, below, l))) w h.0.1,
      ),
      Holds-Wrote xs zs (i + room a) j ys attrs end l w h.1,
    )

-- So does a copy before them.
pub Holds-Wrote_before :
    (xs zs : List ℕ) (i j : ℕ) (ys : List ℕ) (attrs : List Attr) (end : ℕ)
    → j + length ys ≤ i
    → Wrote xs j ys zs
    → Holds xs i attrs end
    → Holds zs i attrs end
Holds-Wrote_before xs zs i j ys [] end l w h = h
Holds-Wrote_before xs zs i j ys (a ∷ attrs) end l w h = (
  (
    Stands-Wrote xs zs i j ys (rta_header a.0 (rta_length (length a.1))) (inr l) w h.0.0,
    Stands-Wrote xs zs (i + rta_size) j ys a.1 (inr (omega (arith, l))) w h.0.1,
  ),
  Holds-Wrote_before xs zs (i + room a) j ys attrs end (omega (arith, l)) w h.1,
)
