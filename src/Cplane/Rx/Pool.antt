-- ===== src/Cplane/Rx/Pool.antt =====
-- The pool of buffers of `tap_rx`: its filling, and taking from its end.
use routerd.Prelude.{
  ℕ, zero, suc, ◌+◌, ◌-◌, ◌≤◌, ◌≡◌, refl, sym, ap, ◌∙◌, List, [], ◌∷◌, ◌++◌, append_assoc,
  append-nil, some, true, false, ltb, leb, load, take, length, Returns, arith,
}
use routerd.Cplane.Rx.{
  mtu_buffers, num_buffers_to_alloc, Event, allocated, put_frame, refill, from_end,
}

-- The buffers that VPP gave out, in order.
unfoldable pub gives : List Event → List ℕ
gives [] = []
gives (allocated bs ∷ es) = bs ++ gives es
gives (_ ∷ es) = gives es

-- The packets that were given to a node, each with the node.
unfoldable pub puts : List Event → List (ℕ × ℕ)
puts [] = []
puts (put_frame node b ∷ es) = (node, b) ∷ puts es
puts (_ ∷ es) = puts es

pub gives-append : (es fs : List Event) → gives (es ++ fs) ≡ gives es ++ gives fs
unfolding gives
gives-append [] fs = refl
gives-append (allocated bs ∷ es) fs =
    ap (λ l. bs ++ l) (gives-append es fs) ∙ sym (append_assoc bs (gives es) (gives fs))
gives-append (_ ∷ es) fs = gives-append es fs

pub puts-append : (es fs : List Event) → puts (es ++ fs) ≡ puts es ++ puts fs
unfolding puts
puts-append [] fs = refl
puts-append (put_frame node b ∷ es) fs = ap (λ l. (node, b) ∷ l) (puts-append es fs)
puts-append (_ ∷ es) fs = puts-append es fs

-- Buffers are asked for just if the pool is empty, and then the pool is what was given.
abbrev pub Refilled : List ℕ → List ℕ → List ℕ × List Event → Type 0
Refilled rx given f =
    (f.0 ≡ rx ++ gives f.1)
    × (puts f.1 ≡ [])
    × (length f.0 ≤ num_buffers_to_alloc)
    × (ltb (length f.0) mtu_buffers ≡ true → (rx ≡ []) × (given ≡ []))

nothing : (bs : List ℕ) → ltb (length bs) mtu_buffers ≡ true → bs ≡ []
nothing [] h = refl
nothing (b ∷ bs) h = ground (arith, h)

pub refill-Refilled :
    (rx given : List ℕ)
    → length rx ≤ num_buffers_to_alloc
    → length given ≤ num_buffers_to_alloc
    → Returns (Refilled rx given) (refill rx given)
unfolding refill gives puts
refill-Refilled [] given h k =
    let fits : leb (0 + length given) num_buffers_to_alloc ≡ true = ground (arith, k) in
    rw fits (sym (append-nil given), refl, k, λ e. (refl, nothing given e))
refill-Refilled (b ∷ bs) given h k =
    let full : ltb (suc (length bs)) mtu_buffers ≡ false = ground arith in
    rw full (sym (append-nil (b ∷ bs)), refl, h, λ e. ground (arith, full, e))

last_of :
    (b : ℕ) (bs : List ℕ)
    → (l : ℕ) × (load (b ∷ bs) (length bs) ≡ some l)
      × (take (length bs) (b ∷ bs) ++ l ∷ [] ≡ b ∷ bs)
last_of b [] = (b, refl, refl)
last_of b (c ∷ bs) = let (l, e, t) = last_of c bs in (l, e, ap (λ m. b ∷ m) t)

-- The last buffer of a pool that is not empty, and the pool without it.
pub take_last :
    (rx : List ℕ)
    → ltb (length rx) mtu_buffers ≡ false
    → (l : ℕ) × (from_end rx 0 mtu_buffers ≡ some (l ∷ []))
      × (take (length rx - 1) rx ++ l ∷ [] ≡ rx)
unfolding from_end
take_last [] h = ground (arith, h)
take_last (b ∷ bs) h =
    let (l, e, t) = last_of b bs in
    let i : suc (length bs) - 1 - 0 ≡ length bs = omega arith in
    let j : suc (length bs) - 1 ≡ length bs = omega arith in (l, rw (i, e), rw j t)

pub length-take_le : (n : ℕ) (xs : List ℕ) → length (take n xs) ≤ length xs
length-take_le zero xs = omega arith
length-take_le (suc n) [] = omega arith
length-take_le (suc n) (x ∷ xs) = omega (arith, length-take_le n xs)
