-- ===== src/Netlink/Parse.antt =====
-- `parse_rtattr_flags` of netlink_scripts/nexthop/netlink.h: the table of the attributes in memory.
pub mod Reads
use routerd.Prelude.{
  ℕ, zero, suc, ◌+◌, ◌-◌, ◌*◌, ◌/◌, ◌^◌, List, Option, none, some, ◌>>=◌, Bool, true, false, ◌&&◌,
  ltb, leb, get_or, set, replicate, ℤ, pos, negsuc, if◌then◌else◌,
}
use Prim.Native.Nat.{bit_and}
use routerd.Netlink.Memory.{read16}
use routerd.Netlink.Message.{align, rta_size}

abbrev pub is_none : Option ℕ → Bool
is_none none = true
is_none (some x) = false

-- `tb[type] = rta` for a type that the table has and that has no attribute yet. An attribute is its
-- offset in the memory.
unfoldable pub enter : List (Option ℕ) → ℕ → ℕ → ℕ → List (Option ℕ)
enter tb max type rta =
    if leb type max && is_none (get_or tb type none) then set tb type (some rta) else tb

-- `x & ~flags`
unfoldable pub without : ℕ → ℕ → ℕ
without x flags = x - bit_and x flags

-- The loop, with what is left of `len` at its end. `len` is an `int`, and below zero the loop ends: the
-- padding of the last attribute may pass the end. The fuel is for the rounds.
unfoldable pub parse_loop :
    ℕ → List ℕ → ℕ → ℕ → ℕ → ℕ → List (Option ℕ) → Option (List (Option ℕ) × ℤ)
parse_loop zero mem rta len max flags tb = none
parse_loop (suc fuel) mem rta len max flags tb = elim (leb rta_size len) [
  | false ↦ some (tb, pos len)
  | true ↦ read16 mem rta >>= λ rta_len. elim (leb rta_size rta_len && leb rta_len len) [
    | false ↦ some (tb, pos len)
    | true ↦ read16 mem (rta + 2) >>= λ rta_type.
        let tb' = enter tb max (without rta_type flags) rta in
        elim (leb (align rta_len) len) [
          | false ↦ some (tb', negsuc (align rta_len - len - 1))
          | true ↦ parse_loop fuel mem (rta + align rta_len) (len - align rta_len) max flags tb'
        ]
  ]
]

-- Each round takes four bytes at least.
unfoldable pub parse_rtattr_flags : List ℕ → ℕ → ℕ → ℕ → ℕ → Option (List (Option ℕ) × ℤ)
parse_rtattr_flags mem max rta len flags =
    parse_loop (len + 1) mem rta len max flags (replicate (max + 1) none)

unfoldable pub parse_rtattr : List ℕ → ℕ → ℕ → ℕ → Option (List (Option ℕ) × ℤ)
parse_rtattr mem max rta len = parse_rtattr_flags mem max rta len 0
