-- ===== src/Netlink/Getattr.antt =====
-- The functions of netlink_scripts/*/netlink.h that read the word of an attribute. An attribute is its
-- offset in the memory.
pub mod Words
use routerd.Prelude.{
  ℕ, ◌+◌, ◌-◌, ◌^◌, List, Option, some, ◌>>=◌, ltb, get_elem?, ℤ, pos, negsuc, if◌then◌else◌,
}
use routerd.Netlink.Memory.{read16, read32, read64}
use routerd.Netlink.Message.{rta_size}

unfoldable pub rta_getattr_u8 : List ℕ → ℕ → Option ℕ
rta_getattr_u8 mem rta = get_elem? mem (rta + rta_size)

unfoldable pub rta_getattr_u16 : List ℕ → ℕ → Option ℕ
rta_getattr_u16 mem rta = read16 mem (rta + rta_size)

unfoldable pub rta_getattr_u32 : List ℕ → ℕ → Option ℕ
rta_getattr_u32 mem rta = read32 mem (rta + rta_size)

unfoldable pub rta_getattr_u64 : List ℕ → ℕ → Option ℕ
rta_getattr_u64 mem rta = read64 mem (rta + rta_size)

-- The word of `bits` bits as a signed number.
abbrev pub signed : ℕ → ℕ → ℤ
signed bits x = if ltb x (2 ^ (bits - 1)) then pos x else negsuc (2 ^ bits - 1 - x)

unfoldable pub rta_getattr_s8 : List ℕ → ℕ → Option ℤ
rta_getattr_s8 mem rta = rta_getattr_u8 mem rta >>= λ x. some (signed 8 x)

-- The result is declared as `__u16`, so the sign is lost.
unfoldable pub rta_getattr_s16 : List ℕ → ℕ → Option ℕ
rta_getattr_s16 mem rta = rta_getattr_u16 mem rta

unfoldable pub rta_getattr_s32 : List ℕ → ℕ → Option ℤ
rta_getattr_s32 mem rta = rta_getattr_u32 mem rta >>= λ x. some (signed 32 x)

unfoldable pub rta_getattr_s64 : List ℕ → ℕ → Option ℤ
rta_getattr_s64 mem rta = rta_getattr_u64 mem rta >>= λ x. some (signed 64 x)
