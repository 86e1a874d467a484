-- ===== src/Netlink/Message.antt =====
-- netlink_scripts/nexthop/netlink.h (and the same in route/): messages, and the functions that put
-- attributes and bytes at their ends. The header's words of a message stand apart from the memory
-- behind it; those that are never set are zero.
pub mod Attributes
pub mod Bounds
pub mod Raw
pub mod Carries
use routerd.Prelude.{
  ℕ, ◌+◌, ◌-◌, ◌*◌, ◌/◌, ◌%◌, ◌^◌, List, [], ◌∷◌, ◌++◌, Option, none, some, ◌>>=◌, ltb, length,
  replicate, take, set_bit, ℤ, pos, negsuc, if◌then◌else◌,
}
use routerd.Netlink.Memory.{bytes16, bytes32, bytes64, write_at, read16}

-- `NLMSG_ALIGN` and `RTA_ALIGN`: up to a multiple of four.
abbrev pub align : ℕ → ℕ
align n = (n + 3) / 4 * 4

-- `sizeof (struct nlmsghdr)` and `sizeof (struct rtattr)`
abbrev pub header_size : ℕ
header_size = 16

abbrev pub rta_size : ℕ
rta_size = 4

-- `RTA_LENGTH`
abbrev pub rta_length : ℕ → ℕ
rta_length n = rta_size + n

-- `struct nlmsghdr`, and the bytes of the request behind it.
pub record Nlmsg : Type 0 where
  pub nlmsg_len : ℕ
  pub nlmsg_type : ℕ
  pub nlmsg_flags : ℕ
  pub payload : List ℕ

-- `struct rtattr` at the start of its buffer: its two words and the buffer's bytes behind them.
pub record Rtattr : Type 0 where
  pub rta_len : ℕ
  pub rta_type : ℕ
  pub rta_data : List ℕ

-- The two words of an attribute, as they are put into memory.
abbrev pub rta_header : ℕ → ℕ → List ℕ
rta_header rta_type rta_len = bytes16 (rta_len % 2 ^ 16) ++ bytes16 (rta_type % 2 ^ 16)

-- The attribute's words and its data, at index `at` of the memory.
abbrev pub put_attr : List ℕ → ℕ → ℕ → List ℕ → Option (List ℕ)
put_attr mem at rta_type bytes =
    write_at mem at (rta_header rta_type (rta_length (length bytes))) >>= λ mem'.
    write_at mem' (at + rta_size) bytes

-- `addattr_l`: the answer, 0 or -1, and the message after.
unfoldable pub addattr_l : Nlmsg → ℕ → ℕ → List ℕ → Option (ℤ × Nlmsg)
addattr_l n maxlen type bytes =
    let len = rta_length (length bytes) in
    if ltb maxlen ((align n.nlmsg_len + align len) % 2 ^ 32)
    then some (negsuc 0, n)
    else (put_attr n.payload (align n.nlmsg_len - header_size) type bytes >>= λ mem.
        some
          (pos 0, record n { nlmsg_len = (align n.nlmsg_len + align len) % 2 ^ 32; payload = mem }))

-- `addattr`: no data. `addattr8` to `addattr64`: the data is a word.
unfoldable pub addattr : Nlmsg → ℕ → ℕ → Option (ℤ × Nlmsg)
addattr n maxlen type = addattr_l n maxlen type []

unfoldable pub addattr8 : Nlmsg → ℕ → ℕ → ℕ → Option (ℤ × Nlmsg)
addattr8 n maxlen type x = addattr_l n maxlen type ((x % 256) ∷ [])

unfoldable pub addattr16 : Nlmsg → ℕ → ℕ → ℕ → Option (ℤ × Nlmsg)
addattr16 n maxlen type x = addattr_l n maxlen type (bytes16 x)

unfoldable pub addattr32 : Nlmsg → ℕ → ℕ → ℕ → Option (ℤ × Nlmsg)
addattr32 n maxlen type x = addattr_l n maxlen type (bytes32 x)

unfoldable pub addattr64 : Nlmsg → ℕ → ℕ → ℕ → Option (ℤ × Nlmsg)
addattr64 n maxlen type x = addattr_l n maxlen type (bytes64 x)

-- `addattrstrz`: the characters and the zero at their end.
unfoldable pub addattrstrz : Nlmsg → ℕ → ℕ → List ℕ → Option (ℤ × Nlmsg)
addattrstrz n maxlen type str = addattr_l n maxlen type (str ++ 0 ∷ [])

-- `rta_addattr_l`: an attribute inside another one.
unfoldable pub rta_addattr_l : Rtattr → ℕ → ℕ → List ℕ → Option (ℤ × Rtattr)
rta_addattr_l rta maxlen type bytes =
    let len = rta_length (length bytes) in
    if ltb maxlen (align rta.rta_len + align len)
    then some (negsuc 0, rta)
    else (put_attr rta.rta_data (align rta.rta_len - rta_size) type bytes >>= λ mem.
        some (
          pos 0,
          record rta { rta_len = (align rta.rta_len + align len) % 2 ^ 16; rta_data = mem },
        ))

unfoldable pub rta_addattr8 : Rtattr → ℕ → ℕ → ℕ → Option (ℤ × Rtattr)
rta_addattr8 rta maxlen type x = rta_addattr_l rta maxlen type ((x % 256) ∷ [])

unfoldable pub rta_addattr16 : Rtattr → ℕ → ℕ → ℕ → Option (ℤ × Rtattr)
rta_addattr16 rta maxlen type x = rta_addattr_l rta maxlen type (bytes16 x)

unfoldable pub rta_addattr32 : Rtattr → ℕ → ℕ → ℕ → Option (ℤ × Rtattr)
rta_addattr32 rta maxlen type x = rta_addattr_l rta maxlen type (bytes32 x)

unfoldable pub rta_addattr64 : Rtattr → ℕ → ℕ → ℕ → Option (ℤ × Rtattr)
rta_addattr64 rta maxlen type x = rta_addattr_l rta maxlen type (bytes64 x)

-- The bit NLA_F_NESTED
abbrev pub nla_f_nested : ℕ
nla_f_nested = 15

-- `rta_nest`: the offset of the nest from `rta`, and the attribute after. The type is read again and
-- its bit set, whether or not the nest fitted.
unfoldable pub rta_nest : Rtattr → ℕ → ℕ → Option (ℕ × Rtattr)
rta_nest rta maxlen type =
    let nest = align rta.rta_len in
    rta_addattr_l rta maxlen type [] >>= λ r. read16 r.1.rta_data (nest - rta_size + 2) >>= λ t.
    write_at r.1.rta_data (nest - rta_size + 2) (bytes16 (set_bit t nla_f_nested)) >>= λ mem.
    some (nest, record r.1 { rta_data = mem })

-- `rta_nest_end`: the answer is the length of the whole attribute.
unfoldable pub rta_nest_end : Rtattr → ℕ → Option (ℕ × Rtattr)
rta_nest_end rta nest =
    write_at rta.rta_data (nest - rta_size) (bytes16 ((align rta.rta_len - nest) % 2 ^ 16))
    >>= λ mem. some (rta.rta_len, record rta { rta_data = mem })

-- `addraw_l`: bytes, with zeros behind them.
unfoldable pub addraw_l : Nlmsg → ℕ → List ℕ → Option (ℤ × Nlmsg)
addraw_l n maxlen bytes =
    let len = length bytes in
    let tail = align n.nlmsg_len - header_size in
    if ltb maxlen ((align n.nlmsg_len + align len) % 2 ^ 32)
    then some (negsuc 0, n)
    else (write_at n.payload tail bytes >>= λ mem.
        write_at mem (tail + len) (replicate (align len - len) 0) >>= λ mem'.
        some (
          pos 0,
          record n { nlmsg_len = (align n.nlmsg_len + align len) % 2 ^ 32; payload = mem' },
        ))
