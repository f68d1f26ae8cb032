-- ===== src/Utils/Subnet.antt =====
-- `isInSameSubnet` of include/zerolancom/utils/zmq_utils.hpp. `aton` stands for `inet_aton` and the
-- `ntohl` of its result: an address in host byte order, or `none` for a text that is no address.
use Prim.Native.Nat.{bit_and}
use zero_lan_com.Base.{
  ℕ, ◌*◌, ◌/◌, ◌^◌, ◌<◌, Option, none, some, Bool, true, false, ◌==◌, ◌≡◌, ◌↔◌, arith,
}
use zero_lan_com.Base.Text.{Str}
use zero_lan_com.Base.Bits.{bit_and-double, bit_and-ones}

abbrev pub default_subnet_mask : ℕ
default_subnet_mask = 0xFFFFFF00

unfoldable pub is_in_same_subnet : (Str → Option ℕ) → Str → Str → ℕ → Bool
is_in_same_subnet aton ip1 ip2 mask = elim (aton ip1) [
  | none ↦ false
  | some addr1 ↦ elim (aton ip2) [
    | none ↦ false
    | some addr2 ↦ bit_and addr1 mask == bit_and addr2 mask
  ]
]

-- The default mask clears the last octet.
mask_octet : (a : ℕ) → a < 2 ^ 32 → bit_and a 0xFFFFFF00 ≡ a / 256 * 256
mask_octet a h = omega (
  arith,
  bit_and-double a 0x7FFFFF80,
  bit_and-double (a / 2) 0x3FFFFFC0,
  bit_and-double (a / 2 / 2) 0x1FFFFFE0,
  bit_and-double (a / 2 / 2 / 2) 0xFFFFFF0,
  bit_and-double (a / 2 / 2 / 2 / 2) 0x7FFFFF8,
  bit_and-double (a / 2 / 2 / 2 / 2 / 2) 0x3FFFFFC,
  bit_and-double (a / 2 / 2 / 2 / 2 / 2 / 2) 0x1FFFFFE,
  bit_and-double (a / 2 / 2 / 2 / 2 / 2 / 2 / 2) 0xFFFFFF,
  bit_and-ones 24 (a / 2 / 2 / 2 / 2 / 2 / 2 / 2 / 2) (omega arith),
)

-- Under the default mask two addresses are in one subnet exactly when their first three octets
-- agree.
pub is_in_same_subnet_iff :
    (aton : Str → Option ℕ) (ip1 ip2 : Str) (a b : ℕ)
    → aton ip1 ≡ some a
    → aton ip2 ≡ some b
    → a < 2 ^ 32
    → b < 2 ^ 32
    → (is_in_same_subnet aton ip1 ip2 default_subnet_mask ≡ true) ↔ (a / 256 ≡ b / 256)
unfolding is_in_same_subnet
is_in_same_subnet_iff aton ip1 ip2 a b p q ha hb = ground (arith, mask_octet a ha, mask_octet b hb)
