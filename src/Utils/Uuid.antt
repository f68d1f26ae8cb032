-- ===== src/Utils/Uuid.antt =====
-- `generateUUID` of include/zerolancom/utils/message.hpp, as a function of the four numbers that the
-- random engine gives.
use Prim.Native.Nat.{bit_and, bit_or}
use zero_lan_com.Base.{
  ℕ, zero, suc, ◌+◌, ◌-◌, ◌/◌, ◌%◌, ◌^◌, List, [], ◌∷◌, ◌++◌, true, ◌||◌, ◌==◌, ==_iff, ltb,
  if◌then◌else◌, length, ◌≡◌, refl, arith,
}
use zero_lan_com.Base.Text.{Str}
use zero_lan_com.Base.Bits.{all_below, all_below-at}

-- `(r >> 24) & 0xFF` and so on, each cast to a byte.
random_bytes : ℕ → List ℕ
random_bytes r =
    bit_and (r / 2 ^ 24) 0xFF % 256
    ∷ bit_and (r / 2 ^ 16) 0xFF % 256
    ∷ bit_and (r / 2 ^ 8) 0xFF % 256
    ∷ bit_and r 0xFF % 256
    ∷ []

set_version : ℕ → ℕ
set_version b = bit_or (bit_and b 0x0F) 0x40

set_variant : ℕ → ℕ
set_variant b = bit_or (bit_and b 0x3F) 0x80

-- `bytes[6]` and `bytes[8]` are overwritten.
stamp : List ℕ → List ℕ
unfolding set_version set_variant
stamp (b0 ∷ b1 ∷ b2 ∷ b3 ∷ b4 ∷ b5 ∷ b6 ∷ b7 ∷ b8 ∷ rest) =
    b0 ∷ b1 ∷ b2 ∷ b3 ∷ b4 ∷ b5 ∷ set_version b6 ∷ b7 ∷ set_variant b8 ∷ rest
stamp bs = bs

hex_digit : ℕ → ℕ
hex_digit n = if ltb n 10 then b'0' + n else b'a' + (n - 10)

-- `oss << std::setw(2) << static_cast<int>(b)` with `hex` and `setfill('0')`.
hex_byte : ℕ → Str
unfolding hex_digit
hex_byte b = hex_digit (b / 16) ∷ hex_digit (b % 16) ∷ []

-- The loop over the bytes from index `i` on.
format : ℕ → List ℕ → Str
unfolding hex_byte
format i [] = []
format i (b ∷ bs) =
    let rest = format (suc i) bs in
    hex_byte b ++ (if i == 3 || i == 5 || i == 7 || i == 9 then b'-' ∷ rest else rest)

unfoldable pub generate_uuid : ℕ → ℕ → ℕ → ℕ → Str
unfolding random_bytes stamp format
generate_uuid r0 r1 r2 r3 =
    format 0 (stamp (random_bytes r0 ++ (random_bytes r1 ++ (random_bytes r2 ++ random_bytes r3))))

-- A UUID has 36 characters, whatever the random numbers: the one length that a heartbeat can carry.
pub length-generate_uuid : (r0 r1 r2 r3 : ℕ) → length (generate_uuid r0 r1 r2 r3) ≡ 36
unfolding generate_uuid
length-generate_uuid r0 r1 r2 r3 = refl

-- The character at a position, 0 past the end.
abbrev pub char_at : ℕ → Str → ℕ
char_at n [] = 0
char_at zero (c ∷ s) = c
char_at (suc n) (c ∷ s) = char_at n s

version_table : all_below 256 (λ b. hex_digit (set_version b / 16) == b'4') ≡ true
unfolding all_below hex_digit set_version
version_table = refl

variant_table :
    all_below 256 (λ b.
      let d = hex_digit (set_variant b / 16) in d == b'8' || d == b'9' || d == b'a' || d == b'b')
    ≡ true
unfolding all_below hex_digit set_variant
variant_table = refl

-- The form is that of a random UUID: dashes behind 8, 12, 16 and 20 digits, version 4, and the
-- variant digit 8, 9, a or b.
pub generate_uuid_form :
    (r0 r1 r2 r3 : ℕ)
    → let u = generate_uuid r0 r1 r2 r3 in
      (char_at 8 u ≡ b'-')
      × (char_at 13 u ≡ b'-')
      × (char_at 18 u ≡ b'-')
      × (char_at 23 u ≡ b'-')
      × (char_at 14 u ≡ b'4')
      × ((char_at 19 u == b'8'
            || char_at 19 u == b'9'
            || char_at 19 u == b'a'
            || char_at 19 u == b'b')
          ≡ true)
unfolding generate_uuid
generate_uuid_form r0 r1 r2 r3 = (
  refl,
  refl,
  refl,
  refl,
  (==_iff _ b'4').0
      (all_below-at 256 _ (bit_and (r1 / 2 ^ 8) 0xFF % 256) version_table (omega arith)),
  all_below-at 256 _ (bit_and (r2 / 2 ^ 24) 0xFF % 256) variant_table (omega arith),
)
