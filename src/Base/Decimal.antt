-- ===== src/Base/Decimal.antt =====
-- `std::to_string` of integers and `std::stoi`.
use Prim.Native.Nat.{ℕ, zero, suc, ◌+◌, ◌-◌, ◌*◌, ◌/◌, ◌%◌, ◌^◌, ◌≤◌, ◌<◌}
use mathlib.Core.Path.{◌≡◌, refl, ap, ◌∙◌}
use mathlib.Core.Logic.{◌≢◌}
use mathlib.Core.Bool.{Bool, true, false, ◌&&◌, ◌||◌}
use mathlib.Core.List.{[], ◌∷◌}
use native.Mathlib.Omega.{arith}
use zero_lan_com.Base.Tests.{ltb, leb, ◌==◌, if◌then◌else◌}
use zero_lan_com.Base.Lists.{All}
use zero_lan_com.Base.Text.{Str}
use zero_lan_com.Base.Int.{ℤ, pos, negsuc}
use zero_lan_com.Base.Result.{Result, ok, err, invalid_argument, out_of_range}

-- The digits of `n` in front of `out`; `n < fuel` is enough.
to_digits : ℕ → ℕ → Str → Str
to_digits zero n out = out
to_digits (suc fuel) n out =
    let more = to_digits fuel (n / 10) ((b'0' + n % 10) ∷ out) in
    if ltb n 10 then (b'0' + n) ∷ out else more

unfoldable pub to_string_u : ℕ → Str
unfolding to_digits
to_string_u n = to_digits (suc n) n []

unfoldable pub to_string : ℤ → Str
unfolding to_string_u
to_string (pos n) = to_string_u n
to_string (negsuc n) = b'-' ∷ to_string_u (suc n)

is_digit : ℕ → Bool
is_digit c = leb b'0' c && leb c b'9'

abbrev pub IsDigit : ℕ → Type 0
IsDigit c = (b'0' ≤ c) × (c ≤ b'9')

-- The number at the front, up to the first byte that is no digit.
scan : Str → ℕ → ℕ
scan [] n = n
scan (c ∷ s) n = let more = scan s (n * 10 + (c - b'0')) in if is_digit c then more else n

skip_space : Str → Str
skip_space [] = []
skip_space (c ∷ s) =
    let rest = skip_space s in if c == 32 || (leb 9 c && leb c 13) then rest else c ∷ s

-- No digit: `invalid_argument`.
stoi_digits : Bool → Str → Result ℤ
unfolding is_digit scan
stoi_digits negative [] = err invalid_argument
stoi_digits negative (c ∷ s) =
    let n = scan (c ∷ s) 0 in
    if is_digit c
    then if negative
      then (if ltb (2 ^ 31) n
          then err out_of_range
          else if n == 0
          then ok (pos 0)
          else ok (negsuc (n - 1)))
      else (if ltb n (2 ^ 31) then ok (pos n) else err out_of_range)
    else err invalid_argument

stoi_sign : Str → Result ℤ
unfolding stoi_digits
stoi_sign [] = err invalid_argument
stoi_sign (c ∷ s) =
    if c == b'-'
    then stoi_digits true s
    else if c == b'+'
    then stoi_digits false s
    else stoi_digits false (c ∷ s)

unfoldable pub stoi : Str → Result ℤ
unfolding stoi_sign skip_space
stoi s = stoi_sign (skip_space s)

scan-to_digits : (fuel n : ℕ) (out : Str) → n < fuel → scan (to_digits fuel n out) 0 ≡ scan out n
unfolding scan to_digits is_digit
scan-to_digits zero n out h = absurd (omega arith)
scan-to_digits (suc fuel) n out h =
    ground (arith, scan-to_digits fuel (n / 10) ((b'0' + n % 10) ∷ out))

to_digits-IsDigit : (fuel n : ℕ) (out : Str) → All IsDigit out → All IsDigit (to_digits fuel n out)
unfolding to_digits
to_digits-IsDigit zero n out h = h
to_digits-IsDigit (suc fuel) n out h =
    ground (arith, to_digits-IsDigit fuel (n / 10) ((b'0' + n % 10) ∷ out))

-- A printed number is made of digits.
pub to_string_u-IsDigit : (n : ℕ) → All IsDigit (to_string_u n)
unfolding to_string_u
to_string_u-IsDigit n = to_digits-IsDigit (suc n) n [] tt

to_digits-ne-nil : (fuel n : ℕ) (out : Str) → out ≢ [] → to_digits fuel n out ≢ []
unfolding to_digits
to_digits-ne-nil zero n out h e = h e
to_digits-ne-nil (suc fuel) n out h e =
    ground (arith, to_digits-ne-nil fuel (n / 10) ((b'0' + n % 10) ∷ out) (λ q. cc))

to_string_u-ne-nil : (n : ℕ) → to_string_u n ≢ []
unfolding to_string_u to_digits
to_string_u-ne-nil n e =
    ground (arith, to_digits-ne-nil n (n / 10) ((b'0' + n % 10) ∷ []) (λ q. cc))

stoi-digits : (s : Str) → All IsDigit s → s ≢ [] → scan s 0 < 2 ^ 31 → stoi s ≡ ok (pos (scan s 0))
unfolding stoi
stoi-digits [] d ne h = absurd (ne refl)
stoi-digits (c ∷ s) d ne h = ground arith

scan-to_string_u : (n : ℕ) → scan (to_string_u n) 0 ≡ n
unfolding to_string_u scan
scan-to_string_u n = scan-to_digits (suc n) n [] (omega arith)

-- `stoi` reads back what `to_string` printed.
pub stoi-to_string_u : (n : ℕ) → n < 2 ^ 31 → stoi (to_string_u n) ≡ ok (pos n)
stoi-to_string_u n h =
    stoi-digits (to_string_u n) (to_string_u-IsDigit n) (to_string_u-ne-nil n)
      (omega (arith, scan-to_string_u n))
    ∙ ap (λ k. ok (pos k)) (scan-to_string_u n)
