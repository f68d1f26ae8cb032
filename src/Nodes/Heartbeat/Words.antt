-- ===== src/Nodes/Heartbeat/Words.antt =====
-- 32-bit words in network byte order.
use zero_lan_com.Base.{ℕ, ◌+◌, ◌*◌, ◌/◌, ◌%◌, ◌^◌, ◌<◌, List, [], ◌∷◌, ◌++◌, All, ◌≡◌, arith}

unfoldable pub put_u32 : ℕ → List ℕ
put_u32 w = (w / 2 ^ 24 % 256) ∷ (w / 2 ^ 16 % 256) ∷ (w / 2 ^ 8 % 256) ∷ (w % 256) ∷ []

-- Four bytes are always there: `decode` has checked the size.
unfoldable pub read_u32 : List ℕ → ℕ
read_u32 (a ∷ b ∷ c ∷ d ∷ rest) = ((a * 256 + b) * 256 + c) * 256 + d
read_u32 _ = 0

pub put_u32-All : (w : ℕ) → All (λ b. b < 256) (put_u32 w)
unfolding put_u32
put_u32-All w = ground arith

pub read_u32-put_u32 : (w : ℕ) (rest : List ℕ) → w < 2 ^ 32 → read_u32 (put_u32 w ++ rest) ≡ w
unfolding put_u32 read_u32
read_u32-put_u32 w rest h = omega arith

pub read_u32-lt :
    (a b c d : ℕ) (rest : List ℕ)
    → a < 256
    → b < 256
    → c < 256
    → d < 256
    → read_u32 (a ∷ b ∷ c ∷ d ∷ rest) < 2 ^ 32
unfolding read_u32
read_u32-lt a b c d rest p q r s = omega arith

pub put_u32-read_u32 :
    (a b c d : ℕ) (rest : List ℕ)
    → a < 256
    → b < 256
    → c < 256
    → d < 256
    → put_u32 (read_u32 (a ∷ b ∷ c ∷ d ∷ rest)) ≡ a ∷ b ∷ c ∷ d ∷ []
unfolding put_u32 read_u32
put_u32-read_u32 a b c d rest p q r s = ground arith

-- Whatever bytes there are, the word fits 32 bits.
pub read_u32-bounded : (xs : List ℕ) → All (λ b. b < 256) xs → read_u32 xs < 2 ^ 32
unfolding read_u32
read_u32-bounded (a ∷ b ∷ c ∷ d ∷ rest) h = read_u32-lt a b c d rest h.0 h.1.0 h.1.1.0 h.1.1.1.0
read_u32-bounded [] h = omega arith
read_u32-bounded (a ∷ []) h = omega arith
read_u32-bounded (a ∷ b ∷ []) h = omega arith
read_u32-bounded (a ∷ b ∷ c ∷ []) h = omega arith
