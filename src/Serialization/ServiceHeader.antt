-- ===== src/Serialization/ServiceHeader.antt =====
-- `decodeServiceHeader` of src/serialization/binary_codec.cpp.
use zero_lan_com.Base.{
  ℕ, zero, suc, ◌+◌, ◌≤◌, List, [], ◌∷◌, not, ◌&&◌, ◌==◌, ltb, if◌then◌else◌, length, take, All,
  ◌≡◌, ◌≢◌, ◌↔◌, refl, ap, ◌∙◌, arith, Bool-cases, ==_iff, inl, inr,
}
use native.Mathlib.Nat.{zero-add}
use zero_lan_com.Base.Text.{Str}

abbrev pub max_len : ℕ
max_len = 1024

-- The loop, at index `real_len`, over the bytes from there on.
header_loop : ℕ → List ℕ → ℕ → ℕ
header_loop limit [] real_len = real_len
header_loop limit (c ∷ rest) real_len =
    let more = header_loop limit rest (real_len + 1) in
    if ltb real_len limit && not (c == 0) then more else real_len

-- An empty view and a null pointer give the empty string.
unfoldable pub decode_service_header : List ℕ → Str
unfolding header_loop
decode_service_header [] = []
decode_service_header (c ∷ rest) = take (header_loop max_len (c ∷ rest) 0) (c ∷ rest)

-- The bytes in front of the first NUL.
unfoldable pub c_string : List ℕ → Str
c_string [] = []
c_string (c ∷ rest) = let more = c_string rest in if c == 0 then [] else c ∷ more

-- From index `n` on, the loop counts the text up to the first NUL, and at most up to the limit.
header_loop-eq :
    (limit : ℕ) (s : List ℕ) (n k : ℕ)
    → n + k ≡ limit
    → header_loop limit s n ≡ n + length (c_string (take k s))
unfolding header_loop c_string
header_loop-eq limit [] n zero h = omega arith
header_loop-eq limit [] n (suc k) h = omega arith
header_loop-eq limit (c ∷ s) n zero h = ground arith
header_loop-eq limit (c ∷ s) n (suc k) h = ground (arith, header_loop-eq limit s (n + 1) k)

take-c_string : (k : ℕ) (s : List ℕ) → take (length (c_string (take k s))) s ≡ c_string (take k s)
unfolding c_string
take-c_string zero s = refl
take-c_string (suc k) [] = refl
take-c_string (suc k) (c ∷ s) = ground (arith, take-c_string k s)

-- The loop of `decodeServiceHeader` computes the text in front of the first NUL of the first 1024
-- bytes.
pub decode_service_header-eq :
    (payload : List ℕ) → decode_service_header payload ≡ c_string (take max_len payload)
unfolding decode_service_header
decode_service_header-eq [] = unfold c_string in refl
decode_service_header-eq (c ∷ rest) =
    ap (λ n. take n (c ∷ rest)) (header_loop-eq max_len (c ∷ rest) 0 max_len refl ∙ zero-add _)
    ∙ take-c_string max_len (c ∷ rest)

c_string-take_self :
    (k : ℕ) (s : List ℕ) → (c_string (take k s) ≡ s) ↔ ((length s ≤ k) × All (λ c. c ≢ 0) s)
unfolding c_string
c_string-take_self zero [] = (λ e. (omega arith, tt), λ h. refl)
c_string-take_self zero (c ∷ s) = (λ e. cc, λ h. absurd (omega (arith, h.0)))
c_string-take_self (suc k) [] = (λ e. (omega arith, tt), λ h. refl)
c_string-take_self (suc k) (c ∷ s) = elim (Bool-cases (c == 0)) [
  | inl nul ↦ rw nul (λ e. cc, λ h. absurd (h.1.0 ((==_iff c 0).0 nul)))
  | inr other ↦
      let (cut, whole) = c_string-take_self k s in
      rw other (
        λ e.
            let rest : (length s ≤ k) × All (λ c. c ≢ 0) s = cut (cc) in
            (omega (arith, rest.0), (λ q. ground arith, rest.1)),
        λ h. ap (◌∷◌ c) (whole (omega (arith, h.0), h.1.1)),
      )
]

-- A service name arrives as it was sent exactly when it has no NUL and at most 1024 bytes; any
-- other is looked up under another name.
pub decode_service_header_self :
    (name : Str)
    → (decode_service_header name ≡ name) ↔ ((length name ≤ max_len) × All (λ c. c ≢ 0) name)
decode_service_header_self name =
    rw (decode_service_header-eq name) (c_string-take_self max_len name)
