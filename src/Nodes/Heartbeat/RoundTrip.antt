-- ===== src/Nodes/Heartbeat/RoundTrip.antt =====
-- `encode` and `decode`, one behind the other.
use mathlib.Core.List.{append_assoc}
use zero_lan_com.Base.{
  ℕ, ◌+◌, ◌-◌, ◌≤◌, List, [], ◌∷◌, ◌++◌, ltb, if◌then◌else◌, length, take, drop, All, All-drop, ◌≡◌,
  refl, ap, sym, ◌∙◌, arith, length-append, take-append, drop-append, take-append-drop, length-take,
  length-drop, drop-drop, ltb-le, le→ltb, Bool-cases, nil_of_length, inl, inr,
}
use zero_lan_com.Base.Int.{ℤ, IsInt32, to_u32, of_u32, of_u32-to_u32, to_u32-of_u32, to_u32-IsU32}
use zero_lan_com.Base.Result.{ok, ◌>>=◌}
use zero_lan_com.Nodes.Heartbeat.Words.{
  put_u32, read_u32, read_u32-put_u32, put_u32-read_u32, read_u32-lt,
}
use zero_lan_com.Nodes.Heartbeat.{
  HeartbeatMessage, encode, decode, read_version, read_int, IsValid, IsByte,
}

read_int-put :
    (z : ℤ) (rest : List ℕ) → IsInt32 z → of_u32 (read_u32 (put_u32 (to_u32 z) ++ rest)) ≡ z
read_int-put z rest h =
    ap of_u32 (read_u32-put_u32 (to_u32 z) rest (to_u32-IsU32 z h)) ∙ of_u32-to_u32 z h

-- Behind the fixed part there is the name, or nothing.
group_name_of :
    (n : ℕ) (raw : List ℕ) → (if ltb n (length raw) then drop n raw else []) ≡ drop n raw
group_name_of n raw = elim (Bool-cases (ltb n (length raw))) [
  | inl more ↦ rw more
  | inr done ↦ rw done (
      sym
        (nil_of_length (drop n raw) (omega (arith, length-drop n raw, ltb-le n (length raw) done))))
]

decode-eq-ok :
    (raw : List ℕ) (m : HeartbeatMessage)
    → 56 ≤ length raw
    → read_version raw ≡ m.zlc_version
    → take 36 (drop 12 raw) ≡ m.node_id
    → read_int raw 48 ≡ m.info_id
    → read_int raw 52 ≡ m.service_port
    → drop 56 raw ≡ m.group_name
    → decode raw ≡ ok m
unfolding decode
decode-eq-ok raw m long v n i p g = rw (le→ltb (length raw) 56 long) λ j. ok (record {
  zlc_version = v j;
  node_id = n j;
  info_id = i j;
  service_port = p j;
  group_name = (group_name_of 56 raw ∙ g) j;
})

-- The parts of an encoded message, where `decode` looks for them.
module _ (m : HeartbeatMessage) where
  abbrev tail_52 : List ℕ
  tail_52 = put_u32 (to_u32 m.service_port) ++ m.group_name

  abbrev tail_48 : List ℕ
  tail_48 = put_u32 (to_u32 m.info_id) ++ tail_52

  abbrev tail_12 : List ℕ
  tail_12 = m.node_id ++ tail_48

  abbrev pub body : List ℕ
  body =
      (put_u32 (to_u32 m.zlc_version.major)
        ++ (put_u32 (to_u32 m.zlc_version.minor) ++ put_u32 (to_u32 m.zlc_version.patch)))
      ++ tail_12

  pub encode-eq-body : length m.node_id ≡ 36 → encode m ≡ ok body
  unfolding encode
  encode-eq-body fits = ground arith

  -- `encode` throws exactly when the id has another length than 36.
  encode-eq-ok : (b : List ℕ) → encode m ≡ ok b → (length m.node_id ≡ 36) × (body ≡ b)
  unfolding encode
  encode-eq-ok b h = ground arith

  drop_12 : drop 12 body ≡ tail_12
  unfolding put_u32
  drop_12 = refl

  module _ (fits : length m.node_id ≡ 36) where
    drop_48 : drop 48 body ≡ tail_48
    drop_48 =
        sym (drop-drop 12 36 body) ∙ ap (drop 36) drop_12 ∙ drop-append 36 m.node_id tail_48 fits

    drop_52 : drop 52 body ≡ tail_52
    unfolding put_u32
    drop_52 = sym (drop-drop 48 4 body) ∙ ap (drop 4) drop_48

    drop_56 : drop 56 body ≡ m.group_name
    unfolding put_u32
    drop_56 = sym (drop-drop 52 4 body) ∙ ap (drop 4) drop_52

    node_id_at : take 36 (drop 12 body) ≡ m.node_id
    node_id_at = ap (take 36) drop_12 ∙ take-append 36 m.node_id tail_48 fits

    length-body : length body ≡ 56 + length m.group_name
    unfolding put_u32
    length-body = omega (arith, length-append m.node_id tail_48, fits)

  version_at : IsValid m → read_version body ≡ m.zlc_version
  unfolding read_version put_u32
  version_at v =
      let open_major : read_int body 0 ≡ m.zlc_version.major =
        read_int-put m.zlc_version.major _ v.major in
      let open_minor : read_int body 4 ≡ m.zlc_version.minor =
        read_int-put m.zlc_version.minor _ v.minor in
      let open_patch : read_int body 8 ≡ m.zlc_version.patch =
        read_int-put m.zlc_version.patch _ v.patch in
      λ i. record { major = open_major i; minor = open_minor i; patch = open_patch i }

  module _ (v : IsValid m) where
    info_id_at : read_int body 48 ≡ m.info_id
    info_id_at =
        ap (λ t. of_u32 (read_u32 t)) (drop_48 v.node_id) ∙ read_int-put m.info_id tail_52 v.info_id

    service_port_at : read_int body 52 ≡ m.service_port
    service_port_at =
        ap (λ t. of_u32 (read_u32 t)) (drop_52 v.node_id)
        ∙ read_int-put m.service_port m.group_name v.service_port

    pub decode-body : decode body ≡ ok m
    decode-body =
        decode-eq-ok body m (omega (arith, length-body v.node_id)) (version_at v)
          (node_id_at v.node_id) info_id_at service_port_at (drop_56 v.node_id)

-- `encode` succeeds exactly on ids of 36 bytes, and then gives 56 bytes and the group's name.
pub length-encode :
    (m : HeartbeatMessage) (b : List ℕ)
    → encode m ≡ ok b
    → (length m.node_id ≡ 36) × (length b ≡ 56 + length m.group_name)
length-encode m b h =
    let (fits, e) = encode-eq-ok m b h in (fits, sym (ap length e) ∙ length-body m fits)

-- Decoding an encoded message gives the message back, if its numbers fit `int32_t` and its id has
-- 36 bytes.
pub decode-encode : (m : HeartbeatMessage) → IsValid m → (encode m >>= decode) ≡ ok m
decode-encode m v = rw (encode-eq-body m v.node_id) (decode-body m v)

-- Four bytes that are there, read and written again.
put_u32-rejoin :
    (xs : List ℕ)
    → All IsByte xs
    → 4 ≤ length xs
    → put_u32 (to_u32 (of_u32 (read_u32 xs))) ++ drop 4 xs ≡ xs
put_u32-rejoin (a ∷ b ∷ c ∷ d ∷ rest) h long = rw (
  to_u32-of_u32 (read_u32 (a ∷ b ∷ c ∷ d ∷ rest))
      (read_u32-lt a b c d rest h.0 h.1.0 h.1.1.0 h.1.1.1.0),
  put_u32-read_u32 a b c d rest h.0 h.1.0 h.1.1.0 h.1.1.1.0,
)
put_u32-rejoin [] h long = absurd (omega arith)
put_u32-rejoin (a ∷ []) h long = absurd (omega arith)
put_u32-rejoin (a ∷ b ∷ []) h long = absurd (omega arith)
put_u32-rejoin (a ∷ b ∷ c ∷ []) h long = absurd (omega arith)

-- What `decode` reads from 56 bytes or more.
unfoldable pub decoded : List ℕ → HeartbeatMessage
unfolding read_version
decoded raw = record {
  zlc_version = read_version raw;
  node_id = take 36 (drop 12 raw);
  info_id = read_int raw 48;
  service_port = read_int raw 52;
  group_name = drop 56 raw;
}

pub decode-decoded : (raw : List ℕ) → 56 ≤ length raw → decode raw ≡ ok (decoded raw)
unfolding decoded
decode-decoded raw long = decode-eq-ok raw (decoded raw) long refl refl refl refl refl

-- Any 56 bytes or more are accepted; the name is as long as what is left.
pub decode-total :
    (raw : List ℕ)
    → 56 ≤ length raw
    → (m : HeartbeatMessage) × (decode raw ≡ ok m) × (length m.group_name ≡ length raw - 56)
unfolding decoded
decode-total raw long = (decoded raw, decode-decoded raw long, length-drop 56 raw)

module _ (raw : List ℕ) (h : All IsByte raw) (long : 56 ≤ length raw) where
  rejoin :
      (k : ℕ)
      → k + 4 ≤ length raw
      → put_u32 (to_u32 (read_int raw k)) ++ drop (k + 4) raw ≡ drop k raw
  rejoin k fits =
      ap (◌++◌ (put_u32 (to_u32 (read_int raw k)))) (sym (drop-drop k 4 raw))
      ∙ put_u32-rejoin (drop k raw) (All-drop IsByte k raw h) (omega (arith, length-drop k raw))

  pub body-decoded : body (decoded raw) ≡ raw
  unfolding decoded
  body-decoded = rw (
    rejoin 52 (omega arith),
    rejoin 48 (omega arith),
    sym (drop-drop 12 36 raw),
    take-append-drop 36 (drop 12 raw),
    append_assoc,
    append_assoc,
    rejoin 8 (omega arith),
    rejoin 4 (omega arith),
    rejoin 0 (omega arith),
  )

  pub length-id : length (take 36 (drop 12 raw)) ≡ 36
  length-id = omega (arith, length-take 36 (drop 12 raw), length-drop 12 raw)

  -- Any datagram of 56 bytes or more is accepted, and encoding what was read gives it back: the
  -- codec loses nothing and has one encoding of a message.
  pub encode-decode : (decode raw >>= encode) ≡ ok raw
  unfolding decoded
  encode-decode =
      rw (decode-decoded raw long) (encode-eq-body (decoded raw) length-id ∙ ap ok body-decoded)
