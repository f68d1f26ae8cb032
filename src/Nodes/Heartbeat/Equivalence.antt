-- ===== src/Nodes/Heartbeat/Equivalence.antt =====
-- The datagrams that `decode` accepts and the messages that `encode` accepts, as types.
use mathlib.Core.HLevel.{Σ_prop_path}
use mathlib.Core.Equiv.{IsEquiv, iso_to_equiv}
use native.Mathlib.Bridge.{le_prop}
use native.Mathlib.Nat.{ℕ_set}
use zero_lan_com.Base.{
  ℕ, ◌≤◌, List, [], ◌∷◌, length, drop, All, All-append, All-drop, All-take, ◌≡◌, arith, ◌∙◌, sym,
}
use zero_lan_com.Base.Int.{ℤ, pos, negsuc, IsInt32, of_u32-IsInt32}
use zero_lan_com.Base.Result.{ok}
use zero_lan_com.Nodes.Heartbeat.Words.{read_u32-bounded, put_u32-All}
use zero_lan_com.Nodes.Heartbeat.{
  HeartbeatMessage, encode, decode, read_int, read_version, IsValid, IsByte,
}
use zero_lan_com.Nodes.Heartbeat.RoundTrip.{
  body, encode-eq-body, decode-body, decoded, decode-decoded, body-decoded, length-id,
  length-encode,
}

-- A valid message whose strings are made of bytes.
abbrev IsMessage : HeartbeatMessage → Type 0
IsMessage m = IsValid m × All IsByte m.node_id × All IsByte m.group_name

abbrev IsDatagram : List ℕ → Type 0
IsDatagram raw = All IsByte raw × (56 ≤ length raw)

IsInt32-prop : (z : ℤ) → IsProp (IsInt32 z)
IsInt32-prop (pos n) = le_prop
IsInt32-prop (negsuc n) = le_prop

All-IsByte_prop : (xs : List ℕ) → IsProp (All IsByte xs)
All-IsByte_prop [] = hlevel
All-IsByte_prop (x ∷ xs) = hlevel (le_prop, All-IsByte_prop xs)

IsMessage-prop : (m : HeartbeatMessage) → IsProp (IsMessage m)
IsMessage-prop m = hlevel (le_prop, IsInt32-prop, All-IsByte_prop, ℕ_set)

IsDatagram-prop : (raw : List ℕ) → IsProp (IsDatagram raw)
IsDatagram-prop raw = hlevel (le_prop, All-IsByte_prop)

read_int-IsInt32 : (raw : List ℕ) (k : ℕ) → All IsByte raw → IsInt32 (read_int raw k)
read_int-IsInt32 raw k h =
    of_u32-IsInt32 _ (read_u32-bounded (drop k raw) (All-drop IsByte k raw h))

-- What is encoded are bytes, 56 of them at least.
body-IsDatagram : (m : HeartbeatMessage) → IsMessage m → IsDatagram (body m)
body-IsDatagram m (v, id, name) = (
  All-append IsByte _ _
      (All-append IsByte _ _ (put_u32-All _)
        (All-append IsByte _ _ (put_u32-All _) (put_u32-All _)))
      (All-append IsByte _ _ id
        (All-append IsByte _ _ (put_u32-All _) (All-append IsByte _ _ (put_u32-All _) name))),
  omega (arith, (length-encode m (body m) (encode-eq-body m v.node_id)).1),
)

decoded-IsMessage : (raw : List ℕ) → IsDatagram raw → IsMessage (decoded raw)
unfolding decoded read_version
decoded-IsMessage raw (h, long) = (
  record {
    major = read_int-IsInt32 raw 0 h;
    minor = read_int-IsInt32 raw 4 h;
    patch = read_int-IsInt32 raw 8 h;
    node_id = length-id raw h long;
    info_id = read_int-IsInt32 raw 48 h;
    service_port = read_int-IsInt32 raw 52 h;
  },
  All-take IsByte 36 (drop 12 raw) (All-drop IsByte 12 raw h),
  All-drop IsByte 56 raw h,
)

ok_inj : {m n : HeartbeatMessage} → ok m ≡ ok n → m ≡ n
ok_inj e = cc

-- The messages that the code can send, the datagrams that it accepts, and the two maps.
abbrev Message : Type 0
Message = (m : HeartbeatMessage) × IsMessage m

abbrev Datagram : Type 0
Datagram = (raw : List ℕ) × IsDatagram raw

to_datagram : Message → Datagram
to_datagram (m, v) = (body m, body-IsDatagram m v)

of_datagram : Datagram → Message
of_datagram (raw, h) = (decoded raw, decoded-IsMessage raw h)

to-of_datagram : (d : Datagram) → to_datagram (of_datagram d) ≡ d
unfolding to_datagram of_datagram
to-of_datagram (raw, h) = Σ_prop_path IsDatagram-prop (body-decoded raw h.0 h.1)

of-to_datagram : (m : Message) → of_datagram (to_datagram m) ≡ m
unfolding to_datagram of_datagram
of-to_datagram (m, v) =
    Σ_prop_path IsMessage-prop
      (ok_inj (sym (decode-decoded (body m) (body-IsDatagram m v).1) ∙ decode-body m v.0))

-- Messages whose numbers fit `int32_t`, whose id has 36 bytes and whose strings are bytes are
-- equivalent, as a type, to sequences of at least 56 bytes; the equivalence is `encode` in one
-- direction and `decode` in the other, and neither throws there.
codec-IsEquiv :
    IsEquiv to_datagram
    × ((m : Message) → encode m.0 ≡ ok (to_datagram m).0)
    × ((d : Datagram) → decode d.0 ≡ ok (of_datagram d).0)
unfolding to_datagram of_datagram
codec-IsEquiv = (
  (iso_to_equiv (record {
    fun = to_datagram;
    inv = of_datagram;
    rinv = to-of_datagram;
    linv = of-to_datagram;
  })).1,
  (λ m. encode-eq-body m.0 m.1.0.node_id),
  (λ d. decode-decoded d.0 d.1.1),
)
