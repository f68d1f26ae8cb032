-- ===== src/Serialization/Codec.antt =====
-- `encode` and `decode` of include/zerolancom/serialization/msppack_codec.hpp, and the codec of
-- `Empty`. The library msgpack is a parameter: `Msgpack A` is what the packer writes to its stream
-- for a value, and what unpacking and converting gives.
use zero_lan_com.Base.{ℕ, ◌≤◌, ◌^◌, List, Option, none, some, length, ◌≡◌, refl, ap, ◌∙◌, arith}
use zero_lan_com.Base.Result.{
  Result, ok, err, encode_exception, decode_exception, undefined_behaviour,
}
use zero_lan_com.Serialization.ByteBuffer.{
  ByteBuffer, Heap, Outcome, written, no_memory, out_of_bounds, contents, IsValid, writes,
}
use zero_lan_com.Serialization.ByteBuffer.Write.{concat, RanOut, AllAppended, writes-AllAppended}

pub record Msgpack (A : Type 0) : Type 0 where
  -- the calls of `write` that packing makes
  pub pack : A → List (List ℕ)
  -- `none` for an exception of msgpack
  pub unpack : List ℕ → Option A

-- Documented: unpacking what was packed gives the value back.
abbrev pub IsRoundTrip : {A : Type 0} → Msgpack A → Type 0
IsRoundTrip {A} c = (a : A) → c.unpack (concat (c.pack a)) ≡ some a

module _ {A : Type 0} (c : Msgpack A) where
  -- `std::bad_alloc` is a `std::exception` too. A write behind the block is undefined.
  encoded : Outcome → Result ByteBuffer
  encoded (written b) = ok b
  encoded (no_memory b) = err encode_exception
  encoded out_of_bounds = err undefined_behaviour

  -- `out.size = 0` and then the packer's writes.
  unfoldable pub encode : Heap → A → ByteBuffer → Result ByteBuffer
  unfolding encoded
  encode heap a out = encoded (writes heap (record out { size = 0 }) (c.pack a))

  unfoldable pub decode : List ℕ → Result A
  decode bv = elim (c.unpack bv) [ none ↦ err decode_exception | some a ↦ ok a ]

  pub decode-pack : (a : A) → IsRoundTrip c → decode (concat (c.pack a)) ≡ ok a
  unfolding decode
  decode-pack a law =
      ap (λ (o : Option A). elim o [ none ↦ err decode_exception | some a ↦ ok a ]) (law a)

  -- What encoding comes to.
  abbrev pub Encoded : Heap → A → ByteBuffer → Result ByteBuffer → Type 0
  Encoded heap a out (ok b) =
      IsValid b × (contents b ≡ concat (c.pack a)) × (decode (contents b) ≡ ok a)
  Encoded heap a out (err e) =
      (e ≡ encode_exception)
      × ((left : ByteBuffer) × RanOut heap (record out { size = 0 }) (c.pack a) left)

  encoded-Encoded :
      (heap : Heap) (a : A) (b : ByteBuffer) (o : Outcome)
      → IsRoundTrip c
      → AllAppended heap (record b { size = 0 }) (c.pack a) o
      → Encoded heap a b (encoded o)
  unfolding encoded
  encoded-Encoded heap a b (written b') law h = (h.0, h.1, ap decode h.1 ∙ decode-pack a law)
  encoded-Encoded heap a b (no_memory b') law h = (refl, (b', h))
  encoded-Encoded heap a b out_of_bounds law h = absurd h

  -- Encoding into a valid buffer, used before or not, leaves the bytes of this value alone in it,
  -- from which `decode` reads the value; or it throws `EncodeException` because it
  -- needed a larger block for one of its writes and the heap refused the one that it asked for. The value takes at most 2 ^ 62 bytes, the buffer has at most 2 ^ 63, and msgpack reads
  -- back what it packed.
  pub encode-Encoded :
      (heap : Heap) (a : A) (out : ByteBuffer)
      → IsRoundTrip c
      → IsValid out
      → out.capacity ≤ 2 ^ 63
      → length (concat (c.pack a)) ≤ 2 ^ 62
      → Encoded heap a out (encode heap a out)
  unfolding encode
  encode-Encoded heap a out law v cap small =
      encoded-Encoded heap a out (writes heap (record out { size = 0 }) (c.pack a)) law (
        writes-AllAppended heap (c.pack a) (record out { size = 0 })
          (record { block = v.block; size = omega arith }) cap (omega arith))

-- The adaptors of `Empty`: nil, and a type error for anything else.
pub data Empty : Type 0 where
  empty : Empty

-- The type tag of a msgpack object: nil or another.
pub data ObjectType : Type 0 where
  nil other : ObjectType

unfoldable pub convert_empty : ObjectType → Option Empty
convert_empty nil = some empty
convert_empty other = none
