-- ===== src/Serialization/ByteBuffer.antt =====
-- `ByteBuffer` of include/zerolancom/serialization/binary_codec.hpp and its `write` in
-- src/serialization/binary_codec.cpp, over the bytes of the block that `data` points to.
pub mod Write
use zero_lan_com.Base.{
  ℕ, zero, suc, ◌+◌, ◌*◌, ◌%◌, ◌^◌, ◌≤◌, max, List, [], ◌∷◌, ◌++◌, Bool, ltb, if◌then◌else◌, length,
  take, drop, ◌≡◌,
}

pub record ByteBuffer : Type 0 where
  pub block : List ℕ
  pub size : ℕ
  pub capacity : ℕ

-- A default-constructed buffer: a null pointer and two zeros.
abbrev pub empty : ByteBuffer
empty = record { block = []; size = 0; capacity = 0 }

-- The C heap: the requests that `realloc` grants, and the byte that it leaves in new memory.
pub record Heap : Type 0 where
  pub grants : ℕ → Bool
  pub junk : ℕ

pub data Outcome : Type 0 where
  written : ByteBuffer → Outcome
  -- `std::bad_alloc` was thrown, with the buffer that is left behind
  no_memory : ByteBuffer → Outcome
  -- `memcpy` would write behind the block
  out_of_bounds : Outcome

abbrev pub replicate : ℕ → ℕ → List ℕ
replicate zero b = []
replicate (suc n) b = b ∷ replicate n b

-- The old bytes as far as the new block reaches, and junk behind them.
unfoldable pub realloc : Heap → List ℕ → ℕ → List ℕ
realloc heap block new_size = take new_size (block ++ replicate new_size heap.junk)

-- `memcpy(data + size, buf, len)` and `size += len`.
unfoldable pub copy_in : ByteBuffer → List ℕ → Outcome
copy_in b buf =
    if ltb (length b.block) (b.size + length buf)
    then out_of_bounds
    else written (record b {
      block = take b.size b.block ++ (buf ++ drop (b.size + length buf) b.block);
      size = (b.size + length buf) % 2 ^ 64;
    })

-- Sizes are `size_t`.
unfoldable pub write : Heap → ByteBuffer → List ℕ → Outcome
write heap b buf =
    let needed = (b.size + length buf) % 2 ^ 64 in
    let new_capacity = max (b.capacity * 2 % 2 ^ 64) needed in
    if ltb b.capacity needed
    then if heap.grants new_capacity
      then copy_in (record b { block = realloc heap b.block new_capacity; capacity = new_capacity })
          buf
      else no_memory b
    else copy_in b buf

-- The bytes that have been written.
abbrev pub contents : ByteBuffer → List ℕ
contents b = take b.size b.block

pub record IsValid (b : ByteBuffer) : Type 0 where
  pub block : length b.block ≡ b.capacity
  pub size : b.size ≤ b.capacity

-- The writes of one after another.
unfoldable pub writes : Heap → ByteBuffer → List (List ℕ) → Outcome
writes heap b [] = written b
writes heap b (buf ∷ bufs) = elim (write heap b buf) [
  | written b' ↦ writes heap b' bufs
  | no_memory b' ↦ no_memory b'
  | out_of_bounds ↦ out_of_bounds
]
