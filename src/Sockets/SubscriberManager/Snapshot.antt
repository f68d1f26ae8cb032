-- ===== src/Sockets/SubscriberManager/Snapshot.antt =====
-- The pointers into `subscribers_` that `pollOnce` of src/sockets/subscriber_manager.cpp takes under
-- the lock and follows without it, while `_registerTopicSubscriber` appends to the vector.
use zero_lan_com.Base.{
  ℕ, zero, suc, ◌+◌, ◌≤◌, ◌<◌, List, [], ◌∷◌, ltb, if◌then◌else◌, All, ◌≡◌, ◌↔◌, ◌⊎◌, inl, inr,
  refl, sym, subst, arith,
}

-- `subscribers_`: which allocation holds the elements, for how many it has room, and how many it has.
pub record Storage : Type 0 where
  pub block : ℕ
  pub capacity : ℕ
  pub size : ℕ

-- `subscribers_.push_back`: a full vector moves to a new allocation, of the capacity that the
-- library chooses.
unfoldable pub push_back : (ℕ → ℕ) → Storage → Storage
push_back grow s =
    if ltb s.size s.capacity
    then record s { size = s.size + 1 }
    else record { block = s.block + 1; capacity = grow s.capacity; size = s.size + 1 }

-- That many registrations.
unfoldable pub register_many : (ℕ → ℕ) → ℕ → Storage → Storage
register_many grow zero s = s
register_many grow (suc k) s = register_many grow k (push_back grow s)

-- `subs.push_back(&sub)` for each element from the index `i` on: the allocation and the index.
unfoldable pub pointers_from : ℕ → ℕ → ℕ → List (ℕ × ℕ)
pointers_from block i zero = []
pointers_from block i (suc n) = (block, i) ∷ pointers_from block (suc i) n

unfoldable pub take_pointers : Storage → List (ℕ × ℕ)
unfolding pointers_from
take_pointers s = pointers_from s.block 0 s.size

-- The pointer is to an element that the vector still has there.
abbrev pub IsAlive : Storage → ℕ × ℕ → Type 0
IsAlive s (block, i) = (block ≡ s.block) × (i < s.size)

register_many-size :
    (grow : ℕ → ℕ) (k : ℕ) (s : Storage) → (register_many grow k s).size ≡ s.size + k
unfolding register_many push_back
register_many-size grow zero s = omega arith
register_many-size grow (suc k) s = ground (arith, register_many-size grow k (push_back grow s))

register_many-block :
    (grow : ℕ → ℕ) (k : ℕ) (s : Storage) → s.block ≤ (register_many grow k s).block
unfolding register_many push_back
register_many-block grow zero s = omega arith
register_many-block grow (suc k) s = ground (arith, register_many-block grow k (push_back grow s))

-- The vector stays where it is exactly as long as there is room.
register_many-stays :
    (grow : ℕ → ℕ) (k : ℕ) (s : Storage)
    → s.size ≤ s.capacity
    → ((register_many grow k s).block ≡ s.block) ↔ (s.size + k ≤ s.capacity)
unfolding register_many push_back
register_many-stays grow zero s v = (λ h. omega arith, λ h. refl)
register_many-stays grow (suc k) s v = ground (
  arith,
  register_many-stays grow k (push_back grow s),
  register_many-block grow k (push_back grow s),
)

pointers_from-IsAlive :
    (s : Storage) (block i n : ℕ)
    → block ≡ s.block
    → i + n ≤ s.size
    → All (IsAlive s) (pointers_from block i n)
unfolding pointers_from
pointers_from-IsAlive s block i zero e h = tt
pointers_from-IsAlive s block i (suc n) e h =
    ((e, omega arith), pointers_from-IsAlive s block (suc i) n e (omega arith))

pointers_from-block :
    (s : Storage) (block i n : ℕ)
    → All (IsAlive s) (pointers_from block i n)
    → (n ≡ 0) ⊎ (block ≡ s.block)
unfolding pointers_from
pointers_from-block s block i zero h = inl refl
pointers_from-block s block i (suc n) h = inr (h.0.0)

-- The pointers that a poll has taken are all still good after `k` registrations exactly if there are
-- no subscribers or the vector has room for `k` more; otherwise the poll follows dangling pointers.
-- The vector's size is at most its capacity.
pub take_pointers-IsAlive :
    (grow : ℕ → ℕ) (k : ℕ) (s : Storage)
    → s.size ≤ s.capacity
    → All (IsAlive (register_many grow k s)) (take_pointers s)
      ↔ ((s.size ≡ 0) ⊎ (s.size + k ≤ s.capacity))
unfolding take_pointers pointers_from
take_pointers-IsAlive grow k s v = (
  λ h. elim (pointers_from-block (register_many grow k s) s.block 0 s.size h) [
    | inl nobody ↦ inl nobody
    | inr same ↦ inr ((register_many-stays grow k s v).0 (sym same))
  ],
  λ h. elim h [
    | inl nobody ↦
        subst (λ n. All (IsAlive (register_many grow k s)) (pointers_from s.block 0 n)) (sym nobody)
          tt
    | inr room ↦
        pointers_from-IsAlive (register_many grow k s) s.block 0 s.size
          (sym ((register_many-stays grow k s v).1 room))
          (omega (arith, register_many-size grow k s))
  ],
)
