-- ===== src/Serialization/ByteBuffer/Write.antt =====
-- What `write` does to a valid buffer.
use mathlib.Core.List.{append-nil, append_assoc}
use zero_lan_com.Base.{
  ℕ, zero, suc, ◌+◌, ◌*◌, ◌%◌, ◌^◌, ◌≤◌, ◌<◌, max, List, [], ◌∷◌, ◌++◌, false, ltb, length, take,
  drop, ◌≡◌, refl, sym, ap, subst, ◌∙◌, arith, length-append, length-take, length-drop, take-append,
  ltb-le, ltb→lt, Bool-cases, inl, inr, le→ltb,
}
use zero_lan_com.Serialization.ByteBuffer.{
  ByteBuffer, Heap, Outcome, written, no_memory, out_of_bounds, replicate, realloc, copy_in, write,
  contents, IsValid, writes,
}

length-replicate : (n b : ℕ) → length (replicate n b) ≡ n
length-replicate zero b = refl
length-replicate (suc n) b = ap suc (length-replicate n b)

length-realloc : (heap : Heap) (block : List ℕ) (n : ℕ) → length (realloc heap block n) ≡ n
unfolding realloc
length-realloc heap block n = omega (
  arith,
  length-take n (block ++ replicate n heap.junk),
  length-append block (replicate n heap.junk),
  length-replicate n heap.junk,
)

-- A shorter prefix of a prefix of a list with more behind it.
take-take-append :
    {A : Type 0} (k n : ℕ) (xs ys : List A)
    → k ≤ n
    → k ≤ length xs
    → take k (take n (xs ++ ys)) ≡ take k xs
take-take-append zero n xs ys h h' = refl
take-take-append (suc k) zero xs ys h h' = absurd (omega arith)
take-take-append (suc k) (suc n) [] ys h h' = absurd (omega arith)
take-take-append (suc k) (suc n) (x ∷ xs) ys h h' =
    ap (◌∷◌ x) (take-take-append k n xs ys (omega arith) (omega arith))

take-append_more :
    {A : Type 0} (k : ℕ) (xs ys zs : List A)
    → k ≡ length xs + length ys
    → take k (xs ++ (ys ++ zs)) ≡ xs ++ ys
take-append_more k [] ys zs h = take-append k ys zs (omega arith)
take-append_more zero (x ∷ xs) ys zs h = absurd (omega arith)
take-append_more (suc k) (x ∷ xs) ys zs h = ap (◌∷◌ x) (take-append_more k xs ys zs (omega arith))

module _ (b : ByteBuffer) (buf : List ℕ) (room : b.size + length buf ≤ length b.block) where
  copied : ByteBuffer
  copied = record b {
    block = take b.size b.block ++ (buf ++ drop (b.size + length buf) b.block);
    size = b.size + length buf;
  }

  copy_in-written : length b.block < 2 ^ 64 → copy_in b buf ≡ written copied
  unfolding copy_in copied
  copy_in-written small =
      rw (
        le→ltb (length b.block) (b.size + length buf) room,
        wrap (b.size + length buf) (omega arith),
      )
    where
      wrap : (n : ℕ) → n < 2 ^ 64 → n % 2 ^ 64 ≡ n
      wrap n h = omega arith

  contents-copied : contents copied ≡ contents b ++ buf
  unfolding copied
  contents-copied =
      take-append_more (b.size + length buf) (take b.size b.block) buf _
        (omega (arith, length-take b.size b.block))

  length-copied : length copied.block ≡ length b.block
  unfolding copied
  length-copied = omega (
    arith,
    length-append (take b.size b.block) (buf ++ drop (b.size + length buf) b.block),
    length-append buf (drop (b.size + length buf) b.block),
    length-take b.size b.block,
    length-drop (b.size + length buf) b.block,
  )

-- What a write of `buf` to `b` may come to.
abbrev pub Appended : Heap → ByteBuffer → List ℕ → Outcome → Type 0
Appended heap b buf (written b') =
    IsValid b'
    × (contents b' ≡ contents b ++ buf)
    × (b'.size ≡ b.size + length buf)
    × (b'.capacity ≤ max b.capacity (2 * b'.size))
Appended heap b buf (no_memory b') =
    (b' ≡ b)
    × (b.capacity < b.size + length buf)
    × (heap.grants (max (b.capacity * 2 % 2 ^ 64) (b.size + length buf)) ≡ false)
Appended heap b buf out_of_bounds = ⊥

module _ (heap : Heap) (b : ByteBuffer) (buf : List ℕ) (v : IsValid b)
    (small : b.size + length buf < 2 ^ 64) where
  abbrev needed : ℕ
  needed = b.size + length buf

  abbrev grown_capacity : ℕ
  grown_capacity = max (b.capacity * 2 % 2 ^ 64) needed

  abbrev grown : ByteBuffer
  grown = record b { block = realloc heap b.block grown_capacity; capacity = grown_capacity }

  needed-eq : (b.size + length buf) % 2 ^ 64 ≡ needed
  needed-eq = omega arith

  copied-Appended :
      (c : ByteBuffer)
      → length c.block ≡ c.capacity
      → c.capacity < 2 ^ 64
      → c.size ≡ b.size
      → needed ≤ c.capacity
      → contents c ≡ contents b
      → c.capacity ≤ max b.capacity (2 * needed)
      → Appended heap b buf (copy_in c buf)
  copied-Appended c whole fits same room kept bound =
      let inside : c.size + length buf ≤ length c.block = omega arith in
      rw (copy_in-written c buf inside (omega arith)) (
        unfold copied in
        (
          record { block = length-copied c buf inside ∙ whole; size = omega arith },
          contents-copied c buf inside ∙ ap (λ t. t ++ buf) kept,
          omega arith,
          omega arith,
        ))

  -- A write to a valid buffer never leaves the block: it appends the bytes and keeps the buffer
  -- valid, with a capacity of at most twice the size unless it was larger before; or it needed more
  -- room, the heap refused the block of twice the capacity or of what was needed, and the buffer is as
  -- it was. The sum of the sizes must not wrap, and the capacity is below 2 ^ 64.
  pub write-Appended : b.capacity < 2 ^ 64 → Appended heap b buf (write heap b buf)
  unfolding write
  write-Appended fits = rw needed-eq (elim (Bool-cases (ltb b.capacity needed)) [
    | inr enough ↦
        rw enough
          (copied-Appended b v.block fits refl (ltb-le b.capacity needed enough) refl (omega arith))
    | inl more ↦ elim (Bool-cases (heap.grants grown_capacity)) [
      | inr refused ↦ rw (more, refused) (refl, ltb→lt b.capacity needed more, refused)
      | inl granted ↦
          let less : b.capacity < needed = ltb→lt b.capacity needed more in
          rw (more, granted)
            (copied-Appended grown (length-realloc heap b.block grown_capacity) (omega arith) refl
              (omega arith)
              (unfold realloc in
                take-take-append b.size grown_capacity b.block (replicate grown_capacity heap.junk)
                  (omega (arith, v.size)) (omega (arith, v.size, v.block)))
              (omega arith))
    ]
  ])

-- The bytes of several writes.
abbrev pub concat : List (List ℕ) → List ℕ
concat [] = []
concat (buf ∷ bufs) = buf ++ concat bufs

-- Some of the writes were made, and the next one needed more room than there was; the heap refused
-- the block that it asked for, of twice the old capacity or of what was needed.
abbrev pub RanOut : Heap → ByteBuffer → List (List ℕ) → ByteBuffer → Type 0
RanOut heap b bufs b' =
    (before : List (List ℕ)) × (buf : List ℕ) × (after : List (List ℕ)) × (bufs
      ≡ before ++ buf ∷ after)
    × (writes heap b before ≡ written b')
    × (b'.capacity < b'.size + length buf)
    × (heap.grants (max (b'.capacity * 2 % 2 ^ 64) (b'.size + length buf)) ≡ false)

-- What several writes may come to: all bytes in order, or a request that the heap refused.
abbrev pub AllAppended : Heap → ByteBuffer → List (List ℕ) → Outcome → Type 0
AllAppended heap b bufs (written b') = IsValid b' × (contents b' ≡ contents b ++ concat bufs)
AllAppended heap b bufs (no_memory b') = RanOut heap b bufs b'
AllAppended heap b bufs out_of_bounds = ⊥

AllAppended-cons :
    (heap : Heap) (b b' : ByteBuffer) (buf : List ℕ) (bufs : List (List ℕ)) (o : Outcome)
    → write heap b buf ≡ written b'
    → contents b' ≡ contents b ++ buf
    → AllAppended heap b' bufs o
    → AllAppended heap b (buf ∷ bufs) o
unfolding writes
AllAppended-cons heap b b' buf bufs (written c) first e h =
    (h.0, h.1 ∙ ap (λ t. t ++ concat bufs) e ∙ append_assoc (contents b) buf (concat bufs))
AllAppended-cons heap b b' buf bufs (no_memory c) first e
      (before, more, after, split, made, full, refused) =
    (buf ∷ before, more, after, ap (◌∷◌ buf) split, rw (first, writes) made, full, refused)
AllAppended-cons heap b b' buf bufs out_of_bounds first e h = h

-- Any sequence of writes to a valid buffer, of 2 ^ 62 bytes in all at most, appends all of the
-- bytes in order and stays within its blocks, or stops at a request that the heap refused.
pub writes-AllAppended :
    (heap : Heap) (bufs : List (List ℕ)) (b : ByteBuffer)
    → IsValid b
    → b.capacity ≤ 2 ^ 63
    → b.size + length (concat bufs) ≤ 2 ^ 62
    → AllAppended heap b bufs (writes heap b bufs)
unfolding writes
writes-AllAppended heap [] b v c s = (v, sym (append-nil (contents b)))
writes-AllAppended heap (buf ∷ bufs) b v c s =
    go (write heap b buf) refl
      (write-Appended heap b buf v (omega (arith, length-append buf (concat bufs))) (omega arith))
      (writes-AllAppended heap bufs)
  where
    go :
        (o : Outcome)
        → write heap b buf ≡ o
        → Appended heap b buf o
        → ((b' : ByteBuffer)
            → IsValid b'
            → b'.capacity ≤ 2 ^ 63
            → b'.size + length (concat bufs) ≤ 2 ^ 62
            → AllAppended heap b' bufs (writes heap b' bufs))
        → AllAppended heap b (buf ∷ bufs) (elim o [
          | written b' ↦ writes heap b' bufs
          | no_memory b' ↦ no_memory b'
          | out_of_bounds ↦ out_of_bounds
        ])
    go (written b') first h ih =
        AllAppended-cons heap b b' buf bufs (writes heap b' bufs) first h.1 (
          ih b' h.0 (omega (arith, length-append buf (concat bufs)))
            (omega (arith, length-append buf (concat bufs))))
    go (no_memory b') first h ih = (
      [],
      buf,
      bufs,
      refl,
      ap written (sym h.0),
      subst (λ (c : ByteBuffer). c.capacity < c.size + length buf) (sym h.0) h.1,
      subst
          (λ (c : ByteBuffer).
            heap.grants (max (c.capacity * 2 % 2 ^ 64) (c.size + length buf)) ≡ false)
          (sym h.0) h.2,
    )
    go out_of_bounds first h ih = h
