-- ===== src/Sockets/Discovery/Locks/Progress.antt =====
-- When a thread that holds a lock can go on.
use zero_lan_com.Sockets.Discovery.Locks.Deadlock.{
  is_registering, is_withdrawing, is_inside, IsCrossed, number-middle,
}
use zero_lan_com.Base.{
  ℕ, zero, suc, ◌+◌, ◌≤◌, ◌<◌, List, [], ◌∷◌, ◌++◌, Bool, true, ◌≡◌, ◌⊎◌, ◌∙◌, ◌&&◌, ◌||◌, not,
  Bool-cases, inl, inr, refl, ap, arith,
}
use zero_lan_com.Sockets.Discovery.Locks.{
  Thread, idle, registering, reading_publishers, registered, checking, withdrawing, removing,
  writing, reading, using_subscribers, holds_mutex, holds_data, number, Move, begin_publishers,
  end_publishers, end_register, begin_remove, end_remove, end_check, end_write, end_read, end_use,
}

-- It waits for no lock.
unfoldable is_free : Thread → Bool
unfolding is_inside is_registering is_withdrawing
is_free t = is_inside t && not (is_registering t || is_withdrawing t)

number-le-sum :
    (p q r : Thread → Bool) (ts : List Thread)
    → ((t : Thread) → p t ≡ true → (q t || r t) ≡ true)
    → number p ts ≤ number q ts + number r ts
unfolding number
number-le-sum p q r [] h = omega arith
number-le-sum p q r (t ∷ ts) h = ground (arith, h t, number-le-sum p q r ts h)

-- A thread of a class that is not empty.
find_one :
    (p : Thread → Bool) (ts : List Thread)
    → 0 < number p ts
    → (ws : List Thread) × (t : Thread) × (vs : List Thread) × (ts ≡ ws ++ t ∷ vs) × (p t ≡ true)
unfolding number
find_one p [] h = absurd (omega arith)
find_one p (t ∷ ts) h = elim (Bool-cases (p t)) [
  | inl member ↦ ([], t, ts, refl, member)
  | inr other ↦
      let (ws, u, vs, e, member) = find_one p ts (ground arith) in
      (t ∷ ws, u, vs, ap (◌∷◌ t) e, member)
]

-- A thread inside that can go on.
abbrev pub CanGoOn : List Thread → Type 0
CanGoOn ts =
    (ws : List Thread) × (t : Thread) × (vs : List Thread) × (u : Thread) × (ts ≡ ws ++ t ∷ vs)
    × (is_inside t ≡ true)
    × Move (ws ++ vs) t u

free-Move :
    (others : List Thread) (t : Thread)
    → is_free t ≡ true
    → (u : Thread) × (is_inside t ≡ true) × Move others t u
unfolding is_free is_inside is_registering is_withdrawing
free-Move others reading_publishers h = (registered, refl, end_publishers)
free-Move others registered h = (idle, refl, end_register)
free-Move others checking h = (idle, refl, end_check)
free-Move others removing h = (checking, refl, end_remove)
free-Move others writing h = (idle, refl, end_write)
free-Move others reading h = (idle, refl, end_read)
free-Move others using_subscribers h = (idle, refl, end_use)
free-Move others idle h = cc
free-Move others registering h = cc
free-Move others withdrawing h = cc

free_goes_on : (ts : List Thread) → 0 < number is_free ts → CanGoOn ts
free_goes_on ts h =
    let (ws, t, vs, e, free) = find_one is_free ts h in
    let (u, inside, m) = free-Move (ws ++ vs) t free in (ws, t, vs, u, e, inside, m)

registering_is : (t : Thread) → is_registering t ≡ true → t ≡ registering
unfolding is_registering
registering_is registering h = refl
registering_is _ h = cc

withdrawing_is : (t : Thread) → is_withdrawing t ≡ true → t ≡ withdrawing
unfolding is_withdrawing
withdrawing_is withdrawing h = refl
withdrawing_is _ h = cc

data_holders : (t : Thread) → holds_data t ≡ true → (is_free t || is_withdrawing t) ≡ true
unfolding holds_data is_free is_inside is_registering is_withdrawing
data_holders checking h = refl
data_holders withdrawing h = refl
data_holders removing h = refl
data_holders writing h = refl
data_holders _ h = cc

mutex_holders : (t : Thread) → holds_mutex t ≡ true → (is_free t || is_registering t) ≡ true
unfolding holds_mutex is_free is_inside is_registering is_withdrawing
mutex_holders registering h = refl
mutex_holders reading_publishers h = refl
mutex_holders registered h = refl
mutex_holders removing h = refl
mutex_holders using_subscribers h = refl
mutex_holders _ h = cc

-- A thread of a class whose members are all the same.
named_goes_on :
    (p : Thread → Bool) (t u : Thread) (ts : List Thread)
    → ((v : Thread) → p v ≡ true → v ≡ t)
    → is_inside t ≡ true
    → 0 < number p ts
    → ((ws vs : List Thread) → ts ≡ ws ++ t ∷ vs → Move (ws ++ vs) t u)
    → CanGoOn ts
named_goes_on p t u ts same inside some_member move =
    let (ws, v, vs, e, member) = find_one p ts some_member in
    let e' : ts ≡ ws ++ t ∷ vs = e ∙ ap (λ x. ws ++ x ∷ vs) (same v member) in
    (ws, t, vs, u, e', inside, move ws vs e')

registering_goes_on :
    (ts : List Thread)
    → number is_free ts ≡ 0
    → number is_withdrawing ts ≡ 0
    → 0 < number is_registering ts
    → CanGoOn ts
unfolding is_inside
registering_goes_on ts none_free none_withdraws some_registers =
    named_goes_on is_registering registering reading_publishers ts registering_is refl
      some_registers
      (λ ws vs e. begin_publishers (
        omega (
          arith,
          number-middle holds_data ws vs registering,
          ap (number holds_data) e,
          number-le-sum holds_data is_free is_withdrawing ts data_holders,
        )))

withdrawing_goes_on :
    (ts : List Thread)
    → number is_free ts ≡ 0
    → number is_registering ts ≡ 0
    → 0 < number is_withdrawing ts
    → CanGoOn ts
unfolding is_inside
withdrawing_goes_on ts none_free none_registers some_withdraws =
    named_goes_on is_withdrawing withdrawing removing ts withdrawing_is refl some_withdraws
      (λ ws vs e. begin_remove (
        omega (
          arith,
          number-middle holds_mutex ws vs withdrawing,
          ap (number holds_mutex) e,
          number-le-sum holds_mutex is_free is_registering ts mutex_holders,
        )))

is_waiting : Thread → Bool
is_waiting t = is_registering t || is_withdrawing t

inside_parts : (t : Thread) → is_inside t ≡ true → (is_free t || is_waiting t) ≡ true
unfolding is_free is_inside is_registering is_withdrawing is_waiting
inside_parts idle h = cc
inside_parts _ h = refl

nobody_inside :
    (ts : List Thread)
    → number is_free ts ≡ 0
    → number is_registering ts ≡ 0
    → number is_withdrawing ts ≡ 0
    → number is_inside ts ≡ 0
unfolding is_waiting
nobody_inside ts a b c = omega (
  arith,
  number-le-sum is_inside is_free is_waiting ts inside_parts,
  number-le-sum is_waiting is_registering is_withdrawing ts (λ t h. h),
)

zero_or_more : (n : ℕ) → (n ≡ 0) ⊎ (0 < n)
zero_or_more zero = inl refl
zero_or_more (suc n) = inr (omega arith)

-- Whatever the threads are doing, nobody is in one of the methods, or a thread in one of them can go
-- on, or there is the one crossing of a registration and the removal of a silent node.
pub progress : (ts : List Thread) → ((number is_inside ts ≡ 0) ⊎ CanGoOn ts) ⊎ IsCrossed ts
progress ts = elim (zero_or_more (number is_free ts)) [
  | inr some_free ↦ inl (inr (free_goes_on ts some_free))
  | inl none_free ↦ elim (zero_or_more (number is_registering ts)) [
    | inl none_registers ↦ elim (zero_or_more (number is_withdrawing ts)) [
      | inl none_withdraws ↦ inl (inl (nobody_inside ts none_free none_registers none_withdraws))
      | inr some_withdraws ↦
          inl (inr (withdrawing_goes_on ts none_free none_registers some_withdraws))
    ]
    | inr some_registers ↦ elim (zero_or_more (number is_withdrawing ts)) [
      | inl none_withdraws ↦
          inl (inr (registering_goes_on ts none_free none_withdraws some_registers))
      | inr some_withdraws ↦ inr (some_registers, some_withdraws)
    ]
  ]
]
