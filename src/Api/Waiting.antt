-- ===== src/Api/Waiting.antt =====
-- How `waitForService` returns.
use native.Mathlib.Nat.{suc-mul, lt_of_mul-lt-mul_right}
use zero_lan_com.Base.{
  ℕ, zero, suc, ◌+◌, ◌*◌, ◌^◌, ◌<◌, ◌≤◌, Option, none, some, false, ltb, ◌≡◌, refl, arith,
  Bool-cases, Option-cases, inl, inr, ltb→lt, ltb-le, ◌==◌, ==_iff, lt→ltb, ap, ◌∙◌,
}
use zero_lan_com.Base.Text.{Str}
use zero_lan_com.Nodes.NodeInfo.{SocketInfo}
use zero_lan_com.Nodes.NodeInfoManager.{NodeInfoManager, get_service_info}
use zero_lan_com.Api.{Waited, available, timed_out, overflow, wait_loop, wait_for_service}

module _ (tables : ℕ → NodeInfoManager) (service_name : Str) (max interval : ℕ) where
  abbrev seen : ℕ → Option SocketInfo
  seen k = get_service_info service_name (tables k)

  -- What an outcome says: the service is there at the first lookup that finds it, within the time;
  -- or it is not there at any lookup within the time.
  abbrev pub IsTrue : Waited → Type 0
  IsTrue (available k) =
      (t : SocketInfo) × (seen k ≡ some t)
      × (k * interval < max)
      × ((j : ℕ) → j < k → seen j ≡ none)
  IsTrue timed_out = (j : ℕ) → j * interval < max → seen j ≡ none
  IsTrue overflow = ⊥

  -- Once the time is over all lookups that were due have been made.
  due :
      (k waited : ℕ)
      → waited ≡ k * interval
      → ltb waited max ≡ false
      → ((j : ℕ) → j < k → seen j ≡ none)
      → IsTrue timed_out
  due k waited e over before j h =
      before j (lt_of_mul-lt-mul_right interval (omega (arith, ltb-le waited max over)))

  -- One lookup more has failed.
  before_next :
      (k : ℕ)
      → seen k ≡ none
      → ((j : ℕ) → j < k → seen j ≡ none)
      → (j : ℕ) → j < suc k
      → seen j ≡ none
  before_next k missing before j h = elim (Bool-cases (j == k)) [
    | inl same ↦ ap seen ((==_iff j k).0 same) ∙ missing
    | inr other ↦ before j (ground arith)
  ]

  module _ (positive : 0 < interval) (fits : max + interval < 2 ^ 31) where
    -- With this fuel the loop ends, from any of its turns on.
    wait_loop-IsTrue :
        (fuel k waited : ℕ)
        → waited ≡ k * interval
        → max ≤ waited + fuel
        → ((j : ℕ) → j < k → seen j ≡ none)
        → (w : Waited) × (wait_loop tables service_name max interval (suc fuel) k waited ≡ some w)
          × IsTrue w
    unfolding wait_loop
    wait_loop-IsTrue zero k waited e enough before = elim (Bool-cases (ltb waited max)) [
      | inr over ↦ rw over (timed_out, refl, due k waited e over before)
      | inl more ↦ absurd (omega (arith, ltb→lt waited max more))
    ]
    wait_loop-IsTrue (suc fuel) k waited e enough before = elim (Bool-cases (ltb waited max)) [
      | inr over ↦ rw over (timed_out, refl, due k waited e over before)
      | inl more ↦ elim (Option-cases (seen k)) [
        | inr (t, found) ↦
            rw (more, found)
              (available k, refl, (t, found, omega (arith, ltb→lt waited max more), before))
        | inl missing ↦
            rw
              (
                more,
                missing,
                lt→ltb (waited + interval) (2 ^ 31) (omega (arith, ltb→lt waited max more)),
              )
              (wait_loop-IsTrue fuel (suc k) (waited + interval) (omega (arith, suc-mul k interval))
                (omega arith) (before_next k missing before))
      ]
    ]

    -- With a positive interval `waitForService` returns, after at most one lookup per millisecond
    -- and one test more. It reports the service at the first lookup that finds it, or that the time
    -- is over, and then no lookup within the time found it. The sum of the two times fits `int`.
    pub wait_for_service-IsTrue :
        (w : Waited) × (wait_for_service tables service_name max interval (suc max) ≡ some w)
        × IsTrue w
    unfolding wait_for_service
    wait_for_service-IsTrue =
        wait_loop-IsTrue max 0 0 (omega arith) (omega arith) (λ j h. absurd (omega (arith, h)))

-- With an interval of 0 the loop has no end while the service is not there, if there is any time to
-- wait at all.
pub wait_for_service-busy :
    (tables : ℕ → NodeInfoManager) (service_name : Str) (max fuel : ℕ)
    → 0 < max
    → ((k : ℕ) → get_service_info service_name (tables k) ≡ none)
    → wait_for_service tables service_name max 0 fuel ≡ none
unfolding wait_for_service wait_loop
wait_for_service-busy tables service_name max fuel some_time missing = turns fuel 0
  where
    turns : (fuel k : ℕ) → wait_loop tables service_name max 0 fuel k 0 ≡ none
    turns zero k = refl
    turns (suc fuel) k = rw (lt→ltb 0 max some_time, missing k, turns fuel (suc k))
