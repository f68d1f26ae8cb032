-- ===== src/Utils/Singleton.antt =====
-- include/zerolancom/utils/singleton.hpp: the two static pointers of `Singleton<T>`, with the objects
-- that were made and deleted. An object is named by its address.
use zero_lan_com.Base.{
  ℕ, ◌+◌, List, [], ◌∷◌, Option, none, some, Bool, true, false, ◌==◌, if◌then◌else◌, ◌≡◌, refl,
  arith, Option-cases, inl, inr,
}
use zero_lan_com.Base.Result.{Result, ok, err, logic_error}
use zero_lan_com.Utils.ThreadPool.Workers.{count}

pub record Singleton : Type 0 where
  pub instance_ptr : Option ℕ
  pub unique_instance : Option ℕ
  -- the history
  pub made : List ℕ
  pub deleted : List ℕ

abbrev pub empty : Singleton
empty = record { instance_ptr = none; unique_instance = none; made = []; deleted = [] }

-- `instancePtr` and `instance`.
unfoldable pub instance_of : Singleton → Result ℕ
instance_of s = elim s.instance_ptr [ none ↦ err logic_error | some a ↦ ok a ]

unfoldable pub is_initialized : Singleton → Bool
is_initialized s = elim s.instance_ptr [ none ↦ false | some a ↦ true ]

-- The constructor of `T` gives an object or throws.
made_managed : Singleton → Result ℕ → Result (Unit {0}) × Singleton
made_managed s (err e) = (err e, s)
made_managed s (ok a) =
    (ok tt, record s { unique_instance = some a; instance_ptr = some a; made = a ∷ s.made })

made_external : Singleton → Result ℕ → Result (Unit {0}) × Singleton
made_external s (err e) = (err e, s)
made_external s (ok a) = (ok tt, record s { instance_ptr = some a; made = a ∷ s.made })

unfoldable pub init_managed : Result ℕ → Singleton → Result (Unit {0}) × Singleton
unfolding made_managed
init_managed construct s = elim s.instance_ptr [
  | some a ↦ (err logic_error, s)
  | none ↦ made_managed s construct
]

unfoldable pub init_external : Result ℕ → Singleton → Result (Unit {0}) × Singleton
unfolding made_external
init_external construct s = elim s.instance_ptr [
  | some a ↦ (err logic_error, s)
  | none ↦ made_external s construct
]

unfoldable pub destroy : Singleton → Singleton
destroy s = elim s.unique_instance [
  | some a ↦ record s { unique_instance = none; instance_ptr = none; deleted = a ∷ s.deleted }
  | none ↦ elim s.instance_ptr [
    | some a ↦ record s { instance_ptr = none; deleted = a ∷ s.deleted }
    | none ↦ s
  ]
]

pub data Call : Type 0 where
  managed external : Result ℕ → Call
  destroyed : Call

unfoldable pub call : Call → Singleton → Singleton
call (managed construct) s = (init_managed construct s).1
call (external construct) s = (init_external construct s).1
call destroyed s = destroy s

unfoldable pub calls : List Call → Singleton → Singleton
calls [] s = s
calls (c ∷ cs) s = calls cs (call c s)

-- The objects that are alive: the one that the pointer shows, or none.
unfoldable pub alive : ℕ → Singleton → ℕ
alive a s = elim s.instance_ptr [ none ↦ 0 | some b ↦ if b == a then 1 else 0 ]

record IsSound (s : Singleton) : Type 0 where
  -- a managed object is the instance
  owned : (a : ℕ) → s.unique_instance ≡ some a → s.instance_ptr ≡ some a
  balanced : (a : ℕ) → count a s.made ≡ count a s.deleted + alive a s

module _ (s : Singleton) (v : IsSound s) where
  managed-IsSound : (construct : Result ℕ) → IsSound (call (managed construct) s)
  unfolding call init_managed alive count
  managed-IsSound (ok x) = record {
    owned = λ a e. ground (arith, v.owned a);
    balanced = λ a. ground (arith, v.balanced a);
  }
  managed-IsSound (err x) = record {
    owned = λ a e. ground (arith, v.owned a);
    balanced = λ a. ground (arith, v.balanced a);
  }

  external-IsSound : (construct : Result ℕ) → IsSound (call (external construct) s)
  unfolding call init_external alive count
  external-IsSound (ok x) = record {
    owned = λ a e. ground (arith, v.owned a);
    balanced = λ a. ground (arith, v.balanced a);
  }
  external-IsSound (err x) = record {
    owned = λ a e. ground (arith, v.owned a);
    balanced = λ a. ground (arith, v.balanced a);
  }

  destroyed-IsSound : IsSound (call destroyed s)
  unfolding call destroy alive count
  destroyed-IsSound = elim (Option-cases s.unique_instance) [
    | inl plain ↦ record {
      owned = λ a e. ground (arith, v.owned a);
      balanced = λ a. ground (arith, v.balanced a);
    }
    | inr (b, held) ↦ record {
      owned = λ a e. ground (arith, v.owned a);
      balanced = λ a. ground (arith, v.balanced a, v.owned b held);
    }
  ]

calls-IsSound : (cs : List Call) (s : Singleton) → IsSound s → IsSound (calls cs s)
unfolding calls
calls-IsSound [] s v = v
calls-IsSound (managed x ∷ cs) s v = calls-IsSound cs _ (managed-IsSound s v x)
calls-IsSound (external x ∷ cs) s v = calls-IsSound cs _ (external-IsSound s v x)
calls-IsSound (destroyed ∷ cs) s v = calls-IsSound cs _ (destroyed-IsSound s v)

empty-IsSound : IsSound empty
unfolding alive count
empty-IsSound = record { owned = λ a e. cc; balanced = λ a. refl }

-- However often a singleton is initialised in either way and destroyed: each object that was made
-- is deleted once, or is the instance and still alive. Nothing leaks, and nothing is deleted twice.
pub calls_balanced :
    (cs : List Call) (a : ℕ)
    → let s = calls cs empty in count a s.made ≡ count a s.deleted + alive a s
calls_balanced cs a = (calls-IsSound cs empty empty-IsSound).balanced a

-- A second initialisation is refused with `logic_error`, in either way, until the singleton is
-- destroyed; afterwards it succeeds.
pub init_twice :
    (s : Singleton) (a : ℕ) (construct : Result ℕ)
    → s.instance_ptr ≡ some a
    → ((init_managed construct s).0 ≡ err logic_error)
      × ((init_external construct s).0 ≡ err logic_error)
      × ((init_managed (ok a) (destroy s)).0 ≡ ok tt)
      × ((init_external (ok a) (destroy s)).0 ≡ ok tt)
unfolding init_managed init_external destroy
init_twice s a construct e = ground arith
