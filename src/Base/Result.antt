-- ===== src/Base/Result.antt =====
-- A computation that returns or throws. `Exception` has the exceptions that the program tells apart.
use Prim.Native.Nat.{ℕ}

pub data Exception : Type 0 where
  runtime_error logic_error invalid_argument out_of_range bad_alloc future_error : Exception
  encode_exception decode_exception unknown_exception : Exception
  -- no exception: what the code does is undefined
  undefined_behaviour : Exception
  -- `zmq::error_t`, with its `num()`
  zmq_error : ℕ → Exception

pub data Result {ℓ} (A : Type ℓ) : Type ℓ where
  ok : A → Result A
  err : Exception → Result A

-- The rest of a function, where its first part has returned.
infixl 5 ◌>>=◌
abbrev pub ◌>>=◌ {ℓ κ} : {A : Type ℓ} → {B : Type κ} → Result A → (A → Result B) → Result B
err thrown >>= rest = err thrown
ok value >>= rest = rest value
