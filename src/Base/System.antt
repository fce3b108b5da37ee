-- ===== src/Base/System.antt =====
-- What a program takes from the operating system and the C library.
use Prim.Native.Nat.{ℕ}
use mathlib.Core.Option.{Option}

-- `sid` is what `shmget` returns, `segment` the memory that `shmat` maps, with whatever it holds
-- (`none` for a failed call), `heap` the memory that `malloc` returns, and `rand n` the result of
-- call `n` of `rand()`.
pub record Host : Type 0 where
  pub sid : ℕ
  pub segment : Option (ℕ → ℕ)
  pub heap : Option (ℕ → ℕ)
  pub rand : ℕ → ℕ

-- How a run of a program ends. `fault` is an access through a failed pointer.
pub data Exit {ℓ} (A : Type ℓ) : Type ℓ where
  returned : A → Exit A
  exited : ℕ → Exit A
  fault : Exit A
  out_of_fuel : Exit A

-- The memory behind a pointer.
abbrev pub deref {ℓ κ} : {M : Type ℓ} {A : Type κ} → Option M → (M → Exit A) → Exit A
deref m k = elim m [ Option.none ↦ fault | Option.some a ↦ k a ]
