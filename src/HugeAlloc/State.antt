-- ===== src/HugeAlloc/State.antt =====
-- The state of utils/huge_alloc.h, and how a member function ends.
use systemish.Base.{ℕ, Bool, true, false, List}

-- `nullptr`
abbrev pub null : ℕ
null = 0

-- `class Buffer`
pub record Buffer : Type 0 where
  pub buf : ℕ
  pub class_size : ℕ

-- `shm_region_t`
pub record Region : Type 0 where
  pub shm_key : ℕ
  pub buf : ℕ
  pub size : ℕ

-- `class HugeAlloc`. The vectors `shm_list` and `freelist[i]` are lists with the back first.
pub record HugeAlloc : Type 0 where
  pub shm_list : List Region
  pub freelist : ℕ → List Buffer
  pub numa_node : ℕ
  pub prev_allocation_size : ℕ
  pub shm_reserved : ℕ
  pub user_alloc_tot : ℕ

-- What the `runtime_error`s say.
pub data Error : Type 0 where
  permissions size_limits unexpected shmat_failed mbind_failed : Error

-- What `shmget` answers: an `errno`, or a region, with the address that `shmat` returns for it and
-- the value that `mbind` does.
pub data Shmget : Type 0 where
  eexist eacces einval enomem other : Shmget
  created : ℕ → ℕ → Shmget

-- One turn of the loop in `alloc_raw`: what `next_u64` and `shmget` return.
abbrev pub Attempt : Type 0
Attempt = ℕ × Shmget

-- `aborted` is a failed assertion, or a read of the back of an empty vector; `waiting` is a loop
-- that has used all calls of `shmget` that are given.
pub data Outcome (A : Type 0) : Type 0 where
  ok : A → HugeAlloc → Outcome A
  thrown : Error → HugeAlloc → Outcome A
  aborted : Outcome A
  waiting : Outcome A

abbrev pub Action : Type 0 → Type 0
Action A = HugeAlloc → Outcome A

abbrev pub give : {A : Type 0} → A → Action A
give = ok

-- A run goes on with its result.
abbrev pub bind : {A B : Type 0} → Outcome A → (A → Action B) → Outcome B
bind (ok a s) k = k a s
bind (thrown e s) k = thrown e s
bind aborted k = aborted
bind waiting k = waiting

infixl 5 ◌>>=◌ ◌>>◌
abbrev pub ◌>>=◌ : {A B : Type 0} → Action A → (A → Action B) → Action B
m >>= k = λ s. bind (m s) k

abbrev pub ◌>>◌ : {A B : Type 0} → Action A → Action B → Action B
m >> k = m >>= λ _. k

abbrev pub check : Bool → Action (Unit {0})
check true s = ok tt s
check false s = aborted

abbrev pub modify : (HugeAlloc → HugeAlloc) → Action (Unit {0})
modify f s = ok tt (f s)
