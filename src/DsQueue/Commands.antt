-- ===== src/DsQueue/Commands.antt =====
-- What the functions of DS/queue do to memory: `struct ds_qnode_t` at addresses, and the ways in
-- which an access, an assertion or a loop ends.
use systemish.Base.{ℕ, ◌==◌, if◌then◌else◌, Bool, true, false, Option, none, some}

abbrev pub Address : Type 0
Address = ℕ

abbrev pub null : Address
null = 0

-- `struct ds_qnode_t`, where `value` is the field `data`
pub record Qnode : Type 0 where
  pub next : Address
  pub value : ℕ

abbrev pub qnode : ℕ → Address → Qnode
qnode v after = record { value = v; next = after }

-- `none` at an address that is not in use
abbrev pub Memory : Type 0
Memory = Address → Option Qnode

abbrev pub set_at : Memory → Address → Option Qnode → Memory
set_at mem p contents = λ a. if a == p then contents else mem a

-- A run ends with a result, at an assertion, at an address that is null or not in use, or without
-- the fuel that its loop needs.
pub data Result (A : Type 0) : Type 0 where
  aborted : Result A
  dangling : Result A
  out_of_fuel : Result A
  finished : A → Memory → Result A

abbrev pub Action : Type 0 → Type 0
Action A = Memory → Result A

abbrev pub give : {A : Type 0} → A → Action A
give x mem = finished x mem

module _ {A B : Type 0} where
  abbrev pub proceed : Result A → (A → Action B) → Result B
  proceed aborted rest = aborted
  proceed dangling rest = dangling
  proceed out_of_fuel rest = out_of_fuel
  proceed (finished x mem) rest = rest x mem

  infixl 5 ◌>>=◌ ◌>>◌
  abbrev pub ◌>>=◌ : Action A → (A → Action B) → Action B
  m >>= k = λ h. proceed (m h) k

  abbrev pub ◌>>◌ : Action A → Action B → Action B
  m >> n = m >>= λ _. n

unfoldable pub assert : Bool → Action (Unit {0})
assert true h = finished tt h
assert false h = aborted

-- `p->data = v; p->next = q` at an address that `malloc` has just returned
abbrev pub put : Address → Qnode → Action (Unit {0})
put p n h = finished tt (set_at h p (some n))

unfoldable pub fetch : Address → Action Qnode
fetch p h = if p == null then dangling else elim (h p) [ none ↦ dangling | some n ↦ finished n h ]

unfoldable pub set_next : Address → Address → Action (Unit {0})
unfolding fetch
set_next p q = do n ← fetch p; put p (record n { next = q })

unfoldable pub free : Address → Action (Unit {0})
unfolding fetch
free p h = proceed (fetch p h) (λ _ g. finished tt (set_at g p none))
