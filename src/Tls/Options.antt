-- ===== src/Tls/Options.antt =====
-- `main` of thread-local-storage/tls.c: the options, their checks, and the threads.
use systemish.Base.{
  ℕ, zero, suc, ◌+◌, ◌≤◌, ◌≡◌, ◌==◌, refl, ap, inl, inr, true, Bool, ◌&&◌, ◌||◌, not, is_negative,
  leb, if◌then◌else◌, minus_one, Bool-cases, List, [], ◌∷◌, ◌++◌, Option, none, some, arith,
}
use mathlib.Core.Path.{subst}

-- What a call of `getopt_long` gives, but the last: the `val` of an option with `atoi(optarg)`,
-- or anything else.
pub data Opt : Type 0 where
  t : ℕ → Opt
  u : ℕ → Opt
  other : Opt

pub record Settings : Type 0 where
  pub num_threads : ℕ
  pub use_tls : ℕ

-- `none` is a failed assertion.
unfoldable pub parse : List Opt → Settings → Option Settings
parse [] s = some s
parse (t n ∷ opts) s = parse opts (record s { num_threads = n })
parse (u n ∷ opts) s = parse opts (record s { use_tls = n })
parse (other ∷ opts) s = none

abbrev pub unset : Settings
unset = record { num_threads = minus_one; use_tls = minus_one }

unfoldable pub in_range : Settings → Bool
in_range s =
    (not (is_negative s.num_threads) && leb s.num_threads 56) && (s.use_tls == 0 || s.use_tls == 1)

-- A thread that is created, with its `tid`.
pub data Thread : Type 0 where
  tls : ℕ → Thread
  no_tls : ℕ → Thread

unfoldable pub create : ℕ → ℕ → List Thread
create use_tls zero = []
create use_tls (suc n) = create use_tls n ++ (if use_tls == 1 then tls n else no_tls n) ∷ []

unfoldable pub main : List Opt → Option (List Thread)
unfolding in_range
main opts = elim (parse opts unset) [
  | none ↦ none
  | some s ↦ if in_range s then some (create s.use_tls s.num_threads) else none
]

-- The assertion at the start of both thread functions.
unfoldable pub tid_ok : Thread → Bool
tid_ok (tls n) = leb n 56
tid_ok (no_tls n) = leb n 56

abbrev pub All : (Thread → Type 0) → List Thread → Type 0
All P [] = Unit {0}
All P (x ∷ xs) = P x × All P xs

abbrev pub length : List Thread → ℕ
length [] = 0
length (x ∷ xs) = suc (length xs)

All-append : (P : Thread → Type 0) (xs ys : List Thread) → All P xs → All P ys → All P (xs ++ ys)
All-append P [] ys p q = q
All-append P (x ∷ xs) ys (h, p) q = (h, All-append P xs ys p q)

length-append : (xs ys : List Thread) → length (xs ++ ys) ≡ length xs + length ys
length-append [] ys = omega arith
length-append (x ∷ xs) ys = omega (arith, length-append xs ys)

create-length : (use_tls n : ℕ) → length (create use_tls n) ≡ n
unfolding create
create-length use_tls zero = refl
create-length use_tls (suc n) = omega (
  arith,
  length-append (create use_tls n) ((if use_tls == 1 then tls n else no_tls n) ∷ []),
  create-length use_tls n,
)

create-tid_ok : (use_tls n : ℕ) → n ≤ 57 → All (λ x. tid_ok x ≡ true) (create use_tls n)
unfolding create tid_ok
create-tid_ok use_tls zero h = tt
create-tid_ok use_tls (suc n) h =
    All-append _ (create use_tls n) _ (create-tid_ok use_tls n (omega arith)) (ground arith, tt)

in_range-le : (s : Settings) → in_range s ≡ true → s.num_threads ≤ 56
unfolding in_range
in_range-le s h = ground arith

-- Where `main` does not abort, it has created at most 56 threads, and the assertion on the `tid`
-- holds in each.
pub main-tid_ok :
    (opts : List Opt) (threads : List Thread)
    → main opts ≡ some threads
    → (length threads ≤ 56) × All (λ x. tid_ok x ≡ true) threads
unfolding main
main-tid_ok opts threads h = go (parse opts unset) h
  where
    go :
        (r : Option Settings)
        → elim r as (λ _. Option (List Thread)) [
          | none ↦ none
          | some s ↦ if in_range s then some (create s.use_tls s.num_threads) else none
        ]
          ≡ some threads
        → (length threads ≤ 56) × All (λ x. tid_ok x ≡ true) threads
    go none e = cc
    go (some s) e = elim (Bool-cases (in_range s)) [
      | inr bad ↦ cc (e, ap (λ b. if b then some (create s.use_tls s.num_threads) else none) bad)
      | inl good ↦
          let few = in_range-le s good in
          let e' = rw good at e in
          let same : create s.use_tls s.num_threads ≡ threads = cc in
          subst (λ l. (length l ≤ 56) × All (λ x. tid_ok x ≡ true) l) same
            (
              omega (arith, create-length s.use_tls s.num_threads, few),
              create-tid_ok s.use_tls s.num_threads (omega (arith, few)),
            )
    ]
