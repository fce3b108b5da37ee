-- ===== src/Gpu/Handshake.antt =====
-- The states of gpu/mtMappedMemory: what the memory and the kernel's threads hold at each place of
-- the host.
use systemish.Base.{
  ℕ, suc, ◌<◌, ◌≡◌, ◌≢◌, ◌⊎◌, inl, inr, refl, sym, ◌∙◌, ap, update, ◌==◌, ==_iff, Bool-cases, arith,
  sub32, mul32, true,
}
use systemish.Gpu.Mapped.{
  num_pkts, iters, Shared, Cpu, clearing, filling, awaiting, checking, returned, mismatch, Lane,
  polling, reading, writing, packet, HostStep, clear, cleared, put, raise, non_zero, zero_at,
  all_non_zero, equal, differ, next, last, KernelStep, spin, raised, fetch, store, World, Step,
  host, kernel, main_world, Steps, none_yet, then_one, Reachable,
}
use mathlib.Core.Path.{subst}

-- what the kernel writes for a packet
abbrev pub reply : ℕ → ℕ → ℕ
reply k i = mul32 (packet k i) 2

pub reply-pos : (k i : ℕ) → i < num_pkts → reply k i ≢ 0
unfolding packet
reply-pos k i h = omega arith

abbrev pub IsPolling : ℕ → Lane → Type 0
IsPolling k (polling n) = n ≡ k
IsPolling k (reading n) = ⊥
IsPolling k (writing n v) = ⊥

-- A thread in the iteration `k` for which the flag is raised: it has written its answer, or not.
abbrev pub Doing : ℕ → ℕ → ℕ → Lane → Type 0
Doing k i b (polling n) = ((n ≡ k) × (b ≡ 0)) ⊎ ((n ≡ suc k) × (b ≡ reply k i))
Doing k i b (reading n) = (n ≡ k) × (b ≡ 0)
Doing k i b (writing n v) = (n ≡ k) × (b ≡ 0) × (v ≡ packet k i)

-- Before the flag is raised all threads wait for it.
pub record Before (k : ℕ) (m : Shared) (lanes : ℕ → Lane) : Type 0 where
  pub low : k < iters
  pub flag_at : m.flag ≡ sub32 k 1
  pub wait : (i : ℕ) → i < num_pkts → IsPolling k (lanes i)

pub record During (k : ℕ) (m : Shared) (lanes : ℕ → Lane) : Type 0 where
  pub low : k < iters
  pub flag_at : m.flag ≡ k
  pub sent : (i : ℕ) → i < num_pkts → m.a i ≡ packet k i
  pub doing : (i : ℕ) → i < num_pkts → Doing k i (m.b i) (lanes i)

pub record After (k : ℕ) (m : Shared) (lanes : ℕ → Lane) : Type 0 where
  pub low : k < iters
  pub flag_at : m.flag ≡ k
  pub sent : (i : ℕ) → i < num_pkts → m.a i ≡ packet k i
  pub answered : (i : ℕ) → i < num_pkts → m.b i ≡ reply k i
  pub wait : (i : ℕ) → i < num_pkts → IsPolling (suc k) (lanes i)

-- What holds at each place of the host.
abbrev pub At : Cpu → Shared → (ℕ → Lane) → Type 0
At (clearing k j) m lanes = Before k m lanes × ((i : ℕ) → i < j → m.b i ≡ 0)
At (filling k j) m lanes =
    Before k m lanes × ((i : ℕ) → i < num_pkts → m.b i ≡ 0) × ((i : ℕ) → i < j → m.a i ≡ packet k i)
At (awaiting k j) m lanes = During k m lanes × ((i : ℕ) → i < j → m.b i ≢ 0)
At (checking k j) m lanes = After k m lanes
At returned m lanes =
    (m.flag ≡ sub32 iters 1) × ((i : ℕ) → i < num_pkts → IsPolling iters (lanes i))
At mismatch m lanes = ⊥

abbrev pub Inv : World → Type 0
Inv s = At s.cpu s.shared s.lanes

-- A thread that polls for a flag that is not raised stays where it is.
stuck :
    (k : ℕ) {i : ℕ} {m m' : Shared} {l l' : Lane}
    → m.flag ≡ sub32 k 1
    → IsPolling k l
    → KernelStep i m l m' l'
    → (m' ≡ m) × IsPolling k l'
stuck k f w (spin low e) = (refl, w)
stuck k f w (raised low ne) = absurd (ne (f ∙ ap (λ n. sub32 n 1) (sym w)))
stuck k f w fetch = elim w [ ]
stuck k f w store = elim w [ ]

-- What a step of a thread does in the iteration `k`.
record Effect (k i : ℕ) (m m' : Shared) (l' : Lane) : Type 0 where
  flag_kept : m'.flag ≡ m.flag
  a_kept : m'.a ≡ m.a
  others : (j : ℕ) → j ≢ i → m'.b j ≡ m.b j
  own : Doing k i (m'.b i) l'
  kept : m.b i ≢ 0 → m'.b i ≢ 0

step-Effect :
    {i k : ℕ} {m m' : Shared} {l l' : Lane}
    → k < iters
    → m.flag ≡ k
    → m.a i ≡ packet k i
    → Doing k i (m.b i) l
    → KernelStep i m l m' l'
    → Effect k i m m' l'
step-Effect low f s d (spin h e) = record {
  flag_kept = refl;
  a_kept = refl;
  others = λ j ne. refl;
  own = d;
  kept = λ p. p;
}
step-Effect low f s (inl (n, z)) (raised h ne) = record {
  flag_kept = refl;
  a_kept = refl;
  others = λ j ne. refl;
  own = (n, z);
  kept = λ p. p;
}
step-Effect low f s (inr (n, z)) (raised h ne) = absurd (ne (omega (arith, f, n, low)))
step-Effect low f s (n, z) fetch = record {
  flag_kept = refl;
  a_kept = refl;
  others = λ j ne. refl;
  own = (n, z, s);
  kept = λ p. p;
}
step-Effect {i} {m} low f s (n, z, v) store = record {
  flag_kept = refl;
  a_kept = refl;
  others = λ j ne. ground (arith, ne);
  own = inr (ap suc n, rw (==_refl i) (ap (λ x. mul32 x 2) v));
  kept = λ p. absurd (p z);
}
  where
    ==_refl : (n : ℕ) → (n == n) ≡ true
    ==_refl n = (==_iff n n).1 refl

-- Threads other than `i` are as before.
lanes-update :
    (P : ℕ → Lane → Type 0) (lanes : ℕ → Lane) (i : ℕ) (l : Lane)
    → P i l
    → ((j : ℕ) → j < num_pkts → j ≢ i → P j (lanes j))
    → (j : ℕ) → j < num_pkts
    → P j (update lanes i l j)
lanes-update P lanes i l own others j h = elim (Bool-cases (j == i)) [
  | inl at ↦ rw at (subst (λ n. P n l) (sym ((==_iff j i).0 at)) own)
  | inr off ↦ rw off (others j h (ground (arith, off)))
]

module _ {i : ℕ} {m m' : Shared} (lanes : ℕ → Lane) {l' : Lane} (low : i < num_pkts)
    (st : KernelStep i m (lanes i) m' l') where
  -- All threads wait, for a flag that is not raised.
  stays :
      (k : ℕ) (P : Shared → Type 0)
      → m.flag ≡ sub32 k 1
      → ((j : ℕ) → j < num_pkts → IsPolling k (lanes j))
      → P m
      → P m' × ((j : ℕ) → j < num_pkts → IsPolling k (update lanes i l' j))
  stays k P f w p =
      let (e, q) = stuck k f (w i low) st in
      (subst P (sym e) p, lanes-update (λ j. IsPolling k) lanes i l' q (λ j h ne. w j h))

  Before-stays :
      (k : ℕ) (P : Shared → Type 0)
      → Before k m lanes
      → P m
      → Before k m' (update lanes i l') × P m'
  Before-stays k P b p =
      let ((f, q), w) = stays k (λ n. (n.flag ≡ sub32 k 1) × P n) b.flag_at b.wait (b.flag_at, p) in
      (record { low = b.low; flag_at = f; wait = w }, q)

  During-step :
      (k : ℕ)
      → During k m lanes
      → During k m' (update lanes i l') × ((j : ℕ) → m.b j ≢ 0 → m'.b j ≢ 0)
  During-step k d = (
    record {
      low = d.low;
      flag_at = flag_kept ∙ d.flag_at;
      sent = λ j h. ap (λ f. f j) a_kept ∙ d.sent j h;
      doing =
          lanes-update (λ j. Doing k j (m'.b j)) lanes i l' own
            (λ j h ne. subst (λ x. Doing k j x (lanes j)) (sym (others j ne)) (d.doing j h));
    },
    λ j p. elim (Bool-cases (j == i)) [
      | inl at ↦
          let e = (==_iff j i).0 at in
          subst (λ n. m'.b n ≢ 0) (sym e) (kept (subst (λ n. m.b n ≢ 0) e p))
      | inr off ↦ λ z. p (sym (others j (ground (arith, off))) ∙ z)
    ],
  )
    where
      open (step-Effect d.low d.flag_at (d.sent i low) (d.doing i low) st) use {
        flag_kept, a_kept, others, own, kept,
      }

  kernel-At : (p : Cpu) → At p m lanes → At p m' (update lanes i l')
  kernel-At (clearing k j) (b, z) = Before-stays k (λ n. (i : ℕ) → i < j → n.b i ≡ 0) b z
  kernel-At (filling k j) (b, z, s) =
      let (b', (z', s')) =
        Before-stays k
          (λ n. ((i : ℕ) → i < num_pkts → n.b i ≡ 0) × ((i : ℕ) → i < j → n.a i ≡ packet k i)) b
          (z, s) in
      (b', z', s')
  kernel-At (awaiting k j) (d, p) = let (d', q) = During-step k d in (d', λ n h. q n (p n h))
  kernel-At (checking k j) a =
      let ((f, s, r), w) =
        stays (suc k)
          (λ n.
            (n.flag ≡ k)
            × ((i : ℕ) → i < num_pkts → n.a i ≡ packet k i)
            × ((i : ℕ) → i < num_pkts → n.b i ≡ reply k i))
          (omega (arith, a.flag_at, a.low)) a.wait (a.flag_at, a.sent, a.answered) in
      record { low = a.low; flag_at = f; sent = s; answered = r; wait = w }
  kernel-At returned (f, w) = stays iters (λ n. n.flag ≡ sub32 iters 1) f w f
  kernel-At mismatch e = elim e [ ]

-- A thread whose answer is there has left the iteration.
Doing-non_zero :
    (k i b : ℕ) (l : Lane) → Doing k i b l → b ≢ 0 → (b ≡ reply k i) × IsPolling (suc k) l
Doing-non_zero k i b (polling n) (inl (e, z)) ne = absurd (ne z)
Doing-non_zero k i b (polling n) (inr (e, z)) ne = (z, e)
Doing-non_zero k i b (reading n) (e, z) ne = absurd (ne z)
Doing-non_zero k i b (writing n v) (e, z, w) ne = absurd (ne z)

IsPolling-Doing : (k i b : ℕ) (l : Lane) → IsPolling k l → b ≡ 0 → Doing k i b l
IsPolling-Doing k i b (polling n) e z = inl (e, z)
IsPolling-Doing k i b (reading n) e z = elim e [ ]
IsPolling-Doing k i b (writing n v) e z = elim e [ ]

-- A prefix of cells that grows by the one that is written.
grown :
    (f : ℕ → ℕ) (g : ℕ → ℕ) (j : ℕ)
    → ((i : ℕ) → i < j → f i ≡ g i)
    → (i : ℕ) → i < suc j
    → update f j (g j) i ≡ g i
grown f g j h i low = elim (Bool-cases (i == j)) [
  | inl at ↦ rw at (ap g (sym ((==_iff i j).0 at)))
  | inr off ↦ rw off (h i (ground (arith, off)))
]

host-At :
    {m m' : Shared} {p p' : Cpu} (lanes : ℕ → Lane)
    → HostStep m p m' p'
    → At p m lanes
    → At p' m' lanes
host-At {m} lanes (clear {iter} {j} h) (b, z) =
    (record { low = b.low; flag_at = b.flag_at; wait = b.wait }, grown m.b (λ i. 0) j z)
host-At lanes cleared (b, z) = (b, z, λ i h. absurd (omega (arith, h)))
host-At {m} lanes (put {iter} {j} h) (b, z, s) =
    (record { low = b.low; flag_at = b.flag_at; wait = b.wait }, z, grown m.a (packet iter) j s)
host-At {m} lanes (raise {iter}) (b, z, s) = (
  record {
    low = b.low;
    flag_at = refl;
    sent = s;
    doing = λ i h. IsPolling-Doing iter i (m.b i) (lanes i) (b.wait i h) (z i h);
  },
  λ i h. absurd (omega (arith, h)),
)
host-At {m} lanes (non_zero {iter} {i = j} h ne) (d, p) = (
  d,
  λ i low. elim (Bool-cases (i == j)) [
    | inl at ↦ subst (λ n. m.b n ≢ 0) (sym ((==_iff i j).0 at)) ne
    | inr off ↦ p i (ground (arith, off))
  ],
)
host-At lanes (zero_at h z) (d, p) = (d, λ i h. absurd (omega (arith, h)))
host-At {m} lanes (all_non_zero {iter}) (d, p) =
    let done =
      λ (i : ℕ) (h : i < num_pkts). Doing-non_zero iter i (m.b i) (lanes i) (d.doing i h) (p i h) in
    record {
      low = d.low;
      flag_at = d.flag_at;
      sent = d.sent;
      answered = λ i h. (done i h).0;
      wait = λ i h. (done i h).1;
    }
host-At lanes (equal h e) a = a
host-At {m} lanes (differ {iter} {j} h ne) a =
    ne (a.answered j h ∙ ap (λ x. mul32 x 2) (sym (a.sent j h)))
host-At lanes (next {iter} h) a = (
  record { low = h; flag_at = omega (arith, a.flag_at, h); wait = a.wait },
  λ i h. absurd (omega (arith, h)),
)
host-At lanes (last {iter} e) a =
    (omega (arith, a.flag_at, e), λ i h. subst (λ k. IsPolling k (lanes i)) e (a.wait i h))

Step-Inv : {s t : World} → Step s t → Inv s → Inv t
Step-Inv {s} (host st) inv = host-At s.lanes st inv
Step-Inv {s} (kernel i low st) inv = kernel-At s.lanes low st s.cpu inv

main_world-Inv : Inv main_world
main_world-Inv =
    (record { low = omega arith; flag_at = omega arith; wait = λ i h. refl }, λ i h. refl)

pub Steps-Inv : {s t : World} → Steps s t → Inv s → Inv t
Steps-Inv none_yet inv = inv
Steps-Inv (then_one r st) inv = Step-Inv st (Steps-Inv r inv)

pub Reachable-Inv : {s : World} → Reachable s → Inv s
Reachable-Inv r = Steps-Inv r main_world-Inv

-- In every state that the program reaches, with the steps of the host and of the kernel in any
-- order, the host has not found a wrong answer; and where `gpu_run` has returned, so that `main`
-- frees the memory, every thread of the kernel is out of its loop.
pub handshake-no_mismatch :
    (s : World)
    → Reachable s
    → (s.cpu ≢ mismatch) × (s.cpu ≡ returned → (i : ℕ) → i < num_pkts → s.lanes i ≡ polling iters)
handshake-no_mismatch s r =
    let inv = Reachable-Inv r in
    (
      λ e. subst (λ p. At p s.shared s.lanes) e inv,
      λ e i h. over (s.lanes i) ((subst (λ p. At p s.shared s.lanes) e inv).1 i h),
    )
  where
    over : (l : Lane) → IsPolling iters l → l ≡ polling iters
    over (polling n) e = ap polling e
    over (reading n) e = elim e [ ]
    over (writing n v) e = elim e [ ]
