-- ===== src/HugeAlloc/Delete.antt =====
-- The destructor of utils/huge_alloc.h, which gives the regions back to the system.
-- What the calls of the system return is an argument.
use systemish.Base.{
  map, All, ◌∙◌, All, ℕ, ◌≡◌, refl, ap, Bool, true, false, Option, some, none, List, [], ◌∷◌, ◌==◌,
  if◌then◌else◌,
}
use systemish.HugeAlloc.State.{Region, HugeAlloc}

-- The calls that `delete_shm` makes.
pub data Call : Type 0 where
  shmget : ℕ → Call
  shmctl : ℕ → Call
  shmdt : ℕ → Call

-- What they return for one region; `shmget` returns -1 or an identifier.
pub record Answer : Type 0 where
  pub shmid : Option ℕ
  pub shmctl_ret : ℕ
  pub shmdt_ret : ℕ

-- The calls so far, the last one first, and whether the program is still running.
pub record Trace : Type 0 where
  pub calls : List Call
  pub running : Bool

unfoldable pub delete_shm : ℕ → ℕ → Answer → List Call → Trace
delete_shm shm_key shm_buf a calls = go a.shmid
  where
    go : Option ℕ → Trace
    go none = record { calls = shmget shm_key ∷ calls; running = false }
    go (some shmid) =
        if a.shmctl_ret == 0
        then record {
          calls = shmdt shm_buf ∷ shmctl shmid ∷ shmget shm_key ∷ calls;
          running = a.shmdt_ret == 0;
        }
        else record { calls = shmctl shmid ∷ shmget shm_key ∷ calls; running = false }

-- The loop of the destructor: the oldest region, the last of the list, goes first.
unfoldable pub delete_all : (Region → Answer) → List Region → Trace
delete_all answer [] = record { calls = []; running = true }
delete_all answer (r ∷ older) =
    let before = delete_all answer older in
    if before.running then delete_shm r.shm_key r.buf (answer r) before.calls else before

unfoldable pub destroy : (Region → Answer) → HugeAlloc → Trace
unfolding delete_all
destroy answer s = delete_all answer s.shm_list

-- The addresses that are detached, the last one first.
abbrev pub detached : List Call → List ℕ
detached [] = []
detached (shmdt a ∷ calls) = a ∷ detached calls
detached (shmget _ ∷ calls) = detached calls
detached (shmctl _ ∷ calls) = detached calls

abbrev pub Succeeds : Answer → Type 0
Succeeds a = (shmid : ℕ) × (a.shmid ≡ some shmid) × (a.shmctl_ret ≡ 0) × (a.shmdt_ret ≡ 0)

delete_shm_run :
    (shm_key shm_buf : ℕ) (a : Answer) (calls : List Call)
    → Succeeds a
    → ((delete_shm shm_key shm_buf a calls).running ≡ true)
      × (detached (delete_shm shm_key shm_buf a calls).calls ≡ shm_buf ∷ detached calls)
unfolding delete_shm
delete_shm_run shm_key shm_buf a calls (shmid, e, h, h') = rw (e, h, h') (refl, refl)

-- If the system answers without errors, the destructor does not exit, and it detaches every region
-- once, the oldest first.
pub destroy-detached :
    (answer : Region → Answer) (s : HugeAlloc)
    → All (λ r. Succeeds (answer r)) s.shm_list
    → ((destroy answer s).running ≡ true)
      × (detached (destroy answer s).calls ≡ map Region.buf s.shm_list)
unfolding destroy
destroy-detached answer s h = go s.shm_list h
  where
    go :
        (l : List Region)
        → All (λ r. Succeeds (answer r)) l
        → ((delete_all answer l).running ≡ true)
          × (detached (delete_all answer l).calls ≡ map Region.buf l)
    go [] h = (refl, refl)
    go (r ∷ older) (h, hs) =
        let (on, freed) = go older hs in
        let (on', freed') =
          delete_shm_run r.shm_key r.buf (answer r) (delete_all answer older).calls h in
        rw on (on', freed' ∙ ap (λ t. r.buf ∷ t) freed)
