-- ===== src/HugeAlloc/Stats.antt =====
-- The statistics of utils/huge_alloc.h.
use systemish.Base.{refl, ap, ℕ, ◌%◌, ◌≤◌, ◌≡◌, arith, ◌==◌, List, [], ◌∷◌, total, All, ==_iff}
use systemish.HugeAlloc.{hugepage_size, min_class_size}
use systemish.HugeAlloc.State.{Buffer, HugeAlloc, Action, ok, give, check, ◌>>◌}
use systemish.HugeAlloc.Weights.{size_of, region_size}
use systemish.HugeAlloc.Inv.{IsHanded}
use systemish.HugeAlloc.Calls.{Reached}
use systemish.HugeAlloc.Run.{Reached-Inv}
use systemish.HugeAlloc.Classes.{BsrLaw}

unfoldable pub get_stat_shm_reserved : Action ℕ
get_stat_shm_reserved s = (check (s.shm_reserved % hugepage_size == 0) >> give s.shm_reserved) s

unfoldable pub get_stat_user_alloc_tot : Action ℕ
get_stat_user_alloc_tot s =
    (check (s.user_alloc_tot % min_class_size == 0) >> give s.user_alloc_tot) s

unfoldable pub get_numa_node : HugeAlloc → ℕ
get_numa_node s = s.numa_node

total_size-whole :
    (live : List Buffer) → All IsHanded live → total size_of live % min_class_size ≡ 0
total_size-whole [] h = omega arith
total_size-whole (b ∷ live) ((c, low, is), h) = omega (arith, is.0, total_size-whole live h)

-- After any calls, the assertions of both functions hold, and they return the bytes that the user
-- holds and the bytes of all regions; the former are no more than the latter.
get_stat_lem :
    (bsrl : ℕ → ℕ) (law : BsrLaw bsrl) (s : HugeAlloc) (live : List Buffer)
    → Reached bsrl s live
    → (get_stat_user_alloc_tot s ≡ ok (total size_of live) s)
      × (get_stat_shm_reserved s ≡ ok (total region_size s.shm_list) s)
      × (total size_of live ≤ total region_size s.shm_list)
unfolding get_stat_shm_reserved get_stat_user_alloc_tot
get_stat_lem bsrl law s live reached =
    let inv = Reached-Inv bsrl law s live reached in
    (
      rw (inv.counted, (==_iff _ 0).1 (total_size-whole live inv.handed)) refl,
      rw ((==_iff _ 0).1 inv.paged) (ap (λ n. ok n s) inv.reserved),
      omega (arith, inv.sized),
    )
