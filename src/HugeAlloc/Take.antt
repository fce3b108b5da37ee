-- ===== src/HugeAlloc/Take.antt =====
-- A buffer from a class on, by splits, in utils/huge_alloc.h.
use systemish.Base.{
  ℕ, [], total, ◌+◌, ◌-◌, ◌≤◌, ◌<◌, ◌≡◌, ap, ◌∙◌, arith, ltb, List, ◌∷◌, true, false, ◌⊎◌, is_empty,
  some,
}
use systemish.HugeAlloc.{num_classes, alloc_from_class, split_and_take}
use systemish.HugeAlloc.State.{Buffer, HugeAlloc, ok, bind, null}
use systemish.HugeAlloc.Weights.{buffer_at, region_at, free_weight}
use systemish.HugeAlloc.Inv.{Inv, Inv-apart, IsOfClass}
use systemish.HugeAlloc.Classes.{IsLeastClass}
use systemish.HugeAlloc.Split.{split_down-Inv, take-Inv}

-- A buffer of class `c` that lies apart from all that is live.
pub record Handed (live : List Buffer) (c : ℕ) (b : Buffer) (t : HugeAlloc) : Type 0 where
  pub of_class : IsOfClass c b
  pub inv : Inv t (b ∷ live)
  -- no byte of it belongs to another buffer, and each lies in one region
  pub apart :
      (address : ℕ)
      → buffer_at address b ≡ 1
      → (total (buffer_at address) live ≡ 0)
        × (free_weight (buffer_at address) t.freelist ≡ 0)
        × (total (region_at address) t.shm_list ≡ 1)

pub handed :
    (live : List Buffer) (c : ℕ) (b : Buffer) (t : HugeAlloc)
    → IsOfClass c b
    → Inv t (b ∷ live)
    → Handed live c b t
handed live c b t is inv = record {
  of_class = is;
  inv = inv;
  apart = λ address. Inv-apart t [] live b address inv;
}

abbrev pub AllocResult : HugeAlloc → List Buffer → ℕ → Buffer → HugeAlloc → Type 0
AllocResult s live c b t = ((b.buf ≡ null) × (t ≡ s)) ⊎ Handed live c b t

-- In the least class that holds the size.
abbrev pub Served : HugeAlloc → List Buffer → ℕ → Buffer → HugeAlloc → Type 0
Served s live size b t =
    (c : ℕ) × (c < num_classes) × IsLeastClass size c × AllocResult s live c b t

pub split_and_take-Handed :
    (s : HugeAlloc) (live : List Buffer) (c next : ℕ)
    → Inv s live
    → c ≤ next
    → next < num_classes
    → is_empty (s.freelist next) ≡ false
    → ((k : ℕ) → c ≤ k → k < next → is_empty (s.freelist k) ≡ true)
    → (b : Buffer) × (t : HugeAlloc) × (split_and_take c (some next) s ≡ ok b t) × Handed live c b t
unfolding split_and_take
split_and_take-Handed s live c next inv above low some_left gaps =
    let (t, run, inv', filled) =
      split_down-Inv (next - c) c s live inv (omega arith)
        (ap (λ k. is_empty (s.freelist k)) there ∙ some_left) (λ k h h'. gaps k h (omega arith)) in
    let (b, t', run', inv'', is) = take-Inv t live inv' c (omega arith) filled in
    (
      b,
      t',
      rw known (ap (λ r. bind r (λ _. alloc_from_class c)) run ∙ run'),
      handed live c b t' is inv'',
    )
  where
    there : c + (next - c) ≡ next
    there = omega arith

    known : ltb next num_classes ≡ true
    known = ground arith
