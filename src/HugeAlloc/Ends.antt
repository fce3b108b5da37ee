-- ===== src/HugeAlloc/Ends.antt =====
-- How the actions of utils/huge_alloc.h end.
use systemish.HugeAlloc.State.{HugeAlloc, Error, Outcome, ok, thrown, aborted, waiting, bind}

-- How an action ends: with a result, with an exception, or with all of `calls` used up. No
-- assertion fails.
abbrev pub Ends :
    {A : Type 0}
    → (A → HugeAlloc → Type 0)
    → (Error → HugeAlloc → Type 0)
    → Type 0
    → Outcome A
    → Type 0
Ends P Q W (ok a s) = P a s
Ends P Q W (thrown e s) = Q e s
Ends P Q W aborted = ⊥
Ends P Q W waiting = W

pub Ends-wait :
    {A : Type 0} (P : A → HugeAlloc → Type 0) (Q : Error → HugeAlloc → Type 0) (V W : Type 0)
    → (V → W)
    → (r : Outcome A) → Ends P Q V r
    → Ends P Q W r
Ends-wait P Q V W f (ok a s) h = h
Ends-wait P Q V W f (thrown e s) h = h
Ends-wait P Q V W f aborted h = h
Ends-wait P Q V W f waiting h = f h

pub Ends-map :
    {A : Type 0} (P P' : A → HugeAlloc → Type 0) (Q : Error → HugeAlloc → Type 0) (W : Type 0)
    (r : Outcome A)
    → ((a : A) (s : HugeAlloc) → P a s → P' a s)
    → Ends P Q W r
    → Ends P' Q W r
Ends-map P P' Q W (ok a s) f h = f a s h
Ends-map P P' Q W (thrown e s) f h = h
Ends-map P P' Q W aborted f h = h
Ends-map P P' Q W waiting f h = h

-- The rule for a bind, where the first action leaves a state that satisfies `Q` when it throws.
pub Ends-bind :
    {A B : Type 0} (P : A → HugeAlloc → Type 0) (P' : B → HugeAlloc → Type 0)
    (Q : Error → HugeAlloc → Type 0) (W : Type 0) (r : Outcome A) (k : A → HugeAlloc → Outcome B)
    → Ends P Q W r
    → ((a : A) (s : HugeAlloc) → P a s → Ends P' Q W (k a s))
    → Ends P' Q W (bind r k)
Ends-bind P P' Q W (ok a s) k h f = f a s h
Ends-bind P P' Q W (thrown e s) k h f = h
Ends-bind P P' Q W aborted k h f = h
Ends-bind P P' Q W waiting k h f = h
