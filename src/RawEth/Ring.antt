-- ===== src/RawEth/Ring.antt =====
-- The order of the buffers around the ring of raw_eth/rxtx/receiver.cc.
use systemish.Base.{
  false, ℕ, zero, suc, ◌+◌, ◌%◌, ◌≤◌, ◌<◌, ◌≡◌, ◌≢◌, refl, sym, ap, ◌∙◌, arith, List, [], ◌∷◌, ◌++◌,
  map, length, All, update, ◌==◌,
}
use mathlib.Core.List.{head-eq_of_cons-eq, tail-eq_of_cons-eq}
use systemish.RawEth.Frame.{rq_depth}
use systemish.RawEth.Receiver.{buffer_of}

-- The buffers of `n` slots from `slot` on, around the ring.
module _ (ring : ℕ) where
  abbrev pub around : ℕ → ℕ → List ℕ
  around zero slot = []
  around (suc n) slot = buffer_of ring slot ∷ around n ((slot + 1) % rq_depth)

  pub around-length : (n slot : ℕ) → length (around n slot) ≡ n
  around-length zero slot = refl
  around-length (suc n) slot = omega (arith, around-length n ((slot + 1) % rq_depth))

  -- The slots one further on.
  pub around-next :
      (n slot : ℕ)
      → slot < rq_depth
      → around n slot ++ buffer_of ring ((slot + n) % rq_depth) ∷ [] ≡ around (suc n) slot
  around-next zero slot h = ap (λ k. buffer_of ring k ∷ []) (omega arith)
  around-next (suc n) slot h =
      ap (λ l. buffer_of ring slot ∷ l)
        (ap (λ k. around n ((slot + 1) % rq_depth) ++ buffer_of ring k ∷ []) (omega arith)
          ∙ around-next n ((slot + 1) % rq_depth) (omega arith))

  -- The buffer behind `xs`, and that its number is below `n`.
  around-nth :
      (n slot : ℕ) (xs ys : List ℕ) (a : ℕ)
      → slot < rq_depth
      → xs ++ a ∷ ys ≡ around n slot
      → (a ≡ buffer_of ring ((slot + length xs) % rq_depth)) × (length xs < n)
  around-nth zero slot [] ys a h e = cc
  around-nth zero slot (x ∷ xs) ys a h e = cc
  around-nth (suc n) slot [] ys a h e =
      (head-eq_of_cons-eq e ∙ ap (buffer_of ring) (omega arith), omega arith)
  around-nth (suc n) slot (x ∷ xs) ys a h e =
      let (at, low) =
        around-nth n ((slot + 1) % rq_depth) xs ys a (omega arith) (tail-eq_of_cons-eq e) in
      (at ∙ ap (buffer_of ring) (omega arith), omega (arith, low))

  -- No buffer is in the ring twice.
  pub around-distinct :
      (n slot : ℕ) (xs ys : List ℕ) (a : ℕ)
      → slot < rq_depth
      → n ≤ rq_depth
      → xs ++ a ∷ ys ≡ around n slot
      → All (λ x. x ≢ a) xs
  around-distinct n slot [] ys a h small e = tt
  around-distinct zero slot (x ∷ xs) ys a h small e = cc
  around-distinct (suc n) slot (x ∷ xs) ys a h small e =
      let (at, low) =
        around-nth n ((slot + 1) % rq_depth) xs ys a (omega arith) (tail-eq_of_cons-eq e) in
      (
        λ same. apart (length xs) (omega arith) (sym (head-eq_of_cons-eq e) ∙ same ∙ at),
        around-distinct n ((slot + 1) % rq_depth) xs ys a (omega arith) (omega arith)
            (tail-eq_of_cons-eq e),
      )
    where
      apart :
          (k : ℕ)
          → suc k < rq_depth
          → buffer_of ring slot ≢ buffer_of ring (((slot + 1) % rq_depth + k) % rq_depth)
      apart k low same = unfold buffer_of in omega (arith, same, h)

-- A write to another buffer.
pub map-update :
    {A : Type 0} (f : ℕ → A) (a : ℕ) (v : A) (xs : List ℕ)
    → All (λ x. x ≢ a) xs
    → map (update f a v) xs ≡ map f xs
map-update f a v [] h = refl
map-update f a v (x ∷ xs) (ne, h) = rw other (ap (λ l. f x ∷ l) (map-update f a v xs h))
  where
    other : (x == a) ≡ false
    other = ground (arith, ne)

pub length-map : {A B : Type 0} (f : A → B) (xs : List A) → length (map f xs) ≡ length xs
length-map f [] = refl
length-map f (x ∷ xs) = ap suc (length-map f xs)

pub map-append :
    {A B : Type 0} (f : A → B) (xs ys : List A) → map f (xs ++ ys) ≡ map f xs ++ map f ys
map-append f [] ys = refl
map-append f (x ∷ xs) ys = ap (λ l. f x ∷ l) (map-append f xs ys)
