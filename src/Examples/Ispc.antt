-- ===== src/Examples/Ispc.antt =====
-- The programs of ispc-test at concrete inputs.
use systemish.Base.{ℕ, ◌+◌, ◌*◌, ◌%◌, if◌then◌else◌, ltb}
use systemish.Ispc.Lookups.{Arrays}

abbrev arrays : Arrays
arrays = record { a = λ i. i + 1; b = λ i. i * 5 }

-- an array of indices into itself, and the same with other memory behind it
abbrev indices : ℕ → ℕ
indices k = (k * 3 + 1) % 1024

abbrev indices_and_more : ℕ → ℕ
indices_and_more k = if ltb k 1024 then indices k else 7
