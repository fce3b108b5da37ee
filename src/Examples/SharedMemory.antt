-- ===== src/Examples/SharedMemory.antt =====
-- shared-memory/ at concrete inputs.
use systemish.Base.{arith}
use systemish.SharedMemory.{rounds}
use systemish.SharedMemory.Parts.{After, rounds-After}

rounds-After_example : After 1000 (rounds 1000)
rounds-After_example = rounds-After 1000 (omega arith)
