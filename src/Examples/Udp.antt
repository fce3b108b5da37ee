-- ===== src/Examples/Udp.antt =====
-- The client of udp/ at a concrete sequence of calls.
use systemish.Base.{
  ℕ, ◌≡◌, refl, true, false, List, [], ◌∷◌, Option, some, none, arith, ◌==◌, if◌then◌else◌, length,
}
use systemish.Udp.{Call, send, enable_recording, construct, run}
use systemish.Udp.Cache.{plain, to_record, run-plain}

-- A name of one byte has an address, others have none.
abbrev resolve : List ℕ → ℕ → Option ℕ
resolve host port = if length host == 1 then some port else none

abbrev calls : List (Call ℕ)
calls =
    send (97 ∷ []) 80 1 true
    ∷ enable_recording
    ∷ send (97 ∷ []) 80 2 true
    ∷ send (97 ∷ 98 ∷ []) 80 3 true
    ∷ send (97 ∷ []) 80 4 false
    ∷ []

run-plain_example :
    ((run resolve calls construct).0 ≡ plain resolve calls)
    × ((run resolve calls construct).1.sent_vec ≡ to_record resolve false calls)
run-plain_example =
    run-plain resolve calls (omega arith, (omega arith, (omega arith, (omega arith, tt))))

to_record_test : to_record resolve false calls ≡ 2 ∷ []
to_record_test = refl
