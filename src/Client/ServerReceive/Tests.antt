-- ===== src/Client/ServerReceive/Tests.antt =====
-- Runs of the receiving thread.
use hsn_capture_hpc_ng.Base.{[], ◌∷◌, map, arith, ◌≡◌, refl}
use hsn_capture_hpc_ng.Client.ServerReceive.{bytes, run}
use hsn_capture_hpc_ng.Client.ServerReceive.Documents.{run-terminated}

-- The end of a document that comes as two bytes is lost, with what came before.
lost :
    run [] (bytes (1 ∷ 2 ∷ 3 ∷ []) ∷ bytes (4 ∷ 0 ∷ []) ∷ bytes (5 ∷ 6 ∷ 0 ∷ []) ∷ [])
    ≡ (5 ∷ 6 ∷ []) ∷ []
unfolding run
lost = refl

run-terminated_example :
    run [] (map bytes ((1 ∷ 2 ∷ 3 ∷ []) ∷ (4 ∷ 0 ∷ 5 ∷ 0 ∷ []) ∷ []))
    ≡ (1 ∷ 2 ∷ 3 ∷ 4 ∷ []) ∷ (5 ∷ []) ∷ []
run-terminated_example =
    run-terminated ((1 ∷ 2 ∷ 3 ∷ 4 ∷ []) ∷ (5 ∷ []) ∷ [])
      ((1 ∷ 2 ∷ 3 ∷ []) ∷ (4 ∷ 0 ∷ 5 ∷ 0 ∷ []) ∷ [])
      ((refl, (refl, (refl, (refl, tt)))), ((refl, tt), tt)) (omega arith, (omega arith, tt)) refl
