-- ===== src/EventQueue/Tests.antt =====
-- The event queue at concrete inputs: events are their own sizes.
use hsn_capture_hpc_ng.Base.{ℕ, List, [], ◌∷◌}
use hsn_capture_hpc_ng.Kernel.Pool.{Pool}
use hsn_capture_hpc_ng.EventQueue.{Packet}

abbrev two_waiting : List (Packet ℕ)
two_waiting =
    record { block = 1; event_block = 2; event = 5 }
    ∷ record { block = 3; event_block = 4; event = 7 }
    ∷ []

abbrev pool : Pool
pool = record { live = 2 ∷ 1 ∷ 4 ∷ 3 ∷ 9 ∷ []; bad_frees = 0 }
