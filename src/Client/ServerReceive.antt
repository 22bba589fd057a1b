-- ===== src/Client/ServerReceive.antt =====
-- ServerReceive.cpp: the thread that cuts what the server sends into documents.
use hsn_capture_hpc_ng.Base.{
  ℕ, zero, suc, ◌+◌, List, [], ◌∷◌, ◌++◌, Bool, true, false, if◌then◌else◌, ltb, ◌==◌, length,
}
pub mod Documents
mod Tests

-- An answer of recv: bytes, or an error.
pub data Received : Type 0 where
  bytes : List ℕ → Received
  failed : Received

-- The documents that are complete, and the one under way.
pub record Taken : Type 0 where
  pub complete : List (List ℕ)
  pub xml_document : List ℕ

-- One more document in front.
abbrev pub preceded : List ℕ → Taken → Taken
preceded document d = record d { complete = document ∷ d.complete }

-- The loop over the bytes of a buffer.
pub take_bytes : List ℕ → List ℕ → Taken
take_bytes document [] = record { complete = []; xml_document = document }
take_bytes document (c ∷ cs) =
    let next : Taken = take_bytes [] cs in
    let longer : Taken = take_bytes (document ++ (c ∷ [])) cs in
    if c == 0 then preceded document next else longer

-- The two loops of ServerReceive::run, until the thread is to stop: what the event controller is
-- given. Of two bytes or fewer nothing is taken, and the outer loop begins with an empty document.
pub run : List ℕ → List Received → List (List ℕ)
unfolding take_bytes
run document [] = []
run document (failed ∷ others) = run [] others
run document (bytes cs ∷ others) =
    let d : Taken = take_bytes document cs in
    let goes_on : List (List ℕ) = d.complete ++ run d.xml_document others in
    let begins_again : List (List ℕ) = run [] others in
    if ltb 2 (length cs) then goes_on else begins_again

-- How often the outer loop calls reconnect.
pub reconnects : List Received → ℕ
reconnects [] = 0
reconnects (failed ∷ others) = suc (reconnects others)
reconnects (bytes cs ∷ others) = reconnects others
