-- ===== src/Client/Exclusions/Tests.antt =====
-- Runs of the exclusion lists, with expressions that match themselves only, or everything.
use hsn_capture_hpc_ng.Base.{
  ℕ, List, [], ◌∷◌, ◌++◌, Bool, true, false, not, ◌&&◌, ◌||◌, Option, none, some, is_same, map,
  arith, ◌≡◌, refl, if◌then◌else◌,
}
use hsn_capture_hpc_ng.Client.Exclusions.{
  is_event_allowed, load_exclusion_list, widened, clear_exclusion_list, Entry, Classification,
}
use hsn_capture_hpc_ng.Client.Exclusions.Decision.{any, answer, is_allowed, is_disallowed}
use hsn_capture_hpc_ng.Client.Element.{Attribute}
use hsn_capture_hpc_ng.Client.Exclusions.Receiving.{
  action_name, object_name, subject_name, excluded_name, receive_exclusions, received_answer,
  is_event_allowed-receive_exclusions,
}
use hsn_capture_hpc_ng.Client.Exclusions.Preparing.{
  prepare_string_for_exclusion, prepare_string_for_exclusion_escapes, escaped,
}

-- L".*" matches everything, an expression that begins with a bracket is refused, and any other
-- matches itself.
abbrev compile : List ℕ → Option (List ℕ)
compile pattern = if is_same pattern (b'[' ∷ []) then none else some pattern

abbrev regex_match : List ℕ → List ℕ → Bool
regex_match text pattern = is_same pattern (b'.' ∷ b'*' ∷ []) || is_same pattern text

abbrev towlower : ℕ → ℕ
towlower c = if is_same (c ∷ []) (b'W' ∷ []) then b'w' else c

-- "# x", "+ W .* a", "- w b .*" and "+ w [ a", with tabs between the fields.
abbrev lines : List (List ℕ)
lines =
    (b'#' ∷ 0x20 ∷ b'x' ∷ [])
    ∷ (b'+' ∷ 0x09 ∷ b'W' ∷ 0x09 ∷ b'.' ∷ b'*' ∷ 0x09 ∷ b'a' ∷ [])
    ∷ (b'-' ∷ 0x09 ∷ b'w' ∷ 0x09 ∷ b'b' ∷ 0x09 ∷ b'.' ∷ b'*' ∷ [])
    ∷ (b'+' ∷ 0x09 ∷ b'w' ∷ 0x09 ∷ b'[' ∷ 0x09 ∷ b'a' ∷ [])
    ∷ []

-- The process c is left out, the process b is not.
left_out :
    is_event_allowed regex_match towlower
      (load_exclusion_list compile towlower lines [])
      (b'w' ∷ [])
      (b'c' ∷ [])
      (b'a' ∷ [])
    ≡ true
unfolding is_event_allowed load_exclusion_list widened
left_out = refl

kept :
    is_event_allowed regex_match towlower
      (load_exclusion_list compile towlower lines [])
      (b'w' ∷ [])
      (b'b' ∷ [])
      (b'a' ∷ [])
    ≡ false
unfolding is_event_allowed load_exclusion_list widened
kept = refl

-- The server leaves out the accesses of the process b too, but the file goes on allowing them.
abbrev received : List (List Attribute)
received =
    (record { name = excluded_name; value = b'y' ∷ b'e' ∷ b's' ∷ [] }
      ∷ record { name = action_name; value = b'W' ∷ [] }
      ∷ record { name = subject_name; value = b'b' ∷ [] }
      ∷ record { name = object_name; value = b'.' ∷ b'*' ∷ [] }
      ∷ [])
    ∷ []

abbrev or_none : Option (List (Entry (List ℕ))) → List (Entry (List ℕ))
or_none none = []
or_none (some entries) = entries

abbrev entries_after : List (Entry (List ℕ))
entries_after =
    or_none
      (receive_exclusions compile towlower received (load_exclusion_list compile towlower lines []))

abbrev answers : List Classification
answers =
    map (answer compile regex_match towlower (b'w' ∷ []) (b'b' ∷ []) (b'a' ∷ [])) lines
    ++ map (received_answer compile regex_match towlower (b'w' ∷ []) (b'b' ∷ []) (b'a' ∷ []))
        received

is_event_allowed-receive_exclusions_example :
    is_event_allowed regex_match towlower entries_after (b'w' ∷ []) (b'b' ∷ []) (b'a' ∷ [])
    ≡ (any is_allowed answers && not (any is_disallowed answers))
unfolding receive_exclusions load_exclusion_list widened
is_event_allowed-receive_exclusions_example =
    is_event_allowed-receive_exclusions compile regex_match towlower (b'w' ∷ []) (b'b' ∷ [])
      (b'a' ∷ []) lines received entries_after refl

-- C:\a.b
abbrev path : List ℕ
path = b'C' ∷ b':' ∷ 0x5C ∷ b'a' ∷ b'.' ∷ b'b' ∷ []

prepared :
    prepare_string_for_exclusion 20 path
    ≡ some (b'C' ∷ b':' ∷ 0x5C ∷ 0x5C ∷ b'a' ∷ 0x5C ∷ b'.' ∷ b'b' ∷ [])
unfolding prepare_string_for_exclusion
prepared = refl

prepare_string_for_exclusion_escapes_example :
    prepare_string_for_exclusion 20 path ≡ some (escaped path)
prepare_string_for_exclusion_escapes_example =
    prepare_string_for_exclusion_escapes 20 path (omega arith)

-- An exclusion that the server sent is to be removed.
abbrev from_server : List (Entry (List ℕ))
from_server =
    record {
      action = b'w' ∷ [];
      permissions = record { subjects = []; objects = []; allow = true; permaneant = false } ∷ [];
    }
    ∷ []

cleared : clear_exclusion_list from_server ≡ none
unfolding clear_exclusion_list
cleared = refl
