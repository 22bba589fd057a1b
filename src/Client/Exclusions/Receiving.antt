-- ===== src/Client/Exclusions/Receiving.antt =====
-- RegistryMonitor::onRegistryExclusionReceived, FileMonitor::onFileExclusionReceived and
-- ProcessMonitor::onProcessExclusionReceived (RegistryMonitor.cpp, FileMonitor.cpp, ProcessMonitor.cpp),
-- which add what the server sends to the exclusions of their monitor, and all do it in the same way.
use hsn_capture_hpc_ng.Base.{
  ℕ, List, [], ◌∷◌, ◌++◌, Bool, false, not, ◌&&◌, Option, none, some, if◌then◌else◌, map, is_same,
  ◌≡◌, refl, sym, ap, subst, ◌∙◌, inl, inr, Option-cases,
}
use hsn_capture_hpc_ng.Client.Element.{Attribute}
use hsn_capture_hpc_ng.Client.Exclusions.{
  Classification, no_match, Entry, Exclusion, combined, check_all, is_event_allowed, permission_of,
  add_exclusion, load_exclusion_list,
}
use hsn_capture_hpc_ng.Client.Exclusions.Decision.{
  is_allowed, is_disallowed, any, tally, tally_allowed, exclusion_answer, answer, so_far,
  so_far-insert, so_far-load_exclusion_list, is_event_allowed-so_far,
}

-- The names of the attributes: L"action", L"object", L"subject" and L"excluded".
abbrev pub action_name : List ℕ
action_name = b'a' ∷ b'c' ∷ b't' ∷ b'i' ∷ b'o' ∷ b'n' ∷ []

abbrev pub object_name : List ℕ
object_name = b'o' ∷ b'b' ∷ b'j' ∷ b'e' ∷ b'c' ∷ b't' ∷ []

abbrev pub subject_name : List ℕ
subject_name = b's' ∷ b'u' ∷ b'b' ∷ b'j' ∷ b'e' ∷ b'c' ∷ b't' ∷ []

abbrev pub excluded_name : List ℕ
excluded_name = b'e' ∷ b'x' ∷ b'c' ∷ b'l' ∷ b'u' ∷ b'd' ∷ b'e' ∷ b'd' ∷ []

-- What one attribute assigns.
pub assigned : Attribute → Exclusion → Exclusion
assigned a x =
    if is_same a.name action_name
    then record x { action = a.value }
    else (if is_same a.name object_name
        then record x { object = a.value }
        else (if is_same a.name subject_name
            then record x { subject = a.value }
            else (if is_same a.name excluded_name then record x { excluded = a.value } else x)))

-- The loop over the attributes.
pub read_exclusion : List Attribute → Exclusion → Exclusion
unfolding assigned
read_exclusion [] x = x
read_exclusion (a ∷ others) x = read_exclusion others (assigned a x)

-- The arguments that addExclusion is called with.
unfoldable pub exclusion_received : List Attribute → Exclusion
unfolding read_exclusion
exclusion_received attributes =
    read_exclusion attributes
      (record { excluded = []; action = []; subject = []; object = []; permaneant = false })

module _ {Regex : Type 0} (compile : List ℕ → Option Regex) (towlower : ℕ → ℕ) where
  -- The handler, on the attributes of an element; `none` is the exception of addExclusion.
  pub on_exclusion_received : List Attribute → List (Entry Regex) → Option (List (Entry Regex))
  unfolding exclusion_received add_exclusion
  on_exclusion_received attributes entries =
      add_exclusion compile towlower (exclusion_received attributes) entries

  -- One element after the other.
  unfoldable pub receive_exclusions :
      List (List Attribute) → List (Entry Regex) → Option (List (Entry Regex))
  unfolding on_exclusion_received
  receive_exclusions [] entries = some entries
  receive_exclusions (x ∷ xs) entries = elim (on_exclusion_received x entries) [
    | none ↦ none
    | some entries1 ↦ receive_exclusions xs entries1
  ]

tally-append :
    (c : Classification) (xs ys : List Classification) → tally c (xs ++ ys) ≡ tally (tally c xs) ys
tally-append c [] ys = refl
tally-append c (x ∷ xs) ys = tally-append (combined c x) xs ys

module _ {Regex : Type 0} (compile : List ℕ → Option Regex) (regex_match : List ℕ → Regex → Bool)
    (towlower : ℕ → ℕ) (event_type subject object : List ℕ) where
  abbrev sum_of : List (Entry Regex) → Classification
  sum_of = so_far compile regex_match towlower event_type subject object

  -- The answer of an exclusion that was received.
  abbrev pub received_answer : List Attribute → Classification
  received_answer attributes =
      let x : Exclusion = exclusion_received attributes in
      exclusion_answer compile regex_match towlower event_type subject object x
        (permission_of compile x)

  -- The answer of a map, if there is one.
  abbrev SumIs : Classification → Option (List (Entry Regex)) → Type 0
  SumIs c none = Unit {0}
  SumIs c (some entries) = sum_of entries ≡ c

  add_exclusion-SumIs :
      (x : Exclusion) (entries : List (Entry Regex))
      → SumIs
          (combined (sum_of entries) (
            exclusion_answer compile regex_match towlower event_type subject object x
              (permission_of compile x)))
          (add_exclusion compile towlower x entries)
  unfolding add_exclusion
  add_exclusion-SumIs x entries = elim (Option-cases (permission_of compile x)) [
    | inl k ↦ rw (k, add_exclusion) tt
    | inr (p, k) ↦
        rw (k, add_exclusion)
          (so_far-insert compile regex_match towlower event_type subject object
            (map towlower x.action) p entries)
  ]

  receive_exclusions-SumIs :
      (xs : List (List Attribute)) (entries : List (Entry Regex))
      → SumIs
          (tally (sum_of entries) (map received_answer xs))
          (receive_exclusions compile towlower xs entries)
  unfolding receive_exclusions on_exclusion_received
  receive_exclusions-SumIs [] entries = refl
  receive_exclusions-SumIs (x ∷ xs) entries =
      elim (Option-cases (add_exclusion compile towlower (exclusion_received x) entries)) [
        | inl k ↦ rw (k, receive_exclusions) tt
        | inr (entries1, k) ↦
            let one : sum_of entries1 ≡ combined (sum_of entries) (received_answer x) =
              subst (SumIs (combined (sum_of entries) (received_answer x))) k
                (add_exclusion-SumIs (exclusion_received x) entries) in
            let others = receive_exclusions-SumIs xs entries1 in
            rw (k, receive_exclusions)
              (subst
                (λ (c : Classification).
                  SumIs (tally c (map received_answer xs))
                    (receive_exclusions compile towlower xs entries1))
                one others)
      ]

  -- With a file of exclusions loaded, and exclusions received from the server none of which is refused, an
  -- event is left out exactly where one of them all allows it and none disallows it, whatever their
  -- order. Each counts where its action is the event's, but for the case.
  pub is_event_allowed-receive_exclusions :
      (lines : List (List ℕ)) (xs : List (List Attribute)) (entries : List (Entry Regex))
      → receive_exclusions compile towlower xs (load_exclusion_list compile towlower lines [])
        ≡ some entries
      → let answers : List Classification =
          map (answer compile regex_match towlower event_type subject object) lines
          ++ map received_answer xs in
        is_event_allowed regex_match towlower entries event_type subject object
        ≡ (any is_allowed answers && not (any is_disallowed answers))
  unfolding check_all
  is_event_allowed-receive_exclusions lines xs entries h =
      let from_file = map (answer compile regex_match towlower event_type subject object) lines in
      let of_file : sum_of (load_exclusion_list compile towlower lines [])
          ≡ tally no_match from_file =
        so_far-load_exclusion_list compile regex_match towlower event_type subject object lines
          [] in
      let of_all =
        subst
          (SumIs (
            tally (sum_of (load_exclusion_list compile towlower lines []))
              (map received_answer xs)))
          h (receive_exclusions-SumIs xs (load_exclusion_list compile towlower lines [])) in
      is_event_allowed-so_far compile regex_match towlower event_type subject object entries
      ∙ (ap is_allowed (
            of_all
            ∙ (ap (λ (c : Classification). tally c (map received_answer xs)) of_file
                ∙ sym (tally-append no_match from_file (map received_answer xs))))
          ∙ tally_allowed no_match (from_file ++ map received_answer xs))
