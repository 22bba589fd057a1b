-- ===== src/Client/Exclusions/Decision.antt =====
-- What a monitor leaves out, by the lines of its exclusion list.
use hsn_capture_hpc_ng.Base.{
  ℕ, List, [], ◌∷◌, ◌++◌, Bool, true, false, not, ◌&&◌, ◌||◌, Option, none, some, if◌then◌else◌,
  map, is_same, is_same_eq, is_same_other, ◌≡◌, refl, sym, ap, ◌∙◌, inl, inr, Bool-cases,
  Option-cases,
}
use hsn_capture_hpc_ng.Client.Exclusions.{
  Classification, no_match, allowed, disallowed, Permission, Entry, Exclusion, combined, find,
  insert, check, check_all, is_event_allowed, permission_of, add_exclusion, parse_line, load_line,
  load_exclusion_list,
}

abbrev pub is_allowed : Classification → Bool
is_allowed allowed = true
is_allowed no_match = false
is_allowed disallowed = false

abbrev pub is_disallowed : Classification → Bool
is_disallowed disallowed = true
is_disallowed no_match = false
is_disallowed allowed = false

abbrev pub any {ℓ} : {A : Type ℓ} → (A → Bool) → List A → Bool
any p [] = false
any p (x ∷ xs) = p x || any p xs

module _ {Regex : Type 0} where
  -- The list of an action, empty where there is none.
  abbrev pub listed : List ℕ → List (Entry Regex) → List (Permission Regex)
  listed a [] = []
  listed a (e ∷ es) = if is_same a e.action then e.permissions else listed a es

  find-listed :
      (a : List ℕ) (es : List (Entry Regex))
      → elim (find a es) [ none ↦ [] | some ps ↦ ps ] ≡ listed a es
  unfolding find
  find-listed a [] = refl
  find-listed a (e ∷ es) = elim (Bool-cases (is_same a e.action)) [
    | inl h ↦ rw (h, find) refl
    | inr h ↦ rw (h, find) (find-listed a es)
  ]

  listed_of :
      (a : List ℕ) (es : List (Entry Regex)) (o : Option (List (Permission Regex)))
      → find a es ≡ o
      → listed a es ≡ elim o [ none ↦ [] | some ps ↦ ps ]
  listed_of a es o h =
      sym (find-listed a es)
      ∙ ap (λ (q : Option (List (Permission Regex))). elim q [ none ↦ [] | some ps ↦ ps ]) h

  -- What an insertion does to the list of each action.
  listed-insert :
      (a b : List ℕ) (p : Permission Regex) (es : List (Entry Regex))
      → listed a (insert b p es) ≡ (if is_same a b then listed a es ++ (p ∷ []) else listed a es)
  unfolding insert
  listed-insert a b p [] = refl
  listed-insert a b p (e ∷ es) = elim (Bool-cases (is_same b e.action)) [
    | inl h ↦
        let at_entry : is_same a b ≡ is_same a e.action =
          ap (is_same a) (is_same_eq b e.action h) in
        elim (Bool-cases (is_same a e.action)) [
          | inl k ↦ rw (h, at_entry, k) refl
          | inr k ↦ rw (h, at_entry, k) refl
        ]
    | inr h ↦ elim (Bool-cases (is_same a e.action)) [
      | inl k ↦ rw (h, is_same_other a b e.action k h, k) refl
      | inr k ↦ rw (h, k) (listed-insert a b p es)
    ]
  ]

module _ {Regex : Type 0} (regex_match : List ℕ → Regex → Bool) (subject object : List ℕ) where
  check_all-append :
      (ps : List (Permission Regex)) (p : Permission Regex) (c : Classification)
      → check_all regex_match subject object c (ps ++ (p ∷ []))
        ≡ combined (check_all regex_match subject object c ps) (check regex_match subject object p)
  unfolding check_all
  check_all-append [] p c = refl
  check_all-append (q ∷ ps) p c =
      check_all-append ps p (combined c (check regex_match subject object q))

verdict :
    (c : Classification)
    → elim c [ no_match ↦ false | allowed ↦ true | disallowed ↦ false ] ≡ is_allowed c
verdict no_match = refl
verdict allowed = refl
verdict disallowed = refl

-- The answers of the lines, one after the other.
abbrev pub tally : Classification → List Classification → Classification
tally c [] = c
tally c (x ∷ xs) = tally (combined c x) xs

combined_allowed :
    (c d : Classification) (a b : Bool)
    → ((is_allowed (combined c d) || a) && not (is_disallowed (combined c d) || b))
      ≡ ((is_allowed c || (is_allowed d || a)) && not (is_disallowed c || (is_disallowed d || b)))
unfolding combined
combined_allowed no_match no_match a b = refl
combined_allowed no_match allowed a b = refl
combined_allowed no_match disallowed a b = refl
combined_allowed allowed no_match a b = refl
combined_allowed allowed allowed a b = refl
combined_allowed allowed disallowed true b = refl
combined_allowed allowed disallowed false b = refl
combined_allowed disallowed no_match a b = refl
combined_allowed disallowed allowed true b = refl
combined_allowed disallowed allowed false b = refl
combined_allowed disallowed disallowed a b = refl

pub tally_allowed :
    (c : Classification) (cs : List Classification)
    → is_allowed (tally c cs)
      ≡ ((is_allowed c || any is_allowed cs) && not (is_disallowed c || any is_disallowed cs))
tally_allowed no_match [] = refl
tally_allowed allowed [] = refl
tally_allowed disallowed [] = refl
tally_allowed c (d ∷ ds) =
    tally_allowed (combined c d) ds
    ∙ combined_allowed c d (any is_allowed ds) (any is_disallowed ds)

module _ {Regex : Type 0} (compile : List ℕ → Option Regex) (regex_match : List ℕ → Regex → Bool)
    (towlower : ℕ → ℕ) (event_type subject object : List ℕ) where
  -- What one exclusion says of the event: it counts where its expressions compile, and where its
  -- action is that of the event but for the case.
  abbrev pub exclusion_answer : Exclusion → Option (Permission Regex) → Classification
  exclusion_answer x none = no_match
  exclusion_answer x (some p) =
      if is_same (map towlower event_type) (map towlower x.action)
      then check regex_match subject object p
      else no_match

  abbrev parsed_answer : Option Exclusion → Classification
  parsed_answer none = no_match
  parsed_answer (some x) = exclusion_answer x (permission_of compile x)

  abbrev pub answer : List ℕ → Classification
  answer line = parsed_answer (parse_line line)

  -- The answer that a map of exclusions has so far.
  abbrev pub so_far : List (Entry Regex) → Classification
  so_far entries =
      check_all regex_match subject object no_match (listed (map towlower event_type) entries)

  pub so_far-insert :
      (b : List ℕ) (p : Permission Regex) (entries : List (Entry Regex))
      → so_far (insert b p entries)
        ≡ combined (so_far entries) (
            if is_same (map towlower event_type) b
            then check regex_match subject object p
            else no_match)
  unfolding combined
  so_far-insert b p entries =
      rw (listed-insert (map towlower event_type) b p entries)
        (elim (Bool-cases (is_same (map towlower event_type) b)) [
          | inl h ↦ rw h (
              check_all-append regex_match subject object (listed (map towlower event_type) entries)
                p no_match)
          | inr h ↦ rw h refl
        ])

  so_far-load_line :
      (line : List ℕ) (entries : List (Entry Regex))
      → so_far (load_line compile towlower line entries) ≡ combined (so_far entries) (answer line)
  unfolding load_line add_exclusion combined
  so_far-load_line line entries = elim (Option-cases (parse_line line)) [
    | inl h ↦ rw (ap parsed_answer h, h, load_line) refl
    | inr (x, h) ↦ elim (Option-cases (permission_of compile x)) [
      | inl k ↦ rw (ap parsed_answer h, ap (exclusion_answer x) k, h, k, load_line) refl
      | inr (p, k) ↦
          rw (ap parsed_answer h, ap (exclusion_answer x) k, h, k, load_line)
            (so_far-insert (map towlower x.action) p entries)
    ]
  ]

  pub so_far-load_exclusion_list :
      (lines : List (List ℕ)) (entries : List (Entry Regex))
      → so_far (load_exclusion_list compile towlower lines entries)
        ≡ tally (so_far entries) (map answer lines)
  unfolding load_exclusion_list
  so_far-load_exclusion_list [] entries = refl
  so_far-load_exclusion_list (line ∷ lines) entries =
      so_far-load_exclusion_list lines (load_line compile towlower line entries)
      ∙ ap (λ (c : Classification). tally c (map answer lines)) (so_far-load_line line entries)

  pub is_event_allowed-so_far :
      (entries : List (Entry Regex))
      → is_event_allowed regex_match towlower entries event_type subject object
        ≡ is_allowed (so_far entries)
  unfolding is_event_allowed check_all
  is_event_allowed-so_far entries = elim (Option-cases (find (map towlower event_type) entries)) [
    | inl h ↦ rw (listed_of (map towlower event_type) entries none h, h, is_event_allowed) refl
    | inr (ps, h) ↦
        rw (listed_of (map towlower event_type) entries (some ps) h, h, is_event_allowed)
          (verdict (check_all regex_match subject object no_match ps))
  ]

  -- With a file of exclusions loaded, an event is left out exactly where a line whose action is the
  -- event's, but for the case, allows it, and no such line disallows it, whatever the order of the
  -- lines; a line that is refused has no effect.
  is_event_allowed-load_exclusion_list :
      (lines : List (List ℕ))
      → is_event_allowed regex_match towlower
          (load_exclusion_list compile towlower lines [])
          event_type
          subject
          object
        ≡ (any is_allowed (map answer lines) && not (any is_disallowed (map answer lines)))
  unfolding check_all
  is_event_allowed-load_exclusion_list lines =
      is_event_allowed-so_far (load_exclusion_list compile towlower lines [])
      ∙ (ap is_allowed (so_far-load_exclusion_list lines [])
          ∙ tally_allowed no_match (map answer lines))
