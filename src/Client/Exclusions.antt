-- ===== src/Client/Exclusions.antt =====
-- Monitor.cpp and Permission.cpp: the exclusion lists of a monitor, which say what of an event is
-- left out. Regular expressions are the library's.
use hsn_capture_hpc_ng.Base.{
  ℕ, zero, suc, ◌+◌, List, [], ◌∷◌, ◌++◌, Bool, true, false, not, ◌&&◌, ◌||◌, Option, none, some,
  if◌then◌else◌, ◌==◌, ltb, map, is_same, length,
}
pub mod Decision
pub mod Receiving
pub mod Preparing
mod Tests

-- PERMISSION_CLASSIFICATION.
pub data Classification : Type 0 where
  no_match allowed disallowed : Classification

-- Permission.
pub record Permission (Regex : Type 0) : Type 0 where
  pub subjects : List Regex
  pub objects : List Regex
  pub allow : Bool
  pub permaneant : Bool

-- An entry of permissionMap: an action with its list.
pub record Entry (Regex : Type 0) : Type 0 where
  pub action : List ℕ
  pub permissions : List (Permission Regex)

-- The arguments of addExclusion.
pub record Exclusion : Type 0 where
  pub excluded : List ℕ
  pub action : List ℕ
  pub subject : List ℕ
  pub object : List ℕ
  pub permaneant : Bool

-- L"yes" or L"+". Any other string leaves allow as new Permission() set it, to false.
pub is_allowing : List ℕ → Bool
is_allowing excluded = is_same excluded (b'y' ∷ b'e' ∷ b's' ∷ []) || is_same excluded (b'+' ∷ [])

-- What one more answer makes of `excluded`.
pub combined : Classification → Classification → Classification
combined excluded no_match = excluded
combined disallowed allowed = disallowed
combined no_match allowed = allowed
combined allowed allowed = allowed
combined excluded disallowed = disallowed

module _ {Regex : Type 0} where
  -- permissionMap.find.
  pub find : List ℕ → List (Entry Regex) → Option (List (Permission Regex))
  find action [] = none
  find action (e ∷ es) = if is_same action e.action then some e.permissions else find action es

  -- The end of addExclusion: the list of the action is extended, or a new one is inserted.
  pub insert : List ℕ → Permission Regex → List (Entry Regex) → List (Entry Regex)
  insert action p [] = record { action = action; permissions = p ∷ [] } ∷ []
  insert action p (e ∷ es) =
      if is_same action e.action
      then (record e { permissions = e.permissions ++ (p ∷ []) }) ∷ es
      else e ∷ insert action p es

-- regex_match of Boost, at the case-insensitive expressions that the lists hold.
module _ {Regex : Type 0} (regex_match : List ℕ → Regex → Bool) where
  -- The loop over the subjects, which goes through all of them, and the one over the objects.
  pub any_match : List ℕ → List Regex → Bool
  any_match text [] = false
  any_match text (r ∷ rs) = regex_match text r || any_match text rs

  -- Permission::Check.
  pub check : List ℕ → List ℕ → Permission Regex → Classification
  unfolding any_match
  check subject object p =
      if not (any_match subject p.subjects)
      then no_match
      else (if any_match object p.objects
          then (if p.allow then allowed else disallowed)
          else no_match)

  -- The loop of isEventAllowed.
  pub check_all : List ℕ → List ℕ → Classification → List (Permission Regex) → Classification
  unfolding check combined
  check_all subject object excluded [] = excluded
  check_all subject object excluded (p ∷ ps) =
      check_all subject object (combined excluded (check subject object p)) ps

  -- Monitor::isEventAllowed: whether an event is left out. towlower is the C library's.
  pub is_event_allowed :
      (towlower : ℕ → ℕ) (entries : List (Entry Regex)) (event_type subject object : List ℕ) → Bool
  unfolding check_all find
  is_event_allowed towlower entries event_type subject object =
      elim (find (map towlower event_type) entries) [
        | none ↦ false
        | some ps ↦ elim (check_all subject object no_match ps) [
          | no_match ↦ false
          | allowed ↦ true
          | disallowed ↦ false
        ]
      ]

-- The constructor of boost::wregex; `none` is regex_error.
module _ {Regex : Type 0} (compile : List ℕ → Option Regex) where
  -- The permission that addExclusion makes; `none` where a regular expression is refused.
  pub permission_of : Exclusion → Option (Permission Regex)
  unfolding is_allowing
  permission_of x = elim (compile x.subject) [
    | none ↦ none
    | some subject ↦ elim (compile x.object) [
      | none ↦ none
      | some object ↦ some (record {
        subjects = subject ∷ [];
        objects = object ∷ [];
        allow = is_allowing x.excluded;
        permaneant = x.permaneant;
      })
    ]
  ]

  -- Monitor::addExclusion; `none` is the exception.
  pub add_exclusion : (ℕ → ℕ) → Exclusion → List (Entry Regex) → Option (List (Entry Regex))
  unfolding permission_of insert
  add_exclusion towlower x entries = elim (permission_of x) [
    | none ↦ none
    | some p ↦ some (insert (map towlower x.action) p entries)
  ]

-- loadExclusionList: a character of a line as a wide one, by way of a signed char.
pub widened : ℕ → ℕ
widened c = if ltb c 0x80 then c else c + 0xFF00

-- The fields between the tabs.
pub split_line : List ℕ → List ℕ → List (List ℕ)
split_line field [] = field ∷ []
split_line field (c ∷ cs) =
    let ended : List (List ℕ) = split_line [] cs in
    let longer : List (List ℕ) = split_line (field ++ (widened c ∷ [])) cs in
    if c == 0x09 then field ∷ ended else longer

-- L".*" or L".+".
pub is_any : List ℕ → Bool
is_any action = is_same action (b'.' ∷ b'*' ∷ []) || is_same action (b'.' ∷ b'+' ∷ [])

-- The test on the fields: four of them, the second of which names an action.
pub exclusion_of : List (List ℕ) → Option Exclusion
unfolding is_any
exclusion_of (excluded ∷ action ∷ subject ∷ object ∷ []) =
    if is_any action
    then none
    else some (record {
      excluded = excluded;
      action = action;
      subject = subject;
      object = object;
      permaneant = false;
    })
exclusion_of fields = none

-- A line that is no comment and begins with + or -.
pub parse_line : List ℕ → Option Exclusion
unfolding split_line exclusion_of
parse_line [] = none
parse_line (c ∷ cs) = if c == b'+' || c == b'-' then exclusion_of (split_line [] (c ∷ cs)) else none

module _ {Regex : Type 0} (compile : List ℕ → Option Regex) (towlower : ℕ → ℕ) where
  -- One line of the file: what is refused is reported, and the map stays as it is.
  pub load_line : List ℕ → List (Entry Regex) → List (Entry Regex)
  unfolding add_exclusion parse_line
  load_line line entries = elim (parse_line line) [
    | none ↦ entries
    | some x ↦ elim (add_exclusion compile towlower x entries) [
      | none ↦ entries
      | some entries1 ↦ entries1
    ]
  ]

  -- Monitor::loadExclusionList, on the lines that getline reads.
  pub load_exclusion_list : List (List ℕ) → List (Entry Regex) → List (Entry Regex)
  unfolding load_line
  load_exclusion_list [] entries = entries
  load_exclusion_list (line ∷ lines) entries = load_exclusion_list lines (load_line line entries)

-- clearExclusionList, one list: list::remove erases the node that the loop's iterator stands on, and
-- incrementing the iterator is undefined then, which is `none`.
pub clear_permissions :
    {Regex : Type 0} → List (Permission Regex) → Option (List (Permission Regex))
clear_permissions [] = some []
clear_permissions (p ∷ ps) =
    let rest = clear_permissions ps in
    if p.permaneant then elim rest [ none ↦ none | some qs ↦ some (p ∷ qs) ] else none

-- Monitor::clearExclusionList, over all the lists.
pub clear_exclusion_list : {Regex : Type 0} → List (Entry Regex) → Option (List (Entry Regex))
unfolding clear_permissions
clear_exclusion_list [] = some []
clear_exclusion_list (e ∷ es) = elim (clear_permissions e.permissions) [
  | none ↦ none
  | some ps ↦ elim (clear_exclusion_list es) [
    | none ↦ none
    | some cleared ↦ some ((record e { permissions = ps }) ∷ cleared)
  ]
]
