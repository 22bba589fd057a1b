-- ===== src/Client/Options.antt =====
-- OptionsManager.cpp: the options of the client, by name.
use hsn_capture_hpc_ng.Base.{
  ℕ, List, [], ◌∷◌, not, ◌&&◌, if◌then◌else◌, is_same, is_same_eq, is_same_other, ◌≡◌, refl, ap,
  sym, inl, inr, Bool-cases,
}
use hsn_capture_hpc_ng.Client.Element.{Attribute}

-- optionsMap.
abbrev pub OptionsMap : Type 0
OptionsMap = List (List ℕ × List ℕ)

-- OptionsManager::getOption: the value, or the empty string.
unfoldable pub get_option : List ℕ → OptionsMap → List ℕ
get_option option [] = []
get_option option ((name, value) ∷ others) =
    if is_same option name then value else get_option option others

-- OptionsManager::addOption, on the map; the listeners are called with the name then.
unfoldable pub add_option : List ℕ → List ℕ → OptionsMap → OptionsMap
add_option option value [] = (option, value) ∷ []
add_option option value ((name, old) ∷ others) =
    let rest = add_option option value others in
    if is_same option name then (name, value) ∷ others else (name, old) ∷ rest

-- The loop of onOptionEvent over the attributes: the option and its value.
pub read_option : List Attribute → List ℕ → List ℕ → List ℕ × List ℕ
read_option [] option value = (option, value)
read_option (a ∷ others) option value =
    if is_same a.name (b'n' ∷ b'a' ∷ b'm' ∷ b'e' ∷ [])
    then read_option others a.value value
    else (if is_same a.name (b'v' ∷ b'a' ∷ b'l' ∷ b'u' ∷ b'e' ∷ [])
        then read_option others option a.value
        else read_option others option value)

-- OptionsManager::onOptionEvent, of an option element: an option without name or value is dropped.
pub on_option_event : List Attribute → OptionsMap → OptionsMap
unfolding read_option add_option
on_option_event attributes options =
    let (option, value) = read_option attributes [] [] in
    if not (is_same option []) && not (is_same value [])
    then add_option option value options
    else options

-- What was set is read back, and the other options are as before.
get_option-add_option :
    (a b value : List ℕ) (options : OptionsMap)
    → get_option a (add_option b value options)
      ≡ (if is_same a b then value else get_option a options)
unfolding get_option add_option
get_option-add_option a b value [] = refl
get_option-add_option a b value ((name, old) ∷ others) = elim (Bool-cases (is_same b name)) [
  | inl h ↦
      let same : is_same a name ≡ is_same a b = ap (is_same a) (sym (is_same_eq b name h)) in
      elim (Bool-cases (is_same a b)) [
        | inl k ↦ rw (h, same, k) refl
        | inr k ↦ rw (h, same, k) refl
      ]
  | inr h ↦ elim (Bool-cases (is_same a name)) [
    | inl k ↦ rw (h, k, is_same_other a b name k h) refl
    | inr k ↦ rw (h, k) (get_option-add_option a b value others)
  ]
]
