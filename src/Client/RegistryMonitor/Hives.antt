-- ===== src/Client/RegistryMonitor/Hives.antt =====
-- RegistryMonitor::initialiseObjectNameMap (RegistryMonitor.cpp), and what the names of keys become.
use hsn_capture_hpc_ng.Base.{ℕ, ◌≡◌, ap, ◌∙◌, List, [], ◌∷◌, ◌++◌, Option, none, some}
use hsn_capture_hpc_ng.Client.Prefix.{
  strip_prefix, replaced_or, replace_prefix, replace_prefix-cons, strip_prefix-append,
  strip_prefix-past,
}

-- L"_CLASSES", and the names of the hives.
abbrev pub classes : List ℕ
classes = b'_' ∷ b'C' ∷ b'L' ∷ b'A' ∷ b'S' ∷ b'S' ∷ b'E' ∷ b'S' ∷ []

abbrev pub hkcr : List ℕ
hkcr = b'H' ∷ b'K' ∷ b'C' ∷ b'R' ∷ []

abbrev pub hkcu : List ℕ
hkcu = b'H' ∷ b'K' ∷ b'C' ∷ b'U' ∷ []

abbrev pub hklm : List ℕ
hklm = b'H' ∷ b'K' ∷ b'L' ∷ b'M' ∷ []

abbrev pub hku : List ℕ
hku = b'H' ∷ b'K' ∷ b'U' ∷ []

-- L"\\REGISTRY\\", L"\\REGISTRY\\MACHINE", L"\\REGISTRY\\USER" and L"\\Registry\\Machine".
abbrev root : List ℕ
root = 0x5C ∷ b'R' ∷ b'E' ∷ b'G' ∷ b'I' ∷ b'S' ∷ b'T' ∷ b'R' ∷ b'Y' ∷ 0x5C ∷ []

abbrev pub machine : List ℕ
machine = root ++ b'M' ∷ b'A' ∷ b'C' ∷ b'H' ∷ b'I' ∷ b'N' ∷ b'E' ∷ []

abbrev pub users : List ℕ
users = root ++ b'U' ∷ b'S' ∷ b'E' ∷ b'R' ∷ []

abbrev pub machine_mixed : List ℕ
machine_mixed =
    0x5C ∷ b'R' ∷ b'e' ∷ b'g' ∷ b'i' ∷ b's' ∷ b't' ∷ b'r' ∷ b'y' ∷ 0x5C ∷ b'M' ∷ b'a' ∷ b'c' ∷ b'h'
    ∷ b'i' ∷ b'n' ∷ b'e' ∷ []

-- initialiseObjectNameMap, with the name of the key of the current user, if it is found.
unfoldable pub object_names : Option (List ℕ) → List (List ℕ × List ℕ)
object_names none = []
object_names (some user) =
    (user ++ classes, hkcr)
    ∷ (user, hkcu)
    ∷ (machine, hklm)
    ∷ (users, hku)
    ∷ (machine_mixed, hklm)
    ∷ []

-- A name that begins with that of the user's key is one of the hive for classes where "_CLASSES" follows,
-- and of the user's hive otherwise, whatever follows: so is that of another user whose identifier is
-- longer.
pub replace_prefix-user :
    (user rest : List ℕ)
    → replace_prefix (object_names (some user)) (user ++ rest)
      ≡ replaced_or hkcr (hkcu ++ rest) (strip_prefix classes rest)
unfolding object_names
replace_prefix-user user rest =
    let others : List (List ℕ × List ℕ) =
      (machine, hklm) ∷ (users, hku) ∷ (machine_mixed, hklm) ∷ [] in
    replace_prefix-cons (user ++ classes) hkcr ((user, hkcu) ∷ others) (user ++ rest)
    ∙ ap (replaced_or hkcr (replace_prefix ((user, hkcu) ∷ others) (user ++ rest)))
        (strip_prefix-past user classes rest)
    ∙ ap (λ (s : List ℕ). replaced_or hkcr s (strip_prefix classes rest))
        (replace_prefix-cons user hkcu others (user ++ rest)
          ∙ ap (replaced_or hkcu (replace_prefix others (user ++ rest)))
              (strip_prefix-append user rest))
