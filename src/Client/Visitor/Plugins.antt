-- ===== src/Client/Visitor/Plugins.antt =====
-- Visitor::loadClientPlugins and getApplicationPlugin (Visitor.cpp): which plugin visits for an
-- application.
use hsn_capture_hpc_ng.Base.{ℕ, List, [], ◌∷◌, Option, none, some, if◌then◌else◌, ltb, is_same}
pub mod Choice
mod Tests

-- A plugin, as loadClientPlugins asks it: its priority and the names it supports.
pub record ApplicationPlugin : Type 0 where
  pub id : ℕ
  pub priority : ℕ
  pub supported : List (List ℕ)

-- Visitor::getApplicationPlugin, in applicationMap.
pub get_application_plugin : List ℕ → List (List ℕ × ApplicationPlugin) → Option ApplicationPlugin
get_application_plugin name [] = none
get_application_plugin name ((key, p) ∷ others) =
    if is_same name key then some p else get_application_plugin name others

-- erase of one key.
pub erase_application :
    List ℕ → List (List ℕ × ApplicationPlugin) → List (List ℕ × ApplicationPlugin)
erase_application name [] = []
erase_application name ((key, p) ∷ others) =
    let rest = erase_application name others in if is_same name key then rest else (key, p) ∷ rest

-- The body of the loop over the names that a plugin supports, on what applicationMap.find found: a
-- plugin of lower priority is replaced.
pub add_found :
    Option ApplicationPlugin
    → ApplicationPlugin
    → List ℕ
    → List (List ℕ × ApplicationPlugin)
    → List (List ℕ × ApplicationPlugin)
unfolding erase_application
add_found none p name applications = (name, p) ∷ applications
add_found (some q) p name applications =
    if ltb q.priority p.priority
    then (name, p) ∷ erase_application name applications
    else applications

pub add_application :
    ApplicationPlugin
    → List ℕ
    → List (List ℕ × ApplicationPlugin)
    → List (List ℕ × ApplicationPlugin)
unfolding get_application_plugin add_found
add_application p name applications =
    add_found (get_application_plugin name applications) p name applications

-- The loop over the names.
pub add_applications :
    ApplicationPlugin
    → List (List ℕ)
    → List (List ℕ × ApplicationPlugin)
    → List (List ℕ × ApplicationPlugin)
unfolding add_application
add_applications p [] applications = applications
add_applications p (name ∷ names) applications =
    add_applications p names (add_application p name applications)

-- Visitor::loadClientPlugins, on the libraries that FindNextFile finds; `none` is one that does not
-- load or has no plugin.
pub load_client_plugins :
    List (Option ApplicationPlugin)
    → List (List ℕ × ApplicationPlugin)
    → List (List ℕ × ApplicationPlugin)
unfolding add_applications
load_client_plugins [] applications = applications
load_client_plugins (none ∷ libraries) applications = load_client_plugins libraries applications
load_client_plugins (some p ∷ libraries) applications =
    load_client_plugins libraries (add_applications p p.supported applications)
