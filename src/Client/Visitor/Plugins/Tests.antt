-- ===== src/Client/Visitor/Plugins/Tests.antt =====
-- Runs of the choice of a plugin.
use hsn_capture_hpc_ng.Base.{◌≤◌, List, [], ◌∷◌, none, some, Option, ◌≡◌, refl, inl}
use hsn_capture_hpc_ng.Client.Visitor.Plugins.{
  ApplicationPlugin, get_application_plugin, load_client_plugins,
}
use hsn_capture_hpc_ng.Client.Visitor.Plugins.Choice.{
  Offers, get_application_plugin-load_client_plugins,
}

-- Two plugins for the application a, the second of higher priority, and one library without any.
abbrev low : ApplicationPlugin
low = record { id = 1; priority = 10; supported = (b'a' ∷ []) ∷ (b'b' ∷ []) ∷ [] }

abbrev high : ApplicationPlugin
high = record { id = 2; priority = 100; supported = (b'a' ∷ []) ∷ [] }

abbrev libraries : List (Option ApplicationPlugin)
libraries = some low ∷ none ∷ some high ∷ []

overridden : get_application_plugin (b'a' ∷ []) (load_client_plugins libraries []) ≡ some high
unfolding get_application_plugin load_client_plugins
overridden = refl

kept : get_application_plugin (b'b' ∷ []) (load_client_plugins libraries []) ≡ some low
unfolding get_application_plugin load_client_plugins
kept = refl

get_application_plugin-load_client_plugins_example :
    (q : ApplicationPlugin) × ((get_application_plugin
          (b'a' ∷ [])
          (load_client_plugins libraries [])
        ≡ some q)
      × (Offers (b'a' ∷ []) q libraries × (10 ≤ q.priority)))
get_application_plugin-load_client_plugins_example =
    get_application_plugin-load_client_plugins (b'a' ∷ []) low libraries (inl (refl, refl))
