-- ===== src/Registry/Callback/Tests.antt =====
-- RegistryCallback at concrete inputs.
use hsn_capture_hpc_ng.Base.{some, true, ◌≡◌, refl, inr, arith, [], ◌∷◌}
use hsn_capture_hpc_ng.Registry.{pre_set_value_key}
use hsn_capture_hpc_ng.Registry.Callback.{
  names_value, get_registry_object_complete_name, query_name, registry_callback,
}
use hsn_capture_hpc_ng.Registry.Callback.{Captured, make_event}
use hsn_capture_hpc_ng.Registry.Callback.Contents.{read_path, read_data, read-make_event}
use hsn_capture_hpc_ng.Registry.Callback.Outcome.{Returns, registry_callback-Returns}
use hsn_capture_hpc_ng.Registry.Callback.Leaks.{SetsValue, registry_callback_leaks}
use hsn_capture_hpc_ng.Registry.Tests.Data.{
  two_waiting, two_waiting-IsValid, set_value, set_value_null, answers, undisturbed, no_event,
}

set_value-SetsValue : SetsValue set_value no_event two_waiting
unfolding names_value get_registry_object_complete_name query_name
set_value-SetsValue = record {
  readable = refl;
  name_block = 21;
  name_answered = refl;
  name_calm = refl;
  named = refl;
}

set_value_null-SetsValue : SetsValue set_value_null answers two_waiting
unfolding names_value get_registry_object_complete_name query_name
set_value_null-SetsValue = record {
  readable = refl;
  name_block = 21;
  name_answered = refl;
  name_calm = refl;
  named = refl;
}

registry_callback-Returns_example :
    Returns (9 ∷ []) (registry_callback pre_set_value_key set_value answers two_waiting)
registry_callback-Returns_example =
    registry_callback-Returns (9 ∷ []) pre_set_value_key set_value answers undisturbed two_waiting
      two_waiting-IsValid

registry_callback_leaks_example :
    Returns (22 ∷ 9 ∷ []) (registry_callback pre_set_value_key set_value no_event two_waiting)
registry_callback_leaks_example =
    registry_callback_leaks (9 ∷ []) set_value no_event two_waiting set_value-SetsValue 22 refl 20
      refl (inr (refl, refl)) two_waiting-IsValid

-- A key with a value of two bytes.
abbrev captured : Captured
captured = record {
  is_valid = true;
  path = record { characters = 0x5C ∷ 0x141 ∷ []; maximum_length = 65534 };
  data_block = some 22;
  bytes = 7 ∷ 8 ∷ [];
  data_length = 2;
  data_type = 1;
  pool = record { live = []; bad_frees = 0 };
}

read-make_event_example :
    let e = make_event pre_set_value_key 8 4 captured in
    (read_path e ≡ 0x5C ∷ 0x141 ∷ []) × (read_data e ≡ 7 ∷ 8 ∷ [])
read-make_event_example =
    read-make_event pre_set_value_key 8 4 captured
      (omega arith, omega arith, (omega arith, omega arith, tt)) refl
