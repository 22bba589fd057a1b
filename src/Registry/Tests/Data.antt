-- ===== src/Registry/Tests/Data.antt =====
-- States of the registry driver, events and answers of the kernel for the tests.
use hsn_capture_hpc_ng.Base.{refl, arith, [], ◌∷◌, none, some, true, false}
use hsn_capture_hpc_ng.Kernel.Status.{status_info_length_mismatch}
use hsn_capture_hpc_ng.Registry.{RegistryEvent, Registry, pre_delete_key, post_open_key}
use hsn_capture_hpc_ng.Registry.Invariant.{IsValid}
use hsn_capture_hpc_ng.Registry.Callback.{ObjectQuery, KeyInformation, CallbackAnswers}
use hsn_capture_hpc_ng.Registry.Callback.Outcome.{IsUndisturbed}

abbrev pub deleted : RegistryEvent
deleted = record {
  event_type = pre_delete_key;
  time = 1;
  process_id = 4;
  data_type = 0;
  data_length = 0;
  path_length = 4;
  registry_data = 0x41 ∷ 0 ∷ 0 ∷ 0 ∷ [];
}

abbrev pub opened : RegistryEvent
opened = record {
  event_type = post_open_key;
  time = 2;
  process_id = 4;
  data_type = 0;
  data_length = 0;
  path_length = 2;
  registry_data = 0 ∷ 0 ∷ [];
}

abbrev pub two_waiting : Registry
two_waiting = record {
  device = true;
  link = true;
  callback = true;
  timer = true;
  ready = true;
  queued_registry_events =
      record { block = 1; event_block = 2; event = deleted }
      ∷ record { block = 3; event_block = 4; event = opened }
      ∷ [];
  last_contact_time = 5;
  pool = record { live = 2 ∷ 1 ∷ 4 ∷ 3 ∷ 9 ∷ []; bad_frees = 0 };
}

pub two_waiting-IsValid : IsValid (9 ∷ []) two_waiting
two_waiting-IsValid = record {
  owned = (refl, λ a. refl);
  well_formed = ((refl, omega arith), ((refl, omega arith), tt));
}

abbrev pub unloaded : Registry
unloaded = record {
  device = false;
  link = false;
  callback = false;
  timer = false;
  ready = false;
  queued_registry_events = [];
  last_contact_time = 0;
  pool = record { live = 9 ∷ []; bad_frees = 0 };
}

abbrev key : ObjectQuery
key = record {
  address_valid = true;
  is_null = false;
  length_status = status_info_length_mismatch;
  name_block = some 21;
  raises = false;
  name_status = 0;
  name = 0x5C ∷ 0x41 ∷ [];
}

abbrev pub set_value : KeyInformation
set_value = record {
  unreadable = false;
  status = 0;
  complete_name = none;
  object = key;
  value_name = 0x42 ∷ [];
  value_type = 1;
  value_data = 7 ∷ 8 ∷ [];
  data_size = 2;
  data_block = some 22;
  data_raises = false;
  information_class = 0;
}

-- The same where the data gets no block.
abbrev pub set_value_null : KeyInformation
set_value_null = record set_value { data_block = none }

abbrev pub answers : CallbackAnswers
answers = record {
  path_block = some 20;
  event_block = some 23;
  packet_block = some 24;
  now = 8;
  time = 8;
  process_id = 4;
}

-- The same where the event gets no block.
abbrev pub no_event : CallbackAnswers
no_event = record answers { event_block = none }

pub undisturbed : IsUndisturbed set_value answers
undisturbed = record {
  name_block = 21;
  name_answered = refl;
  name_calm = refl;
  value_block = 22;
  data_answered = refl;
  data_calm = refl;
  data_sized = refl;
  data_small = omega arith;
  event_block = 23;
  event_answered = refl;
  packet_block = 24;
  packet_answered = refl;
}
