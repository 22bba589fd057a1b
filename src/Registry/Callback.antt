-- ===== src/Registry/Callback.antt =====
-- CaptureRegistryMonitor.c: GetRegistryObjectCompleteName and RegistryCallback. What the kernel
-- answers and hands over is a record of arguments; an exception inside `try` is an answer too.
pub mod Capture
pub mod Outcome
pub mod Leaks
pub mod Contents
mod Tests
use hsn_capture_hpc_ng.Base.{
  ℕ, ◌+◌, ◌*◌, ◌/◌, ◌%◌, List, [], ◌∷◌, ◌++◌, Option, none, some, Bool, true, false, not, ◌&&◌,
  ◌||◌, ltb, leb, ◌==◌, if◌then◌else◌, length, get_or, take,
}
use hsn_capture_hpc_ng.Kernel.Pool.{Pool, allocated, free, free_answer, free_if_allocated}
use hsn_capture_hpc_ng.Kernel.Status.{nt_success, status_info_length_mismatch}
use hsn_capture_hpc_ng.Kernel.Text.{
  UnicodeString, byte_length, unicode_string_copy, unicode_string_cat,
}
use hsn_capture_hpc_ng.Registry.{
  NotifyClass, post_create_key, post_open_key, pre_delete_key, delete_value_key, pre_set_value_key,
  enumerate_key, enumerate_value_key, query_key, query_value_key, key_handle_close, other_class,
  RegistryEvent, Registry, sizeof_registry_event, queue_registry_event,
}

-- What is learnt of a registry object: MmIsAddressValid, the null test, the two calls of
-- ObQueryNameString with the allocation between them, and whether the second call raises.
pub record ObjectQuery : Type 0 where
  pub address_valid : Bool
  pub is_null : Bool
  pub length_status : ℕ
  pub name_block : Option ℕ
  pub raises : Bool
  pub name_status : ℕ
  pub name : List ℕ

-- GetRegistryObjectCompleteName returns, or an exception leaves it.
pub record NameResult : Type 0 where
  pub found : Bool
  pub raised : Bool
  pub path : UnicodeString
  pub pool : Pool

abbrev backslash : ℕ
backslash = 0x5C

-- The partial name begins like a complete one: with a backslash, a percent sign, or TRY\.
is_complete : List ℕ → Bool
is_complete s =
    (get_or s 0 0 == backslash || get_or s 0 0 == b'%')
    || (get_or s 0 0 == b'T'
        && get_or s 1 0 == b'R'
        && get_or s 2 0 == b'Y'
        && get_or s 3 0 == backslash)

-- Asking the object manager, where the partial name did not serve.
query_name : UnicodeString → ObjectQuery → Pool → NameResult
query_name path o m =
    let m1 : Pool = allocated o.name_block m in
    let named : UnicodeString =
      if nt_success o.name_status then unicode_string_copy path o.name else path in
    if o.length_status == status_info_length_mismatch
    then (if o.raises
        then record { found = false; raised = true; path = path; pool = m1 }
        else record {
          found = nt_success o.name_status;
          raised = false;
          path = named;
          pool = free_answer o.name_block m1;
        })
    else record { found = false; raised = false; path = path; pool = m }

pub get_registry_object_complete_name :
    UnicodeString → Option (List ℕ) → ObjectQuery → Pool → NameResult
unfolding is_complete query_name
get_registry_object_complete_name path partial o m =
    let asked : NameResult = query_name path o m in
    if not o.address_valid || o.is_null
    then record { found = false; raised = false; path = path; pool = m }
    else elim partial [
      | none ↦ asked
      | some s ↦
          if is_complete s
          then record { found = true; raised = false; path = unicode_string_copy path s; pool = m }
          else asked
    ]

-- Argument2, the fields of the information structures that the driver reads, with the answer of
-- the allocation for the value's data, and which accesses raise an exception.
pub record KeyInformation : Type 0 where
  pub unreadable : Bool
  pub status : ℕ
  pub complete_name : Option (List ℕ)
  pub object : ObjectQuery
  pub value_name : List ℕ
  pub value_type : ℕ
  pub value_data : List ℕ
  pub data_size : ℕ
  pub data_block : Option ℕ
  pub data_raises : Bool
  pub information_class : ℕ

-- The locals of RegistryCallback behind the `try`: `data_block` is registryData, with its bytes.
pub record Captured : Type 0 where
  pub is_valid : Bool
  pub path : UnicodeString
  pub data_block : Option ℕ
  pub bytes : List ℕ
  pub data_length : ℕ
  pub data_type : ℕ
  pub pool : Pool

-- A case that looks the name up and stores no data. An exception makes the event invalid.
pub looked_up : ℕ → NameResult → Captured
looked_up data_type n = record {
  is_valid = n.found && not n.raised;
  path = n.path;
  data_block = none;
  bytes = [];
  data_length = 0;
  data_type = data_type;
  pool = n.pool;
}

-- The event stays invalid and nothing was touched.
pub untouched : UnicodeString → Pool → Captured
untouched path m = looked_up 0 (record { found = false; raised = false; path = path; pool = m })

-- Appends a backslash and the value's name.
pub with_value_name : List ℕ → UnicodeString → UnicodeString
with_value_name v path = unicode_string_cat (unicode_string_cat path (backslash ∷ [])) v

-- RegNtPreSetValueKey, once the name was found and the value has a name. Copying the data may
-- raise; the block allocated for it is then not freed.
pub store_data : KeyInformation → NameResult → Captured
unfolding with_value_name
store_data k n =
    let copied : List ℕ = take k.data_size k.value_data in
    let m : Pool = allocated k.data_block n.pool in
    record {
      is_valid = elim k.data_block [ none ↦ true | some _ ↦ not k.data_raises ];
      path = with_value_name k.value_name n.path;
      data_block = k.data_block;
      bytes = elim k.data_block [ none ↦ [] | some _ ↦ copied ];
      data_length = k.data_size;
      data_type = k.value_type;
      pool = m;
    }

-- The value's name is not empty, and the object's name was found.
pub names_value : KeyInformation → NameResult → Bool
names_value k n = n.found && not n.raised && ltb 0 (length k.value_name)

-- The switch over the event classes.
pub capture : NotifyClass → KeyInformation → UnicodeString → Pool → Captured
unfolding looked_up untouched with_value_name store_data names_value
capture event k path m =
    let full : NameResult = get_registry_object_complete_name path k.complete_name k.object m in
    let plain : NameResult = get_registry_object_complete_name path none k.object m in
    let valued : NameResult = record plain { path = with_value_name k.value_name plain.path } in
    elim event [
      | post_create_key ↦ if nt_success k.status then looked_up 0 full else untouched path m
      | post_open_key ↦ if nt_success k.status then looked_up 0 full else untouched path m
      | pre_delete_key ↦ looked_up 0 plain
      | delete_value_key ↦ looked_up 0 (if names_value k plain then valued else plain)
      | pre_set_value_key ↦ if names_value k plain then store_data k plain else looked_up 0 plain
      | enumerate_key ↦ looked_up k.information_class plain
      | enumerate_value_key ↦ looked_up k.information_class plain
      | query_key ↦ looked_up k.information_class plain
      | query_value_key ↦
          if names_value k plain then looked_up k.information_class valued else looked_up 0 plain
      | key_handle_close ↦ looked_up 0 plain
      | other_class _ ↦ untouched path m
    ]

-- The bytes of 16-bit characters, low byte first.
pub wide_bytes : List ℕ → List ℕ
wide_bytes [] = []
wide_bytes (c ∷ cs) = c % 256 ∷ c / 256 ∷ wide_bytes cs

-- What the driver writes into the event's block.
pub make_event : NotifyClass → ℕ → ℕ → Captured → RegistryEvent
unfolding wide_bytes
make_event event time process c = record {
  event_type = event;
  time = time;
  process_id = process;
  data_type = c.data_type;
  data_length = c.data_length;
  path_length = byte_length c.path + 2;
  registry_data = wide_bytes c.path.characters ++ 0 ∷ 0 ∷ c.bytes;
}

-- The copies into the event's block are defined: the block is as large as what is written (its
-- size, a UINT, did not wrap round), and no data is copied from a null pointer.
pub is_copy_safe : Captured → Bool
is_copy_safe c =
    ltb (sizeof_registry_event + byte_length c.path + 2 + c.data_length) 0x100000000
    && (elim c.data_block [ none ↦ c.data_length == 0 | some _ ↦ true ])

-- What the kernel answers while an event is captured.
pub record CallbackAnswers : Type 0 where
  pub path_block : Option ℕ
  pub event_block : Option ℕ
  pub packet_block : Option ℕ
  pub now : ℕ
  pub time : ℕ
  pub process_id : ℕ

-- Frees the event if it was not queued.
settle : ℕ → Bool × Registry → Registry
settle b (true, r) = r
settle b (false, r) = record r { pool = free b r.pool }

-- The part of RegistryCallback behind the `try`; `none` is undefined behaviour.
pub deliver_event : NotifyClass → CallbackAnswers → Captured → Registry → Option Registry
unfolding settle
deliver_event event a c r =
    let m : Pool = allocated a.event_block c.pool in
    elim a.event_block [
      | none ↦ some (record r { pool = m })
      | some b ↦
          if is_copy_safe c
          then elim (queue_registry_event a.now a.packet_block b
              (make_event event a.time a.process_id c)
              (record r { pool = free_if_allocated c.data_block m })) [
                | none ↦ none
                | some queued ↦ some (settle b queued)
              ]
          else none
    ]

-- NTSTRSAFE_UNICODE_STRING_MAX_CCH * sizeof(WCHAR).
abbrev pub max_path_bytes : ℕ
max_path_bytes = 65534

-- Returns at once if the path got no block, and frees its block at the end.
pub with_path : Option ℕ → Registry → Option Registry → Option Registry
with_path none r o = some r
with_path (some b) r none = none
with_path (some b) r (some r') = some (record r' { pool = free b r'.pool })

pub registry_callback : NotifyClass → KeyInformation → CallbackAnswers → Registry → Option Registry
unfolding with_path untouched
registry_callback event k a r =
    let m : Pool = allocated a.path_block r.pool in
    let path : UnicodeString = record { characters = []; maximum_length = max_path_bytes } in
    let c : Captured = if k.unreadable then untouched path m else capture event k path m in
    with_path a.path_block r
      (if c.is_valid then deliver_event event a c r else some (record r { pool = c.pool }))
