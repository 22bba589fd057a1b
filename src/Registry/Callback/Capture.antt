-- ===== src/Registry/Callback/Capture.antt =====
-- What capture leaves behind, for any event class, where no exception is raised.
use hsn_capture_hpc_ng.Base.{
  ℕ, ◌≤◌, ◌≡◌, refl, inl, inr, ◌∙◌, ap, sym, List, ◌++◌, Option, none, some, false, arith, length,
  take_all, not, ◌||◌, Bool-cases, ◌==◌,
}
use hsn_capture_hpc_ng.Kernel.Pool.{
  Pool, Holds, block_of, allocated-Holds, free_answer-allocated-Holds,
}
use hsn_capture_hpc_ng.Kernel.Status.{nt_success, status_info_length_mismatch}
use hsn_capture_hpc_ng.Kernel.Text.{
  UnicodeString, IsBounded, unicode_string_copy-IsBounded, unicode_string_cat-IsBounded,
  maximum_length-copy, maximum_length-cat,
}
use hsn_capture_hpc_ng.Registry.Callback.{
  ObjectQuery, NameResult, KeyInformation, Captured, is_complete, query_name,
  get_registry_object_complete_name, looked_up, untouched, with_value_name, store_data,
  max_path_bytes,
}

-- The name was looked up without an exception; the blocks in use are as before.
pub record Named (bs : List ℕ) (n : NameResult) : Type 0 where
  pub calm : n.raised ≡ false
  pub held : Holds n.pool bs
  pub bounded : IsBounded n.path
  pub room : n.path.maximum_length ≡ max_path_bytes

module _ (o : ObjectQuery) (b : ℕ) (answered : o.name_block ≡ some b)
    (calm : o.raises ≡ false) where
  query_name-Named :
      (path : UnicodeString) (m : Pool) (bs : List ℕ)
      → IsBounded path
      → path.maximum_length ≡ max_path_bytes
      → Holds m bs
      → Named bs (query_name path o m)
  unfolding query_name
  query_name-Named path m bs w r h =
      elim (Bool-cases (o.length_status == status_info_length_mismatch)) [
        | inr e ↦ rw e (record { calm = refl; held = h; bounded = w; room = r })
        | inl e ↦ elim (Bool-cases (nt_success o.name_status)) [
          | inl s ↦
              rw (e, calm, s, answered)
                (record {
                  calm = refl;
                  held = free_answer-allocated-Holds b m bs h;
                  bounded = unicode_string_copy-IsBounded path o.name;
                  room = maximum_length-copy path o.name ∙ r;
                })
          | inr s ↦
              rw (e, calm, s, answered)
                (record {
                  calm = refl;
                  held = free_answer-allocated-Holds b m bs h;
                  bounded = w;
                  room = r;
                })
        ]
      ]

  pub get_registry_object_complete_name-Named :
      (path : UnicodeString) (partial : Option (List ℕ)) (m : Pool) (bs : List ℕ)
      → IsBounded path
      → path.maximum_length ≡ max_path_bytes
      → Holds m bs
      → Named bs (get_registry_object_complete_name path partial o m)
  unfolding get_registry_object_complete_name
  get_registry_object_complete_name-Named path none m bs w r h =
      elim (Bool-cases (not o.address_valid || o.is_null)) [
        | inl e ↦ rw e (record { calm = refl; held = h; bounded = w; room = r })
        | inr e ↦ rw e (query_name-Named path m bs w r h)
      ]
  get_registry_object_complete_name-Named path (some s) m bs w r h =
      elim (Bool-cases (not o.address_valid || o.is_null)) [
        | inl e ↦ rw e (record { calm = refl; held = h; bounded = w; room = r })
        | inr e ↦ elim (Bool-cases (is_complete s)) [
          | inl c ↦
              rw (e, c)
                (record {
                  calm = refl;
                  held = h;
                  bounded = unicode_string_copy-IsBounded path s;
                  room = maximum_length-copy path s ∙ r;
                })
          | inr c ↦ rw (e, c) (query_name-Named path m bs w r h)
        ]
      ]

pub with_value_name-Named :
    (v : List ℕ) (bs : List ℕ) (n : NameResult)
    → Named bs n
    → Named bs (record n { path = with_value_name v n.path })
unfolding with_value_name
with_value_name-Named v bs n w = record {
  calm = w.calm;
  held = w.held;
  bounded = unicode_string_cat-IsBounded _ v (unicode_string_cat-IsBounded n.path _ w.bounded);
  room = maximum_length-cat _ v ∙ maximum_length-cat n.path _ ∙ w.room;
}

-- The locals of the callback are consistent: the data's block is the only new one, the path is
-- within its buffer, and the data has the length that is stored with it.
pub record IsConsistent (bs : List ℕ) (k : KeyInformation) (c : Captured) : Type 0 where
  pub held : Holds c.pool (block_of c.data_block ++ bs)
  pub bounded : IsBounded c.path
  pub room : c.path.maximum_length ≡ max_path_bytes
  pub filled : length c.bytes ≡ c.data_length
  pub no_data : c.data_block ≡ none → c.data_length ≡ 0
  pub small : c.data_length ≤ k.data_size
  pub unused : c.is_valid ≡ false → c.data_block ≡ none

module _ (bs : List ℕ) (k : KeyInformation) where
  pub looked_up-IsConsistent :
      (data_type : ℕ) (n : NameResult) → Named bs n → IsConsistent bs k (looked_up data_type n)
  unfolding looked_up
  looked_up-IsConsistent data_type n w = record {
    held = w.held;
    bounded = w.bounded;
    room = w.room;
    filled = refl;
    no_data = λ _. refl;
    small = omega arith;
    unused = λ _. refl;
  }

  pub untouched-IsConsistent :
      (path : UnicodeString) (m : Pool)
      → IsBounded path
      → path.maximum_length ≡ max_path_bytes
      → Holds m bs
      → IsConsistent bs k (untouched path m)
  unfolding untouched
  untouched-IsConsistent path m w r h =
      looked_up-IsConsistent 0 _ (record { calm = refl; held = h; bounded = w; room = r })

  pub store_data-IsConsistent :
      (d : ℕ) (n : NameResult)
      → k.data_block ≡ some d
      → k.data_raises ≡ false
      → k.data_size ≡ length k.value_data
      → Named bs n
      → IsConsistent bs k (store_data k n)
  unfolding store_data
  store_data-IsConsistent d n answered calm size w =
      let v = with_value_name-Named k.value_name bs n w in
      rw (answered, calm)
        (record {
          held = allocated-Holds d n.pool bs w.held;
          bounded = v.bounded;
          room = v.room;
          filled = ap length (take_all k.data_size k.value_data (omega arith)) ∙ sym size;
          no_data = λ e. cc;
          small = omega arith;
          unused = λ e. cc;
        })
