-- ===== src/File/Lifecycle.antt =====
-- DriverEntry and FilterUnload of the file driver, and what happens between them.
use hsn_capture_hpc_ng.Base.{
  ℕ, ◌≡◌, refl, ◌⊎◌, inl, inr, List, [], none, true, false, arith, Bool-cases,
}
use hsn_capture_hpc_ng.Kernel.Status.{nt_success}
use hsn_capture_hpc_ng.Kernel.Pool.{Holds}
use hsn_capture_hpc_ng.File.{
  FileManager, driver_entry, free_queued_events, drop_log_directory, filter_unload, disconnect,
}
use hsn_capture_hpc_ng.File.Invariant.{
  IsValid, free_queued_events-IsValid, drop_log_directory-IsValid,
}

-- Nothing is queued and no log directory is kept, nor are files collected.
pub record IsEmptied (others : List ℕ) (f : FileManager) : Type 0 where
  pub held : Holds f.pool others
  pub no_events : f.queued_file_events ≡ []
  pub no_log : f.log_block ≡ none
  pub not_collecting : f.collect_deleted_files ≡ false

emptied :
    (others : List ℕ) (f : FileManager)
    → IsValid others f
    → IsEmptied others (drop_log_directory (free_queued_events f))
unfolding drop_log_directory free_queued_events
emptied others f v = record {
  held = (drop_log_directory-IsValid others _ (free_queued_events-IsValid others f v)).owned;
  no_events = refl;
  no_log = refl;
  not_collecting = refl;
}

-- When the userspace program disconnects from a valid driver, everything kept for it is freed: the
-- queue is empty, there is no log directory, no files are collected, and the port is closed.
disconnect-IsEmptied :
    (others : List ℕ) (f : FileManager)
    → IsValid others f
    → IsEmptied others (disconnect f) × ((disconnect f).client_port ≡ false)
unfolding disconnect
disconnect-IsEmptied others f v =
    let e = emptied others f v in
    (
      record {
        held = e.held;
        no_events = e.no_events;
        no_log = e.no_log;
        not_collecting = e.not_collecting;
      },
      refl,
    )

-- Unloading a valid driver that is ready frees everything that it keeps, and its filter, its timer
-- and its port are gone.
filter_unload-IsEmptied :
    (others : List ℕ) (f : FileManager)
    → IsValid others f
    → f.ready ≡ true
    → let f' = filter_unload f in
      IsEmptied others f' × (f'.server_port ≡ false) × (f'.filter ≡ false) × (f'.timer ≡ false)
unfolding filter_unload drop_log_directory free_queued_events
filter_unload-IsEmptied others f v ready =
    let w = free_queued_events-IsValid others _ (drop_log_directory-IsValid others f v) in
    (
      record { held = w.owned; no_events = refl; no_log = refl; not_collecting = refl },
      refl,
      ground arith,
      ground arith,
    )

-- Loaded from a state without a filter, port or timer, the driver is either set up whole, and then
-- every call succeeded, nothing is queued and no files are collected; or it is not ready and reports
-- a failure, with no filter, port or timer, or the security descriptor could not be built and the
-- filter is left.
pub file_driver_entry_outcome :
    (registered described opened started now : ℕ) (f : FileManager)
    → f.filter ≡ false
    → f.server_port ≡ false
    → f.timer ≡ false
    → let (status, f') = driver_entry registered described opened started now f in
      ((nt_success registered ≡ true)
        × (nt_success described ≡ true)
        × (nt_success opened ≡ true)
        × (nt_success started ≡ true)
        × (status ≡ 0)
        × (f'.filter ≡ true)
        × (f'.server_port ≡ true)
        × (f'.timer ≡ true)
        × (f'.ready ≡ true)
        × (f'.queued_file_events ≡ [])
        × (f'.log_block ≡ none)
        × (f'.collect_deleted_files ≡ false)
        × (f'.last_contact_time ≡ now))
      ⊎ ((nt_success status ≡ false)
          × (f'.ready ≡ false)
          × (f'.filter ≡ false)
          × (f'.server_port ≡ false)
          × (f'.timer ≡ false))
      ⊎ ((nt_success described ≡ false)
          × (status ≡ described)
          × (f'.ready ≡ false)
          × (f'.filter ≡ true)
          × (f'.server_port ≡ false)
          × (f'.timer ≡ false))
unfolding driver_entry
file_driver_entry_outcome registered described opened started now f x p t =
    elim (Bool-cases (nt_success registered)) [
      | inr r ↦ rw r (inr (inl (r, refl, x, p, t)))
      | inl r ↦ elim (Bool-cases (nt_success described)) [
        | inr d ↦ rw (r, d) (inr (inr (refl, refl, refl, refl, p, t)))
        | inl d ↦ elim (Bool-cases (nt_success opened)) [
          | inr o ↦ rw (r, d, o) (inr (inl (o, refl, refl, refl, t)))
          | inl o ↦ elim (Bool-cases (nt_success started)) [
            | inr s ↦ rw (r, d, o, s) (inr (inl (s, refl, refl, refl, t)))
            | inl s ↦
                rw (r, d, o, s)
                  (inl
                    (refl, refl, refl, refl, refl, refl, refl, refl, refl, refl, refl, refl, refl))
          ]
        ]
      ]
    ]
