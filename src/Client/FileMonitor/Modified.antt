-- ===== src/Client/FileMonitor/Modified.antt =====
-- Which files FileMonitor::run (FileMonitor.cpp) takes for modified.
use hsn_capture_hpc_ng.Base.{
  ℕ, ◌≡◌, refl, sym, ap, ◌∙◌, List, [], ◌∷◌, Bool, true, false, not, ◌&&◌, ◌||◌, Option, none, some,
  if◌then◌else◌, ◌==◌, is_same, is_same_eq, Bool-cases, inl, inr, arith,
}
use hsn_capture_hpc_ng.File.{FileEvent}
use hsn_capture_hpc_ng.Client.Prefix.{filter_map, prepend}
use hsn_capture_hpc_ng.Client.FileMonitor.{
  Report, FileMonitor, Environment, irp_create, irp_write, irp_delete, member, erase_file,
  insert_file, report_of, modified_by, handled, handle, handle_all,
}

member-other : (p q : List ℕ) (qs : List (List ℕ)) → is_same p q ≡ true → member p qs ≡ member q qs
member-other p q qs h = ap (λ (x : List ℕ). member x qs) (is_same_eq p q h)

member-insert_file :
    (p q : List ℕ) (qs : List (List ℕ)) → member p (insert_file q qs) ≡ (is_same p q || member p qs)
unfolding insert_file member
member-insert_file p q qs = elim (Bool-cases (member q qs)) [
  | inl e ↦ elim (Bool-cases (is_same p q)) [
    | inl s ↦ rw (e, s) (member-other p q qs s ∙ e)
    | inr s ↦ rw (e, s) refl
  ]
  | inr e ↦ rw e refl
]

member-erase_file :
    (p q : List ℕ) (qs : List (List ℕ))
    → member p (erase_file q qs) ≡ (if is_same p q then false else member p qs)
unfolding erase_file member
member-erase_file p q [] = elim (Bool-cases (is_same p q)) [ inl s ↦ rw s refl | inr s ↦ rw s refl ]
member-erase_file p q (x ∷ qs) = elim (Bool-cases (is_same q x)) [
  | inl e ↦
      let same : is_same p q ≡ is_same p x = ap (is_same p) (is_same_eq q x e) in
      rw e (member-erase_file p q qs ∙ ground (arith, same))
  | inr e ↦ elim (Bool-cases (is_same p q)) [
    | inl s ↦
        let other : is_same p x ≡ false = ap (λ (y : List ℕ). is_same y x) (is_same_eq p q s) ∙ e in
        rw e (ground (arith, other, s, member-erase_file p q qs))
    | inr s ↦ rw e (ground (arith, s, member-erase_file p q qs))
  ]
]

module _ (env : Environment) (p : List ℕ) where
  -- What an event that is reported makes of the file: modified, or not so any more.
  abbrev pub change_by : FileEvent → Option Report → Option Bool
  change_by e none = none
  change_by e (some r) =
      if env.monitor_modified_files && (not (env.is_directory r.file_path) && is_same p r.file_path)
      then (if e.major_type == irp_create || e.major_type == irp_write
          then some true
          else (if e.major_type == irp_delete then some false else none))
      else none

  abbrev pub change_of : FileEvent → Option Bool
  change_of e = change_by e (report_of env e)

  -- The last of the values, or the one given if there is none.
  abbrev pub last_or : Bool → List Bool → Bool
  last_or b [] = b
  last_or b (c ∷ cs) = last_or c cs

  last_or-prepend :
      (b : Bool) (o : Option Bool) (cs : List Bool)
      → last_or b (prepend o cs) ≡ last_or (elim o [ none ↦ b | some c ↦ c ]) cs
  last_or-prepend b none cs = refl
  last_or-prepend b (some c) cs = refl

  member-handled :
      (e : FileEvent) (s : FileMonitor) (o : Option Report)
      → member p (handled env e s o).modified_files
        ≡ elim (change_by e o) [ none ↦ member p s.modified_files | some c ↦ c ]
  unfolding handled modified_by
  member-handled e s none = refl
  member-handled e s (some r) = ground (
    arith,
    member-insert_file p r.file_path s.modified_files,
    member-erase_file p r.file_path s.modified_files,
  )

  -- A file is taken for modified after a list of events exactly where the last of those that are reported
  -- of it, and that are of the type IRP_MJ_CREATE, which a mere opening is too, write or delete it, is no
  -- deletion; or where there is none, and it was before.
  -- Directories, and any file where the option is off, stay as they were.
  pub member-handle_all :
      (es : List FileEvent) (s : FileMonitor)
      → member p (handle_all env es s).modified_files
        ≡ last_or (member p s.modified_files) (filter_map change_of es)
  unfolding handle_all handle filter_map
  member-handle_all [] s = refl
  member-handle_all (e ∷ es) s =
      member-handle_all es (handle env e s)
      ∙ ap (λ (b : Bool). last_or b (filter_map change_of es))
          (member-handled e s (report_of env e))
      ∙ sym (last_or-prepend (member p s.modified_files) (change_of e) (filter_map change_of es))
