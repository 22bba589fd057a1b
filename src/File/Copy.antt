-- ===== src/File/Copy.antt =====
-- CopyFile of CaptureFileMonitor.c, which copies a file before it is deleted.
pub mod Ending
use hsn_capture_hpc_ng.Base.{
  ℕ, zero, suc, ◌+◌, ◌-◌, ◌≤◌, ◌<◌, ◌≡◌, refl, ap, sym, ◌∙◌, ◌≢◌, List, [], ◌∷◌, ◌++◌, Option, none,
  some, true, false, arith, if◌then◌else◌, ltb, lt→ltb, ◌==◌, ◌&&◌, length, take, drop, take_all,
  length-drop, length-take_full, take-drop, drop-drop, drop_all, append-nil, length-append,
  Bool-cases, inl, inr,
}
use native.Mathlib.Decide.{dec_lt, dec_le}
use hsn_capture_hpc_ng.Kernel.Pool.{Pool, allocated, free}
use hsn_capture_hpc_ng.Kernel.Status.{nt_success, status_success, status_object_name_collision}

-- One ZwWriteFile: the offset and the bytes.
pub record Write : Type 0 where
  pub offset : ℕ
  pub bytes : List ℕ

-- What follows in the list of writes.
abbrev and_then : Write → Option (List Write) → Option (List Write)
and_then w none = none
and_then w (some ws) = some (w ∷ ws)

-- The do-while loop, on fuel; `room` is the size of the buffer, and FltReadFile answers, by offset,
-- a status and bytes. What ZwWriteFile answers is not looked at.
pub copy_loop : (ℕ → ℕ × List ℕ) → ℕ → ℕ → ℕ → Option (List Write)
copy_loop read room zero offset = none
copy_loop read room (suc fuel) offset =
    let bytes : List ℕ = (read offset).1 in
    let w : Write = record { offset = offset; bytes = bytes } in
    let rest : Option (List Write) = copy_loop read room fuel (offset + length bytes) in
    if nt_success (read offset).0 && ltb 0 (length bytes)
    then (if length bytes == room then and_then w rest else some (w ∷ []))
    else some []

-- The answers of FltQueryInformationFile, FltCreateFile and ObReferenceObjectByHandle, and of the
-- allocation of the buffer.
pub record CopyAnswers : Type 0 where
  pub query_status : ℕ
  pub create_status : ℕ
  pub reference_status : ℕ
  pub buffer : Option ℕ

-- The status, what was written, how many handles are left open, and the pool.
pub record Copy : Type 0 where
  pub status : ℕ
  pub writes : List Write
  pub left_open : ℕ
  pub pool : Pool

abbrev pub copy_buffer_size : ℕ
copy_buffer_size = 65536

-- The copying, where there is a buffer.
copied : Option (List Write) → Pool → Option Copy
copied none m = none
copied (some ws) m = some (record { status = status_success; writes = ws; left_open = 0; pool = m })

-- CopyFile; `none` if the fuel runs out.
pub copy_file : CopyAnswers → (ℕ → ℕ × List ℕ) → ℕ → Pool → Option Copy
unfolding copied
copy_file a read fuel m =
    let ended : ℕ → Option Copy =
      λ s. some (record { status = s; writes = []; left_open = 0; pool = m }) in
    if nt_success a.query_status
    then (if nt_success a.create_status
        then (if nt_success a.reference_status
            then elim a.buffer [
              | none ↦ ended status_success
              | some b ↦
                  copied (copy_loop read copy_buffer_size fuel 0) (free b (allocated (some b) m))
            ]
            else some
                (record { status = a.reference_status; writes = []; left_open = 1; pool = m }))
        else ended (
            if a.create_status == status_object_name_collision
            then status_success
            else a.create_status))
    else ended a.query_status

-- Reading answers with the bytes of a file, as many as the buffer has room for, and succeeds before
-- the file's end.
pub record Reads (contents : List ℕ) (room : ℕ) (read : ℕ → ℕ × List ℕ) : Type 0 where
  pub bytes_at : (o : ℕ) → (read o).1 ≡ take room (drop o contents)
  pub succeeds : (o : ℕ) → o < length contents → nt_success (read o).0 ≡ true

-- The bytes written, one write after the other.
pub written : List Write → List ℕ
written [] = []
written (w ∷ ws) = w.bytes ++ written ws

-- Each write begins where the one before ended, the first at the offset given.
abbrev pub AreContiguous : ℕ → List Write → Type 0
AreContiguous o [] = Unit {0}
AreContiguous o (w ∷ ws) = (w.offset ≡ o) × AreContiguous (o + length w.bytes) ws

-- What is left of a file is copied whole.
pub Copies : List ℕ → ℕ → Option (List Write) → Type 0
Copies rest o none = ⊥
Copies rest o (some ws) = (written ws ≡ rest) × AreContiguous o ws

module _ (contents : List ℕ) (room : ℕ) (read : ℕ → ℕ × List ℕ) (reads : Reads contents room read)
    (some_room : 0 < room) where
  -- A read that does not fill the buffer brings all that is left, and one that does brings a part.
  short_read : (o : ℕ) → length (read o).1 ≢ room → (read o).1 ≡ drop o contents
  short_read o short = elim (dec_le room (length (drop o contents))) [
    | yes h ↦ absurd (short (ap length (reads.bytes_at o) ∙ length-take_full room _ h))
    | no h ↦ reads.bytes_at o ∙ take_all room (drop o contents) (omega arith)
  ]

  full_read :
      (o : ℕ)
      → length (read o).1 ≡ room
      → (read o).1 ++ drop (o + length (read o).1) contents ≡ drop o contents
  full_read o full =
      rw (full, reads.bytes_at o, sym (drop-drop o room contents))
        (take-drop room (drop o contents))

  -- No read goes beyond the end, and one before the end brings something.
  read_within : (o : ℕ) → length (read o).1 ≤ length contents - o
  read_within o = omega (
    arith,
    ap length (reads.bytes_at o),
    ap length (take-drop room (drop o contents)),
    length-append (take room (drop o contents)) (drop room (drop o contents)),
    length-drop o contents,
  )

  same_length : (o : ℕ) → (length (read o).1 == room) ≡ true → length (read o).1 ≡ room
  same_length o e = ground arith

  other_length : (o : ℕ) → (length (read o).1 == room) ≡ false → length (read o).1 ≢ room
  other_length o e = λ same. ground (arith, same)

  read_positive : (o : ℕ) → o < length contents → 0 < length (read o).1
  read_positive o more = elim (Bool-cases (length (read o).1 == room)) [
    | inl e ↦ ground arith
    | inr e ↦ omega (arith, ap length (short_read o (other_length o e)), length-drop o contents)
  ]

  Copies-nothing : (o : ℕ) → length contents ≤ o → Copies (drop o contents) o (some [])
  unfolding Copies written
  Copies-nothing o h = (sym (drop_all o contents h), tt)

  Copies-last :
      (o : ℕ)
      → length (read o).1 ≢ room
      → Copies (drop o contents) o (some (record { offset = o; bytes = (read o).1 } ∷ []))
  unfolding Copies written
  Copies-last o short = (append-nil (read o).1 ∙ short_read o short, (refl, tt))

  Copies-next :
      (o : ℕ) (rest : Option (List Write))
      → length (read o).1 ≡ room
      → Copies (drop (o + length (read o).1) contents) (o + length (read o).1) rest
      → Copies (drop o contents) o (and_then (record { offset = o; bytes = (read o).1 }) rest)
  unfolding Copies written
  Copies-next o none full h = elim h [ ]
  Copies-next o (some ws) full h =
      (ap (λ (xs : List ℕ). (read o).1 ++ xs) h.0 ∙ full_read o full, (refl, h.1))

  copy_loop-Copies :
      (fuel o : ℕ)
      → o ≤ length contents
      → length contents < o + fuel
      → Copies (drop o contents) o (copy_loop read room fuel o)
  unfolding copy_loop
  copy_loop-Copies zero o within enough = absurd (omega arith)
  copy_loop-Copies (suc fuel) o within enough = elim (dec_lt o (length contents)) [
    | no ended ↦ elim (Bool-cases (nt_success (read o).0 && ltb 0 (length (read o).1))) [
      | inl e ↦ absurd (ground (arith, e, read_within o))
      | inr e ↦ rw e (Copies-nothing o (omega arith))
    ]
    | yes more ↦
        rw (reads.succeeds o more, lt→ltb 0 (length (read o).1) (read_positive o more))
          (elim (Bool-cases (length (read o).1 == room)) [
            | inl e ↦ rw e (
                Copies-next o _ (same_length o e) (
                  copy_loop-Copies fuel (o + length (read o).1) (omega (arith, read_within o))
                    (omega (arith, read_positive o more))))
            | inr e ↦ rw e (Copies-last o (other_length o e))
          ])
  ]

-- What CopyFile has done, where it was not stopped and had a buffer.
unfoldable pub CopiesWhole : List ℕ → Pool → Option Copy → Type 0
CopiesWhole contents m none = ⊥
CopiesWhole contents m (some c) =
    (written c.writes ≡ contents)
    × AreContiguous 0 c.writes
    × (c.status ≡ 0)
    × (c.left_open ≡ 0)
    × (c.pool ≡ m)

copied-CopiesWhole :
    (contents : List ℕ) (o : Option (List Write)) (m : Pool)
    → Copies contents 0 o
    → CopiesWhole contents m (copied o m)
unfolding copied CopiesWhole Copies
copied-CopiesWhole contents none m h = h
copied-CopiesWhole contents (some ws) m h = (h.0, h.1, refl, refl, refl)

-- Where the calls of the kernel succeed, the buffer is allocated, and reading answers with the bytes
-- of a file: on fuel for each byte and one more, CopyFile ends, and has written the file whole, in
-- writes that follow each other from its start; no handle is left open and the buffer is freed.
pub copy_file-CopiesWhole :
    (contents : List ℕ) (a : CopyAnswers) (b : ℕ) (read : ℕ → ℕ × List ℕ) (fuel : ℕ) (m : Pool)
    → nt_success a.query_status ≡ true
    → nt_success a.create_status ≡ true
    → nt_success a.reference_status ≡ true
    → a.buffer ≡ some b
    → Reads contents copy_buffer_size read
    → length contents < fuel
    → CopiesWhole contents (free b (allocated (some b) m)) (copy_file a read fuel m)
unfolding copy_file
copy_file-CopiesWhole contents a b read fuel m q c r answered reads enough =
    simp (q, c, r, answered)
      (copied-CopiesWhole contents (copy_loop read copy_buffer_size fuel 0) _ (
        copy_loop-Copies contents copy_buffer_size read reads (omega arith) fuel 0 (omega arith)
          (omega arith)))
