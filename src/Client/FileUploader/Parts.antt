-- ===== src/Client/FileUploader/Parts.antt =====
-- The parts that FileUploader::sendFile (FileUploader.cpp) sends are the whole file.
use hsn_capture_hpc_ng.Base.{
  ℕ, zero, suc, ◌+◌, ◌-◌, ◌%◌, ◌≤◌, ◌<◌, List, [], ◌∷◌, ◌++◌, Bool, true, false, Option, some, ltb,
  lt→ltb, length, take, drop, take_all, take-drop, drop-drop, length-drop, length-take_full,
  append-nil, ◌≡◌, refl, sym, ap, ◌∙◌, arith,
}
use native.Mathlib.Decide.{dec_lt}
use hsn_capture_hpc_ng.Client.FileUploader.{
  pos, to_int, Part, preceded_by, send_file_part, send_file_parts,
}

-- The parts of a file that is cut into pieces, from an offset on.
abbrev pub parts_of : (List ℕ → List ℕ) → ℕ → List (List ℕ) → List Part
parts_of encode offset [] = []
parts_of encode offset (c ∷ cs) =
    record { part_start = offset; part_end = pos (offset + length c); content = encode c }
    ∷ parts_of encode (offset + length c) cs

abbrev pub joined : List (List ℕ) → List ℕ
joined [] = []
joined (c ∷ cs) = c ++ joined cs

-- The parts are those of the rest of the file, cut into pieces.
abbrev pub Covers : (List ℕ → List ℕ) → ℕ → List ℕ → Option (List Part) → Type 0
Covers encode offset rest sent =
    (cs : List (List ℕ)) × ((sent ≡ some (parts_of encode offset cs)) × (joined cs ≡ rest))

to_int-pos : (n : ℕ) → n < 0x80000000 → to_int n ≡ pos n
unfolding to_int
to_int-pos n small =
    let same : n % 0x100000000 ≡ n = omega arith in rw (same, lt→ltb n 0x80000000 small) refl

nothing : (xs : List ℕ) → ¬ (0 < length xs) → [] ≡ xs
nothing [] h = refl
nothing (x ∷ xs) h = absurd (omega arith)

module _ (encode : List ℕ → List ℕ) (fread : ℕ → ℕ → List ℕ × Bool) (contents : List ℕ)
    (bytes_read : (offset size : ℕ) → (fread offset size).0 ≡ take size (drop offset contents))
    (end_of_file : (offset size : ℕ)
      → (fread offset size).1 ≡ ltb (length (take size (drop offset contents))) size)
    (is_connected : ℕ → Bool) (connected : (offset : ℕ) → is_connected offset ≡ true) where
  -- A round that comes to the end of the file.
  last_round :
      (fuel offset : ℕ)
      → offset ≤ length contents
      → length contents < 0x80000000
      → length (drop offset contents) < 8192
      → Covers encode offset
          (drop offset contents)
          (send_file_parts encode fread is_connected (suc fuel) offset)
  unfolding send_file_parts send_file_part
  last_round fuel offset low small short =
      let at : offset % 0x100000000 ≡ offset = omega arith in
      let all : take 8192 (drop offset contents) ≡ drop offset contents =
        take_all 8192 (drop offset contents) (omega arith) in
      let stops : ltb (length (drop offset contents)) 8192 ≡ true =
        lt→ltb (length (drop offset contents)) 8192 short in
      elim (dec_lt 0 (length (drop offset contents))) [
        | yes some_bytes ↦
            let ends : to_int (offset + length (drop offset contents))
                ≡ pos (offset + length (drop offset contents)) =
              to_int-pos _ (omega (arith, length-drop offset contents)) in
            let test : ltb 0 (length (drop offset contents)) ≡ true = lt→ltb 0 _ some_bytes in
            (
              drop offset contents ∷ [],
              (
                rw
                    (
                      at,
                      bytes_read offset 8192,
                      end_of_file offset 8192,
                      all,
                      stops,
                      test,
                      connected offset,
                      ends,
                    )
                    refl,
                append-nil (drop offset contents),
              ),
            )
        | no none_left ↦
            let test : ltb 0 (length (drop offset contents)) ≡ false = ground arith in
            (
              [],
              (
                rw (at, bytes_read offset 8192, end_of_file offset 8192, all, stops, test) refl,
                nothing (drop offset contents) none_left,
              ),
            )
      ]

  -- A round that fills the buffer.
  full_round :
      (fuel offset : ℕ)
      → offset ≤ length contents
      → length contents < 0x80000000
      → 8192 ≤ length (drop offset contents)
      → Covers encode
          (offset + 8192)
          (drop (offset + 8192) contents)
          (send_file_parts encode fread is_connected fuel (offset + 8192))
      → Covers encode offset
          (drop offset contents)
          (send_file_parts encode fread is_connected (suc fuel) offset)
  unfolding send_file_parts send_file_part preceded_by
  full_round fuel offset low small long (cs, (sent, whole)) =
      let at : offset % 0x100000000 ≡ offset = omega arith in
      let bytes : List ℕ = take 8192 (drop offset contents) in
      let full : length (take 8192 (drop offset contents)) ≡ 8192 =
        length-take_full 8192 (drop offset contents) long in
      let ends : to_int (offset + 8192) ≡ pos (offset + 8192) =
        to_int-pos (offset + 8192) (omega (arith, length-drop offset contents)) in
      let next : (offset + 8192) % 0x100000000 ≡ offset + 8192 =
        omega (arith, length-drop offset contents) in
      (
        take 8192 (drop offset contents) ∷ cs,
        (
          rw
              (
                at,
                bytes_read offset 8192,
                end_of_file offset 8192,
                full,
                connected offset,
                ends,
                next,
                sent,
              )
              refl,
          ap (◌++◌ (take 8192 (drop offset contents)))
                (whole ∙ sym (drop-drop offset 8192 contents))
              ∙ take-drop 8192 (drop offset contents),
        ),
      )

  send_file_parts-Covers :
      (fuel offset : ℕ)
      → offset ≤ length contents
      → length contents < 0x80000000
      → length contents - offset < fuel
      → Covers encode offset
          (drop offset contents)
          (send_file_parts encode fread is_connected fuel offset)
  send_file_parts-Covers zero offset low small enough = absurd (omega arith)
  send_file_parts-Covers (suc fuel) offset low small enough =
      elim (dec_lt (length (drop offset contents)) 8192) [
        | yes short ↦ last_round fuel offset low small short
        | no long ↦
            let left : length (drop offset contents) ≡ length contents - offset =
              length-drop offset contents in
            full_round fuel offset low small (omega arith)
              (send_file_parts-Covers fuel (offset + 8192) (omega arith) small (omega arith))
      ]

  -- Where fread reads the bytes at the offset as far as there are any, and has come to the end where
  -- it reads fewer than it was asked for, and where the connection lasts: on fuel for more rounds than the file has bytes, and for a
  -- file below 2^31 bytes, the loop ends, and the parts that it sends, one behind the other from 0
  -- on, are the whole file.
  pub send_file_parts-SendsWhole :
      (fuel : ℕ)
      → length contents < 0x80000000
      → length contents < fuel
      → Covers encode 0 contents (send_file_parts encode fread is_connected fuel 0)
  send_file_parts-SendsWhole fuel small enough =
      send_file_parts-Covers fuel 0 (omega arith) small (omega arith)
