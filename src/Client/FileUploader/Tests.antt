-- ===== src/Client/FileUploader/Tests.antt =====
-- Runs of the upload of a file.
use hsn_capture_hpc_ng.Base.{
  ℕ, List, [], ◌∷◌, Bool, true, false, some, ltb, length, take, drop, arith, ◌≡◌, refl,
}
use hsn_capture_hpc_ng.Client.FileUploader.{
  pos, new_file_uploader, Answers, uploaded, send_file, send_file_parts,
}
use hsn_capture_hpc_ng.Client.FileUploader.Parts.{Covers, send_file_parts-SendsWhole}

abbrev contents : List ℕ
contents = 1 ∷ 2 ∷ 3 ∷ []

abbrev fread : ℕ → ℕ → List ℕ × Bool
fread offset size =
    (take size (drop offset contents), ltb (length (take size (drop offset contents))) size)

abbrev answers : Answers
answers = record { connected = true; has_size = true; opens = true; reply = some true }

one_part :
    send_file (λ cs. cs) fread (λ offset. true) 4 answers new_file_uploader
    ≡ some (
        uploaded (record { part_start = 0; part_end = pos 3; content = contents } ∷ []) (record {
          file_accepted = true;
          file_opened = false;
          busy = false;
          acknowledged = false;
        }))
unfolding send_file new_file_uploader
one_part = refl

send_file_parts-SendsWhole_example :
    Covers (λ cs. cs) 0 contents (send_file_parts (λ cs. cs) fread (λ offset. true) 4 0)
send_file_parts-SendsWhole_example =
    send_file_parts-SendsWhole (λ cs. cs) fread contents (λ offset size. refl) (λ offset size. refl)
      (λ offset. true) (λ offset. refl) 4 (omega arith) (omega arith)
