-- ===== src/Client/FileUploader.antt =====
-- FileUploader.cpp: how a file goes to the server, part by part. fread of the C library, seen from an
-- offset, and Base64::encode are parameters.
use hsn_capture_hpc_ng.Base.{
  ℕ, zero, suc, ◌+◌, ◌-◌, ◌%◌, List, [], ◌∷◌, ◌++◌, Bool, true, false, not, ◌||◌, Option, none,
  some, if◌then◌else◌, ltb, length, ◌==◌, ◌&&◌,
}
pub mod Parts
mod Tests

-- FileUploader: its flags, and the event hFileAcknowledged.
pub record FileUploader : Type 0 where
  pub file_accepted : Bool
  pub file_opened : Bool
  pub busy : Bool
  pub acknowledged : Bool

-- FileUploader::FileUploader.
pub new_file_uploader : FileUploader
new_file_uploader = record {
  file_accepted = false;
  file_opened = false;
  busy = false;
  acknowledged = false;
}

-- onReceiveFileAcceptEvent and onReceiveFileRejectEvent.
pub on_receive_file_accept_event : FileUploader → FileUploader
on_receive_file_accept_event f = record f { file_accepted = true; acknowledged = true }

pub on_receive_file_reject_event : FileUploader → FileUploader
on_receive_file_reject_event f = record f { acknowledged = true }

-- A number of C's type int.
pub data ℤ : Type 0 where
  pos negsuc : ℕ → ℤ

-- What a size_t is as an int.
pub to_int : ℕ → ℤ
to_int n =
    let m : ℕ = n % 0x100000000 in if ltb m 0x80000000 then pos m else negsuc (0xFFFFFFFF - m)

-- The element of a part: part-start, part-end, and the encoded data as its content.
pub record Part : Type 0 where
  pub part_start : ℕ
  pub part_end : ℤ
  pub content : List ℕ

-- What was sent before the rest.
pub preceded_by : List Part → Option (List Part) → Option (List Part)
preceded_by parts none = none
preceded_by parts (some others) = some (parts ++ others)

-- What fread gives: the bytes, and whether it came to the end of the file. What Server::isConnected
-- answers sendElement for the part at an offset: without a connection nothing is sent.
module _ (encode : List ℕ → List ℕ) (fread : ℕ → ℕ → List ℕ × Bool) (is_connected : ℕ → Bool) where
  -- FileUploader::sendFilePart of an open file: the elements it sends, and what it returns.
  pub send_file_part : ℕ → ℕ → List Part × ℕ
  unfolding to_int
  send_file_part offset size =
      let (bytes, at_end) = fread offset size in
      let part : Part = record {
        part_start = offset;
        part_end = to_int (offset + length bytes);
        content = encode bytes;
      } in
      (
        if ltb 0 (length bytes) && is_connected offset then part ∷ [] else [],
        if at_end then 0 else length bytes,
      )

  -- The loop of sendFile, on fuel; `none` if that runs out.
  pub send_file_parts : ℕ → ℕ → Option (List Part)
  unfolding send_file_part preceded_by
  send_file_parts zero offset = none
  send_file_parts (suc fuel) offset =
      let (parts, bytes_read) = send_file_part (offset % 0x100000000) 8192 in
      let rest : Option (List Part) = send_file_parts fuel ((offset + bytes_read) % 0x100000000) in
      if ltb 0 bytes_read then preceded_by parts rest else some parts

-- What comes of a file.
pub data Upload : Type 0 where
  refused : FileUploader → Upload
  uploaded : List Part → FileUploader → Upload

-- The answers of Server::isConnected, getFileSize and _wfopen_s, and what the server answers within
-- the five seconds of the wait: `none` is no answer, `some true` file-accept.
pub record Answers : Type 0 where
  pub connected : Bool
  pub has_size : Bool
  pub opens : Bool
  pub reply : Option Bool

-- hFileAcknowledged is reset by the wait. The reply comes during it.
pub await_reply : Option Bool → FileUploader → Bool × FileUploader
unfolding on_receive_file_accept_event on_receive_file_reject_event
await_reply none f = (f.acknowledged, record f { acknowledged = false })
await_reply (some true) f = (true, record (on_receive_file_accept_event f) { acknowledged = false })
await_reply (some false) f =
    (true, record (on_receive_file_reject_event f) { acknowledged = false })

-- FileUploader::sendFile; `none` if the fuel of its loop runs out.
pub send_file :
    (encode : List ℕ → List ℕ) (fread : ℕ → ℕ → List ℕ × Bool) (is_connected : ℕ → Bool) (fuel : ℕ)
    (a : Answers) (f : FileUploader)
    → Option Upload
unfolding await_reply send_file_parts
send_file encode fread is_connected fuel a f =
    if not a.connected
    then some (refused f)
    else (if not a.has_size || not a.opens
        then some (refused (record f { busy = false }))
        else (let (answered, f1) =
              await_reply a.reply (record f { busy = true; file_opened = true }) in
            let closed : FileUploader = record f1 { busy = false; file_opened = false } in
            if not answered || not f1.file_accepted
            then some (refused closed)
            else elim (send_file_parts encode fread is_connected fuel 0) [
              | none ↦ none
              | some parts ↦ some (uploaded parts closed)
            ]))
