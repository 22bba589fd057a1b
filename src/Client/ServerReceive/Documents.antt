-- ===== src/Client/ServerReceive/Documents.antt =====
-- What ServerReceive::run (ServerReceive.cpp) makes of a stream of documents.
use hsn_capture_hpc_ng.Base.{
  ℕ, ◌<◌, List, [], ◌∷◌, ◌++◌, false, lt→ltb, ◌==◌, length, map, append_assoc, append-nil, ◌≡◌,
  refl, sym, ap, ◌∙◌, cons_eq, inl, inr, Bool-cases,
}
use hsn_capture_hpc_ng.Client.ServerReceive.{bytes, take_bytes, run}

-- A stream that is cut into buffers of more than two bytes.
abbrev pub AreLong : List (List ℕ) → Type 0
AreLong [] = Unit {0}
AreLong (b ∷ bs) = (2 < length b) × AreLong bs

abbrev pub stream : List (List ℕ) → List ℕ
stream [] = []
stream (b ∷ bs) = b ++ stream bs

-- Documents as the server sends them: each ends with a zero byte.
abbrev pub terminated : List (List ℕ) → List ℕ
terminated [] = []
terminated (d ∷ ds) = d ++ 0 ∷ terminated ds

-- No byte is zero.
abbrev pub IsText : List ℕ → Type 0
IsText [] = Unit {0}
IsText (c ∷ cs) = ((c == 0) ≡ false) × IsText cs

abbrev pub AreTexts : List (List ℕ) → Type 0
AreTexts [] = Unit {0}
AreTexts (d ∷ ds) = IsText d × AreTexts ds

-- Bytes in two buffers are taken as they are in one.
take_bytes-append :
    (document xs ys : List ℕ)
    → (take_bytes document (xs ++ ys)).complete
      ≡ (take_bytes document xs).complete
        ++ (take_bytes (take_bytes document xs).xml_document ys).complete
unfolding take_bytes
take_bytes-append document [] ys = refl
take_bytes-append document (x ∷ xs) ys = elim (Bool-cases (x == 0)) [
  | inl h ↦ rw h (ap (◌∷◌ document) (take_bytes-append [] xs ys))
  | inr h ↦ rw h (take_bytes-append (document ++ (x ∷ [])) xs ys)
]

run-stream :
    (document : List ℕ) (buffers : List (List ℕ))
    → AreLong buffers
    → run document (map bytes buffers) ≡ (take_bytes document (stream buffers)).complete
unfolding run take_bytes
run-stream document [] h = refl
run-stream document (b ∷ bs) h = rw (lt→ltb 2 (length b) h.0) (
    ap (◌++◌ (take_bytes document b).complete)
      (run-stream (take_bytes document b).xml_document bs h.1)
    ∙ sym (take_bytes-append document b (stream bs)))

take_bytes_text :
    (document text rest : List ℕ)
    → IsText text
    → (take_bytes document (text ++ 0 ∷ rest)).complete
      ≡ (document ++ text) ∷ (take_bytes [] rest).complete
unfolding take_bytes
take_bytes_text document [] rest h = cons_eq (sym (append-nil document)) refl
take_bytes_text document (c ∷ text) rest h = rw h.0 (
    take_bytes_text (document ++ (c ∷ [])) text rest h.1
    ∙ cons_eq (append_assoc document (c ∷ []) text) refl)

take_bytes-terminated :
    (ds : List (List ℕ)) → AreTexts ds → (take_bytes [] (terminated ds)).complete ≡ ds
unfolding take_bytes
take_bytes-terminated [] h = refl
take_bytes-terminated (d ∷ ds) h =
    take_bytes_text [] d (terminated ds) h.0 ∙ cons_eq refl (take_bytes-terminated ds h.1)

-- Documents that end with a zero byte each, and have none within, are given to the event controller
-- as they were sent, however the stream is cut into buffers of more than two bytes.
pub run-terminated :
    (ds buffers : List (List ℕ))
    → AreTexts ds
    → AreLong buffers
    → stream buffers ≡ terminated ds
    → run [] (map bytes buffers) ≡ ds
run-terminated ds buffers texts long cut =
    run-stream [] buffers long
    ∙ (ap (λ (xs : List ℕ). (take_bytes [] xs).complete) cut ∙ take_bytes-terminated ds texts)
