-- ===== src/Client/Bulk/Errors.antt =====
-- The error code that the visit of a group ends with
-- (ApplicationPlugins/InternetExplorerBulk/Application_InternetExplorerBulk.cpp).
use hsn_capture_hpc_ng.Base.{
  ℕ, zero, suc, ◌≡◌, ◌≢◌, refl, sym, ◌∙◌, List, [], ◌∷◌, ◌++◌, Bool, true, false, if◌then◌else◌,
  ◌==◌, ◌&&◌, arith, Bool-cases, inl, inr,
}
use hsn_capture_hpc_ng.Client.Visitor.{
  VisitEvent, visitation_ok, visitation_multiple_errors, set_error_code, set_error_codes,
}
use hsn_capture_hpc_ng.Client.Bulk.{end_group}

-- So many URLs without an error.
abbrev pub fine : ℕ → List ℕ
fine zero = []
fine (suc n) = visitation_ok ∷ fine n

abbrev is_empty : List ℕ → Bool
is_empty [] = true
is_empty (c ∷ cs) = false

fine-kept :
    (n : ℕ) (codes : List ℕ) (e : VisitEvent)
    → e.error_code ≡ visitation_ok
    → (set_error_codes (fine n ++ codes) e).error_code ≡ (set_error_codes codes e).error_code
unfolding set_error_code
fine-kept zero codes e h = refl
fine-kept (suc n) codes e h =
    rw h (fine-kept n codes (record e { error_code = visitation_ok }) refl)

-- Once there are several errors, there are.
multiple-kept :
    (codes : List ℕ) (e : VisitEvent)
    → e.error_code ≢ visitation_ok
    → (set_error_codes codes e).error_code
      ≡ (if is_empty codes then e.error_code else visitation_multiple_errors)
unfolding set_error_code
multiple-kept [] e h = refl
multiple-kept (c ∷ codes) e h =
    let e1 : VisitEvent = set_error_code c e in
    let now : e1.error_code ≡ visitation_multiple_errors = ground arith in
    let later = multiple-kept codes e1 (ground arith) in ground arith

codes-first :
    (n code : ℕ) (later : List ℕ) (e : VisitEvent)
    → e.error_code ≡ visitation_ok
    → code ≢ visitation_ok
    → (set_error_codes (fine n ++ code ∷ later) e).error_code
      ≡ (if is_empty later then code else visitation_multiple_errors)
unfolding set_error_code
codes-first n code later e h bad =
    let e1 : VisitEvent = set_error_code code e in
    let now : e1.error_code ≡ code = rw h refl in
    let kept = fine-kept n (code ∷ later) e h in
    let after = multiple-kept later e1 (λ ok. bad (sym now ∙ ok)) in
    ground (arith, now, kept, after)

-- The code of the first error is that of the group only if it is the last URL's and all of Internet
-- Explorer was closed: after it a URL without an error counts as a further error.
pub end_group-first :
    (n code : ℕ) (later : List ℕ) (closing : ℕ) (e : VisitEvent)
    → e.error_code ≡ visitation_ok
    → code ≢ visitation_ok
    → (end_group (fine n ++ code ∷ later) closing e).error_code
      ≡ (if is_empty later && closing == 0 then code else visitation_multiple_errors)
unfolding end_group set_error_code
end_group-first n code later closing e h bad =
    let first = codes-first n code later e h bad in
    elim (Bool-cases (is_empty later)) [
      | inl last ↦ ground (arith, first, last)
      | inr more ↦ ground (arith, first, more)
    ]
