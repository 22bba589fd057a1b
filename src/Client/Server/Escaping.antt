-- ===== src/Client/Server/Escaping.antt =====
-- What Server::xml_escape (Server.cpp) makes of a text.
use hsn_capture_hpc_ng.Base.{
  ℕ, zero, suc, ◌+◌, ◌-◌, ◌≤◌, List, [], ◌∷◌, ◌++◌, Option, none, some, ◌==◌, replaced_at-append,
  length, length-append, append_assoc, append-nil, ◌≡◌, refl, sym, ap, ◌∙◌, ◌⊎◌, inl, inr,
  Bool-cases, arith,
}
use hsn_capture_hpc_ng.Client.Server.{reference, at, escape_at, escape_loop, xml_escape}

-- What stands for a character.
abbrev pub written : ℕ → Option (List ℕ) → List ℕ
written x none = x ∷ []
written x (some r) = r

-- One pass that stops once as many characters were written as the text had, and leaves the rest.
abbrev pub escaped_within : ℕ → List ℕ → List ℕ
escaped_within zero xs = xs
escaped_within (suc n) [] = []
escaped_within (suc n) (x ∷ xs) =
    written x (reference x) ++ escaped_within (suc n - length (written x (reference x))) xs

-- Characters that the loop leaves as they are.
abbrev ArePlain : List ℕ → Type 0
ArePlain [] = Unit {0}
ArePlain (x ∷ xs) = (reference x ≡ none) × ArePlain xs

-- Behind its ampersand a reference is plain.
reference_lem :
    (x : ℕ) → (reference x ≡ none) ⊎ ((t : List ℕ) × ((reference x ≡ some (b'&' ∷ t)) × ArePlain t))
unfolding reference
reference_lem x = elim (Bool-cases (x == b'&')) [
  | inl h ↦ inr (b'a' ∷ b'm' ∷ b'p' ∷ b';' ∷ [], (rw h refl, (refl, (refl, (refl, (refl, tt))))))
  | inr h ↦ elim (Bool-cases (x == b'<')) [
    | inl k ↦ inr (b'l' ∷ b't' ∷ b';' ∷ [], (rw (h, k) refl, (refl, (refl, (refl, tt)))))
    | inr k ↦ elim (Bool-cases (x == b'>')) [
      | inl l ↦ inr (b'g' ∷ b't' ∷ b';' ∷ [], (rw (h, k, l) refl, (refl, (refl, (refl, tt)))))
      | inr l ↦ elim (Bool-cases (x == 0x22)) [
        | inl m ↦ inr (
          b'q' ∷ b'u' ∷ b'o' ∷ b't' ∷ b';' ∷ [],
          (rw (h, k, l, m) refl, (refl, (refl, (refl, (refl, (refl, tt)))))),
        )
        | inr m ↦ elim (Bool-cases (x == 0x27)) [
          | inl n ↦ inr (
            b'a' ∷ b'p' ∷ b'o' ∷ b's' ∷ b';' ∷ [],
            (rw (h, k, l, m, n) refl, (refl, (refl, (refl, (refl, (refl, tt)))))),
          )
          | inr n ↦ inl (rw (h, k, l, m, n) refl)
        ]
      ]
    ]
  ]
]

at-append :
    (front : List ℕ) (x : ℕ) (back : List ℕ) → at (length front) (front ++ x ∷ back) ≡ some x
at-append [] x back = refl
at-append (y ∷ front) x back = at-append front x back

-- What the rest of the loop makes of one round's result.
abbrev escape_next : ℕ → ℕ → Option (List ℕ) → Option (List ℕ)
escape_next left i next = elim next [ none ↦ none | some s ↦ escape_loop left (i + 1) s ]

-- A round at a plain character, and one at another.
escape_at_plain :
    (front : List ℕ) (x : ℕ) (back : List ℕ)
    → reference x ≡ none
    → escape_at (length front) (front ++ x ∷ back) ≡ some ((front ++ (x ∷ [])) ++ back)
unfolding escape_at
escape_at_plain front x back h =
    rw (at-append front x back, escape_at, h) (ap some (sym (append_assoc front (x ∷ []) back)))

escape_at_special :
    (front : List ℕ) (x : ℕ) (r back : List ℕ)
    → reference x ≡ some r
    → escape_at (length front) (front ++ x ∷ back) ≡ some (front ++ (r ++ back))
unfolding escape_at
escape_at_special front x r back h =
    rw (at-append front x back, escape_at, h) (ap some (replaced_at-append front r x back))

length_snoc : (front : List ℕ) (x : ℕ) → length front + 1 ≡ length (front ++ (x ∷ []))
length_snoc front x = sym (length-append front (x ∷ []))

-- Plain characters are passed over.
escape_loop_plain :
    (mid front back : List ℕ) (n : ℕ)
    → ArePlain mid
    → escape_loop n (length front) (front ++ (mid ++ back))
      ≡ escape_loop (n - length mid) (length (front ++ mid)) ((front ++ mid) ++ back)
unfolding escape_loop
escape_loop_plain [] front back n h =
    let same : n - 0 ≡ n = omega arith in rw (append-nil front, same) refl
escape_loop_plain (x ∷ mid) front back zero h =
    let stopped : 0 - suc (length mid) ≡ 0 = omega arith in
    rw stopped (ap some (sym (append_assoc front (x ∷ mid) back)))
escape_loop_plain (x ∷ mid) front back (suc n) h =
    let rounds : suc n - suc (length mid) ≡ n - length mid = omega arith in
    let text : front ++ x ∷ mid ≡ (front ++ (x ∷ [])) ++ mid =
      sym (append_assoc front (x ∷ []) mid) in
    ap (escape_next n (length front)) (escape_at_plain front x (mid ++ back) h.0)
    ∙ rw (rounds, text, length_snoc front x) (escape_loop_plain mid (front ++ (x ∷ [])) back n h.1)

-- The loop from any position that was reached is the pass over what is left.
escape_loop-append :
    (xs front : List ℕ) (n : ℕ)
    → n ≤ length xs
    → escape_loop n (length front) (front ++ xs) ≡ some (front ++ escaped_within n xs)
unfolding escape_loop
escape_loop-append xs front zero h = refl
escape_loop-append [] front (suc n) h = absurd (omega arith)
escape_loop-append (x ∷ xs) front (suc n) h = elim (reference_lem x) [
  | inl e ↦
      let rounds : suc n - 1 ≡ n = omega arith in
      ap (escape_next n (length front)) (escape_at_plain front x xs e)
      ∙ rw (length_snoc front x, ap (written x) e, rounds)
          (escape_loop-append xs (front ++ (x ∷ [])) n (omega arith)
            ∙ ap some (append_assoc front (x ∷ []) (escaped_within n xs)))
  | inr (t, e) ↦
      let text : front ++ ((b'&' ∷ t) ++ xs) ≡ (front ++ (b'&' ∷ [])) ++ (t ++ xs) =
        sym (append_assoc front (b'&' ∷ []) (t ++ xs)) in
      let joined : (front ++ (b'&' ∷ [])) ++ t ≡ front ++ b'&' ∷ t =
        append_assoc front (b'&' ∷ []) t in
      let rounds : n - length t ≡ suc n - suc (length t) = omega arith in
      ap (escape_next n (length front)) (escape_at_special front x (b'&' ∷ t) xs e.0)
      ∙ rw (text, length_snoc front b'&', ap (written x) e.0)
          (escape_loop_plain t (front ++ (b'&' ∷ [])) xs n e.1
            ∙ rw (joined, rounds)
                (escape_loop-append xs (front ++ b'&' ∷ t) (suc n - suc (length t)) (omega arith)
                  ∙ ap some
                      (append_assoc front (b'&' ∷ t) (escaped_within (suc n - suc (length t)) xs))))
]

-- The loop stays within the text, and ends once it has written as many characters as the text had
-- before: what stands behind is left as it is, special characters included.
pub xml_escape-escaped_within :
    (xml : List ℕ) → xml_escape xml ≡ some (escaped_within (length xml) xml)
unfolding xml_escape
xml_escape-escaped_within xml = escape_loop-append xml [] (length xml) (omega arith)
