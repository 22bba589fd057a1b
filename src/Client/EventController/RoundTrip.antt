-- ===== src/Client/EventController/RoundTrip.antt =====
-- What EventController (EventController.cpp) builds of the calls that a document brings.
use hsn_capture_hpc_ng.Base.{
  ℕ, ◌<◌, List, [], ◌∷◌, ◌++◌, Bool, false, some, if◌then◌else◌, is_same, is_same_self, length,
  lt→ltb, append_assoc, append-nil, ◌≡◌, refl, sym, ap, ◌∙◌,
}
use hsn_capture_hpc_ng.Client.Element.{Attribute, Element, element, Elements, no_elements, child}
use hsn_capture_hpc_ng.Client.EventController.{
  Call, start_element, end_element, char_data, with_child, EventController, on_start,
  notify_listeners, on_end, on_data, called, and_then, receive_server_event,
}

-- The calls for the pieces of the text of an element.
abbrev data_calls : List (List ℕ) → List Call
data_calls [] = []
data_calls (p ∷ ps) = char_data p ∷ data_calls ps

-- What the data is once it has been replaced by each piece.
abbrev pub replaced_by : List ℕ → List (List ℕ) → List ℕ
replaced_by text [] = text
replaced_by text (p ∷ ps) = replaced_by p ps

-- The parser may give a text in several calls: `pieces` is how it cuts a text.
module _ (pieces : List ℕ → List (List ℕ)) where
  -- The calls of the parser for a document: the start, the text, the children and the end.
  unfoldable mutual
    pub calls_of : Element → List Call
    calls_of (element name attributes content children) =
        start_element name attributes
        ∷ (data_calls (pieces content) ++ (calls_of_all children ++ (end_element name ∷ [])))

    pub calls_of_all : Elements → List Call
    calls_of_all no_elements = []
    calls_of_all (child e es) = calls_of e ++ calls_of_all es

  -- The document with the last piece of each text for the text.
  unfoldable mutual
    pub last_pieces : Element → Element
    last_pieces (element name attributes content children) =
        element name attributes (replaced_by [] (pieces content)) (all_last_pieces children)

    pub all_last_pieces : Elements → Elements
    all_last_pieces no_elements = no_elements
    all_last_pieces (child e es) = child (last_pieces e) (all_last_pieces es)

-- No element within has the name of its parent.
unfoldable mutual
  pub IsDistinct : List ℕ → Element → Type 0
  IsDistinct parent (element name attributes content children) =
      (is_same parent name ≡ false) × AreDistinct name children

  pub AreDistinct : List ℕ → Elements → Type 0
  AreDistinct parent no_elements = Unit {0}
  AreDistinct parent (child e es) = IsDistinct parent e × AreDistinct parent es

abbrev appended : Elements → Elements → Elements
appended xs no_elements = xs
appended xs (child e es) = appended (with_child e xs) es

abbrev before : Elements → Elements → Elements
before no_elements ys = ys
before (child x xs) ys = child x (before xs ys)

before-with_child :
    (xs : Elements) (e : Element) (ys : Elements)
    → before (with_child e xs) ys ≡ before xs (child e ys)
unfolding with_child
before-with_child no_elements e ys = refl
before-with_child (child x xs) e ys = ap (child x) (before-with_child xs e ys)

before-no_elements : (xs : Elements) → before xs no_elements ≡ xs
before-no_elements no_elements = refl
before-no_elements (child x xs) = ap (child x) (before-no_elements xs)

appended_lem : (ys xs : Elements) → appended xs ys ≡ before xs ys
appended_lem no_elements xs = sym (before-no_elements xs)
appended_lem (child e es) xs = appended_lem es (with_child e xs) ∙ before-with_child xs e es

module _ (pieces : List ℕ → List (List ℕ)) (listens : List ℕ → Bool) where
  -- The state with a stack of open elements.
  abbrev open_with : List Element → List Element → EventController
  open_with es delivered = record { current_element = es; delivered = delivered }

  run_data :
      (ps : List (List ℕ)) (text name : List ℕ) (attributes : List Attribute) (es d : List Element)
      (rest : List Call)
      → receive_server_event listens
          (data_calls ps ++ rest)
          (open_with (element name attributes text no_elements ∷ es) d)
        ≡ receive_server_event listens rest
            (open_with (element name attributes (replaced_by text ps) no_elements ∷ es) d)
  unfolding receive_server_event called on_data and_then
  run_data [] text name attributes es d rest = refl
  run_data (p ∷ ps) text name attributes es d rest = run_data ps p name attributes es d rest

  -- Between the start and the end of an element, where its children are dealt with.
  run_body :
      (content name : List ℕ) (attributes : List Attribute) (children : Elements)
      (es d : List Element) (rest : List Call)
      → ((later : List Call)
          → receive_server_event listens (calls_of_all pieces children ++ later) (
              open_with
                (element name attributes (replaced_by [] (pieces content)) no_elements ∷ es)
                d)
            ≡ receive_server_event listens later (
                open_with
                  (element name attributes
                      (replaced_by [] (pieces content))
                      (appended no_elements (all_last_pieces pieces children))
                    ∷ es)
                  d))
      → receive_server_event listens
          ((data_calls (pieces content)
              ++ (calls_of_all pieces children ++ (end_element name ∷ [])))
            ++ rest)
          (open_with (element name attributes [] no_elements ∷ es) d)
        ≡ receive_server_event listens
            (end_element name ∷ rest)
            (open_with (last_pieces pieces (element name attributes content children) ∷ es) d)
  unfolding last_pieces
  run_body content name attributes children es d rest ih =
      let tail : List Call = calls_of_all pieces children ++ (end_element name ∷ []) in
      let calls : (data_calls (pieces content)
              ++ (calls_of_all pieces children ++ (end_element name ∷ [])))
            ++ rest
          ≡ data_calls (pieces content)
            ++ (calls_of_all pieces children ++ (end_element name ∷ rest)) =
        append_assoc (data_calls (pieces content))
          (calls_of_all pieces children ++ (end_element name ∷ [])) rest
        ∙ ap (◌++◌ (data_calls (pieces content)))
            (append_assoc (calls_of_all pieces children) (end_element name ∷ []) rest) in
      ap
        (λ (cs : List Call).
          receive_server_event listens cs
            (open_with (element name attributes [] no_elements ∷ es) d))
        calls
      ∙ (run_data (pieces content) [] name attributes es d
            (calls_of_all pieces children ++ (end_element name ∷ rest))
          ∙ (ih (end_element name ∷ rest)
              ∙ ap
                  (λ (cs : Elements). receive_server_event listens (end_element name ∷ rest) (
                    open_with (element name attributes (replaced_by [] (pieces content)) cs ∷ es)
                      d))
                  (appended_lem (all_last_pieces pieces children) no_elements)))

  mutual
    unfolding receive_server_event called on_start on_end and_then calls_of last_pieces IsDistinct

    run_child :
        (e : Element) (m : List ℕ) (others : List Attribute) (text : List ℕ) (siblings : Elements)
        (es d : List Element) (rest : List Call)
        → IsDistinct m e
        → receive_server_event listens
            (calls_of pieces e ++ rest)
            (open_with (element m others text siblings ∷ es) d)
          ≡ receive_server_event listens rest (
              open_with (element m others text (with_child (last_pieces pieces e) siblings) ∷ es) d)
    run_child (element name attributes content children) m others text siblings es d rest h =
        let top : List Element = element m others text siblings ∷ es in
        rw h.0 (
          run_body content name attributes children top d rest (λ later.
            run_children children name attributes (replaced_by [] (pieces content)) no_elements top
              d later h.1)
          ∙ rw (is_same_self name) refl)

    run_children :
        (cs : Elements) (m : List ℕ) (others : List Attribute) (text : List ℕ) (siblings : Elements)
        (es d : List Element) (rest : List Call)
        → AreDistinct m cs
        → receive_server_event listens
            (calls_of_all pieces cs ++ rest)
            (open_with (element m others text siblings ∷ es) d)
          ≡ receive_server_event listens rest (
              open_with
                (element m others text (appended siblings (all_last_pieces pieces cs)) ∷ es)
                d)
    run_children no_elements m others text siblings es d rest h = refl
    run_children (child e cs) m others text siblings es d rest h =
        ap
          (λ (calls : List Call).
            receive_server_event listens calls (open_with (element m others text siblings ∷ es) d))
          (append_assoc (calls_of pieces e) (calls_of_all pieces cs) rest)
        ∙ (run_child e m others text siblings es d (calls_of_all pieces cs ++ rest) h.0
            ∙ run_children cs m others text (with_child (last_pieces pieces e) siblings) es d rest
                h.1)

  -- However the parser cuts texts into pieces, which it gives in a call each, the calls for a document
  -- whose elements never have the name of their parent and have their text before their children, and
  -- whose root has a name, build that document with the last piece of each text for the text: its
  -- listener, if there is one, is called with it once, and no element is left open.
  pub receive_server_event-calls_of :
      (name : List ℕ) (attributes : List Attribute) (content : List ℕ) (children : Elements)
      (delivered : List Element)
      → 0 < length name
      → AreDistinct name children
      → receive_server_event listens
          (calls_of pieces (element name attributes content children))
          (record { current_element = []; delivered = delivered })
        ≡ some (record {
          current_element = [];
          delivered =
              if listens name
              then delivered ++ (last_pieces pieces (element name attributes content children) ∷ [])
              else delivered;
        })
  unfolding receive_server_event called on_start on_end notify_listeners and_then calls_of
      last_pieces
  receive_server_event-calls_of name attributes content children delivered named h =
      ap
        (λ (calls : List Call).
          receive_server_event listens calls
            (open_with (element name attributes [] no_elements ∷ []) delivered))
        (sym (
          append-nil (
            data_calls (pieces content)
            ++ (calls_of_all pieces children ++ (end_element name ∷ [])))))
      ∙ (run_body content name attributes children [] delivered [] (λ later.
            run_children children name attributes (replaced_by [] (pieces content)) no_elements []
              delivered later h)
          ∙ rw (lt→ltb 0 (length name) named) refl)
