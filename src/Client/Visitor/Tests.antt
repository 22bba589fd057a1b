-- ===== src/Client/Visitor/Tests.antt =====
-- Runs of the visitor: a message that asks for a visit, and the thread.
use hsn_capture_hpc_ng.Base.{
  ℕ, List, [], ◌∷◌, ◌++◌, false, none, some, Option, map, ◌≡◌, ◌≢◌, refl, is_same, if◌then◌else◌,
}
use hsn_capture_hpc_ng.Client.Element.{Element, element, no_elements, child, get_attribute_value}
use hsn_capture_hpc_ng.Client.Visitor.{
  Url, VisitEvent, visit_event_of, on_server_event, Visitor, new_visitor, take_visit, woken,
  enqueue, set_event, notifications,
}
use hsn_capture_hpc_ng.Client.Visitor.Queue.{
  alone, received_alone, Reach, created, ThreadStep, Reach-InOrder, Reach-Forgets,
}

abbrev wcstol : List ℕ → ℕ
wcstol cs = 0

-- L"9" is a number.
abbrev lexical_cast : List ℕ → Option ℕ
lexical_cast text = if is_same text (b'9' ∷ []) then some 9 else none

abbrev item : Element
item =
    element (b'i' ∷ b't' ∷ b'e' ∷ b'm' ∷ [])
      (record { name = b'u' ∷ b'r' ∷ b'l' ∷ []; value = b'h' ∷ [] } ∷ []) [] no_elements

abbrev message : Element
message =
    element (b'v' ∷ b'i' ∷ b's' ∷ b'i' ∷ b't' ∷ b'-' ∷ b'e' ∷ b'v' ∷ b'e' ∷ b'n' ∷ b't' ∷ [])
      (record { name = b't' ∷ b'i' ∷ b'm' ∷ b'e' ∷ []; value = b'9' ∷ [] } ∷ []) []
      (child item (child item no_elements))

-- What the visit of such a message is.
group_of_two :
    (elim (visit_event_of wcstol lexical_cast message) [
      | none ↦ []
      | some e ↦ map (λ (u : Url). u.visit_time) e.urls
    ])
    ≡ 9 ∷ 9 ∷ []
unfolding visit_event_of get_attribute_value
group_of_two = refl

-- Without a time the cast throws.
untimed :
    on_server_event wcstol lexical_cast
      (element
        (b'v' ∷ b'i' ∷ b's' ∷ b'i' ∷ b't' ∷ b'-' ∷ b'e' ∷ b'v' ∷ b'e' ∷ b'n' ∷ b't' ∷ [])
        []
        []
        no_elements)
      new_visitor
    ≡ none
unfolding on_server_event get_attribute_value
untimed = refl

abbrev home : Url
home = record {
  url = b'h' ∷ [];
  program = [];
  visit_time = 0;
  process_id = 0;
  visited = false;
  malicious = false;
  major_error_code = 0;
  minor_error_code = 0;
}

abbrev visit : List ℕ → VisitEvent
visit identifier = record {
  urls = home ∷ [];
  identifier = identifier;
  program = [];
  algorithm = [];
  url_group = false;
  malicious = false;
  error_code = 0;
}

-- A plugin that fails in two ways is reported once, as multiple errors.
reported :
    map
      (λ (n : ℕ × VisitEvent). n.0)
      (notifications
        (some (record { algorithm = []; errors = 0x10000110 ∷ 0x10000112 ∷ []; threw = false }))
        (visit []))
    ≡ 0x10000101 ∷ 0x10000102 ∷ 0x10000113 ∷ 0x10000104 ∷ []
unfolding notifications
reported = refl

abbrev one_pushed : Visitor
one_pushed = set_event (enqueue (visit []) new_visitor)

one_received : Reach (visit [] ∷ []) [] (some (alone one_pushed))
one_received = received_alone (visit []) home [] [] [] new_visitor refl created

Reach-InOrder_example :
    (visit [] ∷ [] ≡ [] ++ one_pushed.to_visit)
    × (one_pushed.thread ≡ woken → take_visit one_pushed ≢ none)
Reach-InOrder_example = Reach-InOrder (visit [] ∷ []) [] (alone one_pushed) one_received

Reach-Forgets_example :
    (v' : Visitor) × (Reach
        ([] ++ (visit [] ∷ visit (b'2' ∷ []) ∷ []))
        ([] ++ (visit [] ∷ []))
        (some (alone v'))
      × ((v'.to_visit ≡ visit (b'2' ∷ []) ∷ []) × ((w : Visitor) → ¬ ThreadStep v' w)))
unfolding new_visitor
Reach-Forgets_example =
    Reach-Forgets (visit []) (visit (b'2' ∷ [])) home home [] [] [] [] new_visitor refl refl created
      refl refl
