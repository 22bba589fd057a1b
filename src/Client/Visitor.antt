-- ===== src/Client/Visitor.antt =====
-- Visitor.cpp, VisitEvent.h and the constructor of Url.cpp: the queue of visits and the thread that
-- goes through it. The queue is used without a lock; each operation on it is taken as one step.
use hsn_capture_hpc_ng.Base.{
  ℕ, ◌+◌, List, [], ◌∷◌, ◌++◌, Bool, true, false, not, Option, none, some, if◌then◌else◌, ltb, ◌==◌,
  is_same, length,
}
use hsn_capture_hpc_ng.Client.Element.{
  Attribute, Element, element, Elements, no_elements, child, get_attribute_value,
}
use hsn_capture_hpc_ng.Client.Url.{decode}
pub mod Plugins
pub mod Queue
mod Tests

-- The codes of ErrorCodes.h.
abbrev pub visitation_ok : ℕ
visitation_ok = 0

abbrev pub visitation_prestart : ℕ
visitation_prestart = 0x10000101

abbrev pub visitation_start : ℕ
visitation_start = 0x10000102

abbrev pub visitation_finish : ℕ
visitation_finish = 0x10000103

abbrev pub visitation_postfinish : ℕ
visitation_postfinish = 0x10000104

abbrev pub visitation_multiple_errors : ℕ
visitation_multiple_errors = 0x10000113

abbrev pub visitation_exception : ℕ
visitation_exception = 0x10000200

-- Url.
pub record Url : Type 0 where
  pub url : List ℕ
  pub program : List ℕ
  pub visit_time : ℕ
  pub process_id : ℕ
  pub visited : Bool
  pub malicious : Bool
  pub major_error_code : ℕ
  pub minor_error_code : ℕ

-- Url::Url.
pub new_url : List ℕ → List ℕ → ℕ → Url
new_url url program time = record {
  url = url;
  program = program;
  visit_time = time;
  process_id = 0;
  visited = false;
  malicious = false;
  major_error_code = 0;
  minor_error_code = 0;
}

-- VisitEvent.
pub record VisitEvent : Type 0 where
  pub urls : List Url
  pub identifier : List ℕ
  pub program : List ℕ
  pub algorithm : List ℕ
  pub url_group : Bool
  pub malicious : Bool
  pub error_code : ℕ

-- VisitEvent::VisitEvent.
pub new_visit_event : VisitEvent
new_visit_event = record {
  urls = [];
  identifier = [];
  program = [];
  algorithm = b's' ∷ b'e' ∷ b'q' ∷ [];
  url_group = false;
  malicious = false;
  error_code = visitation_ok;
}

-- VisitEvent::addUrl.
pub add_url : Url → VisitEvent → VisitEvent
add_url url e = record e {
  urls = e.urls ++ (url ∷ []);
  url_group = if ltb 1 (length (e.urls ++ (url ∷ []))) then true else e.url_group;
}

-- VisitEvent::setErrorCode.
unfoldable pub set_error_code : ℕ → VisitEvent → VisitEvent
set_error_code code e = record e {
  error_code = if e.error_code == visitation_ok then code else visitation_multiple_errors;
}

-- wcstol of the C library, and boost::lexical_cast<int>, whose exception is `none`.
module _ (wcstol : List ℕ → ℕ) (lexical_cast : List ℕ → Option ℕ) where
  -- The loop of createUrl over the attributes, on url, program and time.
  pub read_url : List Attribute → List ℕ → List ℕ → ℕ → Option Url
  unfolding new_url
  read_url [] url program time = some (new_url (decode wcstol url) program time)
  read_url (a ∷ others) url program time =
      if is_same a.name (b'u' ∷ b'r' ∷ b'l' ∷ [])
      then read_url others a.value program time
      else (if is_same a.name (b'p' ∷ b'r' ∷ b'o' ∷ b'g' ∷ b'r' ∷ b'a' ∷ b'm' ∷ [])
          then read_url others url a.value time
          else (if is_same a.name (b't' ∷ b'i' ∷ b'm' ∷ b'e' ∷ [])
              then elim (lexical_cast a.value) [
                | none ↦ none
                | some t ↦ read_url others url program t
              ]
              else read_url others url program time))

  -- Visitor::createUrl.
  pub create_url : List Attribute → Option Url
  unfolding read_url
  create_url attributes = read_url attributes [] [] 0

  -- The loop of onServerEvent over the child elements.
  pub add_items : List ℕ → ℕ → Elements → VisitEvent → Option VisitEvent
  unfolding create_url add_url
  add_items program time no_elements e = some e
  add_items program time (child (element name attributes content children) others) e =
      if is_same name (b'i' ∷ b't' ∷ b'e' ∷ b'm' ∷ [])
      then elim (create_url attributes) [
        | none ↦ none
        | some url ↦
            add_items program time others
              (add_url (record url { visit_time = time; program = program }) e)
      ]
      else add_items program time others e

  -- The visit that onServerEvent makes of an element.
  pub visit_event_of : Element → Option VisitEvent
  unfolding add_items new_visit_event
  visit_event_of (element name attributes content children) =
      if is_same name
        (b'v' ∷ b'i' ∷ b's' ∷ b'i' ∷ b't' ∷ b'-' ∷ b'e' ∷ b'v' ∷ b'e' ∷ b'n' ∷ b't' ∷ [])
      then (let program : List ℕ =
            get_attribute_value (b'p' ∷ b'r' ∷ b'o' ∷ b'g' ∷ b'r' ∷ b'a' ∷ b'm' ∷ []) attributes in
          let identifier : List ℕ =
            get_attribute_value
              (b'i' ∷ b'd' ∷ b'e' ∷ b'n' ∷ b't' ∷ b'i' ∷ b'f' ∷ b'i' ∷ b'e' ∷ b'r' ∷ [])
              attributes in
          elim (lexical_cast (get_attribute_value (b't' ∷ b'i' ∷ b'm' ∷ b'e' ∷ []) attributes)) [
            | none ↦ none
            | some time ↦
                add_items program time children
                  (record new_visit_event { identifier = identifier; program = program })
          ])
      else some new_visit_event

-- Where the thread of Visitor::run stands: at WaitForSingleObject, behind it, or in a visit.
pub data Place : Type 0 where
  waiting woken : Place
  visiting : VisitEvent → Place

-- Visitor: toVisit, the auto-reset event hQueueNotEmpty, and the thread.
pub record Visitor : Type 0 where
  pub to_visit : List VisitEvent
  pub queue_not_empty : Bool
  pub thread : Place

pub new_visitor : Visitor
new_visitor = record { to_visit = []; queue_not_empty = false; thread = waiting }

-- toVisit.push, and SetEvent behind it.
pub enqueue : VisitEvent → Visitor → Visitor
enqueue e v = record v { to_visit = v.to_visit ++ (e ∷ []) }

pub set_event : Visitor → Visitor
set_event v = record v { queue_not_empty = true }

-- The end of onServerEvent, on the visit and its URLs: if there are any, the visit is pushed and the
-- event set.
pub push_if_any : List Url → VisitEvent → Visitor → Visitor
unfolding enqueue set_event
push_if_any [] e v = v
push_if_any (u ∷ us) e v = set_event (enqueue e v)

pub push_visit : VisitEvent → Visitor → Visitor
unfolding push_if_any
push_visit e v = push_if_any e.urls e v

-- Visitor::onServerEvent.
pub on_server_event : (List ℕ → ℕ) → (List ℕ → Option ℕ) → Element → Visitor → Option Visitor
unfolding visit_event_of push_visit
on_server_event wcstol lexical_cast received v =
    elim (visit_event_of wcstol lexical_cast received) [
      | none ↦ none
      | some e ↦ some (push_visit e v)
    ]

-- WaitForSingleObject returns, and resets the event.
pub wake : Visitor → Visitor
wake v = record v { queue_not_empty = false; thread = woken }

-- front and pop. On an empty queue they are undefined: `none`.
pub take_visit : Visitor → Option Visitor
take_visit v = elim v.to_visit [
  | [] ↦ none
  | e ∷ es ↦ some (record v { to_visit = es; thread = visiting e })
]

-- The end of the loop's body.
pub end_visit : Visitor → Visitor
end_visit v = record v { thread = waiting }

-- What visitGroup of a plugin does: the error codes it sets, and whether it throws.
pub record Visited : Type 0 where
  pub algorithm : List ℕ
  pub errors : List ℕ
  pub threw : Bool

abbrev pub set_error_codes : List ℕ → VisitEvent → VisitEvent
set_error_codes [] e = e
set_error_codes (code ∷ codes) e = set_error_codes codes (set_error_code code e)

-- The notifications of one round, each with the visit as it is then; none without a plugin.
unfoldable pub notifications : Option Visited → VisitEvent → List (ℕ × VisitEvent)
unfolding set_error_code
notifications none e = []
notifications (some g) e =
    let e1 : VisitEvent = record e { algorithm = g.algorithm } in
    let e2 : VisitEvent = set_error_codes g.errors e1 in
    let outcome : ℕ =
      if not (e2.error_code == visitation_ok) then e2.error_code else visitation_finish in
    (visitation_prestart, e1)
    ∷ (visitation_start, e1)
    ∷ ((if g.threw then (visitation_exception, e2) ∷ [] else [])
        ++ ((outcome, e2) ∷ (visitation_postfinish, e2) ∷ []))
