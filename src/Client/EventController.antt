-- ===== src/Client/EventController.antt =====
-- EventController.cpp: the elements that the parser's calls build, and their listeners. The XML
-- parser is a library; its calls are the input, with names and values converted already.
use hsn_capture_hpc_ng.Base.{
  ℕ, List, [], ◌∷◌, ◌++◌, Bool, true, false, Option, none, some, if◌then◌else◌, is_same, length,
  ltb,
}
use hsn_capture_hpc_ng.Client.Element.{Attribute, Element, element, Elements, no_elements, child}
pub mod RoundTrip
mod Tests

-- A call of the parser.
pub data Call : Type 0 where
  start_element : List ℕ → List Attribute → Call
  end_element : List ℕ → Call
  char_data : List ℕ → Call

-- addChildElement.
pub with_child : Element → Elements → Elements
with_child e no_elements = child e no_elements
with_child e (child x xs) = child x (with_child e xs)

-- EventController: currentElement and its parents, the innermost first, where no element is NULL;
-- and the elements that listeners were called with, in their order.
pub record EventController : Type 0 where
  pub current_element : List Element
  pub delivered : List Element

-- EventController::startElement: an element of the current one's name is taken for that one.
pub on_start : List ℕ → List Attribute → List Element → List Element
on_start name attributes [] = element name attributes [] no_elements ∷ []
on_start name attributes (element m others content children ∷ es) =
    if is_same m name
    then element name (others ++ attributes) content children ∷ es
    else element name attributes [] no_elements ∷ element m others content children ∷ es

-- Whether onServerEventMap has an entry for a name.
module _ (listens : List ℕ → Bool) where
  -- EventController::notifyListeners.
  pub notify_listeners : Element → EventController → EventController
  notify_listeners (element name attributes content children) c =
      if ltb 0 (length name)
      then record {
        current_element = [];
        delivered =
            if listens name
            then c.delivered ++ (element name attributes content children ∷ [])
            else c.delivered;
      }
      else c

  -- EventController::endElement. A call without a current element dereferences NULL: `none`.
  pub on_end : List ℕ → List Element → EventController → Option EventController
  unfolding notify_listeners with_child
  on_end name [] c = none
  on_end name (e ∷ []) c = some (notify_listeners e c)
  on_end name (element m attributes content children ∷ element p others text siblings ∷ es) c =
      if is_same m name
      then some (record c {
        current_element =
            element p others text (with_child (element m attributes content children) siblings)
            ∷ es;
      })
      else some c

  -- EventController::charData: the data replaces what there was.
  pub on_data : List ℕ → List Element → EventController → Option EventController
  on_data text [] c = none
  on_data text (element m attributes content children ∷ es) c =
      some (record c { current_element = element m attributes text children ∷ es })

  pub called : Call → EventController → Option EventController
  unfolding on_start on_end on_data
  called (start_element name attributes) c =
      some (record c { current_element = on_start name attributes c.current_element })
  called (end_element name) c = on_end name c.current_element c
  called (char_data text) c = on_data text c.current_element c

  -- What is left of a run of calls.
  pub and_then :
      (EventController → Option EventController) → Option EventController → Option EventController
  and_then f none = none
  and_then f (some c) = f c

  -- EventController::receiveServerEvent: the calls that parsing a document makes.
  pub receive_server_event : List Call → EventController → Option EventController
  unfolding called and_then
  receive_server_event [] c = some c
  receive_server_event (call ∷ calls) c = and_then (receive_server_event calls) (called call c)
