-- ===== src/Client/EventController/Tests.antt =====
-- Runs of the calls of the parser.
use hsn_capture_hpc_ng.Base.{ℕ, List, [], ◌∷◌, true, none, some, arith, ◌≡◌, refl}
use hsn_capture_hpc_ng.Client.Element.{element, no_elements, child}
use hsn_capture_hpc_ng.Client.EventController.{
  start_element, end_element, EventController, receive_server_event,
}
use hsn_capture_hpc_ng.Client.EventController.RoundTrip.{
  AreDistinct, calls_of, last_pieces, receive_server_event-calls_of,
}

abbrev idle : EventController
idle = record { current_element = []; delivered = [] }

-- An element within one of its own name: the first end delivers it, the second finds none open.
same_name :
    receive_server_event
      (λ name. true)
      (start_element (b'a' ∷ []) []
        ∷ start_element (b'a' ∷ []) []
        ∷ end_element (b'a' ∷ [])
        ∷ end_element (b'a' ∷ [])
        ∷ [])
      idle
    ≡ none
unfolding receive_server_event
same_name = refl

-- A parser that gives each character in a call of its own.
abbrev pieces : List ℕ → List (List ℕ)
pieces [] = []
pieces (c ∷ cs) = (c ∷ []) ∷ pieces cs

-- Of the text of the child only its end is left.
receive_server_event-calls_of_example :
    receive_server_event
      (λ name. true)
      (calls_of pieces (
        element
          (b'a' ∷ [])
          []
          []
          (child (element (b'b' ∷ []) [] (b'x' ∷ b'y' ∷ []) no_elements) no_elements)))
      idle
    ≡ some (record {
      current_element = [];
      delivered =
          element
            (b'a' ∷ [])
            []
            []
            (child (element (b'b' ∷ []) [] (b'y' ∷ []) no_elements) no_elements)
          ∷ [];
    })
unfolding AreDistinct last_pieces
receive_server_event-calls_of_example =
    receive_server_event-calls_of pieces (λ name. true) (b'a' ∷ []) [] []
      (child (element (b'b' ∷ []) [] (b'x' ∷ b'y' ∷ []) no_elements) no_elements) [] (omega arith)
      ((refl, tt), tt)
