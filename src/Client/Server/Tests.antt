-- ===== src/Client/Server/Tests.antt =====
-- Runs of the connection and of xml_escape.
use hsn_capture_hpc_ng.Base.{[], ◌∷◌, true, false, none, some, ◌==◌, ◌≡◌, refl, ◌↔◌}
use hsn_capture_hpc_ng.Client.Server.{
  Server, Network, connect_to_server, reconnect, xml_escape, send_xml,
}
use hsn_capture_hpc_ng.Client.Server.Escaping.{escaped_within, xml_escape-escaped_within}
use hsn_capture_hpc_ng.Client.Server.Connection.{CanConnect, connect_to_server_outcome}

-- The second of two ampersands in a row is left as it is.
half_escaped : xml_escape (b'&' ∷ b'<' ∷ []) ≡ some (b'&' ∷ b'a' ∷ b'm' ∷ b'p' ∷ b';' ∷ b'<' ∷ [])
unfolding xml_escape
half_escaped = refl

-- With text enough behind it, every special character is escaped.
escaped_text : xml_escape (b'<' ∷ b'a' ∷ []) ≡ some (b'&' ∷ b'l' ∷ b't' ∷ b';' ∷ b'a' ∷ [])
unfolding xml_escape
escaped_text = refl

xml_escape-escaped_within_example :
    xml_escape (b'&' ∷ b'<' ∷ []) ≡ some (escaped_within 2 (b'&' ∷ b'<' ∷ []))
xml_escape-escaped_within_example = xml_escape-escaped_within (b'&' ∷ b'<' ∷ [])

-- The third try succeeds.
abbrev slow : Network
slow = record { initialised = true; resolved = true; connects = λ k. k == 2 }

abbrev fresh : Server
fresh = record {
  connected = false;
  reconnecting = false;
  receiving = false;
  sent = [];
  announced = [];
}

connected_at_last : (connect_to_server slow true fresh).0.receiving ≡ true
unfolding connect_to_server
connected_at_last = refl

connect_to_server_outcome_example :
    ((((connect_to_server slow true fresh).1 ≡ true) ↔ CanConnect slow)
      × ((connect_to_server slow true fresh).0.connected ≡ (connect_to_server slow true fresh).1))
    × ((reconnect slow fresh).connected ≡ true)
connect_to_server_outcome_example = connect_to_server_outcome slow true fresh

-- An element with one attribute goes out as one line.
sent_element :
    (elim (send_xml
      (λ cs. cs)
      true
      (b'p' ∷ [])
      (record { name = b'a' ∷ []; value = b'<' ∷ [] } ∷ [])
      (record fresh { connected = true })) [ none ↦ [] | some s ↦ s.sent ])
    ≡ (b'<' ∷ b'p' ∷ 0x20 ∷ b'a' ∷ b'=' ∷ 0x22 ∷ b'&' ∷ b'l' ∷ b't' ∷ b';' ∷ 0x22 ∷ b'/' ∷ b'>'
        ∷ 0x0D ∷ 0x0A ∷ [])
      ∷ []
unfolding send_xml
sent_element = refl
