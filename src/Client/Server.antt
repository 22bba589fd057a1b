-- ===== src/Client/Server.antt =====
-- Server.cpp: the connection to the server, and the messages that are written to it.
use hsn_capture_hpc_ng.Base.{
  ℕ, zero, suc, ◌+◌, List, [], ◌∷◌, ◌++◌, Bool, true, false, ◌&&◌, Option, none, some,
  if◌then◌else◌, ◌==◌, replaced_at, length,
}
use hsn_capture_hpc_ng.Client.Element.{Attribute}
pub mod Escaping
pub mod Connection
mod Tests

-- Server, with the messages that were handed to send and what signalSetConnected announced, the
-- newest first; `receiving` says whether serverReceive was started.
pub record Server : Type 0 where
  pub connected : Bool
  pub reconnecting : Bool
  pub receiving : Bool
  pub sent : List (List ℕ)
  pub announced : List Bool

-- Server::setConnected.
pub set_connected : Bool → Server → Server
set_connected c s = record s { connected = c; announced = c ∷ s.announced }

-- The answers of initialiseWinsock2 and getaddrinfo, and of connect at each try.
pub record Network : Type 0 where
  pub initialised : Bool
  pub resolved : Bool
  pub connects : ℕ → Bool

-- The loop over the tries: whether one of those from `count` on succeeds.
pub try_connect : (ℕ → Bool) → ℕ → ℕ → Bool
try_connect connects zero count = false
try_connect connects (suc left) count =
    let later = try_connect connects left (count + 1) in if connects count then true else later

-- Server::connectToServer, which tries 1000 times.
pub connect_to_server : Network → Bool → Server → Server × Bool
unfolding try_connect set_connected
connect_to_server net start s =
    if net.initialised && (net.resolved && try_connect net.connects 1000 0)
    then (let s1 : Server = set_connected true s in
        (if start then record s1 { receiving = true } else s1, true))
    else (set_connected false s, false)

-- Server::disconnectFromServer.
pub disconnect_from_server : Server → Server
unfolding set_connected
disconnect_from_server s = if s.connected then set_connected false s else s

-- Server::reconnect.
pub reconnect : Network → Server → Server
unfolding disconnect_from_server connect_to_server
reconnect net s =
    record ((connect_to_server net false
      (disconnect_from_server (record s { reconnecting = true }))).0) { connected = true }

-- Server::sendMessage, with WideCharToMultiByte, and whether send succeeds.
pub send_message : (List ℕ → List ℕ) → Bool → List ℕ → Server → Server
unfolding set_connected
send_message to_utf8 succeeds message s =
    if s.connected
    then elim (to_utf8 message) [
      | [] ↦ s
      | b ∷ bs ↦
          let s1 : Server = record s { sent = (b ∷ bs) ∷ s.sent } in
          if succeeds then s1 else set_connected false s1
    ]
    else s

-- The reference of a character that xml_escape replaces.
pub reference : ℕ → Option (List ℕ)
reference c =
    if c == b'&'
    then some (b'&' ∷ b'a' ∷ b'm' ∷ b'p' ∷ b';' ∷ [])
    else (if c == b'<'
        then some (b'&' ∷ b'l' ∷ b't' ∷ b';' ∷ [])
        else (if c == b'>'
            then some (b'&' ∷ b'g' ∷ b't' ∷ b';' ∷ [])
            else (if c == 0x22
                then some (b'&' ∷ b'q' ∷ b'u' ∷ b'o' ∷ b't' ∷ b';' ∷ [])
                else (if c == 0x27
                    then some (b'&' ∷ b'a' ∷ b'p' ∷ b'o' ∷ b's' ∷ b';' ∷ [])
                    else none))))

-- escaped.at(i); `none` is out_of_range.
abbrev pub at : ℕ → List ℕ → Option ℕ
at i [] = none
at zero (x ∷ xs) = some x
at (suc i) (x ∷ xs) = at i xs

-- The body of the loop at one index; `none` is the exception of at.
pub escape_at : ℕ → List ℕ → Option (List ℕ)
unfolding reference
escape_at i escaped = elim (at i escaped) [
  | none ↦ none
  | some c ↦ elim (reference c) [ none ↦ some escaped | some r ↦ some (replaced_at i r escaped) ]
]

-- The loop, from index i on, with `left` rounds to go.
pub escape_loop : ℕ → ℕ → List ℕ → Option (List ℕ)
unfolding escape_at
escape_loop zero i escaped = some escaped
escape_loop (suc left) i escaped = elim (escape_at i escaped) [
  | none ↦ none
  | some next ↦ escape_loop left (i + 1) next
]

-- Server::xml_escape: as many rounds as the text has characters.
pub xml_escape : List ℕ → Option (List ℕ)
unfolding escape_loop
xml_escape xml = escape_loop (length xml) 0 xml

-- The attributes of sendXML.
pub attributes_text : List Attribute → Option (List ℕ)
unfolding xml_escape
attributes_text [] = some []
attributes_text (a ∷ others) = elim (xml_escape a.value) [
  | none ↦ none
  | some value ↦ elim (attributes_text others) [
    | none ↦ none
    | some rest ↦ some (0x20 ∷ (a.name ++ (b'=' ∷ 0x22 ∷ (value ++ (0x22 ∷ rest)))))
  ]
]

-- Server::sendXML.
pub send_xml : (List ℕ → List ℕ) → Bool → List ℕ → List Attribute → Server → Option Server
unfolding attributes_text send_message
send_xml to_utf8 succeeds name attributes s =
    if s.connected
    then elim (attributes_text attributes) [
      | none ↦ none
      | some text ↦ some (
          send_message to_utf8 succeeds
            ((b'<' ∷ name) ++ (text ++ (b'/' ∷ b'>' ∷ 0x0D ∷ 0x0A ∷ []))) s)
    ]
    else some s
