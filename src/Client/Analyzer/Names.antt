-- ===== src/Client/Analyzer/Names.antt =====
-- The names and values of options that Analyzer.cpp compares with.
use hsn_capture_hpc_ng.Base.{ℕ, List, [], ◌∷◌}

abbrev pub capture_network_packets_option : List ℕ
capture_network_packets_option =
    b'c' ∷ b'a' ∷ b'p' ∷ b't' ∷ b'u' ∷ b'r' ∷ b'e' ∷ b'-' ∷ b'n' ∷ b'e' ∷ b't' ∷ b'w' ∷ b'o' ∷ b'r'
    ∷ b'k' ∷ b'-' ∷ b'p' ∷ b'a' ∷ b'c' ∷ b'k' ∷ b'e' ∷ b't' ∷ b's' ∷ []

abbrev pub malicious_option : List ℕ
malicious_option =
    b'c' ∷ b'a' ∷ b'p' ∷ b't' ∷ b'u' ∷ b'r' ∷ b'e' ∷ b'-' ∷ b'n' ∷ b'e' ∷ b't' ∷ b'w' ∷ b'o' ∷ b'r'
    ∷ b'k' ∷ b'-' ∷ b'p' ∷ b'a' ∷ b'c' ∷ b'k' ∷ b'e' ∷ b't' ∷ b's' ∷ b'-' ∷ b'm' ∷ b'a' ∷ b'l'
    ∷ b'i' ∷ b'c' ∷ b'i' ∷ b'o' ∷ b'u' ∷ b's' ∷ []

abbrev pub benign_option : List ℕ
benign_option =
    b'c' ∷ b'a' ∷ b'p' ∷ b't' ∷ b'u' ∷ b'r' ∷ b'e' ∷ b'-' ∷ b'n' ∷ b'e' ∷ b't' ∷ b'w' ∷ b'o' ∷ b'r'
    ∷ b'k' ∷ b'-' ∷ b'p' ∷ b'a' ∷ b'c' ∷ b'k' ∷ b'e' ∷ b't' ∷ b's' ∷ b'-' ∷ b'b' ∷ b'e' ∷ b'n'
    ∷ b'i' ∷ b'g' ∷ b'n' ∷ []

abbrev pub collect_modified_files_option : List ℕ
collect_modified_files_option =
    b'c' ∷ b'o' ∷ b'l' ∷ b'l' ∷ b'e' ∷ b'c' ∷ b't' ∷ b'-' ∷ b'm' ∷ b'o' ∷ b'd' ∷ b'i' ∷ b'f' ∷ b'i'
    ∷ b'e' ∷ b'd' ∷ b'-' ∷ b'f' ∷ b'i' ∷ b'l' ∷ b'e' ∷ b's' ∷ []

abbrev pub send_exclusion_lists_option : List ℕ
send_exclusion_lists_option =
    b's' ∷ b'e' ∷ b'n' ∷ b'd' ∷ b'-' ∷ b'e' ∷ b'x' ∷ b'c' ∷ b'l' ∷ b'u' ∷ b's' ∷ b'i' ∷ b'o' ∷ b'n'
    ∷ b'-' ∷ b'l' ∷ b'i' ∷ b's' ∷ b't' ∷ b's' ∷ []

abbrev pub server_option : List ℕ
server_option = b's' ∷ b'e' ∷ b'r' ∷ b'v' ∷ b'e' ∷ b'r' ∷ []

abbrev pub true_text : List ℕ
true_text = b't' ∷ b'r' ∷ b'u' ∷ b'e' ∷ []

abbrev pub false_text : List ℕ
false_text = b'f' ∷ b'a' ∷ b'l' ∷ b's' ∷ b'e' ∷ []
