-- ===== src/Client/Server/Connection.antt =====
-- When Server::connectToServer and Server::reconnect (Server.cpp) succeed.
use hsn_capture_hpc_ng.Base.{
  ℕ, zero, suc, ◌+◌, ◌≤◌, ◌<◌, Bool, true, false, ◌&&◌, ◌≡◌, refl, ◌↔◌, inl, inr, Bool-cases, arith,
  ap,
}
use hsn_capture_hpc_ng.Client.Server.{
  Server, Network, set_connected, try_connect, connect_to_server, reconnect,
}
use native.Mathlib.Decide.{dec_lt}

-- A try from `count` on, and before `count + left`, that succeeds.
abbrev pub Succeeds : (ℕ → Bool) → ℕ → ℕ → Type 0
Succeeds connects left count = (k : ℕ) × ((count ≤ k) × ((k < count + left) × (connects k ≡ true)))

try_connect_finds :
    (connects : ℕ → Bool) (left count : ℕ)
    → try_connect connects left count ≡ true
    → Succeeds connects left count
unfolding try_connect
try_connect_finds connects zero count h = absurd cc
try_connect_finds connects (suc left) count h = elim (Bool-cases (connects count)) [
  | inl e ↦ (count, (omega arith, (omega arith, e)))
  | inr e ↦
      let (k, (low, (high, found))) =
        try_connect_finds connects left (count + 1) (rw (e, try_connect) at h) in
      (k, (omega arith, (omega arith, found)))
]

try_connect-true :
    (connects : ℕ → Bool) (left count : ℕ)
    → Succeeds connects left count
    → try_connect connects left count ≡ true
unfolding try_connect
try_connect-true connects zero count (k, (low, (high, found))) = absurd (omega arith)
try_connect-true connects (suc left) count (k, (low, (high, found))) =
    elim (Bool-cases (connects count)) [
      | inl e ↦ rw e refl
      | inr e ↦ elim (dec_lt count k) [
        | yes later ↦
            rw e
              (try_connect-true connects left (count + 1) (k, (omega arith, (omega arith, found))))
        | no here ↦
            let same : k ≡ count = omega arith in
            let both : connects k ≡ connects count = ap connects same in absurd cc
      ]
    ]

-- What is needed for a connection: Winsock, an address, and a try among the first 1000.
abbrev pub CanConnect : Network → Type 0
CanConnect net = (net.initialised ≡ true) × ((net.resolved ≡ true) × Succeeds net.connects 1000 0)

connects_iff :
    (net : Network)
    → ((net.initialised && (net.resolved && try_connect net.connects 1000 0)) ≡ true)
      ↔ CanConnect net
connects_iff net = elim (Bool-cases net.initialised) [
  | inl h ↦ elim (Bool-cases net.resolved) [
    | inl k ↦ (
      λ c. (h, (k, try_connect_finds net.connects 1000 0 (rw (h, k) at c))),
      λ c. simp (h, k) (try_connect-true net.connects 1000 0 (c.1).1),
    )
    | inr k ↦ (
      λ c. absurd (let bad : false ≡ true = rw (h, k) at c in cc),
      λ c. absurd (let good : net.resolved ≡ true = (c.1).0 in cc),
    )
  ]
  | inr h ↦ (
    λ c. absurd (let bad : false ≡ true = rw h at c in cc),
    λ c. absurd (let good : net.initialised ≡ true = c.0 in cc),
  )
]

connect_to_server_result :
    (net : Network) (start : Bool) (s : Server)
    → (connect_to_server net start s).1
      ≡ (net.initialised && (net.resolved && try_connect net.connects 1000 0))
unfolding connect_to_server
connect_to_server_result net start s =
    elim (Bool-cases (net.initialised && (net.resolved && try_connect net.connects 1000 0))) [
      | inl h ↦ rw (h, connect_to_server) refl
      | inr h ↦ rw (h, connect_to_server) refl
    ]

connect_to_server_connected :
    (net : Network) (start : Bool) (s : Server)
    → (connect_to_server net start s).0.connected ≡ (connect_to_server net start s).1
unfolding connect_to_server set_connected
connect_to_server_connected net start s =
    elim (Bool-cases (net.initialised && (net.resolved && try_connect net.connects 1000 0))) [
      | inl h ↦ elim (Bool-cases start) [
        | inl k ↦ rw (h, k, connect_to_server) refl
        | inr k ↦ rw (h, k, connect_to_server) refl
      ]
      | inr h ↦ rw (h, connect_to_server) refl
    ]

-- Connecting returns true exactly where Winsock starts, the address resolves and one of the first
-- 1000 tries succeeds, and the flag then says what is returned; reconnecting sets the flag even
-- where it fails.
pub connect_to_server_outcome :
    (net : Network) (start : Bool) (s : Server)
    → ((((connect_to_server net start s).1 ≡ true) ↔ CanConnect net)
        × ((connect_to_server net start s).0.connected ≡ (connect_to_server net start s).1))
      × ((reconnect net s).connected ≡ true)
unfolding reconnect
connect_to_server_outcome net start s = (
  (
    rw (connect_to_server_result net start s) (connects_iff net),
    connect_to_server_connected net start s,
  ),
  refl,
)
