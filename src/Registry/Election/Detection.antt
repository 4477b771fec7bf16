-- ===== src/Registry/Election/Detection.antt =====
-- How a node notices that the registry is gone, and how a leader steps down
-- (crates/vpn/src/registry/election.rs).
use lan_link.Prelude.{
  ℕ, zero, suc, ◌+◌, ◌<◌, ◌≡◌, ◌≢◌, refl, List, [], ◌∷◌, true, false, some, leb, if◌then◌else◌,
  arith,
}
use lan_link.Prelude.Words.{u32_mod}
use lan_link.Vpn.Identity.{NodeId}
use lan_link.Registry.Messages.{ElectionRequestPayload, ElectionResultPayload, Json}
use lan_link.Registry.Manager.{
  RegistryStatus, is_follower, ElectionManager, Effect, set_registry, reset_heartbeat_monitor,
  record_missed_heartbeat, should_start_election, become_follower, switch_registry, decide_vote,
}
use lan_link.Registry.Handlers.{receive_result}
use lan_link.Registry.Election.{handle_message}
use lan_link.Registry.Election.Reading.{reads_request, reads_result}

-- `n` heartbeats are missed one after the other.
abbrev pub miss : ℕ → ElectionManager → ElectionManager
miss zero m = m
miss (suc n) m = miss n (record_missed_heartbeat m)

-- What the decision looks at.
abbrev Watching : ElectionManager → RegistryStatus → ℕ → ℕ → NodeId → Type 0
Watching m status misses threshold id =
    (m.status ≡ status)
    × (m.missed_heartbeats ≡ misses)
    × (m.heartbeat_miss_threshold ≡ threshold)
    × (m.registry_id ≡ some id)

miss_lem :
    (n : ℕ) (m : ElectionManager) (status : RegistryStatus) (k threshold : ℕ) (id : NodeId)
    → Watching m status k threshold id
    → k + n < u32_mod
    → Watching (miss n m) status (k + n) threshold id
unfolding record_missed_heartbeat
miss_lem zero m status k threshold id w h = ground arith
miss_lem (suc n) m status k threshold id w h =
    let step =
      miss_lem n (record_missed_heartbeat m) status (suc k) threshold id
        (w.0, omega (arith, w.1), w.2, w.3) (omega arith) in
    (step.0, omega (arith, step.1), step.2, step.3)

-- Once the registry is set, a node starts an election after `n` missed heartbeats exactly if it is a
-- follower and `n` has reached the threshold, for every `n` that fits a u32.
pub detects :
    (m : ElectionManager) (id : NodeId) (name addr : List ℕ) (n : ℕ)
    → n < u32_mod
    → should_start_election (miss n (set_registry m id name addr))
      ≡ (if is_follower m.status then leb m.heartbeat_miss_threshold n else false)
unfolding should_start_election set_registry
detects m id name addr n h =
    let w =
      miss_lem n (set_registry m id name addr) m.status 0 m.heartbeat_miss_threshold id
        (refl, refl, refl, refl) (omega arith) in
    ground (arith, w)

module _ (sha256 : List ℕ → List ℕ) (json : Json) where
  higher_request :
      (m : ElectionManager) (req : ElectionRequestPayload)
      → m.term < req.term
      → (decide_vote sha256 m req).0.status ≡ RegistryStatus.follower
  unfolding decide_vote become_follower reset_heartbeat_monitor
  higher_request m req h = ground arith

  result_stops :
      (m : ElectionManager) (r : ElectionResultPayload)
      → m.term < r.term
      → r.leader_id ≢ m.local_id
      → m.registry_control ≡ true
      → ((receive_result m r).0.status ≡ RegistryStatus.follower)
        × ((receive_result m r).1 ≡ Effect.control false ∷ [])
  unfolding receive_result become_follower switch_registry reset_heartbeat_monitor
  result_stops m r h n c = ground arith

  -- A leader whose registry server can be controlled and that hears of a later term becomes a
  -- follower. If it hears of it by the result of an election, its registry server is stopped; if by a
  -- request for a vote, nothing is called and the server runs on.
  pub steps_down :
      (m : ElectionManager) (req : ElectionRequestPayload) (r : ElectionResultPayload)
      (request result : List ℕ)
      → m.status ≡ RegistryStatus.leader
      → m.registry_control ≡ true
      → json.read_request request ≡ some req
      → json.read_result result ≡ some r
      → m.term < req.term
      → m.term < r.term
      → r.leader_id ≢ m.local_id
      → let asked = handle_message sha256 json m (0x11 ∷ request) in
        let told = handle_message sha256 json m (0x13 ∷ result) in
        (asked.0.status ≡ RegistryStatus.follower)
        × (asked.1 ≡ [])
        × (told.0.status ≡ RegistryStatus.follower)
        × (told.1 ≡ Effect.control false ∷ [])
  steps_down m req r request result l c er et hr ht n =
      let s = result_stops m r ht n c in
      rw (reads_request sha256 json m request req er, reads_result sha256 json m result r et)
        (higher_request m req hr, refl, s.0, s.1)
