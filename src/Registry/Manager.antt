-- ===== src/Registry/Manager.antt =====
-- `ElectionManager` of crates/vpn/src/registry/election.rs. A method returns the new state, what it
-- does through the callbacks, and its result. Locks are not poisoned. `sha256` calls the crate
-- `sha2` and is a parameter. The instant of the last heartbeat, which nothing reads, and the
-- monitoring thread, which only sleeps, are left out.
use mathlib.Core.List.{map}
use lan_link.Prelude.{
  ℕ, ◌+◌, ◌%◌, List, [], ◌∷◌, ◌++◌, take, Bool, true, false, not, Option, none, some, ltb,
  if◌then◌else◌, ite,
}
use lan_link.Prelude.Words.{u32_mod}
use lan_link.Prelude.Bytes.{be_bytes, from_be}
use lan_link.Vpn.Identity.{NodeId, node_eq}
use lan_link.Registry.Messages.{ElectionRequestPayload}

pub data RegistryStatus : Type 0 where
  follower candidate leader : RegistryStatus

abbrev pub is_follower : RegistryStatus → Bool
is_follower RegistryStatus.follower = true
is_follower RegistryStatus.candidate = false
is_follower RegistryStatus.leader = false

abbrev pub is_candidate : RegistryStatus → Bool
is_candidate RegistryStatus.follower = false
is_candidate RegistryStatus.candidate = true
is_candidate RegistryStatus.leader = false

abbrev pub is_leader : RegistryStatus → Bool
is_leader RegistryStatus.follower = false
is_leader RegistryStatus.candidate = false
is_leader RegistryStatus.leader = true

pub data ElectionError : Type 0 where
  no_relay_manager serialize_error send_failed not_enough_nodes : ElectionError

pub record KnownNode : Type 0 where
  pub id : NodeId
  pub name : List ℕ
  pub addr : List ℕ

-- Of a callback the state has what it answers, or whether it is set.
pub record ElectionManager : Type 0 where
  pub local_id : NodeId
  pub local_name : List ℕ
  pub status : RegistryStatus
  pub term : ℕ
  pub voted_for : Option NodeId
  pub registry_id : Option NodeId
  pub registry_name : Option (List ℕ)
  pub registry_addr : Option (List ℕ)
  pub missed_heartbeats : ℕ
  pub heartbeat_miss_threshold : ℕ
  pub known_nodes : List KnownNode
  pub votes_received : List NodeId
  pub send_fn : Option (List ℕ → List ℕ → Bool)
  pub registry_control : Bool
  pub sync_callback : Option (List ℕ)
  pub load_callback : Bool

-- A call of one of the callbacks.
pub data Effect : Type 0 where
  send : List ℕ → List ℕ → Effect
  control : Bool → Effect
  load : List ℕ → Effect

abbrev pub default_heartbeat_miss_threshold : ℕ
default_heartbeat_miss_threshold = 3

-- `config` is the threshold of the configuration that is given, if any.
unfoldable pub new : NodeId → List ℕ → Option ℕ → ElectionManager
new local_id local_name config = record {
  local_id = local_id;
  local_name = local_name;
  status = RegistryStatus.follower;
  term = 0;
  voted_for = none;
  registry_id = none;
  registry_name = none;
  registry_addr = none;
  missed_heartbeats = 0;
  heartbeat_miss_threshold = elim config [ none ↦ default_heartbeat_miss_threshold | some n ↦ n ];
  known_nodes = [];
  votes_received = [];
  send_fn = none;
  registry_control = false;
  sync_callback = none;
  load_callback = false;
}

unfoldable pub set_send_fn : ElectionManager → (List ℕ → List ℕ → Bool) → ElectionManager
set_send_fn m f = record m { send_fn = some f }

unfoldable pub set_registry_control : ElectionManager → ElectionManager
set_registry_control m = record m { registry_control = true }

unfoldable pub set_sync_callback : ElectionManager → List ℕ → ElectionManager
set_sync_callback m answer = record m { sync_callback = some answer }

unfoldable pub set_load_callback : ElectionManager → ElectionManager
set_load_callback m = record m { load_callback = true }

-- `nodes.iter().any(|n| n.id == id)`
unfoldable pub knows : NodeId → List KnownNode → Bool
knows id [] = false
knows id (n ∷ nodes) = ite (node_eq n.id id) true (knows id nodes)

unfoldable pub add_known_node : ElectionManager → NodeId → List ℕ → List ℕ → ElectionManager
add_known_node m id name addr =
    if not (knows id m.known_nodes)
    then record m {
      known_nodes = m.known_nodes ++ (record { id = id; name = name; addr = addr } ∷ []);
    }
    else m

-- `guard.retain(|n| n.id != *id)`
unfoldable pub forget : NodeId → List KnownNode → List KnownNode
forget id [] = []
forget id (n ∷ nodes) = ite (node_eq n.id id) (forget id nodes) (n ∷ forget id nodes)

unfoldable pub remove_known_node : ElectionManager → NodeId → ElectionManager
remove_known_node m id = record m { known_nodes = forget id m.known_nodes }

unfoldable pub reset_heartbeat_monitor : ElectionManager → ElectionManager
reset_heartbeat_monitor m = record m { missed_heartbeats = 0 }

unfoldable pub set_registry : ElectionManager → NodeId → List ℕ → List ℕ → ElectionManager
unfolding reset_heartbeat_monitor
set_registry m id name addr =
    reset_heartbeat_monitor
      (record m { registry_id = some id; registry_name = some name; registry_addr = some addr })

unfoldable pub record_missed_heartbeat : ElectionManager → ElectionManager
record_missed_heartbeat m = record m { missed_heartbeats = (m.missed_heartbeats + 1) % u32_mod }

unfoldable pub is_registry_healthy : ElectionManager → Bool
is_registry_healthy m = ltb m.missed_heartbeats m.heartbeat_miss_threshold

unfoldable pub should_start_election : ElectionManager → Bool
unfolding is_registry_healthy
should_start_election m =
    if not (is_follower m.status)
    then false
    else elim m.registry_id [ none ↦ false | some id ↦ not (is_registry_healthy m) ]

-- The address under which the local node is known.
unfoldable pub local_addr_in : NodeId → List KnownNode → Option (List ℕ)
local_addr_in id [] = none
local_addr_in id (n ∷ nodes) = ite (node_eq n.id id) (some n.addr) (local_addr_in id nodes)

unfoldable pub get_local_addr : ElectionManager → Option (List ℕ)
unfolding local_addr_in
get_local_addr m = local_addr_in m.local_id m.known_nodes

-- A send that fails is only logged.
unfoldable pub broadcast : ElectionManager → List ℕ → List Effect
broadcast m msg = elim m.send_fn [
  | none ↦ []
  | some f ↦ map (λ n. Effect.send n.addr msg) m.known_nodes
]

unfoldable pub switch_registry : ElectionManager → Bool → List Effect
switch_registry m on = if m.registry_control then Effect.control on ∷ [] else []

-- The status, term and votes that `become_follower` leaves, and its call of the control.
unfoldable pub become_follower : ElectionManager → ℕ → Option NodeId → ElectionManager × List Effect
unfolding reset_heartbeat_monitor switch_registry
become_follower m new_term new_registry_id = (
  reset_heartbeat_monitor (record m {
    term = if ltb m.term new_term then new_term else m.term;
    status = RegistryStatus.follower;
    voted_for = none;
    votes_received = [];
    registry_id = elim new_registry_id [ none ↦ m.registry_id | some id ↦ some id ];
  }),
  elim new_registry_id [
    | none ↦ []
    | some id ↦ ite (node_eq id m.local_id) [] (switch_registry m false)
  ],
)

-- The list has the node.
unfoldable pub contains : NodeId → List NodeId → Bool
contains id [] = false
contains id (v ∷ votes) = ite (node_eq v id) true (contains id votes)

module _ (sha256 : List ℕ → List ℕ) where
  unfoldable pub compute_candidate_hash : NodeId → ℕ → ℕ
  compute_candidate_hash candidate_id term =
      from_be (take 8 (sha256 (candidate_id ++ be_bytes 8 term)))

  unfoldable pub should_vote_for : ElectionManager → NodeId → ℕ → Bool
  should_vote_for m candidate_id term = elim m.voted_for [
    | some id ↦ false
    | none ↦
        ite (node_eq candidate_id m.local_id) true
          (ltb (from_be (take 8 m.local_id)) (compute_candidate_hash candidate_id term))
  ]

  -- The manager after a request that could be read, and whether the vote is granted.
  unfoldable pub decide_vote : ElectionManager → ElectionRequestPayload → ElectionManager × Bool
  unfolding should_vote_for become_follower
  decide_vote m req =
      if ltb req.term m.term
      then (m, false)
      else let m' = if ltb m.term req.term then (become_follower m req.term none).0 else m in
        if should_vote_for m' req.candidate_id req.term
        then (record m' { voted_for = some req.candidate_id }, true)
        else (m', false)
