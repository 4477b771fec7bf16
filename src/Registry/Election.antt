-- ===== src/Registry/Election.antt =====
-- `handle_message` of `ElectionManager` (crates/vpn/src/registry/election.rs), and the runs of a node.
pub mod Terms
pub mod Reading
pub mod Leadership
pub mod Winning
pub mod Detection
pub mod SplitBrain
use lan_link.Prelude.{
  ℕ, zero, suc, ◌+◌, ◌/◌, ◌%◌, List, [], ◌∷◌, ◌++◌, length, Bool, true, false, not, Option, none,
  some, ltb, ◌==◌, if◌then◌else◌, ite,
}
use lan_link.Prelude.Words.{u64_mod}
use lan_link.Prelude.Result.{Result, ok, err}
use lan_link.Vpn.Identity.{NodeId, node_eq}
use lan_link.Registry.Messages.{
  ElectionMessageType, to_u8, from_u8, ElectionRequestPayload, ElectionVotePayload,
  ElectionResultPayload, RegistryChangePayload, RegistrySyncPayload, RegistrySyncResponsePayload,
  Json,
}
use lan_link.Registry.Manager.{
  RegistryStatus, is_candidate, is_leader, ElectionError, ElectionManager, Effect, add_known_node,
  remove_known_node, reset_heartbeat_monitor, set_registry, record_missed_heartbeat, set_send_fn,
  set_registry_control, set_sync_callback, set_load_callback, get_local_addr, broadcast,
  switch_registry, become_follower, contains, decide_vote,
}
use lan_link.Registry.Handlers.{
  start_election, become_leader, count_vote, receive_vote, receive_result, receive_change,
  receive_sync, receive_response, handle_sync_response, build_vote_message,
}

-- What a handler returns: the state, the calls of the callbacks, and the reply.
abbrev pub Handled : Type 0
Handled = ElectionManager × List Effect × Result ElectionError (Option (List ℕ))

abbrev pub unparsed : ElectionManager → Handled
unparsed m = (m, [], err ElectionError.serialize_error)

abbrev pub unanswered : ElectionManager × List Effect → Handled
unanswered next = (next.0, next.1, ok none)

pub data Event : Type 0 where
  start : Event
  add_node : NodeId → List ℕ → List ℕ → Event
  remove_node : NodeId → Event
  set_center : NodeId → List ℕ → List ℕ → Event
  heartbeat : Event
  missed : Event
  receive : List ℕ → Event
  response : List ℕ → Event
  sending : (List ℕ → List ℕ → Bool) → Event
  controlled : Event
  syncing : List ℕ → Event
  loading : Event

module _ (sha256 : List ℕ → List ℕ) (json : Json) where
  unfoldable pub handle_election_request : ElectionManager → List ℕ → Handled
  unfolding decide_vote build_vote_message
  handle_election_request m payload = elim (json.read_request payload) [
    | none ↦ unparsed m
    | some req ↦
        let next = decide_vote sha256 m req in
        (next.0, [], ok (some (build_vote_message json next.0 req.candidate_id req.term next.1)))
  ]

  unfoldable pub handle_election_vote : ElectionManager → List ℕ → Handled
  unfolding receive_vote
  handle_election_vote m payload = elim (json.read_vote payload) [
    | none ↦ unparsed m
    | some vote ↦ unanswered (receive_vote json m vote)
  ]

  unfoldable pub handle_election_result : ElectionManager → List ℕ → Handled
  unfolding receive_result
  handle_election_result m payload = elim (json.read_result payload) [
    | none ↦ unparsed m
    | some result ↦ unanswered (receive_result m result)
  ]

  unfoldable pub handle_registry_change : ElectionManager → List ℕ → Handled
  unfolding receive_change
  handle_registry_change m payload = elim (json.read_change payload) [
    | none ↦ unparsed m
    | some change ↦ unanswered (receive_change m change)
  ]

  unfoldable pub handle_registry_sync : ElectionManager → List ℕ → Handled
  unfolding receive_sync
  handle_registry_sync m payload = elim (json.read_sync payload) [
    | none ↦ unparsed m
    | some sync ↦ let next = receive_sync json m sync in (next.0, next.1, ok next.2)
  ]

  unfoldable pub dispatch : Option ElectionMessageType → ElectionManager → List ℕ → Handled
  unfolding handle_election_request handle_election_vote handle_election_result
      handle_registry_change handle_registry_sync
  dispatch none m payload = (m, [], ok none)
  dispatch (some ElectionMessageType.election_request) m payload = handle_election_request m payload
  dispatch (some ElectionMessageType.election_vote) m payload = handle_election_vote m payload
  dispatch (some ElectionMessageType.election_result) m payload = handle_election_result m payload
  dispatch (some ElectionMessageType.registry_change) m payload = handle_registry_change m payload
  dispatch (some ElectionMessageType.registry_sync) m payload = handle_registry_sync m payload

  unfoldable pub handle_message : ElectionManager → List ℕ → Handled
  unfolding dispatch from_u8
  handle_message m [] = (m, [], ok none)
  handle_message m (b ∷ payload) = dispatch (from_u8 b) m payload

  -- The state after a call of a method from outside.
  unfoldable pub step : ElectionManager → Event → ElectionManager
  unfolding start_election handle_message handle_sync_response
  step m Event.start = (start_election json m).0
  step m (Event.add_node id name addr) = add_known_node m id name addr
  step m (Event.remove_node id) = remove_known_node m id
  step m (Event.set_center id name addr) = set_registry m id name addr
  step m Event.heartbeat = reset_heartbeat_monitor m
  step m Event.missed = record_missed_heartbeat m
  step m (Event.receive bytes) = (handle_message m bytes).0
  step m (Event.response payload) = (handle_sync_response json m payload).0
  step m (Event.sending f) = set_send_fn m f
  step m Event.controlled = set_registry_control m
  step m (Event.syncing answer) = set_sync_callback m answer
  step m Event.loading = set_load_callback m

  unfoldable pub run : ElectionManager → List Event → ElectionManager
  run m [] = m
  run m (e ∷ events) = run (step m e) events
