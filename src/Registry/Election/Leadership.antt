-- ===== src/Registry/Election/Leadership.antt =====
-- Who becomes leader (crates/vpn/src/registry/election.rs).

use lan_link.Prelude.{
  ℕ, ◌+◌, ◌/◌, ◌<◌, ◌≡◌, ◌≢◌, refl, sym, List, [], ◌∷◌, ◌++◌, length, All, true, false, Option,
  none, some, arith,
}
use lan_link.Prelude.Branches.{on_option}
use lan_link.Prelude.Result.{Result}
use lan_link.Vpn.Identity.{NodeId}
use lan_link.Registry.Messages.{
  ElectionMessageType, from_u8, ElectionRequestPayload, ElectionVotePayload, ElectionResultPayload,
  RegistryChangePayload, RegistrySyncPayload, RegistrySyncResponsePayload, Json,
}
use lan_link.Registry.Manager.{
  is_leader, ElectionError, ElectionManager, Effect, add_known_node, remove_known_node,
  reset_heartbeat_monitor, set_registry, record_missed_heartbeat, set_send_fn, set_registry_control,
  set_sync_callback, set_load_callback, become_follower, decide_vote, contains,
}
use lan_link.Registry.Handlers.{
  start_election, become_leader, count_vote, receive_vote, receive_result, receive_change,
  receive_sync, receive_response, handle_sync_response,
}
use lan_link.Registry.Election.{
  Handled, Event, dispatch, handle_message, handle_election_request, handle_election_vote,
  handle_election_result, handle_registry_change, handle_registry_sync, step, run,
}

-- No vote is of the node; the votes are of different nodes.
abbrev pub Unvoted : NodeId → List NodeId → Type 0
Unvoted id = All (λ v. v ≢ id)

abbrev pub IsDistinct : List NodeId → Type 0
IsDistinct [] = Unit
IsDistinct (v ∷ votes) = Unvoted v votes × IsDistinct votes

Unvoted-contains :
    (id : NodeId) (votes : List NodeId) → contains id votes ≡ false → Unvoted id votes
unfolding contains
Unvoted-contains id [] h = tt
Unvoted-contains id (v ∷ votes) h = ground (arith, Unvoted-contains id votes)

pub contains-Unvoted :
    (id : NodeId) (votes : List NodeId) → Unvoted id votes → contains id votes ≡ false
unfolding contains
contains-Unvoted id [] h = refl
contains-Unvoted id (v ∷ votes) h = ground (arith, contains-Unvoted id votes h.1)

pub Unvoted-snoc :
    (id : NodeId) (votes : List NodeId) (v : NodeId)
    → Unvoted id votes
    → v ≢ id
    → Unvoted id (votes ++ (v ∷ []))
Unvoted-snoc id [] v a n = (n, tt)
Unvoted-snoc id (w ∷ votes) v a n = (a.0, Unvoted-snoc id votes v a.1 n)

IsDistinct-snoc :
    (votes : List NodeId) (v : NodeId)
    → IsDistinct votes
    → Unvoted v votes
    → IsDistinct (votes ++ (v ∷ []))
IsDistinct-snoc [] v d a = (tt, tt)
IsDistinct-snoc (w ∷ votes) v d a =
    (Unvoted-snoc w votes v d.0 (λ e. a.0 (sym e)), IsDistinct-snoc votes v d.1 a.1)

-- The votes that the node counts are of different nodes, and more than half of those that it knows
-- and itself.
abbrev pub HasMajority : ElectionManager → Type 0
HasMajority m =
    IsDistinct m.votes_received × ((length m.known_nodes + 1) / 2 < length m.votes_received)

-- How a call may change the votes and the status.
abbrev Sound : ElectionManager → ElectionManager → Type 0
Sound m m' =
    (IsDistinct m.votes_received → IsDistinct m'.votes_received)
    × (IsDistinct m.votes_received
        → is_leader m.status ≡ false
        → is_leader m'.status ≡ true
        → HasMajority m')

decide_vote-Sound :
    (sha256 : List ℕ → List ℕ) (m : ElectionManager) (req : ElectionRequestPayload)
    → Sound m (decide_vote sha256 m req).0
unfolding decide_vote become_follower reset_heartbeat_monitor
decide_vote-Sound sha256 m req = ground arith

receive_result-Sound :
    (m : ElectionManager) (r : ElectionResultPayload) → Sound m (receive_result m r).0
unfolding receive_result become_follower reset_heartbeat_monitor
receive_result-Sound m r = ground arith

receive_change-Sound :
    (m : ElectionManager) (c : RegistryChangePayload) → Sound m (receive_change m c).0
unfolding receive_change become_follower reset_heartbeat_monitor
receive_change-Sound m c = ground arith

receive_response-Sound :
    (m : ElectionManager) (r : RegistrySyncResponsePayload) → Sound m (receive_response m r).0
unfolding receive_response
receive_response-Sound m r = ground arith

module _ (json : Json) where
  receive_sync-Sound :
      (m : ElectionManager) (s : RegistrySyncPayload) → Sound m (receive_sync json m s).0
  unfolding receive_sync become_follower reset_heartbeat_monitor
  receive_sync-Sound m s = ground arith

  start_election-Sound : (m : ElectionManager) → Sound m (start_election json m).0
  unfolding start_election
  start_election-Sound m = ground arith

  receive_vote-Sound :
      (m : ElectionManager) (v : ElectionVotePayload) → Sound m (receive_vote json m v).0
  unfolding receive_vote count_vote become_leader
  receive_vote-Sound m v = ground (
    arith,
    Unvoted-contains v.voter_id m.votes_received,
    IsDistinct-snoc m.votes_received v.voter_id,
  )

module _ (sha256 : List ℕ → List ℕ) (json : Json) where
  dispatch-Sound :
      (type : Option ElectionMessageType) (m : ElectionManager) (payload : List ℕ)
      → Sound m (dispatch sha256 json type m payload).0
  unfolding dispatch handle_election_request handle_election_vote handle_election_result
      handle_registry_change handle_registry_sync
  dispatch-Sound none m payload = ground arith
  dispatch-Sound (some ElectionMessageType.election_request) m payload =
      on_option (λ (h : Handled). Sound m h.0) (json.read_request payload) (λ _. ground arith)
        (λ req _. decide_vote-Sound sha256 m req)
  dispatch-Sound (some ElectionMessageType.election_vote) m payload =
      on_option (λ (h : Handled). Sound m h.0) (json.read_vote payload) (λ _. ground arith)
        (λ v _. receive_vote-Sound json m v)
  dispatch-Sound (some ElectionMessageType.election_result) m payload =
      on_option (λ (h : Handled). Sound m h.0) (json.read_result payload) (λ _. ground arith)
        (λ r _. receive_result-Sound m r)
  dispatch-Sound (some ElectionMessageType.registry_change) m payload =
      on_option (λ (h : Handled). Sound m h.0) (json.read_change payload) (λ _. ground arith)
        (λ c _. receive_change-Sound m c)
  dispatch-Sound (some ElectionMessageType.registry_sync) m payload =
      on_option (λ (h : Handled). Sound m h.0) (json.read_sync payload) (λ _. ground arith)
        (λ s _. receive_sync-Sound json m s)

  step-Sound : (m : ElectionManager) (e : Event) → Sound m (step sha256 json m e)
  unfolding step handle_sync_response add_known_node remove_known_node reset_heartbeat_monitor
      set_registry record_missed_heartbeat set_send_fn set_registry_control set_sync_callback
      set_load_callback handle_message
  step-Sound m Event.start = start_election-Sound json m
  step-Sound m (Event.add_node id name addr) = ground arith
  step-Sound m (Event.remove_node id) = ground arith
  step-Sound m (Event.set_center id name addr) = ground arith
  step-Sound m Event.heartbeat = ground arith
  step-Sound m Event.missed = ground arith
  step-Sound m (Event.receive []) = ground arith
  step-Sound m (Event.receive (b ∷ payload)) = dispatch-Sound (from_u8 b) m payload
  step-Sound m (Event.response payload) =
      on_option
        (λ (h : ElectionManager × List Effect × Result ElectionError (Unit {0})). Sound m h.0)
        (json.read_response payload) (λ _. ground arith) (λ r _. receive_response-Sound m r)
  step-Sound m (Event.sending f) = ground arith
  step-Sound m Event.controlled = ground arith
  step-Sound m (Event.syncing answer) = ground arith
  step-Sound m Event.loading = ground arith

  run-IsDistinct :
      (m : ElectionManager) (events : List Event)
      → IsDistinct m.votes_received
      → IsDistinct (run sha256 json m events).votes_received
  unfolding run
  run-IsDistinct m [] d = d
  run-IsDistinct m (e ∷ events) d =
      run-IsDistinct (step sha256 json m e) events ((step-Sound m e).0 d)

  -- After any sequence of calls and messages on a node that starts with no votes twice, the call or
  -- message that makes it the leader leaves it with votes of different nodes, more than half as many
  -- as it knows nodes and itself.
  pub leader_by_majority :
      (m : ElectionManager) (events : List Event) (e : Event)
      → IsDistinct m.votes_received
      → is_leader (run sha256 json m events).status ≡ false
      → is_leader (step sha256 json (run sha256 json m events) e).status ≡ true
      → HasMajority (step sha256 json (run sha256 json m events) e)
  leader_by_majority m events e d before after =
      (step-Sound (run sha256 json m events) e).1 (run-IsDistinct m events d) before after
