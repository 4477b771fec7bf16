-- ===== src/Registry/Election/Terms.antt =====
-- How the term of a node moves, and how often it votes in one term
-- (crates/vpn/src/registry/election.rs).

use lan_link.Prelude.{
  ℕ, suc, ◌≤◌, ◌<◌, ◌≡◌, ◌≢◌, refl, List, [], ◌∷◌, ◌++◌, Bool, true, Option, none, some, ◌==◌,
  if◌then◌else◌, arith, Bool-cases, inl, inr,
}
use lan_link.Prelude.Branches.{on_option}
use lan_link.Prelude.Words.{u64_mod}
use lan_link.Prelude.Result.{Result, ok, err}
use lan_link.Vpn.Identity.{NodeId}
use lan_link.Registry.Messages.{
  ElectionMessageType, to_u8, from_u8, ElectionRequestPayload, ElectionVotePayload,
  ElectionResultPayload, RegistryChangePayload, RegistrySyncPayload, RegistrySyncResponsePayload,
  Json,
}
use lan_link.Registry.Manager.{
  ElectionError, ElectionManager, Effect, add_known_node, remove_known_node,
  reset_heartbeat_monitor, set_registry, record_missed_heartbeat, set_send_fn, set_registry_control,
  set_sync_callback, set_load_callback, become_follower, should_vote_for, decide_vote,
}
use lan_link.Registry.Handlers.{
  start_election, become_leader, count_vote, receive_vote, receive_result, receive_change,
  receive_sync, receive_response, handle_sync_response, build_vote_message,
}
use lan_link.Registry.Election.{
  Handled, Event, dispatch, handle_message, handle_election_request, handle_election_vote,
  handle_election_result, handle_registry_change, handle_registry_sync, step,
}

-- The first term in which the node can still vote.
abbrev next_free : Option NodeId → ℕ → ℕ
next_free none term = term
next_free (some id) term = suc term

abbrev pub open_term : ElectionManager → ℕ
open_term m = next_free m.voted_for m.term

pub decide_vote-open :
    (sha256 : List ℕ → List ℕ) (m : ElectionManager) (req : ElectionRequestPayload)
    → (open_term m ≤ open_term (decide_vote sha256 m req).0)
      × (m.term ≤ (decide_vote sha256 m req).0.term)
      × ((decide_vote sha256 m req).1 ≡ true
          → (open_term m ≤ req.term) × (suc req.term ≤ open_term (decide_vote sha256 m req).0))
unfolding decide_vote should_vote_for become_follower reset_heartbeat_monitor
decide_vote-open sha256 m req = ground arith

module _ (json : Json) where
  receive_vote-open :
      (m : ElectionManager) (v : ElectionVotePayload)
      → (open_term (receive_vote json m v).0 ≡ open_term m)
        × ((receive_vote json m v).0.term ≡ m.term)
  unfolding receive_vote count_vote become_leader
  receive_vote-open m v = ground arith

  receive_sync-open :
      (m : ElectionManager) (s : RegistrySyncPayload)
      → (open_term m ≤ open_term (receive_sync json m s).0)
        × (m.term ≤ (receive_sync json m s).0.term)
  unfolding receive_sync become_follower reset_heartbeat_monitor
  receive_sync-open m s = ground arith

receive_result-open :
    (m : ElectionManager) (r : ElectionResultPayload)
    → (r.term ≢ m.term → open_term m ≤ open_term (receive_result m r).0)
      × (m.term ≤ (receive_result m r).0.term)
unfolding receive_result become_follower reset_heartbeat_monitor
receive_result-open m s = ground arith

receive_change-open :
    (m : ElectionManager) (c : RegistryChangePayload)
    → (c.term ≢ m.term → open_term m ≤ open_term (receive_change m c).0)
      × (m.term ≤ (receive_change m c).0.term)
unfolding receive_change become_follower reset_heartbeat_monitor
receive_change-open m s = ground arith

receive_response-open :
    (m : ElectionManager) (r : RegistrySyncResponsePayload)
    → (open_term m ≤ open_term (receive_response m r).0) × (m.term ≤ (receive_response m r).0.term)
unfolding receive_response
receive_response-open m s = ground arith

module _ (json : Json) where
  start_election-open :
      (m : ElectionManager)
      → suc m.term < u64_mod
      → (m.term ≤ (start_election json m).0.term)
        × (open_term m ≤ open_term (start_election json m).0)
        × ((start_election json m).0.term ≢ m.term
            → (open_term m ≤ (start_election json m).0.term)
              × (suc (start_election json m).0.term ≤ open_term (start_election json m).0))
  unfolding start_election
  start_election-open m h = ground arith

  -- The terms for which a reply grants a vote, by what the reply says.
  abbrev pub granted_in : Result ElectionError (Option (List ℕ)) → List ℕ
  granted_in (err e) = []
  granted_in (ok none) = []
  granted_in (ok (some [])) = []
  granted_in (ok (some (b ∷ payload))) =
      if b == 0x12
      then (elim (json.read_vote payload) [
        | none ↦ []
        | some v ↦ if v.granted then v.term ∷ [] else []
      ])
      else []

  granted_in-vote :
      (m : ElectionManager) (id : NodeId) (term : ℕ) (granted : Bool)
      → granted_in (ok (some (build_vote_message json m id term granted)))
        ≡ (if granted then term ∷ [] else [])
  unfolding build_vote_message to_u8
  granted_in-vote m id term granted = rw (json.read-write_vote _) refl

  granted_in-sync :
      (m : ElectionManager) (s : RegistrySyncPayload)
      → granted_in (ok (receive_sync json m s).2) ≡ []
  unfolding receive_sync to_u8
  granted_in-sync m s = ground arith

  -- No message says that somebody else was elected in the term that the node is in.
  abbrev pub QuietMessage : ElectionManager → Option ElectionMessageType → List ℕ → Type 0
  QuietMessage m none payload = Unit
  QuietMessage m (some ElectionMessageType.election_request) payload = Unit
  QuietMessage m (some ElectionMessageType.election_vote) payload = Unit
  QuietMessage m (some ElectionMessageType.election_result) payload =
      (r : ElectionResultPayload) → json.read_result payload ≡ some r → r.term ≢ m.term
  QuietMessage m (some ElectionMessageType.registry_change) payload =
      (c : RegistryChangePayload) → json.read_change payload ≡ some c → c.term ≢ m.term
  QuietMessage m (some ElectionMessageType.registry_sync) payload = Unit

  abbrev pub Ascends : ℕ → List ℕ → Type 0
  Ascends low [] = Unit
  Ascends low (t ∷ terms) = (low ≤ t) × Ascends (suc t) terms

  -- The same, and the last term is below `high`.
  abbrev Between : ℕ → ℕ → List ℕ → Type 0
  Between low high [] = low ≤ high
  Between low high (t ∷ terms) = (low ≤ t) × Between (suc t) high terms

  Ascends-lower :
      (low low' : ℕ) (terms : List ℕ) → low' ≤ low → Ascends low terms → Ascends low' terms
  Ascends-lower low low' [] h a = tt
  Ascends-lower low low' (t ∷ terms) h a = (omega (arith, a.0), a.1)

  Ascends-append :
      (low high : ℕ) (terms rest : List ℕ)
      → Between low high terms
      → Ascends high rest
      → Ascends low (terms ++ rest)
  Ascends-append low high [] rest b a = Ascends-lower high low rest b a
  Ascends-append low high (t ∷ terms) rest b a = (b.0, Ascends-append (suc t) high terms rest b.1 a)

  abbrev Continues : ElectionManager → Handled → Type 0
  Continues m h = (m.term ≤ h.0.term) × Between (open_term m) (open_term h.0) (granted_in h.2)

  module _ (sha256 : List ℕ → List ℕ) where
    Continues-request :
        (m : ElectionManager) (payload : List ℕ)
        → Continues m (handle_election_request sha256 json m payload)
    unfolding handle_election_request
    Continues-request m payload =
        on_option (Continues m) (json.read_request payload) (λ _. (omega arith, omega arith))
          (λ req e.
            let next = decide_vote sha256 m req in
            let moved = decide_vote-open sha256 m req in
            rw (granted_in-vote next.0 req.candidate_id req.term next.1) (
              moved.1,
              elim (Bool-cases next.1) [ inl g ↦ rw g (moved.2 g) | inr d ↦ rw d (moved.0) ],
            ))

    -- Every handler goes on in this way, unless the message reports a leader of the same term.
    dispatch-Continues :
        (type : Option ElectionMessageType) (m : ElectionManager) (payload : List ℕ)
        → QuietMessage m type payload
        → Continues m (dispatch sha256 json type m payload)
    unfolding dispatch handle_election_vote handle_election_result handle_registry_change
        handle_registry_sync
    dispatch-Continues none m payload q = (omega arith, omega arith)
    dispatch-Continues (some ElectionMessageType.election_request) m payload q =
        Continues-request m payload
    dispatch-Continues (some ElectionMessageType.election_vote) m payload q =
        on_option (Continues m) (json.read_vote payload) (λ _. (omega arith, omega arith))
          (λ v e.
            let moved = receive_vote-open json m v in
            (omega (arith, moved.1), omega (arith, moved.0)))
    dispatch-Continues (some ElectionMessageType.election_result) m payload q =
        on_option (Continues m) (json.read_result payload) (λ _. (omega arith, omega arith))
          (λ r e. let moved = receive_result-open m r in (moved.1, moved.0 (q r e)))
    dispatch-Continues (some ElectionMessageType.registry_change) m payload q =
        on_option (Continues m) (json.read_change payload) (λ _. (omega arith, omega arith))
          (λ c e. let moved = receive_change-open m c in (moved.1, moved.0 (q c e)))
    dispatch-Continues (some ElectionMessageType.registry_sync) m payload q =
        on_option (Continues m) (json.read_sync payload) (λ _. (omega arith, omega arith))
          (λ s e.
            let moved = receive_sync-open json m s in rw (granted_in-sync m s) (moved.1, moved.0))

    abbrev pub type_of : List ℕ → Option ElectionMessageType × List ℕ
    type_of [] = (none, [])
    type_of (b ∷ payload) = (from_u8 b, payload)

    -- Between the calls that a run makes: elections do not start at the last term, and no message
    -- reports a leader of the node's own term.
    abbrev pub IsQuiet : ElectionManager → Event → Type 0
    IsQuiet m Event.start = suc m.term < u64_mod
    IsQuiet m (Event.receive bytes) = QuietMessage m (type_of bytes).0 (type_of bytes).1
    IsQuiet m e = Unit

    abbrev pub IsQuietRun : ElectionManager → List Event → Type 0
    IsQuietRun m [] = Unit
    IsQuietRun m (e ∷ events) = IsQuiet m e × IsQuietRun (step sha256 json m e) events

    -- The terms of the votes that a node gives in a step: its own when it starts an election, and
    -- those that its reply grants.
    abbrev pub votes_in : ElectionManager → Event → List ℕ
    votes_in m Event.start =
        if (start_election json m).0.term == m.term then [] else (start_election json m).0.term ∷ []
    votes_in m (Event.receive bytes) = granted_in (handle_message sha256 json m bytes).2
    votes_in m e = []

    abbrev pub votes_of : ElectionManager → List Event → List ℕ
    votes_of m [] = []
    votes_of m (e ∷ events) = votes_in m e ++ votes_of (step sha256 json m e) events

    step-Continues :
        (m : ElectionManager) (e : Event)
        → IsQuiet m e
        → (m.term ≤ (step sha256 json m e).term)
          × Between (open_term m) (open_term (step sha256 json m e)) (votes_in m e)
    unfolding step handle_sync_response add_known_node remove_known_node reset_heartbeat_monitor
        set_registry record_missed_heartbeat set_send_fn set_registry_control set_sync_callback
        set_load_callback
    step-Continues m Event.start q =
        let moved = start_election-open m q in
        (
          moved.0,
          elim (Bool-cases ((start_election json m).0.term == m.term)) [
            | inl s ↦ rw s (moved.1)
            | inr d ↦ rw d (moved.2 (ground arith))
          ],
        )
    step-Continues m (Event.add_node id name addr) q = ground arith
    step-Continues m (Event.remove_node id) q = ground arith
    step-Continues m (Event.set_center id name addr) q = ground arith
    step-Continues m Event.heartbeat q = ground arith
    step-Continues m Event.missed q = ground arith
    step-Continues m (Event.receive []) q = unfold handle_message in (omega arith, omega arith)
    step-Continues m (Event.receive (b ∷ payload)) q =
        unfold handle_message in (dispatch-Continues (from_u8 b) m payload q)
    step-Continues m (Event.response payload) q =
        on_option
          (λ (h : ElectionManager × List Effect × Result ElectionError (Unit {0})).
            (m.term ≤ h.0.term) × (open_term m ≤ open_term h.0))
          (json.read_response payload) (λ _. (omega arith, omega arith))
          (λ r e. let moved = receive_response-open m r in (moved.1, moved.0))
    step-Continues m (Event.sending f) q = ground arith
    step-Continues m Event.controlled q = ground arith
    step-Continues m (Event.syncing answer) q = ground arith
    step-Continues m Event.loading q = ground arith

    -- Whatever is called and whatever arrives, in any order, a node votes at most once in each term,
    -- its votes for itself included, and for ever later terms: if no message reports a leader of
    -- the term that it is in, and no election starts at term 2 ^ 64 - 1.
    pub votes_of-Ascends :
        (m : ElectionManager) (events : List Event)
        → IsQuietRun m events
        → Ascends (open_term m) (votes_of m events)
    votes_of-Ascends m [] q = tt
    votes_of-Ascends m (e ∷ events) q =
        Ascends-append (open_term m) (open_term (step sha256 json m e)) (votes_in m e)
          (votes_of (step sha256 json m e) events) (step-Continues m e q.0).1
          (votes_of-Ascends (step sha256 json m e) events q.1)
