-- ===== src/Registry/Handlers.antt =====
-- What `ElectionManager` does on its own and on the payload of each message
-- (crates/vpn/src/registry/election.rs).
use lan_link.Prelude.{
  ℕ, ◌+◌, ◌/◌, ◌%◌, List, [], ◌∷◌, ◌++◌, length, Bool, true, false, not, Option, none, some, ltb,
  ◌==◌, if◌then◌else◌, ite,
}
use lan_link.Prelude.Words.{u64_mod}
use lan_link.Prelude.Result.{Result, ok, err}
use lan_link.Vpn.Identity.{NodeId, node_eq}
use lan_link.Registry.Messages.{
  ElectionMessageType, to_u8, ElectionRequestPayload, ElectionVotePayload, ElectionResultPayload,
  RegistryChangePayload, RegistrySyncPayload, RegistrySyncResponsePayload, Json,
}
use lan_link.Registry.Manager.{
  RegistryStatus, is_candidate, is_leader, ElectionError, ElectionManager, Effect, get_local_addr,
  broadcast, switch_registry, become_follower, contains,
}

unfoldable pub receive_result :
    ElectionManager → ElectionResultPayload → ElectionManager × List Effect
unfolding become_follower
receive_result m result =
    if ltb result.term m.term
    then (m, [])
    else ite (node_eq result.leader_id m.local_id) (m, [])
        (become_follower m result.term (some result.leader_id))

unfoldable pub receive_change :
    ElectionManager → RegistryChangePayload → ElectionManager × List Effect
unfolding become_follower switch_registry
receive_change m change =
    if ltb change.term m.term
    then (m, [])
    else ite (node_eq change.registry_id m.local_id) (m, [])
        (let m' : ElectionManager = record m {
          registry_id = some change.registry_id;
          registry_name = some change.registry_name;
          registry_addr = some change.registry_addr;
        } in
          let stopped = if is_leader m'.status then switch_registry m' false else [] in
          let next = become_follower m' change.term (some change.registry_id) in
          (next.0, stopped ++ next.1))

unfoldable pub receive_response :
    ElectionManager → RegistrySyncResponsePayload → ElectionManager × List Effect
receive_response m response = (
  record m {
    term = if ltb m.term response.term then response.term else m.term;
    registry_id = some response.leader_id;
    registry_name = some response.leader_name;
  },
  if length response.registry_data == 0
      then []
      else if m.load_callback
      then Effect.load response.registry_data ∷ []
      else [],
)

module _ (json : Json) where
  unfoldable pub start_election :
      ElectionManager → ElectionManager × List Effect × Result ElectionError (Unit {0})
  unfolding broadcast to_u8
  start_election m =
      if is_candidate m.status
      then (m, [], ok tt)
      else if length m.known_nodes == 0
      then (m, [], err ElectionError.not_enough_nodes)
      else let new_term = (m.term + 1) % u64_mod in
        let request : ElectionRequestPayload = record {
          candidate_id = m.local_id;
          candidate_name = m.local_name;
          term = new_term;
        } in
        (
          record m {
            status = RegistryStatus.candidate;
            term = new_term;
            voted_for = some m.local_id;
            votes_received = m.local_id ∷ [];
          },
          broadcast m (to_u8 ElectionMessageType.election_request ∷ json.write_request request),
          ok tt,
        )

  -- The broadcasts of a new leader.
  unfoldable pub announce : ElectionManager → Option (List ℕ) → List Effect
  unfolding broadcast to_u8
  announce m local_addr =
      let result : ElectionResultPayload = record {
        leader_id = m.local_id;
        leader_name = m.local_name;
        term = m.term;
      } in
      broadcast m (to_u8 ElectionMessageType.election_result ∷ json.write_result result)
      ++ (elim local_addr [
        | none ↦ []
        | some addr ↦ broadcast m (
            to_u8 ElectionMessageType.registry_change
            ∷ json.write_change (record {
              registry_id = m.local_id;
              registry_name = m.local_name;
              registry_addr = addr;
              term = m.term;
            }))
      ])

  unfoldable pub become_leader : ElectionManager → ElectionManager × List Effect
  unfolding get_local_addr switch_registry announce
  become_leader m = (
    record m {
      status = RegistryStatus.leader;
      registry_id = some m.local_id;
      registry_name = some m.local_name;
      registry_addr = get_local_addr m;
    },
    switch_registry m true ++ announce m (get_local_addr m),
  )

  unfoldable pub count_vote : ElectionManager → NodeId → ElectionManager × List Effect
  unfolding contains become_leader
  count_vote m voter_id =
      if contains voter_id m.votes_received
      then (m, [])
      else let m' : ElectionManager = record m {
        votes_received = m.votes_received ++ (voter_id ∷ []);
      } in
        if ltb ((length m'.known_nodes + 1) / 2) (length m'.votes_received)
        then become_leader m'
        else (m', [])

  unfoldable pub receive_vote :
      ElectionManager → ElectionVotePayload → ElectionManager × List Effect
  unfolding count_vote
  receive_vote m vote =
      if not (is_candidate m.status)
      then (m, [])
      else if not (vote.term == m.term)
      then (m, [])
      else ite (node_eq vote.candidate_id m.local_id)
          (if vote.granted then count_vote m vote.voter_id else (m, [])) (m, [])

  unfoldable pub receive_sync :
      ElectionManager → RegistrySyncPayload → ElectionManager × List Effect × Option (List ℕ)
  unfolding become_follower to_u8
  receive_sync m sync =
      if not (is_leader m.status)
      then (m, [], none)
      else if ltb m.term sync.term
      then (let next = become_follower m sync.term (some sync.requester_id) in
          (next.0, next.1, none))
      else (
        m,
        [],
        some (
            to_u8 ElectionMessageType.registry_sync
            ∷ json.write_response (record {
              leader_id = m.local_id;
              leader_name = m.local_name;
              term = m.term;
              registry_data = elim m.sync_callback [ none ↦ [] | some answer ↦ answer ];
            })),
      )

  unfoldable pub request_sync :
      ElectionManager → List ℕ → List Effect × Result ElectionError (Unit {0})
  unfolding to_u8
  request_sync m leader_addr =
      let msg =
        to_u8 ElectionMessageType.registry_sync
        ∷ json.write_sync
            (record { requester_id = m.local_id; requester_name = m.local_name; term = m.term }) in
      elim m.send_fn [
        | none ↦ ([], err ElectionError.no_relay_manager)
        | some f ↦ (
          Effect.send leader_addr msg ∷ [],
          if f leader_addr msg then ok tt else err ElectionError.send_failed,
        )
      ]

  unfoldable pub handle_sync_response :
      ElectionManager → List ℕ → ElectionManager × List Effect × Result ElectionError (Unit {0})
  unfolding receive_response
  handle_sync_response m payload = elim (json.read_response payload) [
    | none ↦ (m, [], err ElectionError.serialize_error)
    | some response ↦ let next = receive_response m response in (next.0, next.1, ok tt)
  ]

  unfoldable pub build_vote_message : ElectionManager → NodeId → ℕ → Bool → List ℕ
  unfolding to_u8
  build_vote_message m candidate_id term granted =
      to_u8 ElectionMessageType.election_vote
      ∷ json.write_vote (record {
        voter_id = m.local_id;
        candidate_id = candidate_id;
        term = term;
        granted = granted;
      })
