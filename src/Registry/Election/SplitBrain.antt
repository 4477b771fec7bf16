-- ===== src/Registry/Election/SplitBrain.antt =====
-- Two leaders of one term (crates/vpn/src/registry/election.rs).
use lan_link.Prelude.{
  ℕ, suc, ◌<◌, ◌≤◌, ◌≡◌, ◌≢◌, refl, sym, List, [], ◌∷◌, length, take, true, false, none, some,
  arith,
}
use lan_link.Prelude.Words.{u64_mod}
use lan_link.Prelude.Bytes.{from_be}
use lan_link.Prelude.Result.{ok, err}
use lan_link.Vpn.Identity.{NodeId}
use lan_link.Registry.Messages.{
  to_u8, ElectionRequestPayload, ElectionVotePayload, ElectionResultPayload, Json,
}
use lan_link.Registry.Manager.{
  RegistryStatus, is_candidate, ElectionManager, reset_heartbeat_monitor, become_follower, contains,
  compute_candidate_hash, should_vote_for, decide_vote,
}
use lan_link.Registry.Handlers.{
  start_election, become_leader, count_vote, receive_vote, receive_result, build_vote_message,
}
use lan_link.Registry.Election.{Handled, handle_message}
use lan_link.Registry.Election.Reading.{reads_request, reads_vote, reads_result}

-- The reply of a handler, if there is one.
abbrev pub reply_of : Handled → List ℕ
reply_of (m, effects, err e) = []
reply_of (m, effects, ok none) = []
reply_of (m, effects, ok (some bytes)) = bytes

module _ (sha256 : List ℕ → List ℕ) (json : Json) where
  -- What a candidate and a leader broadcast.
  abbrev pub request_from : ElectionManager → List ℕ
  request_from m =
      0x11
      ∷ json.write_request
          (record { candidate_id = m.local_id; candidate_name = m.local_name; term = m.term })

  abbrev pub result_from : ElectionManager → List ℕ
  result_from m =
      0x13
      ∷ json.write_result
          (record { leader_id = m.local_id; leader_name = m.local_name; term = m.term })

  -- The hash test of `should_vote_for` is in favour of the candidate.
  abbrev pub Favours : ElectionManager → NodeId → ℕ → Type 0
  Favours m id term =
      (id ≢ m.local_id) × (from_be (take 8 m.local_id) < compute_candidate_hash sha256 id term)

  started :
      (m : ElectionManager)
      → is_candidate m.status ≡ false
      → length m.known_nodes ≡ 2
      → suc m.term < u64_mod
      → ((start_election json m).0.status ≡ RegistryStatus.candidate)
        × ((start_election json m).0.term ≡ suc m.term)
        × ((start_election json m).0.votes_received ≡ (start_election json m).0.local_id ∷ [])
        × ((start_election json m).0.local_id ≡ m.local_id)
        × (length (start_election json m).0.known_nodes ≡ 2)
  unfolding start_election
  started m h k q = ground arith

  -- A node that has a vote to give, in the term of the request or in an earlier one.
  abbrev CanVote : ElectionManager → ℕ → Type 0
  CanVote m term = (m.term ≤ term) × (m.term ≡ term → m.voted_for ≡ none)

  decides :
      (m : ElectionManager) (req : ElectionRequestPayload)
      → m.term ≤ req.term
      → (m.term ≡ req.term → m.voted_for ≡ none)
      → Favours m req.candidate_id req.term
      → ((decide_vote sha256 m req).1 ≡ true)
        × ((decide_vote sha256 m req).0.term ≡ req.term)
        × ((decide_vote sha256 m req).0.local_id ≡ m.local_id)
  unfolding decide_vote should_vote_for become_follower reset_heartbeat_monitor
  decides m req h v f = ground arith

  hears :
      (m : ElectionManager) (r : ElectionResultPayload)
      → m.term ≡ r.term
      → r.leader_id ≢ m.local_id
      → ((receive_result m r).0.term ≡ m.term)
        × ((receive_result m r).0.voted_for ≡ none)
        × ((receive_result m r).0.local_id ≡ m.local_id)
  unfolding receive_result become_follower reset_heartbeat_monitor
  hears m r h n = ground arith

  wins :
      (m : ElectionManager) (v : ElectionVotePayload)
      → m.status ≡ RegistryStatus.candidate
      → v.term ≡ m.term
      → v.candidate_id ≡ m.local_id
      → v.granted ≡ true
      → v.voter_id ≢ m.local_id
      → m.votes_received ≡ m.local_id ∷ []
      → length m.known_nodes ≡ 2
      → ((receive_vote json m v).0.status ≡ RegistryStatus.leader)
        × ((receive_vote json m v).0.term ≡ m.term)
        × ((receive_vote json m v).0.local_id ≡ m.local_id)
        × ((receive_vote json m v).0.local_name ≡ m.local_name)
  unfolding receive_vote count_vote contains become_leader
  wins m v c t i g n r k = rw (c, r) (ground arith)

  -- A node that has no vote for the term of the request grants it, and is in that term afterwards.
  grants :
      (m a : ElectionManager)
      → m.term ≤ a.term
      → (m.term ≡ a.term → m.voted_for ≡ none)
      → Favours m a.local_id a.term
      → let h = handle_message sha256 json m (request_from a) in
        (h.0.term ≡ a.term)
        × (h.0.local_id ≡ m.local_id)
        × (reply_of h
            ≡ 0x12
              ∷ json.write_vote (record {
                voter_id = m.local_id;
                candidate_id = a.local_id;
                term = a.term;
                granted = true;
              }))
  unfolding build_vote_message to_u8
  grants m a h v f =
      let req : ElectionRequestPayload = record {
        candidate_id = a.local_id;
        candidate_name = a.local_name;
        term = a.term;
      } in
      let d = decides m req h v f in
      rw (reads_request sha256 json m (json.write_request req) req (json.read-write_request req))
        (d.1, d.2, rw (d.0, d.2) refl)

  -- A node that hears of a leader of its own term has a vote to give in that term again.
  frees :
      (m a : ElectionManager)
      → m.term ≡ a.term
      → a.local_id ≢ m.local_id
      → let h = handle_message sha256 json m (result_from a) in
        (h.0.term ≡ m.term) × (h.0.voted_for ≡ none) × (h.0.local_id ≡ m.local_id)
  frees m a h n =
      let r : ElectionResultPayload = record {
        leader_id = a.local_id;
        leader_name = a.local_name;
        term = a.term;
      } in
      rw (reads_result sha256 json m (json.write_result r) r (json.read-write_result r))
        (hears m r h n)

  elected :
      (m : ElectionManager) (v : ElectionVotePayload) (bytes : List ℕ)
      → bytes ≡ 0x12 ∷ json.write_vote v
      → m.status ≡ RegistryStatus.candidate
      → v.term ≡ m.term
      → v.candidate_id ≡ m.local_id
      → v.granted ≡ true
      → v.voter_id ≢ m.local_id
      → m.votes_received ≡ m.local_id ∷ []
      → length m.known_nodes ≡ 2
      → let h = handle_message sha256 json m bytes in
        (h.0.status ≡ RegistryStatus.leader)
        × (h.0.term ≡ m.term)
        × (h.0.local_id ≡ m.local_id)
        × (h.0.local_name ≡ m.local_name)
  elected m v bytes e c t i g n r k =
      rw (e, reads_vote sha256 json m (json.write_vote v) v (json.read-write_vote v))
        (wins m v c t i g n r k)

  -- Two nodes of a network of three that start an election in the same term both become leader in the
  -- next term, if the hash test of the third node is in favour of both: it votes for the first, hears
  -- that the first was elected, and then votes for the second in the same term.
  pub two_leaders :
      (a b c : ElectionManager) (t : ℕ)
      → is_candidate a.status ≡ false
      → is_candidate b.status ≡ false
      → length a.known_nodes ≡ 2
      → length b.known_nodes ≡ 2
      → a.term ≡ t
      → b.term ≡ t
      → c.term ≤ t
      → suc t < u64_mod
      → Favours c a.local_id (suc t)
      → Favours c b.local_id (suc t)
      → let a' = (start_election json a).0 in
        let b' = (start_election json b).0 in
        let first = handle_message sha256 json c (request_from a') in
        let leader_a = (handle_message sha256 json a' (reply_of first)).0 in
        let heard = handle_message sha256 json first.0 (result_from leader_a) in
        let second = handle_message sha256 json heard.0 (request_from b') in
        let leader_b = (handle_message sha256 json b' (reply_of second)).0 in
        (leader_a.status ≡ RegistryStatus.leader)
        × (leader_b.status ≡ RegistryStatus.leader)
        × (leader_a.term ≡ suc t)
        × (leader_b.term ≡ suc t)
  two_leaders a b c t sa sb ka kb ta tb tc q fa fb =
      let sa' = started a sa ka (omega arith) in
      let sb' = started b sb kb (omega arith) in
      let a' = (start_election json a).0 in
      let b' = (start_election json b).0 in
      let at : a'.term ≡ suc t = omega (arith, sa'.1) in
      let bt : b'.term ≡ suc t = omega (arith, sb'.1) in
      let first = handle_message sha256 json c (request_from a') in
      let favour_a : Favours c a'.local_id a'.term = rw (sa'.3, at) fa in
      let g = grants c a' (omega arith) (λ e. absurd (omega arith)) favour_a in
      let vote_a : ElectionVotePayload = record {
        voter_id = c.local_id;
        candidate_id = a'.local_id;
        term = a'.term;
        granted = true;
      } in
      let won =
        elected a' vote_a (reply_of first) g.2 sa'.0 refl refl refl (λ e. favour_a.0 (sym e)) sa'.2
          sa'.4 in
      let leader_a = (handle_message sha256 json a' (reply_of first)).0 in
      let f = frees first.0 leader_a (omega (arith, g.0, won.1)) (rw (won.2, g.1) favour_a.0) in
      let heard = handle_message sha256 json first.0 (result_from leader_a) in
      let favour_b : Favours heard.0 b'.local_id b'.term = rw (f.2, g.1, sb'.3, bt) fb in
      let g' = grants heard.0 b' (omega (arith, f.0, g.0)) (λ _. f.1) favour_b in
      let vote_b : ElectionVotePayload = record {
        voter_id = heard.0.local_id;
        candidate_id = b'.local_id;
        term = b'.term;
        granted = true;
      } in
      let second = handle_message sha256 json heard.0 (request_from b') in
      let won' =
        elected b' vote_b (reply_of second) g'.2 sb'.0 refl refl refl (λ e. favour_b.0 (sym e))
          sb'.2 sb'.4 in
      (won.0, won'.0, omega (arith, won.1), omega (arith, won'.1))
