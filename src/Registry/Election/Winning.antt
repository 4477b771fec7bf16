-- ===== src/Registry/Election/Winning.antt =====
-- A candidate with enough votes is elected (crates/vpn/src/registry/election.rs).

use lan_link.Prelude.{
  ℕ, suc, ◌+◌, ◌/◌, ◌<◌, ◌≤◌, ◌≡◌, refl, ap, sym, subst, ◌∙◌, List, [], ◌∷◌, ◌++◌, map, length,
  length-append, All, true, false, ltb, if◌then◌else◌, arith, Bool-cases, inl, inr,
}
use lan_link.Vpn.Identity.{NodeId}
use lan_link.Registry.Messages.{ElectionVotePayload, Json}
use lan_link.Registry.Manager.{RegistryStatus, is_candidate, ElectionManager, KnownNode, contains}
use lan_link.Registry.Handlers.{start_election, become_leader, count_vote, receive_vote}
use lan_link.Registry.Election.{Handled, Event, step, run}
use lan_link.Registry.Election.Reading.{reads_vote}
use lan_link.Registry.Election.Leadership.{Unvoted, Unvoted-snoc, IsDistinct, contains-Unvoted}

flipped :
    (id : NodeId) (voters : List NodeId) → Unvoted id voters → All (λ w. Unvoted w (id ∷ [])) voters
flipped id [] u = tt
flipped id (v ∷ voters) u = ((λ e. u.0 (sym e), tt), flipped id voters u.1)

module _ (sha256 : List ℕ → List ℕ) (json : Json) where
  -- The message by which a node grants its vote to a candidate.
  abbrev pub grant : NodeId → ℕ → NodeId → Event
  grant candidate_id term voter_id = Event.receive (
      0x12
      ∷ json.write_vote (record {
        voter_id = voter_id;
        candidate_id = candidate_id;
        term = term;
        granted = true;
      }))

  -- What a candidate does with a vote that is new to it.
  abbrev Counted : ElectionManager → NodeId → ElectionManager → Type 0
  Counted m id m' =
      (m'.votes_received ≡ m.votes_received ++ (id ∷ []))
      × (m'.status ≡ (
          if ltb ((length m.known_nodes + 1) / 2) (length (m.votes_received ++ (id ∷ [])))
          then RegistryStatus.leader
          else RegistryStatus.candidate))
      × (m'.known_nodes ≡ m.known_nodes)
      × (m'.local_id ≡ m.local_id)
      × (m'.term ≡ m.term)

  receive_vote-Counted :
      (m : ElectionManager) (v : ElectionVotePayload)
      → m.status ≡ RegistryStatus.candidate
      → v.candidate_id ≡ m.local_id
      → v.term ≡ m.term
      → v.granted ≡ true
      → contains v.voter_id m.votes_received ≡ false
      → Counted m v.voter_id (receive_vote json m v).0
  unfolding receive_vote count_vote become_leader
  receive_vote-Counted m v c i t g u = rw c (ground arith)

  step-grant :
      (m : ElectionManager) (candidate_id : NodeId) (term : ℕ) (id : NodeId)
      → step sha256 json m (grant candidate_id term id)
        ≡ (receive_vote json m
            (record { voter_id = id; candidate_id = candidate_id; term = term; granted = true })).0
  unfolding step
  step-grant m candidate_id term id =
      let v : ElectionVotePayload = record {
        voter_id = id;
        candidate_id = candidate_id;
        term = term;
        granted = true;
      } in
      ap (λ (h : Handled). h.0)
        (reads_vote sha256 json m (json.write_vote v) v (json.read-write_vote v))

  grant-Counted :
      (m : ElectionManager) (candidate_id : NodeId) (term : ℕ) (id : NodeId)
      → m.status ≡ RegistryStatus.candidate
      → candidate_id ≡ m.local_id
      → term ≡ m.term
      → Unvoted id m.votes_received
      → Counted m id (step sha256 json m (grant candidate_id term id))
  grant-Counted m candidate_id term id c i t u =
      let v : ElectionVotePayload = record {
        voter_id = id;
        candidate_id = candidate_id;
        term = term;
        granted = true;
      } in
      subst (Counted m id) (sym (step-grant m candidate_id term id))
        (receive_vote-Counted m v c i t refl (contains-Unvoted id m.votes_received u))

  -- A leader takes no votes.
  receive_vote-leader :
      (m : ElectionManager) (v : ElectionVotePayload)
      → m.status ≡ RegistryStatus.leader
      → (receive_vote json m v).0.status ≡ RegistryStatus.leader
  unfolding receive_vote
  receive_vote-leader m v l = ground arith

  grants-leader :
      (m : ElectionManager) (candidate_id : NodeId) (term : ℕ) (voters : List NodeId)
      → m.status ≡ RegistryStatus.leader
      → (run sha256 json m (map (grant candidate_id term) voters)).status ≡ RegistryStatus.leader
  unfolding run
  grants-leader m candidate_id term [] l = l
  grants-leader m candidate_id term (v ∷ voters) l =
      grants-leader (step sha256 json m (grant candidate_id term v)) candidate_id term voters
        (rw (step-grant m candidate_id term v) (receive_vote-leader m _ l))

  Unvoted-snoc-All :
      (votes : List NodeId) (v : NodeId) (voters : List NodeId)
      → All (λ w. Unvoted w votes) voters
      → Unvoted v voters
      → All (λ w. Unvoted w (votes ++ (v ∷ []))) voters
  Unvoted-snoc-All votes v [] a n = tt
  Unvoted-snoc-All votes v (w ∷ voters) a n =
      (Unvoted-snoc w votes v a.0 (λ e. n.0 (sym e)), Unvoted-snoc-All votes v voters a.1 n.1)

  grants-elect :
      (m : ElectionManager) (candidate_id : NodeId) (term : ℕ) (voters : List NodeId)
      → m.status ≡ RegistryStatus.candidate
      → candidate_id ≡ m.local_id
      → term ≡ m.term
      → IsDistinct voters
      → All (λ w. Unvoted w m.votes_received) voters
      → length m.votes_received ≤ (length m.known_nodes + 1) / 2
      → (length m.known_nodes + 1) / 2 < length m.votes_received + length voters
      → (run sha256 json m (map (grant candidate_id term) voters)).status ≡ RegistryStatus.leader
  unfolding run
  grants-elect m candidate_id term [] c i t d u few many = absurd (omega arith)
  grants-elect m candidate_id term (v ∷ voters) c i t d u few many =
      let m' = step sha256 json m (grant candidate_id term v) in
      let k = grant-Counted m candidate_id term v c i t u.0 in
      let half = (length m.known_nodes + 1) / 2 in
      let more = length-append m.votes_received (v ∷ []) in
      elim (Bool-cases (ltb half (length (m.votes_received ++ (v ∷ []))))) [
        | inl won ↦
            grants-leader m' candidate_id term voters
              (k.1 ∙ ap (λ b. if b then RegistryStatus.leader else RegistryStatus.candidate) won)
        | inr short ↦
            let size : length m'.votes_received ≡ suc (length m.votes_received) =
              omega (arith, ap length k.0, more) in
            let same : (length m'.known_nodes + 1) / 2 ≡ half =
              ap (λ (ns : List KnownNode). (length ns + 1) / 2) k.2 in
            grants-elect m' candidate_id term voters
              (k.1 ∙ ap (λ b. if b then RegistryStatus.leader else RegistryStatus.candidate) short)
              (i ∙ sym k.3) (t ∙ sym k.4) d.1
              (subst (λ votes. All (λ w. Unvoted w votes) voters) (sym k.0)
                (Unvoted-snoc-All m.votes_received v voters u.1 d.0))
              (ground (arith, size, same, more)) (ground (arith, size, same, more))
      ]

  started :
      (m : ElectionManager)
      → is_candidate m.status ≡ false
      → 0 < length m.known_nodes
      → let m' = (start_election json m).0 in
        (m'.status ≡ RegistryStatus.candidate)
        × (m'.local_id ≡ m.local_id)
        × (m'.votes_received ≡ m.local_id ∷ [])
        × (m'.known_nodes ≡ m.known_nodes)
  unfolding start_election
  started m c k = ground arith

  -- A node that starts an election and gets the votes of other nodes, all different, for its new term
  -- is the leader once they and its own vote are more than half as many as the nodes that it knows and
  -- itself, and it stays the leader while more votes come.
  pub elected :
      (m : ElectionManager) (voters : List NodeId)
      → is_candidate m.status ≡ false
      → 0 < length m.known_nodes
      → IsDistinct voters
      → Unvoted m.local_id voters
      → (length m.known_nodes + 1) / 2 < 1 + length voters
      → (run sha256 json
          (start_election json m).0
          (map (grant m.local_id (start_election json m).0.term) voters)).status
        ≡ RegistryStatus.leader
  elected m voters c k d u many =
      let m' = (start_election json m).0 in
      let s = started m c k in
      let votes : length m'.votes_received ≡ 1 = ap length s.2 in
      let same : (length m'.known_nodes + 1) / 2 ≡ (length m.known_nodes + 1) / 2 =
        ap (λ (ns : List KnownNode). (length ns + 1) / 2) s.3 in
      grants-elect m' m.local_id m'.term voters s.0 (sym s.1) refl d
        (subst (λ votes. All (λ w. Unvoted w votes) voters) (sym s.2) (flipped m.local_id voters u))
        (omega (arith, votes, same, k)) (omega (arith, votes, same, many))
