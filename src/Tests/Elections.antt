-- ===== src/Tests/Elections.antt =====
-- Elections among three nodes, with a plain form for the texts and a constant hash.

use lan_link.Prelude.{
  ℕ, zero, suc, ◌≡◌, ◌∙◌, refl, ap, true, false, List, [], ◌∷◌, ◌++◌, map, length, take, drop,
  take-append, drop-append, replicate, Option, none, some, Bool, arith, ℕ_discrete,
}
use lan_link.Prelude.Bytes.{both_eq, bytes_eq, from_le, le_bytes}
use lan_link.Vpn.Identity.{NodeId}
use lan_link.Registry.Messages.{
  ElectionRequestPayload, ElectionVotePayload, ElectionResultPayload, Json, from_u8, to_u8,
}
use lan_link.Registry.Manager.{
  RegistryStatus, ElectionManager, is_leader, new, add_known_node, knows, contains,
  should_start_election, set_registry, set_registry_control, is_registry_healthy,
  record_missed_heartbeat, should_vote_for, compute_candidate_hash, decide_vote, become_follower,
  get_local_addr, local_addr_in, broadcast, switch_registry, reset_heartbeat_monitor, forget,
  remove_known_node, set_send_fn, set_sync_callback, set_load_callback,
}
use lan_link.Registry.Handlers.{
  start_election, become_leader, count_vote, receive_vote, receive_result, receive_change,
  receive_sync, receive_response, handle_sync_response, build_vote_message, announce,
}
use lan_link.Registry.Election.{
  Event, handle_message, dispatch, handle_election_request, handle_election_vote,
  handle_election_result, handle_registry_change, handle_registry_sync, step, run,
}
use lan_link.Registry.Election.Terms.{Ascends, open_term, votes_of, votes_of-Ascends}
use lan_link.Registry.Election.SplitBrain.{reply_of, request_from, result_from, two_leaders}
use lan_link.Registry.Election.Leadership.{HasMajority, leader_by_majority}
use lan_link.Registry.Election.Winning.{grant, elected}

program : Unit {0}
unfolding from_u8 to_u8 new add_known_node knows contains should_start_election set_registry
    set_registry_control is_registry_healthy record_missed_heartbeat should_vote_for
    compute_candidate_hash decide_vote become_follower get_local_addr local_addr_in broadcast
    switch_registry reset_heartbeat_monitor start_election become_leader count_vote receive_vote
    receive_result receive_change receive_sync receive_response handle_sync_response
    build_vote_message announce handle_message dispatch handle_election_request handle_election_vote
    handle_election_result handle_registry_change handle_registry_sync step run forget
    remove_known_node set_send_fn set_sync_callback set_load_callback both_eq bytes_eq from_le
    le_bytes ℕ_discrete
program = tt

-- A text behind its length.
abbrev put : List ℕ → List ℕ → List ℕ
put xs rest = length xs ∷ xs ++ rest

abbrev get {ℓ} : {A : Type ℓ} → (List ℕ → List ℕ → Option A) → List ℕ → Option A
get f [] = none
get f (n ∷ bytes) = f (take n bytes) (drop n bytes)

get-put {ℓ} :
    {A : Type ℓ} (f : List ℕ → List ℕ → Option A) (xs rest : List ℕ)
    → get f (put xs rest) ≡ f xs rest
get-put f xs rest =
    rw (take-append xs rest (length xs) refl, drop-append xs rest (length xs) refl) refl

abbrev flag : ℕ → Bool
flag zero = false
flag (suc n) = true

abbrev bit : Bool → ℕ
bit true = 1
bit false = 0

abbrev to_request : List ℕ → List ℕ → Option ElectionRequestPayload
to_request id [] = none
to_request id (t ∷ name) = some (record { candidate_id = id; candidate_name = name; term = t })

abbrev to_result : List ℕ → List ℕ → Option ElectionResultPayload
to_result id [] = none
to_result id (t ∷ name) = some (record { leader_id = id; leader_name = name; term = t })

abbrev to_ballot : List ℕ → List ℕ → List ℕ → Option ElectionVotePayload
to_ballot voter id [] = none
to_ballot voter id (t ∷ []) = none
to_ballot voter id (t ∷ g ∷ more) =
    some (record { voter_id = voter; candidate_id = id; term = t; granted = flag g })

flag-bit : (b : Bool) → flag (bit b) ≡ b
flag-bit true = refl
flag-bit false = refl

read-write_vote :
    (p : ElectionVotePayload)
    → get
        (λ voter. get (to_ballot voter))
        (put p.voter_id (put p.candidate_id (p.term ∷ bit p.granted ∷ [])))
      ≡ some p
read-write_vote p =
    get-put (λ voter. get (to_ballot voter)) p.voter_id
      (put p.candidate_id (p.term ∷ bit p.granted ∷ []))
    ∙ get-put (to_ballot p.voter_id) p.candidate_id (p.term ∷ bit p.granted ∷ [])
    ∙ ap (λ g. some (record p { granted = g })) (flag-bit p.granted)

abbrev text : Json
text = record {
  write_request = λ p. put p.candidate_id (p.term ∷ p.candidate_name);
  read_request = get to_request;
  write_vote = λ p. put p.voter_id (put p.candidate_id (p.term ∷ bit p.granted ∷ []));
  read_vote = get (λ voter. get (to_ballot voter));
  write_result = λ p. put p.leader_id (p.term ∷ p.leader_name);
  read_result = get to_result;
  write_change = λ p. [];
  read_change = λ bytes. none;
  write_sync = λ p. [];
  read_sync = λ bytes. none;
  write_response = λ p. [];
  read_response = λ bytes. none;
  read-write_request = λ p. get-put to_request p.candidate_id (p.term ∷ p.candidate_name);
  read-write_vote = read-write_vote;
  read-write_result = λ p. get-put to_result p.leader_id (p.term ∷ p.leader_name);
}

abbrev hash : List ℕ → List ℕ
hash bytes = replicate 32 255

abbrev node : ℕ → NodeId
node n = replicate 32 n

-- A node that knows two others.
abbrev member : ℕ → ℕ → ℕ → ElectionManager
member a b c =
    add_known_node (add_known_node (new (node a) (a ∷ []) none) (node b) [] (b ∷ [])) (node c) []
      (c ∷ [])

abbrev ann : ElectionManager
ann = member 1 2 3

abbrev bob : ElectionManager
bob = member 2 1 3

abbrev cid : ElectionManager
cid = member 3 1 2

-- `bob` votes for `ann`, who is elected by it.
ann_wins :
    let ann' = (start_election text ann).0 in
    let h = handle_message hash text bob (request_from hash text ann') in
    is_leader (handle_message hash text ann' (reply_of h)).0.status ≡ true
unfolding program
ann_wins = refl

two_leaders_example :
    let a' = (start_election text ann).0 in
    let b' = (start_election text bob).0 in
    let first = handle_message hash text cid (request_from hash text a') in
    let leader_a = (handle_message hash text a' (reply_of first)).0 in
    let heard = handle_message hash text first.0 (result_from hash text leader_a) in
    let second = handle_message hash text heard.0 (request_from hash text b') in
    let leader_b = (handle_message hash text b' (reply_of second)).0 in
    (leader_a.status ≡ RegistryStatus.leader)
    × (leader_b.status ≡ RegistryStatus.leader)
    × (leader_a.term ≡ 1)
    × (leader_b.term ≡ 1)
unfolding program
two_leaders_example =
    two_leaders hash text ann bob cid 0 refl refl refl refl refl refl (omega arith) (omega arith)
      ((λ e. cc), omega arith) ((λ e. cc), omega arith)

-- A vote for `ann` in term 1, an election of its own in term 2, and a vote for `bob` in term 5.
abbrev events : List Event
events =
    Event.receive (request_from hash text (record ann { term = 1 }))
    ∷ Event.start
    ∷ Event.receive (request_from hash text (record bob { term = 2 }))
    ∷ Event.receive (request_from hash text (record bob { term = 5 }))
    ∷ []

events_votes : votes_of text hash cid events ≡ 1 ∷ 2 ∷ 5 ∷ []
unfolding program
events_votes = refl

votes_of-Ascends_example : Ascends text (open_term cid) (votes_of text hash cid events)
unfolding program
votes_of-Ascends_example = votes_of-Ascends text hash cid events (tt, (omega arith, (tt, (tt, tt))))

abbrev granted : Event
granted = grant hash text (node 1) 1 (node 2)

leader_by_majority_example :
    HasMajority (step hash text (run hash text ann (Event.start ∷ [])) granted)
unfolding program
leader_by_majority_example =
    leader_by_majority hash text ann (Event.start ∷ []) granted tt refl refl

elected_example :
    (run hash text (start_election text ann).0 (
      map
        (grant hash text (node 1) (start_election text ann).0.term)
        (node 2 ∷ node 3 ∷ []))).status
    ≡ RegistryStatus.leader
unfolding program
elected_example =
    elected hash text ann (node 2 ∷ node 3 ∷ []) refl (omega arith) (((λ e. cc), tt), (tt, tt))
      ((λ e. cc), ((λ e. cc), tt)) (omega arith)

abbrev head_ann : ElectionManager
head_ann = record (set_registry_control ann) { status = RegistryStatus.leader; term = 1 }

abbrev request : ElectionRequestPayload
request = record { candidate_id = node 2; candidate_name = []; term = 2 }

abbrev result : ElectionResultPayload
result = record { leader_id = node 2; leader_name = []; term = 2 }
