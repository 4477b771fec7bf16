-- ===== src/Registry/Election/Reading.antt =====
-- What `handle_message` does with a message that it can read
-- (crates/vpn/src/registry/election.rs).
use lan_link.Prelude.{ℕ, ◌≡◌, refl, List, [], ◌∷◌, Option, none, some}
use lan_link.Prelude.Result.{ok}
use lan_link.Registry.Messages.{
  from_u8, ElectionRequestPayload, ElectionVotePayload, ElectionResultPayload, Json,
}
use lan_link.Registry.Manager.{ElectionManager, decide_vote}
use lan_link.Registry.Handlers.{receive_vote, receive_result, build_vote_message}
use lan_link.Registry.Election.{
  unanswered, dispatch, handle_message, handle_election_request, handle_election_vote,
  handle_election_result,
}

on_read {ℓ} :
    {A : Type 0} {B : Type ℓ} (o : Option A) {a : A} (x : B) (f : A → B)
    → o ≡ some a
    → (elim o [ none ↦ x | some v ↦ f v ]) ≡ f a
on_read o x f e = rw e refl

module _ (sha256 : List ℕ → List ℕ) (json : Json) where
  pub reads_request :
      (m : ElectionManager) (payload : List ℕ) (req : ElectionRequestPayload)
      → json.read_request payload ≡ some req
      → handle_message sha256 json m (0x11 ∷ payload) ≡ (
        (decide_vote sha256 m req).0,
        [],
        ok (
            some (
              build_vote_message json
                (decide_vote sha256 m req).0
                req.candidate_id
                req.term
                (decide_vote sha256 m req).1)),
      )
  unfolding handle_message dispatch from_u8 handle_election_request
  reads_request m payload req e = on_read (json.read_request payload) _ _ e

  pub reads_vote :
      (m : ElectionManager) (payload : List ℕ) (v : ElectionVotePayload)
      → json.read_vote payload ≡ some v
      → handle_message sha256 json m (0x12 ∷ payload) ≡ unanswered (receive_vote json m v)
  unfolding handle_message dispatch from_u8 handle_election_vote
  reads_vote m payload v e = on_read (json.read_vote payload) _ _ e

  pub reads_result :
      (m : ElectionManager) (payload : List ℕ) (r : ElectionResultPayload)
      → json.read_result payload ≡ some r
      → handle_message sha256 json m (0x13 ∷ payload) ≡ unanswered (receive_result m r)
  unfolding handle_message dispatch from_u8 handle_election_result
  reads_result m payload r e = on_read (json.read_result payload) _ _ e
