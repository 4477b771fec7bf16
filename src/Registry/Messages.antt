-- ===== src/Registry/Messages.antt =====
-- The messages of an election (crates/vpn/src/registry/election.rs). Texts are the bytes of their
-- UTF-8 form. `serde_json` is the record `Json`.
use lan_link.Prelude.{ℕ, ◌≡◌, List, Bool, Option, none, some, ◌==◌, if◌then◌else◌}
use lan_link.Vpn.Identity.{NodeId}

pub data ElectionMessageType : Type 0 where
  election_request election_vote election_result registry_change registry_sync : ElectionMessageType

unfoldable pub to_u8 : ElectionMessageType → ℕ
to_u8 ElectionMessageType.election_request = 0x11
to_u8 ElectionMessageType.election_vote = 0x12
to_u8 ElectionMessageType.election_result = 0x13
to_u8 ElectionMessageType.registry_change = 0x14
to_u8 ElectionMessageType.registry_sync = 0x15

unfoldable pub from_u8 : ℕ → Option ElectionMessageType
from_u8 b =
    if b == 0x11
    then some ElectionMessageType.election_request
    else if b == 0x12
    then some ElectionMessageType.election_vote
    else if b == 0x13
    then some ElectionMessageType.election_result
    else if b == 0x14
    then some ElectionMessageType.registry_change
    else if b == 0x15
    then some ElectionMessageType.registry_sync
    else none

pub record ElectionRequestPayload : Type 0 where
  pub candidate_id : NodeId
  pub candidate_name : List ℕ
  pub term : ℕ

pub record ElectionVotePayload : Type 0 where
  pub voter_id : NodeId
  pub candidate_id : NodeId
  pub term : ℕ
  pub granted : Bool

pub record ElectionResultPayload : Type 0 where
  pub leader_id : NodeId
  pub leader_name : List ℕ
  pub term : ℕ

pub record RegistryChangePayload : Type 0 where
  pub registry_id : NodeId
  pub registry_name : List ℕ
  pub registry_addr : List ℕ
  pub term : ℕ

pub record RegistrySyncPayload : Type 0 where
  pub requester_id : NodeId
  pub requester_name : List ℕ
  pub term : ℕ

pub record RegistrySyncResponsePayload : Type 0 where
  pub leader_id : NodeId
  pub leader_name : List ℕ
  pub term : ℕ
  pub registry_data : List ℕ

-- `to_vec` and `from_slice` for each payload; the laws are that a value is read back from its text.
pub record Json : Type 0 where
  pub write_request : ElectionRequestPayload → List ℕ
  pub read_request : List ℕ → Option ElectionRequestPayload
  pub write_vote : ElectionVotePayload → List ℕ
  pub read_vote : List ℕ → Option ElectionVotePayload
  pub write_result : ElectionResultPayload → List ℕ
  pub read_result : List ℕ → Option ElectionResultPayload
  pub write_change : RegistryChangePayload → List ℕ
  pub read_change : List ℕ → Option RegistryChangePayload
  pub write_sync : RegistrySyncPayload → List ℕ
  pub read_sync : List ℕ → Option RegistrySyncPayload
  pub write_response : RegistrySyncResponsePayload → List ℕ
  pub read_response : List ℕ → Option RegistrySyncResponsePayload
  pub read-write_request : (p : ElectionRequestPayload) → read_request (write_request p) ≡ some p
  pub read-write_vote : (p : ElectionVotePayload) → read_vote (write_vote p) ≡ some p
  pub read-write_result : (p : ElectionResultPayload) → read_result (write_result p) ≡ some p
