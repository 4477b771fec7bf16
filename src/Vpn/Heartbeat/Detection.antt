-- ===== src/Vpn/Heartbeat/Detection.antt =====
-- When a node counts as offline and as online again (crates/vpn/src/vpn/heartbeat.rs).
use mathlib.Core.Option
use lan_link.Prelude.{
  ℕ, suc, ◌+◌, ◌-◌, ◌*◌, ◌≤◌, ◌<◌, ◌≡◌, ◌≢◌, refl, ap, List, [], ◌∷◌, ◌++◌, length, All, Bool, true,
  false, not, Option, none, some, if◌then◌else◌, arith, dec_lt,
}
use lan_link.Prelude.Words.{wrapping_add_u32, u32_mod}
use lan_link.Prelude.Assoc
use lan_link.Prelude.Assoc.{lookup-insert_self, lookup-insert_ne}
use lan_link.Vpn.Identity.{NodeId, node_eq}
use lan_link.Vpn.Heartbeat.{
  HeartbeatMessage, NodeHeartbeatState, new_state, Event, node_online, node_offline,
  heartbeat_received, Nodes, HeartbeatManager, get_node_state, check_state, check_all, heard,
  handle_heartbeat,
}

-- The checks of one state at the given times: the state after them, and the events.
unfoldable pub check_times : ℕ → ℕ → NodeHeartbeatState → List ℕ → NodeHeartbeatState × List Event
check_times interval threshold s [] = (s, [])
check_times interval threshold s (now ∷ times) =
    let (s', events) = check_state interval threshold now s in
    let (last, later) = check_times interval threshold s' times in (last, events ++ later)

-- Each of the times is more than two intervals after the last heartbeat.
abbrev pub Silent : ℕ → ℕ → List ℕ → Type 0
Silent interval last = All (λ now. interval * 2 < now - last)

check-miss :
    (interval threshold now : ℕ) (s : NodeHeartbeatState)
    → s.is_online ≡ true
    → interval * 2 < now - s.last_heartbeat
    → suc s.missed_count < threshold
    → threshold < u32_mod
    → check_state interval threshold now s ≡ (record s { missed_count = suc s.missed_count }, [])
unfolding check_state
check-miss interval threshold now s on late few small =
    let e : wrapping_add_u32 s.missed_count 1 ≡ suc s.missed_count = omega arith in
    ground (arith, e)

check-last :
    (interval threshold now : ℕ) (s : NodeHeartbeatState)
    → s.is_online ≡ true
    → interval * 2 < now - s.last_heartbeat
    → suc s.missed_count ≡ threshold
    → threshold < u32_mod
    → check_state interval threshold now s ≡ (
      record s { missed_count = suc s.missed_count; is_online = false },
      node_offline s.node_id ∷ [],
    )
unfolding check_state
check-last interval threshold now s on late few small =
    let e : wrapping_add_u32 s.missed_count 1 ≡ suc s.missed_count = omega arith in
    ground (arith, e)

check-off :
    (interval threshold now : ℕ) (s : NodeHeartbeatState)
    → s.is_online ≡ false
    → check_state interval threshold now s ≡ (s, [])
unfolding check_state
check-off interval threshold now s off = ground arith

check_times-off :
    (interval threshold : ℕ) (s : NodeHeartbeatState) (times : List ℕ)
    → s.is_online ≡ false
    → check_times interval threshold s times ≡ (s, [])
unfolding check_times
check_times-off interval threshold s [] off = refl
check_times-off interval threshold s (now ∷ times) off =
    rw (check-off interval threshold now s off, check_times-off interval threshold s times off) refl

-- A node that is online stays online, without an event, while fewer checks than the threshold find
-- it silent for more than two intervals.
pub check_times-patient :
    (interval threshold : ℕ) (s : NodeHeartbeatState) (times : List ℕ)
    → s.is_online ≡ true
    → s.missed_count + length times < threshold
    → threshold < u32_mod
    → Silent interval s.last_heartbeat times
    → check_times interval threshold s times
      ≡ (record s { missed_count = s.missed_count + length times }, [])
unfolding check_times
check_times-patient interval threshold s [] on few small silent =
    ap (λ n. (record s { missed_count = n }, [])) (omega arith)
check_times-patient interval threshold s (now ∷ times) on few small silent =
    let s' : NodeHeartbeatState = record s { missed_count = suc s.missed_count } in
    rw
      (
        check-miss interval threshold now s on silent.0 (omega arith) small,
        check_times-patient interval threshold s' times on (omega arith) small silent.1,
      )
      (ap (λ n. (record s { missed_count = n }, [])) (omega arith))

-- A node that is online and has not missed the threshold yet is offline, and reported offline exactly
-- once, after as many checks as the threshold asks for, or more, that find it silent for more than
-- two intervals.
pub check_times-detects :
    (interval threshold : ℕ) (s : NodeHeartbeatState) (times : List ℕ)
    → s.is_online ≡ true
    → s.missed_count < threshold
    → threshold ≤ s.missed_count + length times
    → threshold < u32_mod
    → Silent interval s.last_heartbeat times
    → check_times interval threshold s times
      ≡ (record s { missed_count = threshold; is_online = false }, node_offline s.node_id ∷ [])
unfolding check_times
check_times-detects interval threshold s [] on few many small silent = absurd (omega arith)
check_times-detects interval threshold s (now ∷ times) on few many small silent =
    elim (dec_lt (suc s.missed_count) threshold) [
      | yes p ↦
          let s' : NodeHeartbeatState = record s { missed_count = suc s.missed_count } in
          rw
            (
              check-miss interval threshold now s on silent.0 p small,
              check_times-detects interval threshold s' times on p (omega arith) small silent.1,
            )
            refl
      | no p ↦
          let s' : NodeHeartbeatState = record s {
            missed_count = suc s.missed_count;
            is_online = false;
          } in
          let e : suc s.missed_count ≡ threshold = omega arith in
          rw
            (
              check-last interval threshold now s on silent.0 e small,
              check_times-off interval threshold s' times refl,
            )
            (ap
              (λ n. (record s { missed_count = n; is_online = false }, node_offline s.node_id ∷ []))
              e)
    ]

-- The node with a state was offline.
abbrev pub was_offline : Option NodeHeartbeatState → Bool
was_offline none = false
was_offline (some s) = not s.is_online

-- A heartbeat makes its sender online with no check missed, whether it was known or not, is reported,
-- with the sender's return if it was offline, and leaves the other nodes as they are.
pub handle_heartbeat_lem :
    (m : HeartbeatManager) (msg : HeartbeatMessage) (now : ℕ) (other : NodeId)
    → other ≢ msg.sender_id
    → (get_node_state (handle_heartbeat m msg now).0 msg.sender_id
        ≡ some (
            heard now msg.sequence
              (Option.get_or (get_node_state m msg.sender_id) (new_state msg.sender_id now))))
      × ((handle_heartbeat m msg now).1 ≡ (
          if was_offline (get_node_state m msg.sender_id)
          then node_online msg.sender_id ∷ heartbeat_received msg.sender_id msg.sequence ∷ []
          else heartbeat_received msg.sender_id msg.sequence ∷ []))
      × (get_node_state (handle_heartbeat m msg now).0 other ≡ get_node_state m other)
unfolding get_node_state handle_heartbeat new_state
handle_heartbeat_lem m msg now other ne =
    let state =
      Option.get_or (Assoc.lookup node_eq msg.sender_id m.nodes) (new_state msg.sender_id now) in
    (
      lookup-insert_self node_eq msg.sender_id (heard now msg.sequence state) m.nodes,
      ground arith,
      lookup-insert_ne node_eq msg.sender_id other (heard now msg.sequence state) m.nodes ne,
    )

-- The checks of all nodes at one time check each node by itself.
pub lookup-check_all :
    (interval threshold now : ℕ) (id : NodeId) (nodes : Nodes)
    → Assoc.lookup node_eq id (check_all interval threshold now nodes).0
      ≡ Option.map (λ s. (check_state interval threshold now s).0) (Assoc.lookup node_eq id nodes)
unfolding check_all Assoc.lookup
lookup-check_all interval threshold now id [] = refl
lookup-check_all interval threshold now id ((j, s) ∷ nodes) =
    ground (arith, lookup-check_all interval threshold now id nodes)
