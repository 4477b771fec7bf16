-- ===== src/Vpn/Relay/Pool.antt =====
-- `ConnectionPool` of crates/vpn/src/vpn/relay.rs. A stream is a number, an address the bytes of its
-- text. What the system says is passed in: whether the peer of a stream is known, the stream of a new
-- connection, and whether a stream could be cloned.
pub mod Bound
use mathlib.Core.Option
use lan_link.Prelude.{
  ℕ, zero, suc, ◌+◌, ◌-◌, ◌*◌, ◌%◌, List, [], ◌∷◌, ◌++◌, length, Bool, true, false, not, ◌&&◌,
  Option, none, some, ltb, if◌then◌else◌,
}
use lan_link.Prelude.Words.{secs, u64_mod}
use lan_link.Prelude.Bytes.{bytes_eq}
use lan_link.Prelude.Assoc
use lan_link.Prelude.Result.{Result, ok, err}
use lan_link.Vpn.Relay.{RelayError, Message}

abbrev pub Address : Type 0
Address = List ℕ

pub record PooledConnection : Type 0 where
  pub stream : ℕ
  pub last_used : ℕ
  pub in_use : Bool

abbrev pub is_idle : ℕ → ℕ → PooledConnection → Bool
is_idle max_idle now c = not c.in_use && ltb max_idle (now - c.last_used)

pub record ConnectionPool : Type 0 where
  pub connections : List (Address × List PooledConnection)
  pub max_size : ℕ
  pub max_idle : ℕ
  pub active_count : ℕ

unfoldable pub new : ℕ → ConnectionPool
new max_size = record {
  connections = [];
  max_size = max_size;
  max_idle = secs 60;
  active_count = 0;
}

-- `fetch_add(1)` and `fetch_sub(1)` of a 64-bit target.
abbrev pub one_more : ℕ → ℕ
one_more n = (n + 1) % u64_mod

abbrev pub one_less : ℕ → ℕ
one_less n = (n + (u64_mod - 1)) % u64_mod

module _ (peer_ok : ℕ → Bool) where
  -- The first connection that can be used, marked as used.
  unfoldable pub take_idle : ℕ → List PooledConnection → Option (List PooledConnection × ℕ)
  take_idle now [] = none
  take_idle now (c ∷ conns) =
      let rest = take_idle now conns in
      if not c.in_use && peer_ok c.stream
      then some (record c { in_use = true; last_used = now } ∷ conns, c.stream)
      else Option.map (λ r. (c ∷ r.0, r.1)) rest

  -- The first connection that is in use, marked as not used.
  unfoldable pub give_back : ℕ → List PooledConnection → Option (List PooledConnection)
  give_back now [] = none
  give_back now (c ∷ conns) =
      let rest = give_back now conns in
      if c.in_use && peer_ok c.stream
      then some (record c { in_use = false; last_used = now } ∷ conns)
      else Option.map (λ r. c ∷ r) rest

  abbrev pub conns_of : ConnectionPool → Address → List PooledConnection
  conns_of p addr = Option.get_or (Assoc.lookup bytes_eq addr p.connections) []

  abbrev pub stored : ConnectionPool → Address → List PooledConnection → ConnectionPool
  stored p addr conns = record p { connections = Assoc.insert bytes_eq addr conns p.connections }

  -- A new connection, if the pool of the address has room for one.
  unfoldable pub open_connection :
      ConnectionPool → Address → ℕ → Option ℕ → Bool → ConnectionPool × Result RelayError ℕ
  open_connection p addr now connected cloned =
      let conns = conns_of p addr in
      let c : ℕ → PooledConnection = λ s. record { stream = s; last_used = now; in_use = true } in
      if not (ltb (length conns) p.max_size)
      then (stored p addr conns, err RelayError.pool_full)
      else elim connected [
        | none ↦ (stored p addr conns, err RelayError.io_error)
        | some s ↦
            if cloned
            then (
              record (stored p addr (conns ++ (c s ∷ []))) {
                active_count = one_more p.active_count;
              },
              ok s,
            )
            else (stored p addr conns, err RelayError.io_error)
      ]

  unfoldable pub get_connection :
      ConnectionPool → Address → ℕ → Option ℕ → Bool → ConnectionPool × Result RelayError ℕ
  get_connection p addr now connected cloned = elim (take_idle now (conns_of p addr)) [
    | some (conns, s) ↦ (
      record (stored p addr conns) { active_count = one_more p.active_count },
      if cloned then ok s else err RelayError.io_error,
    )
    | none ↦ open_connection p addr now connected cloned
  ]

  unfoldable pub return_connection : ConnectionPool → Address → ℕ → ConnectionPool
  return_connection p addr now =
      let p' : ConnectionPool = record p { active_count = one_less p.active_count } in
      elim (Option.bind (Assoc.lookup bytes_eq addr p.connections) (give_back now)) [
        | none ↦ p'
        | some conns ↦ stored p' addr conns
      ]

  -- `TcpClient::send_message`; `written` is whether the message could be written.
  unfoldable pub send_message :
      ConnectionPool
      → Address
      → ℕ
      → ℕ
      → Option ℕ
      → Bool
      → Bool
      → ConnectionPool × Result RelayError Unit
  send_message p addr now later connected cloned written =
      let (p', result) = get_connection p addr now connected cloned in
      elim result [
        | err e ↦ (p', err e)
        | ok _ ↦
            (return_connection p' addr later, if written then ok tt else err RelayError.io_error)
      ]

unfoldable pub retain_used : ℕ → ℕ → List PooledConnection → List PooledConnection
retain_used max_idle now [] = []
retain_used max_idle now (c ∷ conns) =
    if is_idle max_idle now c
    then retain_used max_idle now conns
    else c ∷ retain_used max_idle now conns

unfoldable pub retain_pools :
    ℕ → ℕ → List (Address × List PooledConnection) → List (Address × List PooledConnection)
retain_pools max_idle now [] = []
retain_pools max_idle now ((addr, conns) ∷ pools) =
    (addr, retain_used max_idle now conns) ∷ retain_pools max_idle now pools

unfoldable pub cleanup_idle : ConnectionPool → ℕ → ConnectionPool
cleanup_idle p now = record p { connections = retain_pools p.max_idle now p.connections }

unfoldable pub clear : ConnectionPool → ConnectionPool
clear p = record p { connections = []; active_count = 0 }
