-- ===== src/Vpn/Relay/Pool/Bound.antt =====
-- The sizes of the pools of crates/vpn/src/vpn/relay.rs, and their count of connections in use.
use mathlib.Core.Option
use lan_link.Prelude.{
  ℕ, suc, ◌-◌, ◌≤◌, ◌<◌, ◌≡◌, refl, ap, subst, List, [], ◌∷◌, ◌++◌, length, length-append, All,
  Bool, true, not, ◌&&◌, Option, none, some, ltb, arith,
}
use lan_link.Prelude.Words.{u64_mod}
use lan_link.Prelude.Bytes.{bytes_eq}
use lan_link.Prelude.Assoc
use lan_link.Prelude.Assoc.{All-insert, All-lookup}
use lan_link.Prelude.Branches.{on_if, on_option}
use lan_link.Prelude.Result.{Result}
use lan_link.Vpn.Relay.{RelayError}
use lan_link.Vpn.Relay.Pool.{
  Address, PooledConnection, ConnectionPool, new, take_idle, give_back, conns_of, stored,
  open_connection, get_connection, return_connection, retain_used, retain_pools, cleanup_idle,
  clear, one_less,
}

-- A call of a pool, with what the system says during it.
pub data Call : Type 0 where
  gets : (ℕ → Bool) → Address → ℕ → Option ℕ → Bool → Call
  returns : (ℕ → Bool) → Address → ℕ → Call
  cleans : ℕ → Call
  clears : Call

unfoldable pub step : ConnectionPool → Call → ConnectionPool
step p (gets peer_ok addr now connected cloned) =
    (get_connection peer_ok p addr now connected cloned).0
step p (returns peer_ok addr now) = return_connection peer_ok p addr now
step p (cleans now) = cleanup_idle p now
step p clears = clear p

unfoldable pub run : ConnectionPool → List Call → ConnectionPool
run p [] = p
run p (call ∷ calls) = run (step p call) calls

-- No address has more connections than the pool allows.
abbrev pub IsBounded : ℕ → ConnectionPool → Type 0
IsBounded n p = (p.max_size ≡ n) × All (λ e. length e.1 ≤ n) p.connections

-- What is found has the length that is asked for.
abbrev Taken : ℕ → Option (List PooledConnection × ℕ) → Type 0
Taken n none = Unit
Taken n (some r) = length r.0 ≡ n

Taken-map :
    (n : ℕ) (c : PooledConnection) (o : Option (List PooledConnection × ℕ))
    → Taken n o
    → Taken (suc n) (Option.map (λ r. (c ∷ r.0, r.1)) o)
Taken-map n c none h = tt
Taken-map n c (some r) h = ap suc h

take_idle-Taken :
    (peer_ok : ℕ → Bool) (now : ℕ) (conns : List PooledConnection)
    → Taken (length conns) (take_idle peer_ok now conns)
unfolding take_idle
take_idle-Taken peer_ok now [] = tt
take_idle-Taken peer_ok now (c ∷ conns) =
    on_if (Taken (suc (length conns))) (not c.in_use && peer_ok c.stream) (λ _. refl)
      (λ _.
        Taken-map (length conns) c (take_idle peer_ok now conns)
          (take_idle-Taken peer_ok now conns))

abbrev Given : ℕ → Option (List PooledConnection) → Type 0
Given n none = Unit
Given n (some left) = length left ≡ n

Given-map :
    (n : ℕ) (c : PooledConnection) (o : Option (List PooledConnection))
    → Given n o
    → Given (suc n) (Option.map (λ r. c ∷ r) o)
Given-map n c none h = tt
Given-map n c (some r) h = ap suc h

give_back-Given :
    (peer_ok : ℕ → Bool) (now : ℕ) (conns : List PooledConnection)
    → Given (length conns) (give_back peer_ok now conns)
unfolding give_back
give_back-Given peer_ok now [] = tt
give_back-Given peer_ok now (c ∷ conns) =
    on_if (Given (suc (length conns))) (c.in_use && peer_ok c.stream) (λ _. refl)
      (λ _.
        Given-map (length conns) c (give_back peer_ok now conns)
          (give_back-Given peer_ok now conns))

length-retain_used :
    (max_idle now : ℕ) (conns : List PooledConnection)
    → length (retain_used max_idle now conns) ≤ length conns
unfolding retain_used
length-retain_used max_idle now [] = omega arith
length-retain_used max_idle now (c ∷ conns) = ground (arith, length-retain_used max_idle now conns)

conns_of-small :
    (peer_ok : ℕ → Bool) (n : ℕ) (p : ConnectionPool) (addr : Address)
    → IsBounded n p
    → length (conns_of peer_ok p addr) ≤ n
conns_of-small peer_ok n p addr b =
    small_or_none (Assoc.lookup bytes_eq addr p.connections)
      (λ conns e. All-lookup bytes_eq (λ c. length c ≤ n) addr p.connections conns b.1 e)
  where
    small_or_none :
        (o : Option (List PooledConnection))
        → ((conns : List PooledConnection) → o ≡ some conns → length conns ≤ n)
        → length (Option.get_or o []) ≤ n
    small_or_none none h = omega arith
    small_or_none (some conns) h = h conns refl

stored-IsBounded :
    (peer_ok : ℕ → Bool) (n : ℕ) (p : ConnectionPool) (addr : Address)
    (conns : List PooledConnection)
    → IsBounded n p
    → length conns ≤ n
    → IsBounded n (stored peer_ok p addr conns)
stored-IsBounded peer_ok n p addr conns b h =
    (b.0, All-insert bytes_eq (λ conns. length conns ≤ n) addr conns p.connections h b.1)

open_connection-IsBounded :
    (peer_ok : ℕ → Bool) (n : ℕ) (p : ConnectionPool) (addr : Address) (now : ℕ)
    (connected : Option ℕ) (cloned : Bool)
    → IsBounded n p
    → IsBounded n (open_connection peer_ok p addr now connected cloned).0
unfolding open_connection
open_connection-IsBounded peer_ok n p addr now connected cloned b =
    let P : ConnectionPool × Result RelayError ℕ → Type 0 = λ r. IsBounded n r.0 in
    let conns = conns_of peer_ok p addr in
    let same = stored-IsBounded peer_ok n p addr conns b (conns_of-small peer_ok n p addr b) in
    on_if P (not (ltb (length conns) p.max_size)) (λ _. same)
      (λ room.
        on_option P connected (λ _. same)
          (λ s _.
            on_if P cloned
              (λ _.
                let c : PooledConnection = record { stream = s; last_used = now; in_use = true } in
                stored-IsBounded peer_ok n p addr (conns ++ (c ∷ [])) b (
                  let less : length conns < p.max_size = ground arith in
                  omega (arith, less, b.0, length-append conns (c ∷ []))))
              (λ _. same)))

get_connection-IsBounded :
    (peer_ok : ℕ → Bool) (n : ℕ) (p : ConnectionPool) (addr : Address) (now : ℕ)
    (connected : Option ℕ) (cloned : Bool)
    → IsBounded n p
    → IsBounded n (get_connection peer_ok p addr now connected cloned).0
unfolding get_connection
get_connection-IsBounded peer_ok n p addr now connected cloned b =
    let P : ConnectionPool × Result RelayError ℕ → Type 0 = λ r. IsBounded n r.0 in
    on_option P (take_idle peer_ok now (conns_of peer_ok p addr))
      (λ _. open_connection-IsBounded peer_ok n p addr now connected cloned b)
      (λ r e. stored-IsBounded peer_ok n p addr r.0 b (
        omega (
          arith,
          conns_of-small peer_ok n p addr b,
          subst (Taken (length (conns_of peer_ok p addr))) e
              (take_idle-Taken peer_ok now (conns_of peer_ok p addr)),
        )))

return_connection-IsBounded :
    (peer_ok : ℕ → Bool) (n : ℕ) (p : ConnectionPool) (addr : Address) (now : ℕ)
    → IsBounded n p
    → IsBounded n (return_connection peer_ok p addr now)
unfolding return_connection Option.bind
return_connection-IsBounded peer_ok n p addr now b =
    let p' : ConnectionPool = record p { active_count = one_less p.active_count } in
    on_option (IsBounded n)
      (Option.bind (Assoc.lookup bytes_eq addr p.connections) (give_back peer_ok now)) (λ _. b)
      (λ conns e.
        stored-IsBounded peer_ok n p' addr conns b
          (from_found (Assoc.lookup bytes_eq addr p.connections) conns refl e))
  where
    from_found :
        (o : Option (List PooledConnection)) (conns : List PooledConnection)
        → Assoc.lookup bytes_eq addr p.connections ≡ o
        → Option.bind o (give_back peer_ok now) ≡ some conns
        → length conns ≤ n
    from_found none conns e f = absurd (cc)
    from_found (some old) conns e f = omega (
      arith,
      All-lookup bytes_eq (λ c. length c ≤ n) addr p.connections old b.1 e,
      subst (Given (length old)) f (give_back-Given peer_ok now old),
    )

retain_pools-small :
    (n max_idle now : ℕ) (pools : List (Address × List PooledConnection))
    → All (λ e. length e.1 ≤ n) pools
    → All (λ e. length e.1 ≤ n) (retain_pools max_idle now pools)
unfolding retain_pools
retain_pools-small n max_idle now [] h = tt
retain_pools-small n max_idle now ((addr, conns) ∷ pools) h = (
  omega (arith, h.0, length-retain_used max_idle now conns),
  retain_pools-small n max_idle now pools h.1,
)

step-IsBounded :
    (n : ℕ) (p : ConnectionPool) (call : Call) → IsBounded n p → IsBounded n (step p call)
unfolding step cleanup_idle clear
step-IsBounded n p (gets peer_ok addr now connected cloned) b =
    get_connection-IsBounded peer_ok n p addr now connected cloned b
step-IsBounded n p (returns peer_ok addr now) b = return_connection-IsBounded peer_ok n p addr now b
step-IsBounded n p (cleans now) b = (b.0, retain_pools-small n p.max_idle now p.connections b.1)
step-IsBounded n p clears b = (b.0, tt)

run_from-IsBounded :
    (n : ℕ) (p : ConnectionPool) (calls : List Call) → IsBounded n p → IsBounded n (run p calls)
unfolding run
run_from-IsBounded n p [] b = b
run_from-IsBounded n p (call ∷ calls) b =
    run_from-IsBounded n (step p call) calls (step-IsBounded n p call b)

-- Whatever calls are made of a new pool, and whatever the system says, no address has more
-- connections than the maximum.
pub run-IsBounded : (n : ℕ) (calls : List Call) → IsBounded n (run (new n) calls)
unfolding new
run-IsBounded n calls = run_from-IsBounded n (new n) calls (refl, tt)

-- A connection that is returned after the pool was cleared takes the count of connections in use
-- from 0 to 2 ^ 64 - 1.
pub return_connection-clear :
    (peer_ok : ℕ → Bool) (p : ConnectionPool) (addr : Address) (now : ℕ)
    → (return_connection peer_ok (clear p) addr now).active_count ≡ u64_mod - 1
unfolding return_connection clear Assoc.lookup Option.bind
return_connection-clear peer_ok p addr now = refl
