-- ===== src/Daemon/Limiter/Bound.antt =====
-- How many packets of an address `RateLimiter` lets through (crates/daemon/src/main.rs).
use mathlib.Core.Option
use lan_link.Prelude.{
  ℕ, suc, ◌+◌, ◌-◌, ◌≤◌, ◌<◌, ◌≡◌, refl, ap, sym, ◌∙◌, ◌≢◌, min, List, [], ◌∷◌, All, none, some,
  leb, if◌then◌else◌, arith, ℕ_discrete, ite,
}
use lan_link.Prelude.Words.{u32_mod, wrapping_add_u32}
use lan_link.Prelude.Assoc
use lan_link.Prelude.Assoc.{lookup-insert_self, lookup-insert_ne}
use lan_link.Daemon.Limiter.{
  syn_rate_limit, cmd_rate_limit, rate_window_secs, Counts, RateLimiter, consume, check_syn,
  check_cmd,
}
use lan_link.Prelude.Words.{secs}

-- The calls of one counter by any addresses at any times: how many calls of `ip` are allowed.
unfoldable pub allowed_for : ℕ → ℕ → Counts → List (ℕ × ℕ) → ℕ
allowed_for limit ip counts [] = 0
allowed_for limit ip counts ((j, now) ∷ calls) =
    let (counts', allowed) = consume limit counts j now in
    let rest = allowed_for limit ip counts' calls in
    ite (ℕ_discrete ip j) (if allowed then suc rest else rest) rest

-- The number of calls of `ip`.
unfoldable pub calls_of : ℕ → List (ℕ × ℕ) → ℕ
calls_of ip [] = 0
calls_of ip ((j, now) ∷ calls) = ite (ℕ_discrete ip j) (suc (calls_of ip calls)) (calls_of ip calls)

-- The calls of `ip` come within the window that began at `start`.
abbrev pub Within : ℕ → ℕ → List (ℕ × ℕ) → Type 0
Within ip start = All (λ c. ip ≡ c.0 → c.1 - start ≤ secs rate_window_secs)

consume_within :
    (limit ip now start n : ℕ) (counts : Counts)
    → Assoc.lookup ℕ_discrete ip counts ≡ some (start, n)
    → now - start ≤ secs rate_window_secs
    → consume limit counts ip now ≡ (
      Assoc.insert ℕ_discrete ip (start, wrapping_add_u32 n 1) counts,
      leb (wrapping_add_u32 n 1) limit,
    )
unfolding consume
consume_within limit ip now start n counts e h = ground arith

lookup-consume_ne :
    (limit ip j now : ℕ) (counts : Counts)
    → ip ≢ j
    → Assoc.lookup ℕ_discrete ip (consume limit counts j now).0 ≡ Assoc.lookup ℕ_discrete ip counts
unfolding consume
lookup-consume_ne limit ip j now counts h =
    let entry = Option.get_or (Assoc.lookup ℕ_discrete j counts) (now, 0) in
    ground (
      arith,
      lookup-insert_ne ℕ_discrete j ip (now, 1) counts h,
      lookup-insert_ne ℕ_discrete j ip (entry.0, wrapping_add_u32 entry.1 1) counts h,
    )

allowed-Within :
    (limit ip start n : ℕ) (counts : Counts) (calls : List (ℕ × ℕ))
    → Assoc.lookup ℕ_discrete ip counts ≡ some (start, n)
    → n + calls_of ip calls < u32_mod
    → Within ip start calls
    → allowed_for limit ip counts calls + min n limit ≡ min (n + calls_of ip calls) limit
unfolding allowed_for calls_of
allowed-Within limit ip start n counts [] e h w = omega arith
allowed-Within limit ip start n counts ((j, now) ∷ calls) e h w = elim (ℕ_discrete ip j) [
  | yes p ↦
      let counts' = Assoc.insert ℕ_discrete j (start, wrapping_add_u32 n 1) counts in
      let here = ap (λ k. Assoc.lookup ℕ_discrete k counts) (sym p) ∙ e in
      let there =
        ap (λ k. Assoc.lookup ℕ_discrete k counts') p
        ∙ lookup-insert_self ℕ_discrete j (start, wrapping_add_u32 n 1) counts in
      ground (
        arith,
        consume_within limit j now start n counts here (w.0 p),
        allowed-Within limit ip start (wrapping_add_u32 n 1) counts' calls there,
      )
  | no p ↦ ground (
    arith,
    allowed-Within limit ip start n (consume limit counts j now).0 calls
        (lookup-consume_ne limit ip j now counts p ∙ e),
  )
]

consume_first :
    (limit ip now : ℕ) (counts : Counts)
    → Assoc.lookup ℕ_discrete ip counts ≡ none
    → consume limit counts ip now ≡ (Assoc.insert ℕ_discrete ip (now, 1) counts, leb 1 limit)
unfolding consume
consume_first limit ip now counts e = ground arith

allowed_for_fresh :
    (limit ip now : ℕ) (counts : Counts) (calls : List (ℕ × ℕ))
    → 1 ≤ limit
    → Assoc.lookup ℕ_discrete ip counts ≡ none
    → 1 + calls_of ip calls < u32_mod
    → Within ip now calls
    → allowed_for limit ip counts ((ip, now) ∷ calls) ≡ min (1 + calls_of ip calls) limit
unfolding allowed_for
allowed_for_fresh limit ip now counts calls one e h w = ground (
  arith,
  consume_first limit ip now counts e,
  allowed-Within limit ip now 1 (Assoc.insert ℕ_discrete ip (now, 1) counts) calls
      (lookup-insert_self ℕ_discrete ip (now, 1) counts) h w,
)

-- The SYN packets that the limiter sees: how many of those from `ip` it allows.
unfoldable pub syns_allowed : RateLimiter → ℕ → List (ℕ × ℕ) → ℕ
syns_allowed r ip [] = 0
syns_allowed r ip ((j, now) ∷ calls) =
    let (r', allowed) = check_syn r j now in
    let rest = syns_allowed r' ip calls in
    ite (ℕ_discrete ip j) (if allowed then suc rest else rest) rest

syns_allowed_for :
    (r : RateLimiter) (ip : ℕ) (calls : List (ℕ × ℕ))
    → syns_allowed r ip calls ≡ allowed_for syn_rate_limit ip r.syn_counts calls
unfolding syns_allowed allowed_for check_syn
syns_allowed_for r ip [] = refl
syns_allowed_for r ip ((j, now) ∷ calls) =
    ground (arith, syns_allowed_for (check_syn r j now).0 ip calls)

-- The same for commands.
unfoldable pub cmds_allowed : RateLimiter → ℕ → List (ℕ × ℕ) → ℕ
cmds_allowed r ip [] = 0
cmds_allowed r ip ((j, now) ∷ calls) =
    let (r', allowed) = check_cmd r j now in
    let rest = cmds_allowed r' ip calls in
    ite (ℕ_discrete ip j) (if allowed then suc rest else rest) rest

cmds_allowed_for :
    (r : RateLimiter) (ip : ℕ) (calls : List (ℕ × ℕ))
    → cmds_allowed r ip calls ≡ allowed_for cmd_rate_limit ip r.cmd_counts calls
unfolding cmds_allowed allowed_for check_cmd
cmds_allowed_for r ip [] = refl
cmds_allowed_for r ip ((j, now) ∷ calls) =
    ground (arith, cmds_allowed_for (check_cmd r j now).0 ip calls)

-- Of the SYN packets (the commands) that an address with no entry sends within 60 s of its first,
-- which are fewer than 2 ^ 32, exactly the first 5 (the first 30) are allowed, whatever other addresses send in between.
pub rate_limits :
    (r : RateLimiter) (ip now : ℕ) (calls : List (ℕ × ℕ))
    → Assoc.lookup ℕ_discrete ip r.syn_counts ≡ none
    → Assoc.lookup ℕ_discrete ip r.cmd_counts ≡ none
    → 1 + calls_of ip calls < u32_mod
    → Within ip now calls
    → (syns_allowed r ip ((ip, now) ∷ calls) ≡ min (1 + calls_of ip calls) 5)
      × (cmds_allowed r ip ((ip, now) ∷ calls) ≡ min (1 + calls_of ip calls) 30)
rate_limits r ip now calls e₁ e₂ h w = (
  syns_allowed_for r ip ((ip, now) ∷ calls)
      ∙ allowed_for_fresh 5 ip now r.syn_counts calls (omega arith) e₁ h w,
  cmds_allowed_for r ip ((ip, now) ∷ calls)
      ∙ allowed_for_fresh 30 ip now r.cmd_counts calls (omega arith) e₂ h w,
)
