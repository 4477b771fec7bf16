-- ===== src/Daemon/Limiter.antt =====
-- `RateLimiter` of crates/daemon/src/main.rs. An IP address is a number, a time is in nanoseconds.
pub mod Bound
use mathlib.Core.Option
use lan_link.Prelude.{
  ℕ, zero, suc, ◌+◌, ◌-◌, ◌*◌, ◌%◌, ◌≤◌, ◌<◌, ◌≡◌, refl, ap, sym, ◌∙◌, ◌≢◌, min, List, [], ◌∷◌,
  length, All, Bool, true, false, Option, none, some, ltb, leb, if◌then◌else◌, arith, ℕ_discrete,
  ite,
}
use lan_link.Prelude.Words.{secs, u32_mod, wrapping_add_u32}
use lan_link.Prelude.Assoc
use lan_link.Prelude.Assoc.{lookup-insert_self, lookup-insert_ne}

abbrev pub syn_rate_limit : ℕ
syn_rate_limit = 5

abbrev pub cmd_rate_limit : ℕ
cmd_rate_limit = 30

abbrev pub rate_window_secs : ℕ
rate_window_secs = 60

-- IP address → (start of the window, count).
abbrev pub Counts : Type 0
Counts = List (ℕ × (ℕ × ℕ))

pub record RateLimiter : Type 0 where
  pub syn_counts : Counts
  pub cmd_counts : Counts

unfoldable pub new : RateLimiter
new = record { syn_counts = []; cmd_counts = [] }

-- The body that `check_syn` and `check_cmd` share: the counts after it, and whether it allows.
unfoldable pub consume : ℕ → Counts → ℕ → ℕ → Counts × Bool
consume limit counts ip now =
    let entry = Option.get_or (Assoc.lookup ℕ_discrete ip counts) (now, 0) in
    if ltb (secs rate_window_secs) (now - entry.0)
    then (Assoc.insert ℕ_discrete ip (now, 1) counts, true)
    else (
      Assoc.insert ℕ_discrete ip (entry.0, wrapping_add_u32 entry.1 1) counts,
      leb (wrapping_add_u32 entry.1 1) limit,
    )

unfoldable pub check_syn : RateLimiter → ℕ → ℕ → RateLimiter × Bool
check_syn r ip now =
    let (counts, allowed) = consume syn_rate_limit r.syn_counts ip now in
    (record r { syn_counts = counts }, allowed)

unfoldable pub check_cmd : RateLimiter → ℕ → ℕ → RateLimiter × Bool
check_cmd r ip now =
    let (counts, allowed) = consume cmd_rate_limit r.cmd_counts ip now in
    (record r { cmd_counts = counts }, allowed)

-- `retain(|_, v| now.duration_since(v.0) < window)`.
unfoldable pub retain_recent : ℕ → Counts → Counts
retain_recent now [] = []
retain_recent now ((ip, entry) ∷ counts) =
    if ltb (now - entry.0) (secs (rate_window_secs * 2))
    then (ip, entry) ∷ retain_recent now counts
    else retain_recent now counts

unfoldable pub gc : RateLimiter → ℕ → RateLimiter
gc r now = record {
  syn_counts = retain_recent now r.syn_counts;
  cmd_counts = retain_recent now r.cmd_counts;
}
