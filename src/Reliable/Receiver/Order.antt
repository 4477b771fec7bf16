-- ===== src/Reliable/Receiver/Order.antt =====
-- `ReliableReceiver` hands payloads over in order, each once (crates/protocol/src/reliable.rs).
use mathlib.Core.List.{map-append}
use mathlib.Core.Path.{ap₂}
use lan_link.Prelude.{
  length-append, ℕ, zero, suc, ◌+◌, ◌%◌, ◌<◌, ◌≡◌, refl, ap, sym, ◌∙◌, List, [], ◌∷◌, ◌++◌, map,
  length, All, arith,
}
use lan_link.Prelude.Words.{u32_mod, wrapping_add_u32, wrapping_sub_u32}
use lan_link.Reliable.Receiver.{ReliableReceiver, new, drain, insert_pos, insert_at, deliver}

-- The sequence numbers from `s` on, `n` of them, modulo 2 ^ 32.
unfoldable pub seqs : ℕ → ℕ → List ℕ
seqs s zero = []
seqs s (suc n) = s ∷ seqs (wrapping_add_u32 s 1) n

seqs-add : (s m k : ℕ) → s < u32_mod → seqs s (m + k) ≡ seqs s m ++ seqs ((s + m) % u32_mod) k
unfolding seqs
seqs-add s zero k h =
    let here : (s + 0) % u32_mod ≡ s = omega arith in
    let all : 0 + k ≡ k = omega arith in rw (all, here)
seqs-add s (suc m) k h =
    let all : suc m + k ≡ suc (m + k) = omega arith in
    let there : (s + suc m) % u32_mod ≡ (wrapping_add_u32 s 1 + m) % u32_mod = omega arith in
    rw (all, there) (ap (◌∷◌ s) (seqs-add (wrapping_add_u32 s 1) m k (omega arith)))

-- Every buffered payload is the one that the peer sent under its sequence number.
module _ (sent : ℕ → List ℕ) where
  abbrev pub Genuine : List (ℕ × List ℕ) → Type 0
  Genuine = All (λ e. e.1 ≡ sent e.0)

  drain_lem :
      (next : ℕ) (buf : List (ℕ × List ℕ))
      → next < u32_mod
      → Genuine buf
      → ((drain next buf).2 ≡ map sent (seqs next (length (drain next buf).2)))
        × ((drain next buf).0 ≡ (next + length (drain next buf).2) % u32_mod)
        × Genuine (drain next buf).1
  unfolding drain seqs
  drain_lem next [] h g = (refl, omega arith, tt)
  drain_lem next ((s, p) ∷ buf) h g =
      ground (arith, drain_lem (wrapping_add_u32 next 1) buf (omega arith) g.1)

  insert_at-Genuine :
      (i : ℕ) (e : ℕ × List ℕ) (buf : List (ℕ × List ℕ))
      → e.1 ≡ sent e.0
      → Genuine buf
      → Genuine (insert_at i e buf)
  unfolding insert_at
  insert_at-Genuine zero e buf h g = (h, g)
  insert_at-Genuine (suc i) e [] h g = (h, tt)
  insert_at-Genuine (suc i) e (b ∷ buf) h g = (g.0, insert_at-Genuine i e buf h g.1)

  pub record IsGenuine (r : ReliableReceiver) : Type 0 where
    pub next_u32 : r.next_expected < u32_mod
    pub buffered : Genuine r.ooo_buffer

  deliver_lem :
      (r : ReliableReceiver) (seq : ℕ)
      → seq < u32_mod
      → IsGenuine r
      → let (r', out) = deliver r seq (sent seq) in
        (out ≡ map sent (seqs r.next_expected (length out)))
        × (r'.next_expected ≡ (r.next_expected + length out) % u32_mod)
        × IsGenuine r'
  unfolding deliver seqs
  deliver_lem r seq h g = ground (
    arith,
    drain_lem (wrapping_add_u32 r.next_expected 1) r.ooo_buffer (omega arith) g.buffered,
    insert_at-Genuine (insert_pos seq (wrapping_sub_u32 seq r.next_expected) r.ooo_buffer)
        (seq, sent seq) r.ooo_buffer refl g.buffered,
  )

  -- The receiver after a sequence of arrivals, in any order and with any repetition, and all the
  -- payloads that it handed over.
  unfoldable pub deliver_all : ReliableReceiver → List ℕ → ReliableReceiver × List (List ℕ)
  deliver_all r [] = (r, [])
  deliver_all r (seq ∷ arrivals) =
      let (r', out) = deliver r seq (sent seq) in
      let (r'', rest) = deliver_all r' arrivals in (r'', out ++ rest)

  -- Two runs that follow one another.
  join_runs :
      (n n' : ℕ) (out out' : List (List ℕ))
      → n < u32_mod
      → out ≡ map sent (seqs n (length out))
      → n' ≡ (n + length out) % u32_mod
      → out' ≡ map sent (seqs n' (length out'))
      → out ++ out' ≡ map sent (seqs n (length (out ++ out')))
  join_runs n n' out out' h e e' r =
      ap₂ (◌++◌) e (r ∙ ap (λ k. map sent (seqs k (length out'))) e')
      ∙ sym
          (map-append sent (seqs n (length out)) (seqs ((n + length out) % u32_mod) (length out')))
      ∙ ap (map sent) (sym (seqs-add n (length out) (length out') h))
      ∙ ap (λ k. map sent (seqs n k)) (sym (length-append out out'))

  deliver_all_from :
      (r : ReliableReceiver) (arrivals : List ℕ)
      → All (λ q. q < u32_mod) arrivals
      → IsGenuine r
      → let (r', out) = deliver_all r arrivals in
        (out ≡ map sent (seqs r.next_expected (length out)))
        × (r'.next_expected ≡ (r.next_expected + length out) % u32_mod)
  unfolding deliver_all seqs
  deliver_all_from r [] a g = (refl, omega (arith, g.next_u32))
  deliver_all_from r (q ∷ qs) a g =
      let step = deliver_lem r q a.0 g in
      let rest = deliver_all_from (deliver r q (sent q)).0 qs a.1 step.2 in
      (
        join_runs r.next_expected (deliver r q (sent q)).0.next_expected (deliver r q (sent q)).1
            (deliver_all (deliver r q (sent q)).0 qs).1 g.next_u32 step.0 step.1 rest.0,
        omega (
          arith,
          rest.1,
          step.1,
          length-append (deliver r q (sent q)).1 (deliver_all (deliver r q (sent q)).0 qs).1,
        ),
      )

  -- Whatever arrives, in whatever order and however often, a new receiver hands over exactly the
  -- payloads that were sent under 0, 1, 2, … (modulo 2 ^ 32), in this order and each once, and
  -- `next_expected` is the number that it has handed over (modulo 2 ^ 32).
  pub deliver_all_in_order :
      (stream_id : ℕ) (arrivals : List ℕ)
      → All (λ q. q < u32_mod) arrivals
      → let (r', out) = deliver_all (new stream_id) arrivals in
        (out ≡ map sent (seqs 0 (length out))) × (r'.next_expected ≡ length out % u32_mod)
  unfolding new
  deliver_all_in_order stream_id arrivals a =
      let all =
        deliver_all_from (new stream_id) arrivals a
          (record { next_u32 = omega arith; buffered = tt }) in
      (all.0, omega (arith, all.1))
