-- ===== src/Datapath/Rate.antt =====
-- src/client-access-bpf.c, `ca_rate_take`, `ca_pending_reserve` and `ca_pending_release`: two
-- 32-bit counters packed into one 64-bit word, changed by compare-and-swap.
-- `next` computes the word to store, or refuses; the loop is that of both functions. `others` says
-- what other CPUs do to the word between the load and the swap of each attempt.
pub mod Pending
pub mod Interleaving
pub mod Window
use client_access.Prelude.{
  ℕ, zero, suc, ◌+◌, ◌/◌, Bool, true, false, not, Option, none, some, List, [], ◌∷◌, ltb, leb, ◌==◌,
  if◌then◌else◌,
}
use client_access.Prelude.Word.{u32, u64, sub64, low32, high32, pack64}

abbrev pub cas_attempts : ℕ
cas_attempts = 8

abbrev pub rate_window_ns : ℕ
rate_window_ns = 1_000_000_000

-- `__sync_val_compare_and_swap(state, old, next) == old`, where the word is `now` at the swap
unfoldable pub cas_loop : ℕ → (ℕ → Option ℕ) → List (ℕ → ℕ) → ℕ → Bool × ℕ
cas_loop zero next others word = (false, word)
cas_loop (suc attempts) next [] word = elim (next word) [
  | none ↦ (false, word)
  | some stored ↦ (true, stored)
]
cas_loop (suc attempts) next (other ∷ others) word = elim (next word) [
  | none ↦ (false, word)
  | some stored ↦ elim (other word == word) [
    | true ↦ (true, stored)
    | false ↦ cas_loop attempts next others (other word)
  ]
]

-- The body of the loop of `ca_rate_take`, at the second that the packet is in.
unfoldable pub rate_next : (second limit old : ℕ) → Option ℕ
rate_next second limit old =
    let old_second = u32 (high32 old) in
    let count = low32 old in
    if not (u32 second == old_second)
    then some (pack64 (u32 second) 1)
    else if leb limit count
    then none
    else some (u64 (old + 1))

unfoldable pub rate_take : List (ℕ → ℕ) → (word now limit : ℕ) → Bool × ℕ
rate_take others word now limit =
    cas_loop cas_attempts (rate_next (now / rate_window_ns) limit) others word

-- The body of the loop of `ca_pending_reserve`: the low half counts, the high half is the peak.
unfoldable pub pending_next : (limit old : ℕ) → Option ℕ
pending_next limit old =
    let pending_count = low32 old in
    let peak = u32 (high32 old) in
    let next_current = u32 (pending_count + 1) in
    let next_peak = if ltb peak next_current then next_current else peak in
    if leb limit pending_count then none else some (pack64 next_peak next_current)

unfoldable pub pending_reserve : List (ℕ → ℕ) → Option ℕ → ℕ → Bool × Option ℕ
pending_reserve others none limit = (false, none)
pending_reserve others (some word) limit =
    let (taken, stored) = cas_loop cas_attempts (pending_next limit) others word in
    (taken, some stored)

-- `__sync_fetch_and_sub(state, 1)`
unfoldable pub pending_release : Option ℕ → Option ℕ
pending_release none = none
pending_release (some word) = some (sub64 word 1)
