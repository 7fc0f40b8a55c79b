-- ===== src/Datapath/Rate/Window.antt =====
-- src/client-access-bpf.c, `ca_rate_take`: the requests of one second.
use client_access.Prelude.{
  ℕ, ◌+◌, ◌-◌, ◌/◌, ◌^◌, ◌≤◌, ◌<◌, ◌≡◌, ◌≢◌, true, false, [], arith, min, if◌then◌else◌, List, ◌∷◌,
  ◌*◌, length, In, inl, inr, refl,
}
use client_access.Prelude.Word.{u32, high32, pack64}
use native.Mathlib.Decide.{dec_lt}
use native.Mathlib.Nat.{le_refl}
use client_access.Datapath.Rate.{cas_loop, rate_next, rate_take, rate_window_ns}

-- Requests one after the other, at these times: how many are granted, and the word.
unfoldable pub burst : (times : List ℕ) (limit word : ℕ) → ℕ × ℕ
burst [] limit word = (0, word)
burst (now ∷ times) limit word =
    let (taken, next) = rate_take [] word now limit in
    let (granted, last) = burst times limit next in ((if taken then granted + 1 else granted), last)

-- The times of a second, in nanoseconds.
abbrev pub IsSecond : (second : ℕ) → List ℕ → Type 0
IsSecond second times =
    (now : ℕ)
    → In now times
    → (second * 1000000000 ≤ now) × (now < second * 1000000000 + 1000000000)

IsSecond-window :
    (second now : ℕ)
    → (second * 1000000000 ≤ now) × (now < second * 1000000000 + 1000000000)
    → now / rate_window_ns ≡ second
IsSecond-window second now (from, to) = omega (arith, from, to)

-- A word of the second, with a count.
abbrev in_window : (second count : ℕ) → ℕ
in_window second count = pack64 (u32 second) count

rate_take-in_window :
    (now second limit count : ℕ)
    → now / rate_window_ns ≡ second
    → count < limit
    → limit < 2 ^ 32
    → rate_take [] (in_window second count) now limit ≡ (true, in_window second (count + 1))
unfolding rate_take cas_loop rate_next
rate_take-in_window now second limit count at h small = rw (at, rate_take) (ground arith)

rate_take_spent :
    (now second limit : ℕ)
    → now / rate_window_ns ≡ second
    → limit < 2 ^ 32
    → rate_take [] (in_window second limit) now limit ≡ (false, in_window second limit)
unfolding rate_take cas_loop rate_next
rate_take_spent now second limit at small = rw (at, rate_take) (ground arith)

rate_take_fresh :
    (now second limit word : ℕ)
    → now / rate_window_ns ≡ second
    → high32 word ≢ u32 second
    → word < 2 ^ 64
    → rate_take [] word now limit ≡ (true, in_window second 1)
unfolding rate_take cas_loop rate_next
rate_take_fresh now second limit word at other fits = rw (at, rate_take) (ground arith)

burst-in_window :
    (times : List ℕ) (second limit count : ℕ)
    → IsSecond second times
    → count ≤ limit
    → limit < 2 ^ 32
    → (burst times limit (in_window second count)).0 ≡ min (length times) (limit - count)
unfolding burst
burst-in_window [] second limit count same h small = omega arith
burst-in_window (now ∷ times) second limit count same h small =
    let at = IsSecond-window second now (same now (inl refl)) in
    let later : IsSecond second times = λ t there. same t (inr there) in
    elim (dec_lt count limit) [
      | yes below ↦
          rw (rate_take-in_window now second limit count at below small) (
            omega (arith, burst-in_window times second limit (count + 1) later (omega arith) small))
      | no spent ↦
          let full : count ≡ limit = omega arith in
          rw (full, rate_take_spent now second limit at small)
            (omega (arith, burst-in_window times second limit limit later (le_refl limit) small))
    ]

-- Of any number of requests at any times of one second of 1000000000 nanoseconds, the first of
-- that second, exactly as many are granted as the limit allows: all of them up to the limit, and no
-- more. The word has 64 bits, the limit has 32 and is not 0, and no other CPU takes part.
pub burst-limit :
    (times : List ℕ) (second limit word : ℕ)
    → IsSecond second times
    → high32 word ≢ u32 second
    → word < 2 ^ 64
    → 1 ≤ limit
    → limit < 2 ^ 32
    → (burst times limit word).0 ≡ min (length times) limit
unfolding burst
burst-limit [] second limit word same other fits some_limit small = omega arith
burst-limit (now ∷ times) second limit word same other fits some_limit small =
    let at = IsSecond-window second now (same now (inl refl)) in
    let later : IsSecond second times = λ t there. same t (inr there) in
    rw (rate_take_fresh now second limit word at other fits)
      (omega (arith, burst-in_window times second limit 1 later some_limit small))
