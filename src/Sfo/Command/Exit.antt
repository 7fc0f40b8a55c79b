-- ===== src/Sfo/Command/Exit.antt =====
-- sfo/client-access-sfoctl.c: the arguments that `main` accepts, and its exit codes.
use client_access.Prelude.{
  ℕ, ◌≤◌, ◌<◌, ◌^◌, ◌≡◌, ◌∙◌, not, ◌||◌, Option, none, some, List, [], ◌∷◌, ltb, Bool-cases,
  Option-cases, inl, inr, arith,
}
use client_access.Prelude.Word.{u16, u32}
use mathlib.Core.Option
use client_access.Sfo.Command.{
  Parsed, parse_u32, Argument, Action, status, baseline, gc, revoke, other, Run, run_status_of,
  run_baseline_of, run_gc_of, run_revoke_of, invalid, deadline_of, class_of, parse_baseline,
  parse_gc, parse_revoke, dispatch, max_deadline_ms,
}

parse_u32-bounds :
    (parsed : Parsed) (minimum maximum n : ℕ)
    → maximum < 2 ^ 32
    → parse_u32 parsed minimum maximum ≡ some n
    → (minimum ≤ n) × (n ≤ maximum)
unfolding parse_u32
parse_u32-bounds parsed minimum maximum n small h =
    elim (Bool-cases (
      not parsed.in_range
      || (not parsed.at_end || (ltb parsed.value minimum || ltb maximum parsed.value)))) [
        | inl bad ↦ absurd (ground (arith, rw (bad, parse_u32) at h))
        | inr fine ↦
            let same : u32 parsed.value ≡ n = Option.some-injective _ n (rw fine at h) in
            let below : (minimum ≤ parsed.value) × (parsed.value ≤ maximum) =
              (ground arith, ground arith) in
            (omega (arith, same, below.0, below.1), omega (arith, same, below.0, below.1))
      ]

-- The bounds of what a command is given.
abbrev pub IsBounded : Run → Type 0
IsBounded run_status_of = Unit
IsBounded (run_baseline_of deadline) = (1 ≤ deadline) × (deadline ≤ max_deadline_ms)
IsBounded (run_gc_of idle) = (1 ≤ idle) × (idle ≤ 86400)
IsBounded (run_revoke_of subject class deadline) =
    (1 ≤ subject)
    × (subject < 2 ^ 32)
    × ((c : ℕ) → class ≡ some c → c < 2 ^ 16)
    × (1 ≤ deadline)
    × (deadline ≤ max_deadline_ms)
IsBounded invalid = Unit

deadline_of-bounds :
    (rest : List Argument) (deadline : ℕ)
    → deadline_of rest ≡ some deadline
    → (1 ≤ deadline) × (deadline ≤ max_deadline_ms)
deadline_of-bounds [] deadline h =
    let same = Option.some-injective _ deadline h in (omega arith, omega arith)
deadline_of-bounds (a ∷ []) deadline h =
    parse_u32-bounds a.parsed 1 max_deadline_ms deadline (omega arith) h
deadline_of-bounds (a ∷ b ∷ rest) deadline h = absurd (ground arith)

class_of-bounds :
    (a : Argument) (class : Option ℕ)
    → class_of a ≡ some class
    → (c : ℕ) → class ≡ some c
    → c < 2 ^ 16
class_of-bounds a class h c own = elim (Bool-cases a.is_dash) [
  | inl dash ↦
      let same = Option.some-injective none class (rw dash at h) in
      absurd (ground (arith, same ∙ own))
  | inr number ↦ elim (Option-cases (parse_u32 a.parsed 0 65535)) [
    | inl bad ↦ absurd (ground (arith, rw (number, bad) at h))
    | inr (n, found) ↦
        let same : some (u16 n) ≡ some c =
          Option.some-injective (some (u16 n)) class (rw (number, found) at h) ∙ own in
        let value : u16 n ≡ c = Option.some-injective (u16 n) c same in omega (arith, value)
  ]
]

parse_revoke-IsBounded : (rest : List Argument) → IsBounded (parse_revoke rest)
unfolding parse_revoke
parse_revoke-IsBounded [] = tt
parse_revoke-IsBounded (a ∷ []) = tt
parse_revoke-IsBounded (a ∷ b ∷ rest) = elim (Option-cases (parse_u32 a.parsed 1 4294967295)) [
  | inl bad ↦ rw (bad, parse_revoke) tt
  | inr (subject, found) ↦ elim (Option-cases (class_of b)) [
    | inl bad ↦ rw (found, bad, parse_revoke) tt
    | inr (class, classed) ↦ elim (Option-cases (deadline_of rest)) [
      | inl bad ↦ rw (found, classed, bad, parse_revoke) tt
      | inr (deadline, timed) ↦
          let (low, high) = parse_u32-bounds a.parsed 1 4294967295 subject (omega arith) found in
          let (soon, late) = deadline_of-bounds rest deadline timed in
          rw (found, classed, timed, parse_revoke)
            (low, omega (arith, high), class_of-bounds b class classed, soon, late)
    ]
  ]
]

parse_baseline-IsBounded : (rest : List Argument) → IsBounded (parse_baseline rest)
unfolding parse_baseline
parse_baseline-IsBounded rest = elim (Option-cases (deadline_of rest)) [
  | inl bad ↦ rw (bad, parse_baseline) tt
  | inr (deadline, timed) ↦ rw (timed, parse_baseline) (deadline_of-bounds rest deadline timed)
]

parse_gc-IsBounded : (rest : List Argument) → IsBounded (parse_gc rest)
unfolding parse_gc
parse_gc-IsBounded [] = tt
parse_gc-IsBounded (a ∷ []) = elim (Option-cases (parse_u32 a.parsed 1 86400)) [
  | inl bad ↦ rw (bad, parse_gc) tt
  | inr (idle, found) ↦
      rw (found, parse_gc) (parse_u32-bounds a.parsed 1 86400 idle (omega arith) found)
]
parse_gc-IsBounded (a ∷ b ∷ rest) = tt

-- A command is run only with arguments in their ranges: a deadline of 1 to 10000 ms, an idle time
-- of 1 to 86400 s, a subject of 32 bits other than 0, and a class of 16 bits.
pub dispatch-IsBounded : (action : Action) (rest : List Argument) → IsBounded (dispatch action rest)
unfolding dispatch
dispatch-IsBounded status [] = tt
dispatch-IsBounded status (a ∷ rest) = tt
dispatch-IsBounded baseline rest = parse_baseline-IsBounded rest
dispatch-IsBounded gc rest = parse_gc-IsBounded rest
dispatch-IsBounded revoke rest = parse_revoke-IsBounded rest
dispatch-IsBounded other rest = tt
