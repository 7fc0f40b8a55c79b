-- ===== src/Controller/Runtime/Sweep.antt =====
-- src/bpf-runtime.c: which flows `ca_bpf_gc_flows` removes.
use client_access.Prelude.{
  ℕ, suc, ◌+◌, ◌*◌, ◌≡◌, ◌∙◌, ap, Bool, true, false, some, List, [], ◌∷◌, ltb, length, In,
  Bool-cases, inl, inr, arith, ◌≤◌, ◌↔◌,
}
use client_access.Prelude.Word.{u64}
use client_access.Abi.{FlowKey, FlowState}
use client_access.Controller.{Bpf, ca_flows}
use client_access.Controller.Runtime.{second_ns, idle_cutoff, sweep_flows, gc_flows}

-- The same as `Sweeps` below, with the cutoff that the loop compares with.
abbrev Cuts :
    (cutoff : ℕ)
    → (reliable : Type 0) → List (FlowKey × FlowState)
    → List (FlowKey × FlowState) × ℕ
    → Type 0
Cuts cutoff reliable before out =
    (length out.0 + out.1 ≡ length before)
    × ((f : FlowKey × FlowState) → In f out.0 → In f before)
    × ((f : FlowKey × FlowState) → In f before → ltb f.1.last_seen_ns cutoff ≡ false → In f out.0)
    × (reliable → (f : FlowKey × FlowState) → In f out.0 → ltb f.1.last_seen_ns cutoff ≡ false)

Cuts-keep :
    (cutoff : ℕ) (reliable : Type 0) (e : FlowKey × FlowState)
    → (rest left : List (FlowKey × FlowState)) (removed : ℕ)
    → (reliable → ltb e.1.last_seen_ns cutoff ≡ false)
    → Cuts cutoff reliable rest (left, removed)
    → Cuts cutoff reliable (e ∷ rest) (e ∷ left, removed)
Cuts-keep cutoff reliable e rest left removed busy (n, sub, kept, gone) = (
  omega (arith, n),
  λ f at. elim at [ inl here ↦ inl here | inr there ↦ inr (sub f there) ],
  λ f at fresh. elim at [ inl here ↦ inl here | inr there ↦ inr (kept f there fresh) ],
  λ sure f at. elim at [
    | inl here ↦ ap (λ x. ltb x.1.last_seen_ns cutoff) here ∙ busy sure
    | inr there ↦ gone sure f there
  ],
)

Cuts-remove :
    (cutoff : ℕ) (reliable : Type 0) (e : FlowKey × FlowState)
    → (rest left : List (FlowKey × FlowState)) (removed : ℕ) → ltb e.1.last_seen_ns cutoff ≡ true
    → Cuts cutoff reliable rest (left, removed)
    → Cuts cutoff reliable (e ∷ rest) (left, suc removed)
Cuts-remove cutoff reliable e rest left removed idle (n, sub, kept, gone) = (
  omega (arith, n),
  λ f at. inr (sub f at),
  λ f at fresh. elim at [
    | inl here ↦
        let same : ltb f.1.last_seen_ns cutoff ≡ true =
          ap (λ x. ltb x.1.last_seen_ns cutoff) here ∙ idle in
        absurd (ground arith)
    | inr there ↦ kept f there fresh
  ],
  gone,
)

abbrev pub AllSucceed : (looks removes : ℕ → Bool) → Type 0
AllSucceed looks removes = (i : ℕ) → (looks i ≡ true) × (removes i ≡ true)

sweep_flows-Cuts :
    (looks removes : ℕ → Bool) (cutoff i : ℕ) (flows : List (FlowKey × FlowState))
    → Cuts cutoff (AllSucceed looks removes) flows (sweep_flows looks removes cutoff i flows)
unfolding sweep_flows
sweep_flows-Cuts looks removes cutoff i [] =
    (omega arith, λ f at. at, λ f at fresh. at, λ sure f at. absurd at)
sweep_flows-Cuts looks removes cutoff i ((key, state) ∷ rest) =
    let later = sweep_flows looks removes cutoff (suc i) rest in
    let rec = sweep_flows-Cuts looks removes cutoff (suc i) rest in
    let all = AllSucceed looks removes in
    elim (Bool-cases (looks i)) [
      | inr blind ↦
          rw (blind, sweep_flows)
            (Cuts-keep cutoff all (key, state) rest later.0 later.1
              (λ sure. absurd (ground (arith, (sure i).0))) rec)
      | inl seen ↦ elim (Bool-cases (ltb state.last_seen_ns cutoff)) [
        | inr busy ↦
            rw (seen, busy, sweep_flows)
              (Cuts-keep cutoff all (key, state) rest later.0 later.1 (λ sure. busy) rec)
        | inl idle ↦ elim (Bool-cases (removes i)) [
          | inl done ↦
              rw (seen, idle, done, sweep_flows)
                (Cuts-remove cutoff all (key, state) rest later.0 later.1 idle rec)
          | inr stuck ↦
              rw (seen, idle, stuck, sweep_flows)
                (Cuts-keep cutoff all (key, state) rest later.0 later.1
                  (λ sure. absurd (ground (arith, (sure i).1))) rec)
        ]
      ]
    ]

-- The flows that are left are of the map, and their number and that of the removed add up. A flow
-- whose last packet is at most the idle time before `now` is left; where no call fails, no other
-- is.
abbrev pub Sweeps :
    (now idle_seconds : ℕ)
    → (reliable : Type 0) → List (FlowKey × FlowState)
    → List (FlowKey × FlowState) × ℕ
    → Type 0
Sweeps now idle_seconds reliable before out =
    (length out.0 + out.1 ≡ length before)
    × ((f : FlowKey × FlowState) → In f out.0 → In f before)
    × ((f : FlowKey × FlowState)
        → In f before
        → now ≤ f.1.last_seen_ns + idle_seconds * 1000000000
        → In f out.0)
    × (reliable
        → (f : FlowKey × FlowState) → In f out.0
        → now ≤ f.1.last_seen_ns + idle_seconds * 1000000000)

-- A flow is before the cutoff if it was idle for longer than the idle time.
busy_cutoff :
    (now idle_seconds seen : ℕ)
    → (ltb seen (idle_cutoff now idle_seconds) ≡ false) ↔ (now ≤ seen + idle_seconds * 1000000000)
unfolding idle_cutoff
busy_cutoff now idle_seconds seen = (λ e. ground arith, λ e. ground arith)

Cuts-Sweeps :
    (now idle_seconds : ℕ) (reliable : Type 0) (before : List (FlowKey × FlowState))
    → (out : List (FlowKey × FlowState) × ℕ)
    → Cuts (idle_cutoff now idle_seconds) reliable before out
    → Sweeps now idle_seconds reliable before out
Cuts-Sweeps now idle_seconds reliable before out (n, sub, kept, gone) = (
  n,
  sub,
  λ f at busy. kept f at ((busy_cutoff now idle_seconds f.1.last_seen_ns).1 busy),
  λ sure f at. (busy_cutoff now idle_seconds f.1.last_seen_ns).0 (gone sure f at),
)

-- A collection by `gc` leaves a part of the flow map, and prints how many flows are gone; it leaves
-- every flow whose last packet is at most the idle time old; and where no lookup and no deletion
-- fails, it leaves no flow that was idle for longer.
pub gc_flows-Sweeps :
    (looks removes : ℕ → Bool) (seconds nanoseconds idle_seconds : ℕ) (bpf : Bpf)
    → bpf.maps ca_flows ≡ true
    → (removed : ℕ) × (left : List (FlowKey × FlowState)) × (gc_flows looks removes
          (some (seconds, nanoseconds))
          idle_seconds
          bpf
        ≡ some (removed, record bpf { flows = left }))
      × Sweeps
          (u64 (seconds * 1000000000 + nanoseconds))
          idle_seconds
          (AllSucceed looks removes)
          bpf.flows
          (left, removed)
unfolding gc_flows
gc_flows-Sweeps looks removes seconds nanoseconds idle_seconds bpf opens =
    let now = u64 (seconds * second_ns + nanoseconds) in
    let cutoff = idle_cutoff now idle_seconds in
    let all = AllSucceed looks removes in
    let out = sweep_flows looks removes cutoff 0 bpf.flows in
    (
      out.1,
      out.0,
      simp (opens, gc_flows),
      Cuts-Sweeps now idle_seconds all bpf.flows (out.0, out.1)
          (sweep_flows-Cuts looks removes cutoff 0 bpf.flows),
    )
