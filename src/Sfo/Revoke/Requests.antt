-- ===== src/Sfo/Revoke/Requests.antt =====
-- sfo/client-access-sfoctl.c: how many entries the passes of `run_revoke` ask for.
use client_access.Prelude.{
  ℕ, zero, suc, ◌+◌, ◌*◌, ◌≤◌, ◌≡◌, ap, Bool, true, false, not, ◌||◌, Option, none, some, List, [],
  ◌∷◌, ◌++◌, ◌==◌, length, length-append, Bool-cases, Option-cases, inl, inr, arith,
}
use client_access.Prelude.Word.{u32, sub64}
use mathlib.Core.Option
use client_access.Sfo.Tuple.{Conntrack}
use client_access.Sfo.Candidates.{Candidates, max_candidates, clear_present, collect_candidates}
use client_access.Sfo.Scan.{Scan, CtList, new_scan, new_list}
use client_access.Sfo.Scan.Capacity.{Fits, conntrack_scan-Fits}
use client_access.Sfo.Report.{
  Report, Pass, Answer, destroy, delete_conntracks, settle, list_of, list_in, evict, take_counts,
  new_report, fail, failed, conclude, max_verification_passes,
}
use client_access.Sfo.Report.Settle.{Answer-cases}
use client_access.Sfo.Revoke.{
  candidates_of, revoke_scan, revoke_passes, run_revoke, Revocation, wanted,
}

length-destroy :
    (answer : ℕ → Conntrack → Answer) (i : ℕ) (items : List Conntrack) (report : Report)
    → length (destroy answer i items report).2 ≤ length items
unfolding destroy
length-destroy answer i [] report = omega arith
length-destroy answer i (ct ∷ rest) report =
    let asked = record report { delete_attempts = u32 (suc report.delete_attempts) } in
    elim (Answer-cases (answer i ct)) [
      | inl done ↦
          let later =
            length-destroy answer (suc i) rest
              (record asked { delete_successes = u32 (suc asked.delete_successes) }) in
          rw (done, destroy) (omega (arith, later))
      | inr (inl gone) ↦
          let later =
            length-destroy answer (suc i) rest
              (record asked { already_absent = u32 (suc asked.already_absent) }) in
          rw (gone, destroy) (omega (arith, later))
      | inr (inr denied) ↦ rw (denied, destroy) (omega arith)
    ]

length-delete_conntracks :
    (opens : Bool) (answer : ℕ → Conntrack → Answer) (items : List Conntrack) (report : Report)
    → length (delete_conntracks opens answer items report).2 ≤ length items
unfolding delete_conntracks
length-delete_conntracks true answer items report = length-destroy answer 0 items report
length-delete_conntracks false answer items report = omega arith

-- A pass asks for entries of its list at most.
length-settle :
    (pass : Pass) (start deadline_ms : ℕ) (fallback : Bool) (scan : Scan) (ok : Bool)
    → (report : Report)
    → length (settle pass start deadline_ms fallback scan ok report).1 ≤ length (list_of scan).items
unfolding settle
length-settle pass start deadline_ms fallback scan ok report =
    elim (Bool-cases (not ok || (scan.snapshot_overflow || (list_of scan).overflow))) [
      | inl bad ↦ rw (bad, settle) (omega arith)
      | inr fine ↦ elim (Bool-cases (scan.hardware == 0)) [
        | inr hard ↦ rw (fine, hard, settle) (omega arith)
        | inl soft ↦ elim (Bool-cases (length (list_of scan).items == 0)) [
          | inl clean ↦ rw (fine, soft, clean, settle) (omega arith)
          | inr found ↦
              let seen = record (take_counts scan report) {
                remaining = length (list_of scan).items;
              } in
              let few =
                length-delete_conntracks pass.opens pass.answer (list_of scan).items
                  (evict fallback (length (list_of scan).items) seen) in
              let made =
                delete_conntracks pass.opens pass.answer (list_of scan).items
                  (evict fallback (length (list_of scan).items) seen) in
              elim (Bool-cases made.1) [
                | inl done ↦ rw (fine, soft, found, done, settle) few
                | inr failure ↦ rw (fine, soft, found, failure, settle) few
              ]
        ]
      ]
    ]

length-list_in : (n : ℕ) (m : Option CtList) → Fits n m → length (list_in m).items ≤ n
length-list_in n none fits = omega arith
length-list_in n (some list) (_, few) = few

-- The entries that so many passes ask for, of 4096 each.
length-revoke_passes :
    (left : ℕ) (pass : ℕ → Pass) (start deadline_ms i : ℕ) (s : Candidates)
    → (report : Report) (asked : List Conntrack) (report' : Report) (asked' : List Conntrack)
    → revoke_passes left pass start deadline_ms i s report asked ≡ some (report', asked')
    → length asked' ≤ length asked + left * 4096
unfolding revoke_passes
length-revoke_passes zero pass start deadline_ms i s report asked report' asked' h =
    let same : asked ≡ asked' =
      ap (λ o. o.1) (Option.some-injective (report, asked) (report', asked') h) in
    omega (arith, ap length same)
length-revoke_passes (suc left) pass start deadline_ms i s report asked report' asked' h =
    let begun = record report { verification_passes = u32 (suc report.verification_passes) } in
    elim (Option-cases (revoke_scan (pass i) s)) [
      | inl outside ↦
          absurd (Option.none-ne-some (report', asked') (simp (outside, revoke_passes) at h))
      | inr ((scan, ok), e) ↦
          let out = settle (pass i) start deadline_ms false scan ok begun in
          let fits =
            conntrack_scan-Fits 4096 (pass i).dump
              (new_scan (some (record s { items = clear_present s.items }))
                (some (new_list max_candidates)) false)
              scan ok e (omega arith, omega arith) in
          let few = length-settle (pass i) start deadline_ms false scan ok begun in
          let own = length-list_in 4096 scan.matches fits in
          let sum = length-append asked out.1 in
          elim (Bool-cases out.2) [
            | inr stop ↦
                let same : asked ++ out.1 ≡ asked' =
                  ap (λ o. o.1)
                    (Option.some-injective (out.0, asked ++ out.1) (report', asked')
                      (simp (e, stop, revoke_passes) at h)) in
                omega (arith, ap length same, few, own, sum)
            | inl again ↦
                let later =
                  length-revoke_passes left pass start deadline_ms (suc i) (candidates_of scan s)
                    out.0 (asked ++ out.1) report' asked' (simp (e, again, revoke_passes) at h) in
                omega (arith, later, few, own, sum)
          ]
    ]

-- The entries that a revocation asks for.
pub length-run_revoke :
    (subject_id : ℕ) (class_id : Option ℕ) (deadline_ms : ℕ) (env : Revocation)
    → (report : Report) (asked : List Conntrack)
    → run_revoke subject_id class_id deadline_ms env ≡ some (report, asked)
    → length asked ≤ 3 * 4096
unfolding run_revoke
length-run_revoke subject_id class_id deadline_ms env report asked h =
    let asked_for = wanted subject_id class_id in
    let unable = record (fail (new_report failed)) { latency_ms = sub64 env.printed env.start } in
    let nothing : ◌≡◌ {A = Option (Report × List Conntrack)} (some (unable, []))
          (some (report, asked))
        → length asked ≤ 3 * 4096 =
      λ e.
        omega
          (arith, ap (λ o. length o.1) (Option.some-injective (unable, []) (report, asked) e)) in
    elim (Bool-cases env.memory) [
      | inr full ↦ nothing (simp (full, run_revoke) at h)
      | inl room ↦ elim (Option-cases (collect_candidates env.flows asked_for max_candidates)) [
        | inl over ↦ nothing (simp (room, over, run_revoke) at h)
        | inr (s, collected) ↦
            let begun = record (new_report failed) { candidates = length s.items } in
            elim (Option-cases
              (revoke_passes max_verification_passes env.pass env.start deadline_ms 0 s begun [])) [
                | inl outside ↦ absurd (
                    Option.none-ne-some (report, asked)
                      (simp (room, collected, outside, run_revoke) at h))
                | inr ((last, made), e) ↦
                    let few =
                      length-revoke_passes max_verification_passes env.pass env.start deadline_ms 0
                        s begun [] last made e in
                    let same =
                      Option.some-injective
                        (conclude env.start deadline_ms env.finish env.printed last, made)
                        (report, asked) (simp (room, collected, e, run_revoke) at h) in
                    omega (arith, few, ap (λ o. length o.1) same)
              ]
      ]
    ]
