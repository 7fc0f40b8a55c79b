-- ===== src/Sfo/Fallback/Baseline.antt =====
-- sfo/client-access-sfoctl.c: what `run_baseline` promises, in terms of the tables that it reads.
use client_access.Prelude.{
  ℕ, zero, suc, ◌+◌, ◌≤◌, ◌<◌, ◌^◌, ◌≡◌, ◌∙◌, refl, sym, ap, Bool, true, false, none, some, List,
  [], ◌∷◌, ◌++◌, map, In, Bool-cases, inl, inr, arith,
}
use client_access.Prelude.Word.{u32, sub64}
use mathlib.Core.Path.{subst}
use client_access.Sfo.Tuple.{Conntrack, software_offloaded, hardware_offloaded}
use client_access.Sfo.Scan.{Scan, conntrack_scan, new_scan, new_list}
use client_access.Sfo.Scan.Read.{IsRead, conntrack_scan-IsRead}
use client_access.Sfo.Scan.Records.{count_if-none}
use client_access.Sfo.Report.{
  Report, Pass, complete, failed, new_report, settle, list_in, list_of, conclude,
  max_verification_passes, max_fallback_evictions,
}
use client_access.Sfo.Report.Settle.{IsGood, settle-Settles}
use client_access.Sfo.Revoke.Passes.{
  dumped, Looks, is_full-list_in, Revokes, pass-Revokes, Revokes-then, Revokes-more,
}
use client_access.Sfo.Revoke.Outcome.{conclude-kept}
use client_access.Sfo.Fallback.{baseline_scan, baseline_passes, Fallback, run_baseline}
use client_access.Sfo.Fallback.Offloaded.{is_evicted, evicted, query_dump-evicted}

In-evicted :
    (entries : List (Conntrack × Bool)) (ct : Conntrack)
    → In ct (evicted entries)
    → (is_evicted ct ≡ true) × In ct (map (λ e. e.0) entries)
unfolding evicted
In-evicted [] ct at = absurd at
In-evicted ((e, copied) ∷ rest) ct at = elim (Bool-cases (is_evicted e)) [
  | inr miss ↦ let (soft, from) = In-evicted rest ct (rw miss at at) in (soft, inr from)
  | inl hit ↦ elim (rw hit at at) [
    | inl here ↦ (ap is_evicted here ∙ hit, inl here)
    | inr there ↦ let (soft, from) = In-evicted rest ct there in (soft, inr from)
  ]
]

evicted-none :
    (entries : List (Conntrack × Bool)) (ct : Conntrack)
    → evicted entries ≡ []
    → In ct (map (λ e. e.0) entries)
    → is_evicted ct ≡ false
unfolding evicted
evicted-none [] ct no_entry at = absurd at
evicted-none ((e, copied) ∷ rest) ct no_entry at = elim (Bool-cases (is_evicted e)) [
  | inl hit ↦ absurd (ground (arith, rw hit at no_entry))
  | inr miss ↦ elim at [
    | inl here ↦ ap is_evicted here ∙ miss
    | inr there ↦ evicted-none rest ct (rw miss at no_entry) there
  ]
]

baseline_scan-Looks :
    (pass : Pass)
    → (scan : Scan) × (ok : Bool) × (baseline_scan pass ≡ some (scan, ok))
      × (IsGood scan ok → Looks is_evicted pass.dump scan)
unfolding conntrack_scan
baseline_scan-Looks pass =
    let begun = new_scan none (some (new_list max_fallback_evictions)) true in
    elim (Bool-cases pass.dump.opens) [
      | inr closed ↦
          (begun, false, simp (closed, conntrack_scan), λ (ok, _, _). absurd (ground arith))
      | inl opened ↦ elim (Bool-cases pass.dump.registers) [
        | inr refused ↦ (
          begun,
          false,
          simp (opened, refused, conntrack_scan),
          λ (ok, _, _). absurd (ground arith),
        )
        | inl ready ↦
            let entries = pass.dump.entries in
            let (after, e, left) =
              query_dump-evicted entries begun refl refl (omega arith) (omega arith) in
            (
              after,
              pass.dump.succeeds,
              simp (opened, ready, e, conntrack_scan),
              λ (fine, whole, room).
                  let (listed, hard) = left whole (is_full-list_in after.matches ∙ room) in
                  let all : (list_of after).items ≡ evicted entries =
                    ap (λ m. (list_in m).items) listed in
                  (
                    λ ct at. In-evicted entries ct (subst (In ct) all at),
                    λ empty soft ct at. (
                      evicted-none entries ct (sym all ∙ empty) at,
                      count_if-none hardware_offloaded entries ct (omega (arith, hard, soft)) at,
                    ),
                  ),
            )
      ]
    ]

baseline_passes-Revokes :
    (left : ℕ) (pass : ℕ → Pass) (start deadline_ms i : ℕ) (report : Report)
    → (asked : List Conntrack) → report.verification_passes + left < 2 ^ 32
    → (report' : Report) × (asked' : List Conntrack) × (baseline_passes left pass start deadline_ms
          i report asked
        ≡ some (report', asked'))
      × Revokes left pass i is_evicted report asked report' asked'
unfolding baseline_passes
baseline_passes-Revokes zero pass start deadline_ms i report asked few =
    (report, asked, refl, (omega arith, λ done. inl done, λ ct at. inl at))
baseline_passes-Revokes (suc left) pass start deadline_ms i report asked few =
    let begun = record report { verification_passes = u32 (suc report.verification_passes) } in
    let (scan, ok, e, found) = baseline_scan-Looks (pass i) in
    let settles = settle-Settles (pass i) start deadline_ms true scan ok begun in
    let out = settle (pass i) start deadline_ms true scan ok begun in
    let one =
      pass-Revokes pass i is_evicted scan ok report asked out (omega arith)
        (conntrack_scan-IsRead (pass i).dump _ scan ok e) found settles in
    elim (Bool-cases out.2) [
      | inr stop ↦ (
        out.0,
        asked ++ out.1,
        rw (e, stop, baseline_passes) refl,
        Revokes-more left pass i is_evicted report out.0 asked (asked ++ out.1) one,
      )
      | inl again ↦
          let passes : out.0.verification_passes ≤ report.verification_passes + 1 = one.0 in
          let (report', asked', rest, later) =
            baseline_passes-Revokes left pass start deadline_ms (suc i) out.0 (asked ++ out.1)
              (omega arith) in
          (
            report',
            asked',
            rw (e, again, baseline_passes) rest,
            Revokes-then left pass i is_evicted report out.0 report' asked (asked ++ out.1) asked'
                one later,
          )
    ]

-- A fallback ends after at most three passes; the entries that it asks to be destroyed are of the
-- tables it has read and are offloaded in software alone; and if it reports COMPLETE, it has kept
-- its deadline, and in one of its passes it has read a table to its end, without a call that
-- failed and without any offloaded entry.
pub run_baseline-Offloaded :
    (deadline_ms : ℕ) (env : Fallback)
    → env.memory ≡ true
    → (report : Report) × (asked : List Conntrack) × (run_baseline deadline_ms env
        ≡ some (some report, asked))
      × (report.verification_passes ≤ max_verification_passes)
      × ((ct : Conntrack)
          → In ct asked
          → (is_evicted ct ≡ true)
            × (j : ℕ) × (j < max_verification_passes)
            × In ct (dumped (env.pass j).dump))
      × (report.result ≡ complete
          → (sub64 env.finish env.start ≤ deadline_ms)
            × (j : ℕ) × (j < max_verification_passes)
            × IsRead (env.pass j).dump
            × ((ct : Conntrack)
                → In ct (dumped (env.pass j).dump)
                → (software_offloaded ct ≡ false) × (hardware_offloaded ct ≡ false)))
unfolding run_baseline
run_baseline-Offloaded deadline_ms env room =
    let (report, asked, e, (passes, done, asks)) =
      baseline_passes-Revokes max_verification_passes env.pass env.start deadline_ms 0
        (record (new_report failed) { fallback_used = true }) [] (omega arith) in
    let (kept, timely) = conclude-kept env.start deadline_ms env.finish env.finish report in
    (
      conclude env.start deadline_ms env.finish env.finish report,
      asked,
      simp (room, e, run_baseline),
      omega (arith, kept, passes),
      λ ct at. elim (asks ct at) [ inl before ↦ absurd before | inr found ↦ found ],
      λ end.
          let (ended, fast) = timely end in
          elim (done ended) [
            | inl before ↦ absurd (ground arith)
            | inr (j, below, read, clean) ↦ (
              fast,
              j,
              below,
              read,
              λ ct at. let (soft, hard) = clean ct at in (ground arith, hard),
            )
          ],
    )
