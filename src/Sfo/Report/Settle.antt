-- ===== src/Sfo/Report/Settle.antt =====
-- sfo/client-access-sfoctl.c: `delete_conntracks` asks for entries of its list only, and the rest
-- of a pass asks for nothing, and reports no success, on a scan that failed.
use client_access.Prelude.{
  ℕ, suc, ◌≡◌, ◌∙◌, refl, sym, Bool, true, false, not, ◌||◌, List, [], ◌∷◌, ◌==◌, if◌then◌else◌,
  length, In, Bool-cases, ◌⊎◌, inl, inr, arith,
}
use client_access.Prelude.Word.{u32}
use client_access.Sfo.Tuple.{Conntrack}
use client_access.Sfo.Scan.{Scan}
use client_access.Sfo.Report.{
  Report, Pass, Answer, destroyed, absent, refused, complete, destroy, delete_conntracks, settle,
  list_of, evict, take_counts,
}

-- The fields that requests do not touch.
abbrev IsKept : Report → Report → Type 0
IsKept before after =
    (after.result ≡ before.result) × (after.verification_passes ≡ before.verification_passes)

pub Answer-cases : (a : Answer) → (a ≡ destroyed) ⊎ (a ≡ absent) ⊎ (a ≡ refused)
Answer-cases destroyed = inl refl
Answer-cases absent = inr (inl refl)
Answer-cases refused = inr (inr refl)

In-cons :
    (e : Conntrack) (xs ys : List Conntrack)
    → ((ct : Conntrack) → In ct xs → In ct ys)
    → (ct : Conntrack) → In ct (e ∷ xs)
    → In ct (e ∷ ys)
In-cons e xs ys sub ct (inl here) = inl here
In-cons e xs ys sub ct (inr there) = inr (sub ct there)

destroy-IsKept :
    (answer : ℕ → Conntrack → Answer) (i : ℕ) (items : List Conntrack) (report : Report)
    → IsKept report (destroy answer i items report).0
      × ((ct : Conntrack) → In ct (destroy answer i items report).2 → In ct items)
unfolding destroy
destroy-IsKept answer i [] report = ((refl, refl), λ ct at. at)
destroy-IsKept answer i (e ∷ rest) report =
    let attempts = u32 (suc report.delete_attempts) in
    elim (Answer-cases (answer i e)) [
      | inl done ↦
          let (kept, asked) = destroy-IsKept answer (suc i) rest (record report {
            delete_attempts = attempts;
            delete_successes = u32 (suc report.delete_successes);
          }) in
          rw (done, destroy) (kept, In-cons e _ rest asked)
      | inr (inl gone) ↦
          let (kept, asked) = destroy-IsKept answer (suc i) rest (record report {
            delete_attempts = attempts;
            already_absent = u32 (suc report.already_absent);
          }) in
          rw (gone, destroy) (kept, In-cons e _ rest asked)
      | inr (inr denied) ↦
          rw (denied, destroy) ((refl, refl), In-cons e [] rest (λ ct at. absurd at))
    ]

delete_conntracks-IsKept :
    (opens : Bool) (answer : ℕ → Conntrack → Answer) (items : List Conntrack) (report : Report)
    → IsKept report (delete_conntracks opens answer items report).0
      × ((ct : Conntrack) → In ct (delete_conntracks opens answer items report).2 → In ct items)
unfolding delete_conntracks
delete_conntracks-IsKept true answer items report = destroy-IsKept answer 0 items report
delete_conntracks-IsKept false answer items report = ((refl, refl), λ ct at. absurd at)

-- A scan whose result is used.
abbrev pub IsGood : Scan → (ok : Bool) → Type 0
IsGood scan ok = (ok ≡ true) × (scan.snapshot_overflow ≡ false) × ((list_of scan).overflow ≡ false)

-- What the rest of a pass does: what it keeps, when it reports success, asks for an entry, and
-- goes on.
abbrev pub Settles : Scan → (ok : Bool) → Report → Report × List Conntrack × Bool → Type 0
Settles scan ok report out =
    (out.0.verification_passes ≡ report.verification_passes)
    × (out.0.result ≡ complete
        → (report.result ≡ complete)
          ⊎ IsGood scan ok × (scan.hardware ≡ 0) × ((list_of scan).items ≡ []))
    × ((ct : Conntrack) → In ct out.1 → IsGood scan ok × In ct (list_of scan).items)
    × (out.2 ≡ true → IsGood scan ok × (out.0.result ≡ report.result))

evict-IsKept : (fallback : Bool) (n : ℕ) (report : Report) → IsKept report (evict fallback n report)
evict-IsKept true n report = (refl, refl)
evict-IsKept false n report = (refl, refl)

length-none : (xs : List Conntrack) → length xs ≡ 0 → xs ≡ []
length-none [] h = refl
length-none (x ∷ rest) h = absurd (omega arith)

-- The result of the requests, by whether they were all made.
requests-Settles :
    (scan : Scan) (ok : Bool) (report after : Report) (asked : List Conntrack)
    → (deleted again : Bool) → IsGood scan ok
    → IsKept report after
    → ((ct : Conntrack) → In ct asked → In ct (list_of scan).items)
    → Settles scan ok report (
        if not deleted
        then (
          record after { verification_failures = u32 (suc after.verification_failures) },
          asked,
          false,
        )
        else (after, asked, again))
requests-Settles scan ok report after asked true again good (result, passes) sub =
    (passes, λ done. inl (sym result ∙ done), λ ct at. (good, sub ct at), λ _. (good, result))
requests-Settles scan ok report after asked false again good (result, passes) sub =
    (passes, λ done. inl (sym result ∙ done), λ ct at. (good, sub ct at), λ _. (good, result))

pub settle-Settles :
    (pass : Pass) (start deadline_ms : ℕ) (fallback : Bool) (scan : Scan) (ok : Bool)
    → (report : Report)
    → Settles scan ok report (settle pass start deadline_ms fallback scan ok report)
unfolding settle
settle-Settles pass start deadline_ms fallback scan ok report =
    elim (Bool-cases (not ok || (scan.snapshot_overflow || (list_of scan).overflow))) [
      | inl bad ↦
          rw (bad, settle) (refl, λ done. inl done, λ ct at. absurd at, λ on. absurd (ground arith))
      | inr fine ↦
          let good : IsGood scan ok = (ground arith, ground arith, ground arith) in
          elim (Bool-cases (scan.hardware == 0)) [
            | inr hard ↦
                rw (fine, hard, settle)
                  (refl, λ done. inl done, λ ct at. absurd at, λ on. absurd (ground arith))
            | inl soft ↦ elim (Bool-cases (length (list_of scan).items == 0)) [
              | inl clean ↦
                  rw (fine, soft, clean, settle)
                    (
                      refl,
                      λ done. inr (good, ground arith, length-none _ (ground arith)),
                      λ ct at. absurd at,
                      λ on. absurd (ground arith),
                    )
              | inr left ↦
                  let n = length (list_of scan).items in
                  let seen = record (take_counts scan report) { remaining = n } in
                  let (evicted, same) = evict-IsKept fallback n seen in
                  let ((result, passes), sub) =
                    delete_conntracks-IsKept pass.opens pass.answer (list_of scan).items
                      (evict fallback n seen) in
                  rw (fine, soft, left, settle)
                    (requests-Settles scan ok report _ _ _ _ good (result ∙ evicted, passes ∙ same)
                      sub)
            ]
          ]
    ]
