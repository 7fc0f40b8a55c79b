-- ===== src/Sfo/Fallback/Offloaded.antt =====
-- sfo/client-access-sfoctl.c: a scan for offloaded entries always ends, and, without an overflow,
-- lists those that are offloaded in software alone.
use client_access.Prelude.{
  suc, ◌+◌, ◌≤◌, ◌≡◌, ◌∙◌, refl, sym, ap, Bool, true, false, not, ◌&&◌, Option, some, List, [], ◌∷◌,
  ltb, if◌then◌else◌, Bool-cases, inl, inr, arith,
}
use client_access.Prelude.Word.{u32}
use client_access.Sfo.Tuple.{Conntrack, software_offloaded, hardware_offloaded}
use client_access.Sfo.Scan.{
  Scan, CtList, append_if, is_full, deliver, offload_entry, count_entry, scan_cb, query_dump,
  max_conntrack_snapshot,
}
use client_access.Sfo.Scan.Reference.{
  count_if, extended, extended-nil, extended-append, append_if-room,
}
use client_access.Sfo.Scan.Marking.{deliver-room}
use client_access.Sfo.Scan.Query.{
  counted, scan_cb-over, query_dump-stop, query_dump-continue, deliver-full, hardware-step,
}

abbrev pub is_evicted : Conntrack → Bool
is_evicted ct = software_offloaded ct && not (hardware_offloaded ct)

unfoldable pub evicted : List (Conntrack × Bool) → List Conntrack
evicted [] = []
evicted ((ct, copied) ∷ rest) = if is_evicted ct then ct ∷ evicted rest else evicted rest

-- The scan after an entry.
abbrev listed : (copied : Bool) → Conntrack → Scan → Scan
listed copied ct scan = record (counted ct scan) {
  matches = append_if (is_evicted ct) copied ct scan.matches;
}

scan_cb-listed :
    (copied : Bool) (ct : Conntrack) (scan : Scan)
    → scan.offloaded_only ≡ true
    → ltb max_conntrack_snapshot (u32 (suc scan.entries)) ≡ false
    → scan_cb copied ct scan ≡ some (deliver (listed copied ct scan))
unfolding scan_cb count_entry offload_entry
scan_cb-listed copied ct scan mode under = simp (under, mode, scan_cb)

extended-evicted :
    (copied : Bool) (ct : Conntrack) (m : Option CtList) (rest : List (Conntrack × Bool))
    → is_full (append_if (is_evicted ct) copied ct m) ≡ false
    → extended (append_if (is_evicted ct) copied ct m) (evicted rest)
      ≡ extended m (evicted ((ct, copied) ∷ rest))
unfolding evicted
extended-evicted copied ct m rest free =
    ap (λ x. extended x (evicted rest)) (append_if-room (is_evicted ct) copied ct m free)
    ∙ extended-append m (if is_evicted ct then ct ∷ [] else []) (evicted rest)
    ∙ ap (extended m)
        (elim (Bool-cases (is_evicted ct)) [ inl hit ↦ rw hit refl | inr miss ↦ rw miss refl ])

pub query_dump-evicted :
    (entries : List (Conntrack × Bool)) (scan : Scan)
    → scan.offloaded_only ≡ true
    → is_full scan.matches ≡ false
    → scan.entries ≤ max_conntrack_snapshot
    → scan.hardware ≤ scan.entries
    → (after : Scan) × (query_dump entries scan ≡ some after)
      × (after.snapshot_overflow ≡ false
          → is_full after.matches ≡ false
          → (after.matches ≡ extended scan.matches (evicted entries))
            × (after.hardware ≡ scan.hardware + count_if hardware_offloaded entries))
unfolding query_dump evicted count_if count_entry
query_dump-evicted [] scan mode room few hard =
    (scan, refl, λ _ _. (sym (extended-nil scan.matches), omega arith))
query_dump-evicted ((ct, copied) ∷ rest) scan mode room few hard =
    elim (Bool-cases (ltb max_conntrack_snapshot (u32 (suc scan.entries)))) [
      | inl over ↦ (
        record scan { entries = u32 (suc scan.entries); snapshot_overflow = true },
        query_dump-stop copied ct rest scan _ (scan_cb-over copied ct scan over),
        λ no_overflow. absurd (ground arith),
      )
      | inr under ↦
          let now = listed copied ct scan in
          let step = scan_cb-listed copied ct scan mode under in
          let (hard', seen) = hardware-step ct scan few hard in
          elim (Bool-cases (is_full now.matches)) [
            | inl full ↦ (
              now,
              query_dump-stop copied ct rest scan now (step ∙ ap some (deliver-full now full)),
              λ _ free. absurd (ground arith),
            )
            | inr free ↦
                let (after, e, left) =
                  query_dump-evicted rest now mode free (ground arith) (ground arith) in
                (
                  after,
                  query_dump-continue copied ct rest scan now
                        (step ∙ ap some (deliver-room now free))
                      ∙ e,
                  λ no_overflow still.
                      let (m, h) = left no_overflow still in
                      (
                        m ∙ extended-evicted copied ct scan.matches rest free,
                        omega (arith, h, hard'),
                      ),
                )
          ]
    ]
