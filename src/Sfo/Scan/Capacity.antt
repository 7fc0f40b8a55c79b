-- ===== src/Sfo/Scan/Capacity.antt =====
-- sfo/client-access-sfoctl.c: the list of the matches never has more entries than its array has
-- room for, whatever a scan meets and however it ends.
use client_access.Prelude.{
  ℕ, suc, ◌<◌, ◌≤◌, ◌≡◌, ◌∙◌, sym, Bool, true, false, not, ◌&&◌, Option, none, some, List, [], ◌∷◌,
  leb, ltb, length, length-append, Bool-cases, Option-cases, List-cases, inl, inr, arith,
}
use client_access.Prelude.Word.{u32}
use mathlib.Core.Option
use mathlib.Core.Path.{subst}
use client_access.Sfo.Tuple.{
  Conntrack, supported_conntrack_tuple, software_offloaded, hardware_offloaded,
}
use client_access.Sfo.Candidates.{mark_candidates}
use client_access.Sfo.Scan.{
  Scan, CtList, CbResult, cb_continue, cb_stop, append_ct, append_if, deliver, count_entry,
  match_entry, offload_entry, scan_cb, query_dump, Dump, conntrack_scan, max_conntrack_snapshot,
}

module _ (n : ℕ) where
  -- The array has at most `n` elements, and the list at most `n` entries.
  abbrev pub Fits : Option CtList → Type 0
  Fits none = Unit
  Fits (some list) = (list.capacity ≤ n) × (length list.items ≤ n)

  append_if-Fits :
      (wanted copied : Bool) (ct : Conntrack) (m : Option CtList)
      → Fits m
      → Fits (append_if wanted copied ct m)
  unfolding append_if append_ct
  append_if-Fits wanted copied ct none fits = tt
  append_if-Fits false copied ct (some list) fits = fits
  append_if-Fits true copied ct (some list) fits =
      elim (Bool-cases (leb list.capacity (length list.items))) [
        | inl full ↦ rw (full, append_ct) fits
        | inr free ↦ elim (Bool-cases copied) [
          | inr failed ↦ rw (free, failed, append_ct) fits
          | inl made ↦
              let below : length list.items < list.capacity = ground arith in
              rw (free, made, append_ct)
                (fits.0, omega (arith, length-append list.items (ct ∷ []), below, fits.0))
        ]
      ]

  -- What a step delivers.
  delivered-Fits :
      (out : Scan × CbResult) (after : Scan) (r : CbResult)
      → some out ≡ some (after, r)
      → Fits out.0.matches
      → Fits after.matches
  delivered-Fits out after r h fits =
      subst (λ o. Fits o.0.matches) (Option.some-injective out (after, r) h) fits

  match_entry-Fits :
      (copied : Bool) (ct : Conntrack) (scan after : Scan) (r : CbResult)
      → match_entry copied ct scan ≡ some (after, r)
      → Fits scan.matches
      → Fits after.matches
  unfolding match_entry
  match_entry-Fits copied ct scan after r h fits = elim (Option-cases scan.candidates) [
    | inl absent ↦ delivered-Fits (scan, cb_continue) after r (simp (absent, match_entry) at h) fits
    | inr (s, own) ↦ elim (List-cases s.items) [
      | inl empty ↦
          delivered-Fits (scan, cb_continue) after r (simp (own, empty, match_entry) at h) fits
      | inr (c, rest, items) ↦ elim (Bool-cases (supported_conntrack_tuple ct)) [
        | inr other ↦
            delivered-Fits (scan, cb_continue) after r (simp (own, items, other, match_entry) at h)
              fits
        | inl known ↦ elim (Option-cases s.buckets) [
          | inl bare ↦
              delivered-Fits (scan, cb_continue) after r
                (simp (own, items, known, bare, match_entry) at h) fits
          | inr (heads, indexed) ↦ elim (Option-cases (mark_candidates ct s heads)) [
            | inl outside ↦ absurd (
                Option.none-ne-some (after, r)
                  (simp (own, items, known, indexed, outside, match_entry) at h))
            | inr ((marks, matched), walked) ↦
                let found = record scan {
                  candidates = some (record s { items = marks });
                  matches = append_if matched copied ct scan.matches;
                } in
                let is : match_entry copied ct scan ≡ some (deliver found) =
                  simp (own, items, known, indexed, walked, match_entry) in
                delivered-Fits (deliver found) after r (sym is ∙ h)
                  (append_if-Fits matched copied ct scan.matches fits)
          ]
        ]
      ]
    ]
  ]

  scan_cb-Fits :
      (copied : Bool) (ct : Conntrack) (scan after : Scan) (r : CbResult)
      → scan_cb copied ct scan ≡ some (after, r)
      → Fits scan.matches
      → Fits after.matches
  unfolding scan_cb count_entry offload_entry
  scan_cb-Fits copied ct scan after r h fits =
      let seen = record scan { entries = u32 (suc scan.entries) } in
      elim (Bool-cases (ltb max_conntrack_snapshot (u32 (suc scan.entries)))) [
        | inl over ↦
            delivered-Fits (record seen { snapshot_overflow = true }, cb_stop) after r
              (simp (over, scan_cb) at h) fits
        | inr under ↦ elim (Bool-cases scan.offloaded_only) [
          | inr all ↦
              let is : scan_cb copied ct scan ≡ match_entry copied ct (count_entry ct seen) =
                simp (under, all, scan_cb) in
              match_entry-Fits copied ct (count_entry ct seen) after r (sym is ∙ h) fits
          | inl only ↦
              let is : scan_cb copied ct scan
                  ≡ some (offload_entry copied ct (count_entry ct seen)) =
                simp (under, only, scan_cb) in
              delivered-Fits (offload_entry copied ct (count_entry ct seen)) after r (sym is ∙ h) (
                append_if-Fits (software_offloaded ct && not (hardware_offloaded ct)) copied ct
                  scan.matches fits)
        ]
      ]

  query_dump-Fits :
      (entries : List (Conntrack × Bool)) (scan after : Scan)
      → query_dump entries scan ≡ some after
      → Fits scan.matches
      → Fits after.matches
  unfolding query_dump
  query_dump-Fits [] scan after h fits =
      subst (λ x. Fits x.matches) (Option.some-injective scan after h) fits
  query_dump-Fits ((ct, copied) ∷ rest) scan after h fits =
      elim (Option-cases (scan_cb copied ct scan)) [
        | inl outside ↦ absurd (Option.none-ne-some after (simp (outside, query_dump) at h))
        | inr ((next, cb_stop), e) ↦
            subst (λ x. Fits x.matches)
              (Option.some-injective next after (simp (e, query_dump) at h))
              (scan_cb-Fits copied ct scan next cb_stop e fits)
        | inr ((next, cb_continue), e) ↦
            query_dump-Fits rest next after (simp (e, query_dump) at h)
              (scan_cb-Fits copied ct scan next cb_continue e fits)
      ]

  pub conntrack_scan-Fits :
      (dump : Dump) (scan after : Scan) (ok : Bool)
      → conntrack_scan dump scan ≡ some (after, ok)
      → Fits scan.matches
      → Fits after.matches
  unfolding conntrack_scan
  conntrack_scan-Fits dump scan after ok h fits =
      let unread : some (scan, false) ≡ some (after, ok) → Fits after.matches = λ e.
        subst (λ x. Fits x.0.matches) (Option.some-injective (scan, false) (after, ok) e) fits in
      elim (Bool-cases dump.opens) [
        | inr closed ↦ unread (simp (closed, conntrack_scan) at h)
        | inl opened ↦ elim (Bool-cases dump.registers) [
          | inr unable ↦ unread (simp (opened, unable, conntrack_scan) at h)
          | inl registered ↦ elim (Option-cases (query_dump dump.entries scan)) [
            | inl outside ↦ absurd (
                Option.none-ne-some (after, ok)
                  (simp (opened, registered, outside, conntrack_scan) at h))
            | inr (next, e) ↦
                subst (λ x. Fits x.0.matches)
                  (Option.some-injective (next, dump.succeeds) (after, ok)
                    (simp (opened, registered, e, conntrack_scan) at h))
                  (query_dump-Fits dump.entries scan next e fits)
          ]
        ]
      ]
