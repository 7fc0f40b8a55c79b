-- ===== src/Sfo/Scan/Read.antt =====
-- sfo/client-access-sfoctl.c, `conntrack_scan`: what its return value says of the calls it makes.
use client_access.Prelude.{
  ◌≡◌, ◌∙◌, ap, Bool, true, false, some, Bool-cases, Option-cases, inl, inr, arith,
}
use mathlib.Core.Option
use client_access.Sfo.Scan.{Scan, Dump, query_dump, conntrack_scan}

-- The handle was opened, the callback registered, and the query answered to its end.
abbrev pub IsRead : Dump → Type 0
IsRead dump = (dump.opens ≡ true) × (dump.registers ≡ true) × (dump.succeeds ≡ true)

pub conntrack_scan-IsRead :
    (dump : Dump) (scan after : Scan) (ok : Bool)
    → conntrack_scan dump scan ≡ some (after, ok)
    → ok ≡ true
    → IsRead dump
unfolding conntrack_scan
conntrack_scan-IsRead dump scan after ok h fine = elim (Bool-cases dump.opens) [
  | inr closed ↦
      let differ : false ≡ ok =
        ap (λ o. o.1)
          (Option.some-injective (scan, false) (after, ok) (simp (closed, conntrack_scan) at h)) in
      absurd (ground arith)
  | inl opened ↦ elim (Bool-cases dump.registers) [
    | inr unable ↦
        let differ : false ≡ ok =
          ap (λ o. o.1)
            (Option.some-injective (scan, false) (after, ok)
              (simp (opened, unable, conntrack_scan) at h)) in
        absurd (ground arith)
    | inl registered ↦ elim (Option-cases (query_dump dump.entries scan)) [
      | inl outside ↦ absurd (
          Option.none-ne-some (after, ok) (simp (opened, registered, outside, conntrack_scan) at h))
      | inr (next, e) ↦
          let same : dump.succeeds ≡ ok =
            ap (λ o. o.1)
              (Option.some-injective (next, dump.succeeds) (after, ok)
                (simp (opened, registered, e, conntrack_scan) at h)) in
          (opened, registered, same ∙ fine)
    ]
  ]
]
