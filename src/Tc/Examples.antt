-- ===== src/Tc/Examples.antt =====
-- The theorems on the filters applied to two interfaces, one with a filter of another program.
use client_access.Prelude.{ℕ, ◌≡◌, true, false, none, some, List, [], ◌∷◌, ◌==◌, ◌⊎◌, if◌then◌else◌}
use client_access.Tc.{
  Coordinate, owned, Filters, Calls, Name, detach_interfaces, verify_interfaces, tc_detach,
  tc_attach,
}
use client_access.Tc.Owned.{
  Releases, prune-verify, tc_detach-owned, tc_attach-owned, IsUndisturbed, IsKept,
}

abbrev working : Calls
working = record {
  query_fails = λ i c. false;
  detach_fails = λ i c. false;
  create_fails = false;
  attach_fails = false;
  requery_fails = false;
}

-- Program 7 is ours; interface 3 has program 9 at every coordinate.
abbrev filters : Filters
filters i c = if i == 2 then some 7 else if i == 3 then some 9 else none

abbrev interfaces : List (ℕ × Name)
interfaces = (2, 108 ∷ []) ∷ (3, 119 ∷ []) ∷ []

prune-verify_example :
    Releases 7 filters (detach_interfaces working 7 [] interfaces filters).1
    × (((detach_interfaces working 7 [] interfaces filters).0 ≡ false)
        ⊎ (verify_interfaces working 7 [] interfaces
              (detach_interfaces working 7 [] interfaces filters).1
            ≡ true))
prune-verify_example = prune-verify working 7 [] interfaces filters

tc_detach-owned_example :
    Releases 7 filters (tc_detach working 7 2 filters).1
    × (((tc_detach working 7 2 filters).0 ≡ false)
        ⊎ ((tc_detach working 7 2 filters).1 2 owned ≡ none))
tc_detach-owned_example = tc_detach-owned working 7 2 filters

-- Program 9 is attached to interface 5 at the same time.
tc_attach-owned_example :
    ((i : ℕ) (c : Coordinate)
      → ((tc_attach working (some 9) 7 5 filters).1 i c ≡ filters i c) ⊎ (filters i c ≡ none))
    × (((tc_attach working (some 9) 7 5 filters).0 ≡ false)
        ⊎ ((tc_attach working (some 9) 7 5 filters).1 5 owned ≡ some 7))
    × (IsUndisturbed working (some 9) 5 filters
        ⊎ IsKept working (some 9) 7 5 (tc_attach working (some 9) 7 5 filters))
tc_attach-owned_example = tc_attach-owned working (some 9) 7 5 filters
