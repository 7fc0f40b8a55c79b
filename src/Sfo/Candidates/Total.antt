-- ===== src/Sfo/Candidates/Total.antt =====
-- sfo/client-access-sfoctl.c: the rounds of the doubling are enough for the two capacities that the
-- commands use, so that collecting fails only for a reason of the source.
use client_access.Prelude.{
  ℕ, ◌+◌, ◌≤◌, ◌≡◌, ◌∙◌, refl, true, some, [], ◌∷◌, leb, length, List-cases, ◌⊎◌, inl, inr, arith,
}
use client_access.Abi.{max_flows}
use client_access.Sfo.Candidates.{
  Candidates, Selection, Flows, double_buckets, size_bits, index_candidates, collect, empty_set,
  collect_candidates, max_candidates,
}
use client_access.Sfo.Candidates.Collect.{selected, collect-selected}
use client_access.Sfo.Candidates.Index.{indexed}

-- The capacities of `run_revoke` and of `run_gc`.
abbrev pub IsUsed : ℕ → Type 0
IsUsed capacity = (capacity ≡ max_candidates) ⊎ (capacity ≡ max_flows)

double_buckets-IsUsed :
    (capacity : ℕ)
    → IsUsed capacity
    → (n : ℕ) × (double_buckets size_bits capacity 1 ≡ some n) × (capacity + capacity ≤ n)
unfolding double_buckets
double_buckets-IsUsed capacity (inl e) = (8192, rw e refl, omega (arith, e))
double_buckets-IsUsed capacity (inr e) = (32768, rw e refl, omega (arith, e))

index_candidates-succeeds :
    (s : Candidates) → IsUsed s.capacity → (t : Candidates) × (index_candidates true s ≡ some t)
unfolding index_candidates
index_candidates-succeeds s used =
    let (n, e, _) = double_buckets-IsUsed s.capacity used in
    (indexed n s, simp (e, index_candidates))

-- Collecting succeeds, for the capacities that the commands use, where the flow map opens, the
-- memory is there, an empty map gives ENOENT, and the records that are asked for fit.
pub collect_candidates-succeeds :
    (flows : Flows) (wanted : Selection) (capacity : ℕ)
    → IsUsed capacity
    → flows.opens ≡ true
    → flows.memory ≡ true
    → flows.enoent ≡ true
    → length (selected wanted flows.entries) ≤ capacity
    → (s : Candidates) × (collect_candidates flows wanted capacity ≡ some s)
unfolding collect_candidates
collect_candidates-succeeds flows wanted capacity used opens memory enoent fits =
    elim (List-cases flows.entries) [
      | inl empty ↦ (empty_set capacity, simp (opens, empty, enoent, collect_candidates))
      | inr (e, rest, cons) ↦
          let all = selected wanted (e ∷ rest) in
          let room : leb (0 + length all) capacity ≡ true = ground (arith, rw cons at fits) in
          let found : collect capacity wanted (e ∷ rest) [] ≡ some all =
            collect-selected capacity wanted (e ∷ rest) [] (omega arith) ∙ rw room refl in
          let (t, built) =
            index_candidates-succeeds (record (empty_set capacity) { items = all }) used in
          (t, simp (opens, cons, found, memory, built, collect_candidates))
    ]
