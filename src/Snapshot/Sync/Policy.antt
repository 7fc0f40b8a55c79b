-- ===== src/Snapshot/Sync/Policy.antt =====
-- src/bpf-snapshot.c and `ca_policy_verdict` of src/client-access-bpf.c: the policy lines that were
-- read are the policy that packets meet.
use client_access.Prelude.{
  ℕ, ◌≡◌, ◌↔◌, Option, none, some, List, [], ◌∷◌, inl, inr, In, arith, Bool-cases, ◌==◌, ◌&&◌,
  if◌then◌else◌,
}
use mathlib.Core.Option
use mathlib.Core.Path.{ap₂}
use client_access.Abi.{PolicyKey, class_default, verdict_allow}
use client_access.Datapath.State.{Slot}
use client_access.Snapshot.Line.{Snapshot, Line}
use client_access.Snapshot.Table.{Table}

-- The verdict of the first line on the subject and the class.
unfoldable pub find_policy : List (PolicyKey × ℕ) → (subject class : ℕ) → Option ℕ
find_policy [] subject class = none
find_policy ((k, v) ∷ entries) subject class =
    let later = find_policy entries subject class in
    if k.subject_id == subject && k.class_id == class then some v else later

abbrev pub fallback : Option ℕ → Option ℕ → ℕ
fallback (some v) default = v
fallback none (some v) = v
fallback none none = verdict_allow

-- What the lines say: the verdict on the class, else that on the default class, else to allow.
unfoldable pub lines_verdict : List (PolicyKey × ℕ) → (subject class : ℕ) → ℕ
lines_verdict entries subject class =
    fallback (find_policy entries subject class) (find_policy entries subject class_default)

pub find_policy-In :
    (entries : List (PolicyKey × ℕ)) (s c v : ℕ)
    → find_policy entries s c ≡ some v
    → In (record { subject_id = s; class_id = c }, v) entries
unfolding find_policy
find_policy-In [] s c v e = absurd (ground arith)
find_policy-In ((k, w) ∷ entries) s c v e =
    elim (Bool-cases (k.subject_id == s && k.class_id == c)) [
      | inl hit ↦
          let subject : s ≡ k.subject_id = ground arith in
          let class : c ≡ k.class_id = ground arith in
          let value : v ≡ w = ground arith in
          inl (
            ap₂ (λ x y. (x, y)) (ap₂ (λ a b. record { subject_id = a; class_id = b }) subject class)
              value)
      | inr other ↦ inr (find_policy-In entries s c v (ground arith))
    ]

module _ (table : Table PolicyKey ℕ) where
  -- The datapath's lookup of a policy gives what the map holds.
  abbrev pub Reads : Slot → table.Map → Type 0
  Reads slot m = (k : PolicyKey) (v : ℕ) → (slot.policy k ≡ some v) ↔ table.Holds m k v
