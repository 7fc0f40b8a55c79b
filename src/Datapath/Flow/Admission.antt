-- ===== src/Datapath/Flow/Admission.antt =====
-- src/client-access-bpf.c, `ca_admit_classification`: it spends rate words and touches nothing else.
use client_access.Prelude.{ℕ, ◌≡◌, arith}
use client_access.Abi.{Config}
use client_access.Datapath.State.{Kernel, State, Stats}
use client_access.Datapath.Flow.{Env, admit_classification, admit_subject}

module _ {k : Kernel} where
  -- All but the two rate words is the same.
  pub record KeepsCore (before after : State k) : Type 0 where
    pub config : after.config ≡ before.config
    pub slot_a : after.slot_a ≡ before.slot_a
    pub slot_b : after.slot_b ≡ before.slot_b
    pub flows : after.flows ≡ before.flows
    pub runtime : after.runtime ≡ before.runtime
    pub stats : after.stats ≡ before.stats

  admit_subject-KeepsCore :
      (env : Env) (config : Config) (subject : ℕ) (s : State k)
      → KeepsCore s (admit_subject env config subject s).1
  unfolding admit_subject
  admit_subject-KeepsCore env config subject s = ground arith

  pub admit_classification-KeepsCore :
      (env : Env) (config : Config) (subject : ℕ) (s : State k)
      → KeepsCore s (admit_classification env config subject s).1
  unfolding admit_classification
  admit_classification-KeepsCore env config subject s = grind (arith, admit_subject-KeepsCore)

  -- No counter bears on the admission.
  pub admit_classification-stats :
      (env : Env) (config : Config) (subject : ℕ) (s : State k) (stats : Stats)
      → (admit_classification env config subject (record s { stats = stats })).0
        ≡ (admit_classification env config subject s).0
  unfolding admit_classification admit_subject
  admit_classification-stats env config subject s stats = ground arith
