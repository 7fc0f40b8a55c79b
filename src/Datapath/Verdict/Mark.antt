-- ===== src/Datapath/Verdict/Mark.antt =====
-- src/client-access-bpf.c, `ca_emit_app_verdict`: the two bits of the mark that belong to the
-- application workflow, and the thirty that do not.
use client_access.Prelude.{ℕ, ◌/◌, ◌%◌, ◌^◌, ◌≡◌, arith, ◌==◌, if◌then◌else◌}
use client_access.Abi.{verdict_deny}
use client_access.Datapath.State.{SkBuff, Stats}
use client_access.Datapath.Verdict.{clear_app_mark, emit_app_verdict}

abbrev pub deny_bit : SkBuff → ℕ
deny_bit skb = skb.mark / 2 ^ 29 % 2

abbrev pub valid_bit : SkBuff → ℕ
valid_bit skb = skb.mark / 2 ^ 30 % 2

-- The bit that a verdict sets.
abbrev pub denies : ℕ → ℕ
denies verdict = if verdict == verdict_deny then 1 else 0

-- The packet is the same but for the two bits.
pub record Keeps (before after : SkBuff) : Type 0 where
  pub bytes : after.bytes ≡ before.bytes
  pub len : after.len ≡ before.len
  pub low : after.mark % 2 ^ 29 ≡ before.mark % 2 ^ 29
  pub high : after.mark / 2 ^ 31 ≡ before.mark / 2 ^ 31

pub record Stamped (before : SkBuff) (verdict : ℕ) (after : SkBuff) : Type 0 where
  pub keeps : Keeps before after
  pub valid : valid_bit after ≡ 1
  pub deny : deny_bit after ≡ denies verdict

pub record Unstamped (before after : SkBuff) : Type 0 where
  pub keeps : Keeps before after
  pub valid : valid_bit after ≡ 0
  pub deny : deny_bit after ≡ 0

abbrev pub cleared : SkBuff → SkBuff
cleared skb = record skb { mark = clear_app_mark skb.mark }

pub clear_app_mark-Unstamped : (skb : SkBuff) → Unstamped skb (cleared skb)
clear_app_mark-Unstamped skb = ground arith

pub emit_app_verdict-Stamped :
    (skb : SkBuff) (verdict : ℕ) (stats : Stats)
    → Stamped skb verdict (emit_app_verdict (cleared skb) verdict stats).0
unfolding emit_app_verdict
emit_app_verdict-Stamped skb verdict stats = ground arith
