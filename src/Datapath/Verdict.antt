-- ===== src/Datapath/Verdict.antt =====
-- src/client-access-bpf.c, `ca_policy_verdict` and `ca_emit_app_verdict`: the verdict of a subject
-- on a class, and the two mark bits that carry it to the firewall.
pub mod Mark
use client_access.Prelude.{ℕ, ◌+◌, ◌*◌, ◌/◌, ◌%◌, ◌^◌, none, some, ◌==◌, if◌then◌else◌}
use client_access.Abi.{class_default, verdict_allow, verdict_deny}
use client_access.Datapath.State.{
  Slot, Stats, SkBuff, stat_inc, stat_packet_app_allow_verdicts, stat_packet_app_deny_verdicts,
}

unfoldable pub policy_verdict : Slot → ℕ → ℕ → ℕ
policy_verdict slot subject class =
    elim (slot.policy (record { subject_id = subject; class_id = class })) [
      | some verdict ↦ verdict
      | none ↦ elim (slot.policy (record { subject_id = subject; class_id = class_default })) [
        | some verdict ↦ verdict
        | none ↦ verdict_allow
      ]
    ]

-- CA_APP_MARK_DENY is bit 29, CA_APP_MARK_VALID is bit 30.
abbrev pub mark_deny_bit : ℕ
mark_deny_bit = 29

abbrev pub mark_valid_bit : ℕ
mark_valid_bit = 30

-- `mark & ~CA_APP_MARK_MASK`: bits 29 and 30 cleared, the others kept
abbrev pub clear_app_mark : ℕ → ℕ
clear_app_mark mark = mark % 2 ^ 29 + mark / 2 ^ 31 * 2 ^ 31

-- `mark |= 1 << b`
abbrev pub set_mark_bit : ℕ → ℕ → ℕ
set_mark_bit b mark = if mark / 2 ^ b % 2 == 1 then mark else mark + 2 ^ b

unfoldable pub emit_app_verdict : SkBuff → ℕ → Stats → SkBuff × Stats
emit_app_verdict skb verdict stats =
    let valid = set_mark_bit mark_valid_bit (clear_app_mark skb.mark) in
    if verdict == verdict_deny
    then (
      record skb { mark = set_mark_bit mark_deny_bit valid },
      stat_inc stat_packet_app_deny_verdicts stats,
    )
    else (record skb { mark = valid }, stat_inc stat_packet_app_allow_verdicts stats)
