-- ===== src/Snapshot/Line/Valid/Entry.antt =====
-- src/bpf-snapshot.c, `parse_snapshot`: what one accepted line adds.
use client_access.Prelude.{
  ℕ, ◌||◌, ◌≤◌, ◌<◌, ◌≡◌, sym, Bool, true, false, Option, none, some, List, [], ◌∷◌, ◌++◌, inl, inr,
  refl, arith, Option-cases, Bool-cases, In-snoc, length, length-append,
}
use client_access.Abi.{Config, ClassHint, LpmKey, PortKey, PolicyKey, MacKey}
use client_access.Snapshot.Prefix.{
  Family, Libc, prefix_maximum, parse_prefix, canonicalize_prefix, Text,
}
use client_access.Snapshot.Line.{
  ok, Snapshot, HintFields, append, parse_hint, refuses_config, parse_prefix_line, parse_port_line,
  parse_subject_line, parse_policy_line, update, parse_line, config_line,
}
use mathlib.Core.Path.{subst}
use client_access.Snapshot.Line.Valid.{
  IsHint, IsConfig, IsSubject, IsPort, IsPrefix, IsPolicy, Table,
}

pub parse_hint-IsHint : (f : HintFields) (h : ClassHint) → parse_hint f ≡ some h → IsHint h
unfolding parse_hint
parse_hint-IsHint f h e = ground arith

pub refuses_config-IsConfig : (c : Config) → refuses_config c ≡ false → IsConfig c
refuses_config-IsConfig c h = record {
  enabled = ground arith;
  enforcement = ground arith;
  unknown = ground arith;
  provisional = ground arith;
  packets = ground arith;
  bytes = ground arith;
  age = ground arith;
  pending = ground arith;
  rate = ground arith;
  subject_rate = ground arith;
}

pub parse_subject_line-IsSubject :
    (l : Option (Option (List ℕ) × ℕ)) (e : MacKey × ℕ)
    → parse_subject_line l ≡ some e
    → IsSubject e
unfolding parse_subject_line
parse_subject_line-IsSubject l e h = ground arith

pub parse_policy_line-IsPolicy :
    (l : Option (ℕ × ℕ × ℕ)) (e : PolicyKey × ℕ) → parse_policy_line l ≡ some e → IsPolicy e
unfolding parse_policy_line
parse_policy_line-IsPolicy l e h = ground arith

pub parse_port_line-IsPort :
    (l : Option (ℕ × ℕ × HintFields)) (e : PortKey × ClassHint)
    → parse_port_line l ≡ some e
    → IsPort e
unfolding parse_port_line
parse_port_line-IsPort l e h = grind (arith, parse_hint-IsHint)

prefix_bound :
    (libc : Libc) (text : Text) (family : Family) (r : List ℕ × ℕ)
    → parse_prefix libc text family ≡ some r
    → r.1 ≤ prefix_maximum family
unfolding parse_prefix
prefix_bound libc text family r h = ground arith

pub append-ok :
    {A : Type 0} (memory : Bool) (limit : ℕ) (items items' : List A) (entry : A)
    → append memory limit items entry ≡ ok items'
    → (length items < limit) × (items' ≡ items ++ (entry ∷ []))
unfolding append
append-ok memory limit items items' entry e = ground arith

pub append-Table :
    {A : Type 0} (P : A → Type 0) (limit : ℕ) (items : List A) (entry : A)
    → length items < limit
    → Table limit P items
    → P entry
    → Table limit P (items ++ (entry ∷ []))
append-Table P limit items entry room v p = record {
  count = omega (arith, length-append items (entry ∷ []));
  each = λ a h. elim (In-snoc a entry items h) [
    | inl old ↦ v.each a old
    | inr new ↦ subst P (sym new) p
  ];
}

pub update-some :
    {A : Type 0} (store : List A → Snapshot) (memory : Bool) (limit : ℕ) (items : List A)
    (entry : A) (s : Snapshot)
    → update store memory limit items (some entry) ≡ ok s
    → (length items < limit) × (s ≡ store (items ++ (entry ∷ [])))
unfolding append
update-some store memory limit items entry s e = ground arith

-- A line that is accepted adds one entry with the property to one table.
pub update-ok :
    {A : Type 0} (P : A → Type 0) (store : List A → Snapshot) (memory : Bool) (limit : ℕ)
    (items : List A) (scanned : Option A) (s : Snapshot)
    → ((a : A) → scanned ≡ some a → P a)
    → Table limit P items
    → update store memory limit items scanned ≡ ok s
    → (items' : List A) × (s ≡ store items') × Table limit P items'
update-ok P store memory limit items none s p v e = absurd (ground arith)
update-ok P store memory limit items (some entry) s p v e =
    let (room, same) = update-some store memory limit items entry s e in
    (items ++ (entry ∷ []), same, append-Table P limit items entry room v (p entry refl))

pub parse_prefix_line-IsPrefix :
    (libc : Libc) (family : Family) (l : Option (Text × HintFields)) (e : LpmKey × ClassHint)
    → parse_prefix_line libc family l ≡ some e
    → IsPrefix family e
unfolding parse_prefix_line
parse_prefix_line-IsPrefix libc family none e h = absurd (ground arith)
parse_prefix_line-IsPrefix libc family (some (text, fields)) e h =
    elim (Option-cases (parse_prefix libc text family)) [
      | inl bad ↦ absurd (ground arith)
      | inr ((address, prefixlen), read) ↦ elim (Option-cases (parse_hint fields)) [
        | inl bad ↦ absurd (ground arith)
        | inr (hint, good) ↦
            let same : e ≡ (
              record { prefixlen = prefixlen; addr = canonicalize_prefix family address prefixlen },
              hint,
            ) =
              ground arith in
            subst (IsPrefix family) (sym same) (
              prefix_bound libc text family _ read,
              (address, refl),
              parse_hint-IsHint fields hint good,
            )
      ]
    ]

pub config_line-ok :
    (libc : Libc) (memory : Bool) (s s' : Snapshot) (config : Config)
    → parse_line libc memory s (config_line (some config)) ≡ ok s'
    → (refuses_config config ≡ false)
      × (s' ≡ record s {
        config = record config { active_slot = s.config.active_slot };
        have_config = true;
      })
unfolding parse_line
config_line-ok libc memory s s' config e =
    elim (Bool-cases (s.have_config || refuses_config config)) [
      | inl bad ↦ absurd (ground arith)
      | inr good ↦ (ground arith, ground arith)
    ]
