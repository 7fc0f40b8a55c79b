-- ===== src/Snapshot/Sync.antt =====
-- src/bpf-snapshot.c, `ca_bpf_snapshot_sync`: the inactive slot is filled and then published. The
-- locks, the descriptors and the system calls are parameters: `Tables` is the maps, `Env` how the
-- calls that open them end. The pause before the inactive
-- slot is cleared gives runs of the TC program time to end and has no effect on the maps.
pub mod Slot
pub mod Publication
pub mod Policy
use client_access.Prelude.{
  ℕ, Bool, true, false, not, ◌||◌, Option, none, some, List, [], ◌==◌, if◌then◌else◌,
}
use client_access.Abi.{Config, MacKey, PolicyKey, ClassHint, PortKey, LpmKey}
use client_access.Snapshot.Prefix.{Libc}
use client_access.Snapshot.Line.{
  Result, ok, err, Snapshot, Line, parse_snapshot, zero_config, empty_snapshot,
}
use client_access.Snapshot.Table.{Table, clear_map, populate}

pub record Tables : Type 1 where
  pub Rate : Type 0
  pub subject : Table MacKey ℕ
  pub policy : Table PolicyKey ℕ
  pub port : Table PortKey ClassHint
  pub ipv4 : Table LpmKey ClassHint
  pub ipv6 : Table LpmKey ClassHint
  pub rate : Table ℕ Rate

-- The five maps of a slot.
pub record SlotMaps (t : Tables) : Type 0 where
  pub subject : t.subject.Map
  pub policy : t.policy.Map
  pub port : t.port.Map
  pub ipv4 : t.ipv4.Map
  pub ipv6 : t.ipv6.Map

-- The pinned maps: the control record if there is one, the two slots, `ca_subject_rates`.
pub record World (t : Tables) : Type 0 where
  pub config : Option Config
  pub slot_a : SlotMaps t
  pub slot_b : SlotMaps t
  pub rates : t.rate.Map

-- Whether the update lock is taken; whether the maps open; whether the control record is read,
-- or there is none; whether the update of the control record succeeds.
pub record Env : Type 0 where
  pub locked : Bool
  pub config_opens : Bool
  pub config_read : Bool
  pub slot_opens : Bool
  pub rates_open : Bool
  pub publishes : Bool

-- `struct ca_config current`, left zero if the map has no record
abbrev pub current_config : Option Config → Config
current_config none = zero_config
current_config (some config) = config

-- `current.active_slot ? 0 : 1`
abbrev pub other_slot : ℕ → ℕ
other_slot active = if active == 0 then 1 else 0

-- A step on a state: whether it returns 0, and the state that it leaves; `none` is fuel that ran
-- out.
abbrev pub Step : Type 0 → Type 0
Step S = S → Option (Bool × S)

-- `||`: the second step runs if the first returned 0.
infixr 5 ◌⟫◌
abbrev pub ◌⟫◌ : {S : Type 0} → Step S → Step S → Step S
(f ⟫ g) s = elim (f s) [
  | none ↦ none
  | some (true, s') ↦ g s'
  | some (false, s') ↦ some (false, s')
]

abbrev pub on : {M S : Type 0} → (M → S) → Option (Bool × M) → Option (Bool × S)
on store none = none
on store (some (done, m)) = some (done, store m)

module _ {t : Tables} where
  abbrev pub slot_of : (slot : ℕ) → World t → SlotMaps t
  slot_of slot w = if slot == 0 then w.slot_a else w.slot_b

  abbrev pub set_slot : (slot : ℕ) → SlotMaps t → World t → World t
  set_slot slot maps w =
      if slot == 0 then record w { slot_a = maps } else record w { slot_b = maps }

  unfoldable pub clear_slot : (fuel : ℕ) → Step (SlotMaps t)
  clear_slot fuel =
      (λ s. on (λ m. record s { subject = m }) (clear_map t.subject fuel s.subject))
      ⟫ (λ s. on (λ m. record s { policy = m }) (clear_map t.policy fuel s.policy))
      ⟫ (λ s. on (λ m. record s { port = m }) (clear_map t.port fuel s.port))
      ⟫ (λ s. on (λ m. record s { ipv4 = m }) (clear_map t.ipv4 fuel s.ipv4))
      ⟫ (λ s. on (λ m. record s { ipv6 = m }) (clear_map t.ipv6 fuel s.ipv6))

  unfoldable pub populate_slot : Snapshot → Step (SlotMaps t)
  populate_slot p =
      (λ s. on (λ m. record s { subject = m }) (some (populate t.subject p.subjects s.subject)))
      ⟫ (λ s. on (λ m. record s { policy = m }) (some (populate t.policy p.policies s.policy)))
      ⟫ (λ s. on (λ m. record s { port = m }) (some (populate t.port p.ports s.port)))
      ⟫ (λ s. on (λ m. record s { ipv4 = m }) (some (populate t.ipv4 p.ipv4 s.ipv4)))
      ⟫ (λ s. on (λ m. record s { ipv6 = m }) (some (populate t.ipv6 p.ipv6 s.ipv6)))

  -- The update of the control record; `true` is the return value 0.
  abbrev pub publish : Env → Config → World t → Bool × World t
  publish env config w =
      if env.publishes then (true, record w { config = some config }) else (false, w)

  -- The rates are dropped if the classifier's generation changes.
  unfoldable pub reset_rates :
      Env → (fuel : ℕ) → (current config : Config) → World t → Option (Bool × World t)
  reset_rates env fuel current config w =
      if config.classifier_generation == current.classifier_generation
      then some (publish env config w)
      else if not env.rates_open
      then some (false, w)
      else elim (clear_map t.rate fuel w.rates) [
        | none ↦ none
        | some (false, rates) ↦ some (false, record w { rates = rates })
        | some (true, rates) ↦ some (publish env config (record w { rates = rates }))
      ]

  -- From the choice of the slot on.
  unfoldable pub fill_slot :
      Env → (fuel : ℕ) → Snapshot → (current : Config) → World t → Option (Bool × World t)
  fill_slot env fuel snapshot current w =
      let slot = other_slot current.active_slot in
      if not env.slot_opens
      then some (false, w)
      else elim ((clear_slot fuel ⟫ populate_slot snapshot) (slot_of slot w)) [
        | none ↦ none
        | some (false, maps) ↦ some (false, set_slot slot maps w)
        | some (true, maps) ↦
            reset_rates env fuel current (record snapshot.config { active_slot = slot })
              (set_slot slot maps w)
      ]

  unfoldable pub snapshot_sync :
      Env → Libc → (fuel : ℕ) → List (Line × Bool) → World t → Option (Bool × World t)
  snapshot_sync env libc fuel lines w =
      if not env.locked then some (false, w) else elim (parse_snapshot libc lines empty_snapshot) [
        | err _ ↦ some (false, w)
        | ok snapshot ↦
            if not env.config_opens || not env.config_read
            then some (false, w)
            else fill_slot env fuel snapshot (current_config w.config) w
      ]
