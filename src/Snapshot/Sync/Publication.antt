-- ===== src/Snapshot/Sync/Publication.antt =====
-- src/bpf-snapshot.c, `ca_bpf_snapshot_sync`: what a reader of the control record may see.
use client_access.Prelude.{
  ℕ, ◌<◌, ◌≡◌, ◌∙◌, sym, Bool, true, false, not, ◌||◌, some, List, inl, inr, refl, arith,
  Bool-cases, ◌==◌, if◌then◌else◌,
}
use client_access.Abi.{Config}
use client_access.Snapshot.Prefix.{Libc}
use client_access.Snapshot.Line.{ok, Snapshot, Line, parse_snapshot, empty_snapshot, Result-cases}
use client_access.Snapshot.Table.Entries.{IsEmpty, clear_map-Ends}
use client_access.Snapshot.Sync.{
  Tables, SlotMaps, World, Env, current_config, other_slot, slot_of, set_slot, publish, reset_rates,
  fill_slot, snapshot_sync,
}
use mathlib.Core.Path.{ap₂, subst}
use client_access.Snapshot.Sync.Slot.{Ends-cases, Fits, Reflects, write_slot-Ends}

module _ {t : Tables} where
  -- Nothing is published, or the snapshot is, and the slot that was active is as it was.
  pub record Atomic (libc : Libc) (lines : List (Line × Bool)) (w : World t) (done : Bool)
      (w' : World t) : Type 0 where
    pub untouched :
        slot_of (current_config w.config).active_slot w'
        ≡ slot_of (current_config w.config).active_slot w
    pub kept : done ≡ false → w'.config ≡ w.config
    pub published :
        done ≡ true
        → (snapshot : Snapshot) × (parse_snapshot libc lines empty_snapshot ≡ ok snapshot)
          × (w'.config
              ≡ some (record snapshot.config {
                active_slot = other_slot (current_config w.config).active_slot;
              }))
          × Reflects snapshot (slot_of (other_slot (current_config w.config).active_slot) w')

  unchanged : (libc : Libc) (lines : List (Line × Bool)) (w : World t) → Atomic libc lines w false w
  unchanged libc lines w = record {
    untouched = refl;
    kept = λ _. refl;
    published = λ d. absurd (ground arith);
  }

  set_slot-active :
      (active : ℕ) (maps : SlotMaps t) (w : World t)
      → slot_of active (set_slot (other_slot active) maps w) ≡ slot_of active w
  set_slot-active active maps w = ground arith

  set_slot-other :
      (slot : ℕ) (maps : SlotMaps t) (w : World t) → slot_of slot (set_slot slot maps w) ≡ maps
  set_slot-other slot maps w = ground arith

  set_slot-config :
      (slot : ℕ) (maps : SlotMaps t) (w : World t) → (set_slot slot maps w).config ≡ w.config
  set_slot-config slot maps w = ground arith

  set_slot-rates :
      (slot : ℕ) (maps : SlotMaps t) (w : World t) → (set_slot slot maps w).rates ≡ w.rates
  set_slot-rates slot maps w = ground arith

  -- The last steps leave the slots, and the control record unless they succeed.
  record Last (config : Config) (w : World t) (done : Bool) (w' : World t) : Type 0 where
    slot_a : w'.slot_a ≡ w.slot_a
    slot_b : w'.slot_b ≡ w.slot_b
    kept : done ≡ false → w'.config ≡ w.config
    published : done ≡ true → w'.config ≡ some config

  kept-Last : (config : Config) (w : World t) → Last config w false w
  kept-Last config w = record {
    slot_a = refl;
    slot_b = refl;
    kept = λ _. refl;
    published = λ d. absurd (ground arith);
  }

  publish-Last :
      (env : Env) (config : Config) (w : World t)
      → Last config w (publish env config w).0 (publish env config w).1
  publish-Last env config w = elim (Bool-cases env.publishes) [
    | inl e ↦ rw e (record {
      slot_a = refl;
      slot_b = refl;
      kept = λ d. absurd (ground arith);
      published = λ _. refl;
    })
    | inr e ↦ rw e (record {
      slot_a = refl;
      slot_b = refl;
      kept = λ _. refl;
      published = λ d. absurd (ground arith);
    })
  ]

  reset_rates-Last :
      (env : Env) (fuel : ℕ) (current config : Config) (w : World t)
      → t.rate.size w.rates < fuel
      → (done : Bool) × (w' : World t) × (reset_rates env fuel current config w ≡ some (done, w'))
        × Last config w done w'
  unfolding reset_rates
  reset_rates-Last env fuel current config w fits =
      elim (Bool-cases (config.classifier_generation == current.classifier_generation)) [
        | inl same ↦ rw (same, reset_rates) (_, _, refl, publish-Last env config w)
        | inr differs ↦ elim (Bool-cases env.rates_open) [
          | inr closed ↦ rw (differs, closed, reset_rates) (false, w, refl, kept-Last config w)
          | inl opens ↦
              elim (Ends-cases (IsEmpty t.rate) _ (clear_map-Ends t.rate fuel w.rates fits)) [
                | inr (rates, cleared, _) ↦
                    let last = publish-Last env config (record w { rates = rates }) in
                    rw (differs, opens, cleared, reset_rates)
                      (
                        _,
                        _,
                        refl,
                        record {
                          slot_a = last.slot_a;
                          slot_b = last.slot_b;
                          kept = last.kept;
                          published = last.published;
                        },
                      )
                | inl (rates, cleared) ↦
                    rw (differs, opens, cleared, reset_rates)
                      (
                        false,
                        record w { rates = rates },
                        refl,
                        record {
                          slot_a = refl;
                          slot_b = refl;
                          kept = λ _. refl;
                          published = λ d. absurd (ground arith);
                        },
                      )
              ]
        ]
      ]

  slot_of-Last :
      (slot : ℕ) (config : Config) (v : World t) (done : Bool) (w : World t)
      → Last config v done w
      → slot_of slot w ≡ slot_of slot v
  slot_of-Last slot config v done w last =
      ap₂ (λ a b. if slot == 0 then a else b) last.slot_a last.slot_b

  fill_slot-Atomic :
      (env : Env) (libc : Libc) (fuel : ℕ) (lines : List (Line × Bool)) (snapshot : Snapshot)
      (w : World t)
      → parse_snapshot libc lines empty_snapshot ≡ ok snapshot
      → Fits fuel (slot_of (other_slot (current_config w.config).active_slot) w)
      → t.rate.size w.rates < fuel
      → (done : Bool) × (w' : World t) × (fill_slot env fuel snapshot (current_config w.config) w
          ≡ some (done, w'))
        × Atomic libc lines w done w'
  unfolding fill_slot
  fill_slot-Atomic env libc fuel lines snapshot w parsed fits rates =
      let current = current_config w.config in
      let active = current.active_slot in
      let slot = other_slot active in
      let config = record snapshot.config { active_slot = slot } in
      elim (Bool-cases env.slot_opens) [
        | inr closed ↦ rw (closed, fill_slot) (false, w, refl, unchanged libc lines w)
        | inl opens ↦
            elim (Ends-cases (Reflects snapshot) _
              (write_slot-Ends fuel snapshot (slot_of slot w) fits)) [
                | inl (maps, filled) ↦
                    rw (opens, filled, fill_slot)
                      (
                        false,
                        set_slot slot maps w,
                        refl,
                        record {
                          untouched = set_slot-active active maps w;
                          kept = λ _. set_slot-config slot maps w;
                          published = λ d. absurd (ground arith);
                        },
                      )
                | inr (maps, filled, reflects) ↦
                    let (done, w', ran, last) =
                      reset_rates-Last env fuel current config (set_slot slot maps w)
                        (rw (set_slot-rates slot maps w) rates) in
                    rw (opens, filled, fill_slot)
                      (
                        done,
                        w',
                        ran,
                        record {
                          untouched =
                              slot_of-Last active config _ done w' last
                              ∙ set_slot-active active maps w;
                          kept = λ d. last.kept d ∙ set_slot-config slot maps w;
                          published = λ d. (
                            snapshot,
                            parsed,
                            last.published d,
                            subst (Reflects snapshot)
                                (sym (
                                  slot_of-Last slot config _ done w' last
                                  ∙ set_slot-other slot maps w))
                                reflects,
                          );
                        },
                      )
              ]
      ]

  -- Publication is atomic. With more fuel than any map that it clears has entries, the command
  -- ends, whichever of its calls fail. The slot that packets are judged by is as it was before.
  -- If the command fails, the control record is as well. If it succeeds, the parser accepted the
  -- input as a snapshot, the control record is its own with the other slot, and each map of that slot holds
  -- exactly its entries.
  pub snapshot_sync-Atomic :
      (env : Env) (libc : Libc) (fuel : ℕ) (lines : List (Line × Bool)) (w : World t)
      → Fits fuel (slot_of (other_slot (current_config w.config).active_slot) w)
      → t.rate.size w.rates < fuel
      → (done : Bool) × (w' : World t) × (snapshot_sync env libc fuel lines w ≡ some (done, w'))
        × Atomic libc lines w done w'
  unfolding snapshot_sync
  snapshot_sync-Atomic env libc fuel lines w fits rates = elim (Bool-cases env.locked) [
    | inr free ↦ rw (free, snapshot_sync) (false, w, refl, unchanged libc lines w)
    | inl locked ↦ elim (Result-cases (parse_snapshot libc lines empty_snapshot)) [
      | inl (e, bad) ↦ rw (locked, bad, snapshot_sync) (false, w, refl, unchanged libc lines w)
      | inr (snapshot, parsed) ↦ elim (Bool-cases (not env.config_opens || not env.config_read)) [
        | inl broken ↦
            rw (locked, parsed, broken, snapshot_sync) (false, w, refl, unchanged libc lines w)
        | inr read ↦
            rw (locked, parsed, read, snapshot_sync)
              (fill_slot-Atomic env libc fuel lines snapshot w parsed fits rates)
      ]
    ]
  ]
