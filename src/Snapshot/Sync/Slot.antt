-- ===== src/Snapshot/Sync/Slot.antt =====
-- src/bpf-snapshot.c, `ca_bpf_snapshot_sync`: the inactive slot.
use client_access.Prelude.{
  ℕ, ◌<◌, ◌≡◌, Bool, true, false, Option, some, List, ◌⊎◌, inl, inr, refl, arith,
}
use client_access.Snapshot.Line.{Snapshot}
use client_access.Snapshot.Table.{Table, clear_map, populate}
use client_access.Snapshot.Table.Entries.{IsEmpty, Stores, clear_map-Ends, populate-Stores}
use client_access.Snapshot.Sync.{Tables, SlotMaps, Step, ◌⟫◌, on, clear_slot, populate_slot}

-- The result is there; if it is a success the state has the property.
abbrev pub Ends : {S : Type 0} → (S → Type 0) → Option (Bool × S) → Type 0
Ends {S} P result = (done : Bool) × (s : S) × (result ≡ some (done, s)) × (done ≡ true → P s)

pub Ends-cases :
    {S : Type 0} (P : S → Type 0) (r : Option (Bool × S))
    → Ends P r
    → ((s : S) × (r ≡ some (false, s))) ⊎ ((s : S) × (r ≡ some (true, s)) × P s)
Ends-cases P r (true, s, e, p) = inr (s, e, p refl)
Ends-cases P r (false, s, e, p) = inl (s, e)

on-Ends :
    {M S : Type 0} (P : M → Type 0) (Q : S → Type 0) (store : M → S) (r : Option (Bool × M))
    → Ends P r
    → ((m : M) → P m → Q (store m))
    → Ends Q (on store r)
on-Ends P Q store r (done, m, e, p) h = (done, store m, rw e refl, λ d. h m (p d))

⟫-Ends :
    {S : Type 0} (P Q : S → Type 0) (f g : Step S) (s : S)
    → Ends P (f s)
    → ((s' : S) → P s' → Ends Q (g s'))
    → Ends Q ((f ⟫ g) s)
⟫-Ends P Q f g s (true, s', e, p) h =
    let (done, s'', e', q) = h s' (p refl) in (done, s'', rw (e, ◌⟫◌) e', q)
⟫-Ends P Q f g s (false, s', e, p) h = (false, s', rw (e, ◌⟫◌) refl, λ d. absurd (ground arith))

populate-Ends :
    {K V : Type 0} (table : Table K V) (entries : List (K × V)) (m : table.Map)
    → IsEmpty table m
    → Ends (Stores table entries) (some (populate table entries m))
populate-Ends table entries m empty =
    let r = populate table entries m in
    (r.0, r.1, refl, λ d. populate-Stores table entries m empty d)

module _ {t : Tables} where
  -- Every map of the slot is smaller than the fuel.
  pub record Fits (fuel : ℕ) (s : SlotMaps t) : Type 0 where
    pub subject : t.subject.size s.subject < fuel
    pub policy : t.policy.size s.policy < fuel
    pub port : t.port.size s.port < fuel
    pub ipv4 : t.ipv4.size s.ipv4 < fuel
    pub ipv6 : t.ipv6.size s.ipv6 < fuel

  pub record IsCleared (s : SlotMaps t) : Type 0 where
    pub subject : IsEmpty t.subject s.subject
    pub policy : IsEmpty t.policy s.policy
    pub port : IsEmpty t.port s.port
    pub ipv4 : IsEmpty t.ipv4 s.ipv4
    pub ipv6 : IsEmpty t.ipv6 s.ipv6

  -- Each map of the slot holds exactly the entries of the snapshot.
  pub record Reflects (p : Snapshot) (s : SlotMaps t) : Type 0 where
    pub subject : Stores t.subject p.subjects s.subject
    pub policy : Stores t.policy p.policies s.policy
    pub port : Stores t.port p.ports s.port
    pub ipv4 : Stores t.ipv4 p.ipv4 s.ipv4
    pub ipv6 : Stores t.ipv6 p.ipv6 s.ipv6

  on_then :
      {M : Type 0} (P : M → Type 0) (Q : SlotMaps t → Type 0) (f : SlotMaps t → Option (Bool × M))
      (store : SlotMaps t → M → SlotMaps t) (g : Step (SlotMaps t)) (s : SlotMaps t)
      → Ends P (f s)
      → ((m : M) → P m → Ends Q (g (store s m)))
      → Ends Q (((λ s'. on (store s') (f s')) ⟫ g) s)
  on_then {M} P Q f store g s (true, m, e, p) h =
      let (done, s'', e', q) = h m (p refl) in (done, s'', rw (e, ◌⟫◌) e', q)
  on_then {M} P Q f store g s (false, m, e, p) h =
      (false, store s m, rw (e, ◌⟫◌) refl, λ d. absurd (ground arith))

  clear_slot-Ends : (fuel : ℕ) (s : SlotMaps t) → Fits fuel s → Ends IsCleared (clear_slot fuel s)
  unfolding clear_slot
  clear_slot-Ends fuel s fits =
      on_then (IsEmpty t.subject) IsCleared (λ x. clear_map t.subject fuel x.subject)
        (λ x m. record x { subject = m }) _ s (clear_map-Ends t.subject fuel s.subject fits.subject)
        λ m₁ p₁.
          on_then (IsEmpty t.policy) IsCleared (λ x. clear_map t.policy fuel x.policy)
            (λ x m. record x { policy = m }) _ _ (clear_map-Ends t.policy fuel s.policy fits.policy)
            λ m₂ p₂.
              on_then (IsEmpty t.port) IsCleared (λ x. clear_map t.port fuel x.port)
                (λ x m. record x { port = m }) _ _ (clear_map-Ends t.port fuel s.port fits.port)
                λ m₃ p₃.
                  on_then (IsEmpty t.ipv4) IsCleared (λ x. clear_map t.ipv4 fuel x.ipv4)
                    (λ x m. record x { ipv4 = m }) _ _ (clear_map-Ends t.ipv4 fuel s.ipv4 fits.ipv4)
                    λ m₄ p₄.
                      on-Ends (IsEmpty t.ipv6) IsCleared _ _
                        (clear_map-Ends t.ipv6 fuel s.ipv6 fits.ipv6)
                        λ m₅ p₅. record {
                          subject = p₁;
                          policy = p₂;
                          port = p₃;
                          ipv4 = p₄;
                          ipv6 = p₅;
                        }

  populate_slot-Ends :
      (p : Snapshot) (s : SlotMaps t) → IsCleared s → Ends (Reflects p) (populate_slot p s)
  unfolding populate_slot
  populate_slot-Ends p s c =
      on_then (Stores t.subject p.subjects) (Reflects p)
        (λ x. some (populate t.subject p.subjects x.subject)) (λ x m. record x { subject = m }) _ s
        (populate-Ends t.subject p.subjects s.subject c.subject)
        λ m₁ p₁.
          on_then (Stores t.policy p.policies) (Reflects p)
            (λ x. some (populate t.policy p.policies x.policy)) (λ x m. record x { policy = m }) _ _
            (populate-Ends t.policy p.policies s.policy c.policy)
            λ m₂ p₂.
              on_then (Stores t.port p.ports) (Reflects p)
                (λ x. some (populate t.port p.ports x.port)) (λ x m. record x { port = m }) _ _
                (populate-Ends t.port p.ports s.port c.port)
                λ m₃ p₃.
                  on_then (Stores t.ipv4 p.ipv4) (Reflects p)
                    (λ x. some (populate t.ipv4 p.ipv4 x.ipv4)) (λ x m. record x { ipv4 = m }) _ _
                    (populate-Ends t.ipv4 p.ipv4 s.ipv4 c.ipv4)
                    λ m₄ p₄.
                      on-Ends (Stores t.ipv6 p.ipv6) (Reflects p) _ _
                        (populate-Ends t.ipv6 p.ipv6 s.ipv6 c.ipv6)
                        λ m₅ p₅. record {
                          subject = p₁;
                          policy = p₂;
                          port = p₃;
                          ipv4 = p₄;
                          ipv6 = p₅;
                        }

  pub write_slot-Ends :
      (fuel : ℕ) (snapshot : Snapshot) (s : SlotMaps t)
      → Fits fuel s
      → Ends (Reflects snapshot) ((clear_slot fuel ⟫ populate_slot snapshot) s)
  write_slot-Ends fuel snapshot s fits =
      ⟫-Ends IsCleared (Reflects snapshot) (clear_slot fuel) (populate_slot snapshot) s
        (clear_slot-Ends fuel s fits) (λ s' c. populate_slot-Ends snapshot s' c)
