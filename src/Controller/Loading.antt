-- ===== src/Controller/Loading.antt =====
-- src/bpf-object.c: what loading leaves, on success and on every failure.
use client_access.Prelude.{
  ℕ, ◌≡◌, ◌∙◌, ap, Bool, true, false, not, ◌&&◌, none, some, List, [], ◌⊎◌, inl, inr, arith,
  Bool-cases, ◌≢◌, In, sym, ◌∷◌,
}
use client_access.Tc.{
  Name, verify_interfaces, detach_interfaces, tc_prune, owned, legacy, Coordinate, Filters, Calls,
  verify_at, query,
}
use client_access.Tc.Owned.{prune-verify}
use client_access.Controller.{
  Bpf, System, Object, object_available, object_unlink, detach_all, load_object, object_load,
  is_known, pin_of,
}

-- What a load may leave: a complete object, the pins it found, or no program.
abbrev pub Loads : System → Bpf → Bool × Bpf → Type 0
Loads system before out =
    ((out.0 ≡ true) × (object_available system out.1 ≡ true))
    ⊎ (out.0 ≡ false)
      × ((out.1.program ≡ before.program) × (out.1.maps ≡ before.maps) ⊎ (out.1.program ≡ none))

load_object-filters :
    (object : Object) (bare : Bpf) → (load_object object bare).1.filters ≡ bare.filters
unfolding load_object object_unlink
load_object-filters object bare = ground arith

-- A program is neither at the owned nor at the former coordinate of an interface of the list.
abbrev pub IsDetached : ℕ → List (ℕ × Name) → Bpf → Type 0
IsDetached id interfaces bpf =
    (e : ℕ × Name)
    → In e interfaces
    → (bpf.filters e.0 owned ≢ some id) × (bpf.filters e.0 legacy ≢ some id)

verify_at-absent :
    (calls : Calls) (id ifindex : ℕ) (c : Coordinate) (f : Filters)
    → verify_at calls id false ifindex c f ≡ true
    → f ifindex c ≢ some id
unfolding verify_at query
verify_at-absent calls id ifindex c f ok there = ground arith

verify_interfaces-IsDetached :
    (calls : Calls) (id : ℕ) (interfaces : List (ℕ × Name)) (bpf : Bpf)
    → verify_interfaces calls id [] interfaces bpf.filters ≡ true
    → IsDetached id interfaces bpf
unfolding verify_interfaces
verify_interfaces-IsDetached calls id [] bpf ok e at = absurd at
verify_interfaces-IsDetached calls id ((ifindex, name) ∷ interfaces) bpf ok e at = elim at [
  | inl here ↦ (
    λ there.
        verify_at-absent calls id ifindex owned bpf.filters (ground arith)
          (ap (λ x. bpf.filters x owned) (sym (ap (λ x. x.0) here)) ∙ there),
    λ there.
        verify_at-absent calls id ifindex legacy bpf.filters (ground arith)
          (ap (λ x. bpf.filters x legacy) (sym (ap (λ x. x.0) here)) ∙ there),
  )
  | inr there ↦ verify_interfaces-IsDetached calls id interfaces bpf (ground arith) e there
]

-- Where there is a program, detaching all is pruning with nothing kept.
tc_prune-all :
    (system : System) (bpf : Bpf) (id : ℕ) (interfaces : List (ℕ × Name))
    → system.pin_fails ≡ false
    → bpf.program ≡ some id
    → system.interfaces ≡ some interfaces
    → tc_prune system.calls (is_known system) (pin_of system bpf) [] system.interfaces bpf.filters
      ≡ detach_interfaces system.calls id [] interfaces bpf.filters
unfolding tc_prune
tc_prune-all system bpf id interfaces readable own listed = simp (readable, own, listed, tc_prune)

pub detach_all-IsDetached :
    (system : System) (bpf : Bpf) (id : ℕ) (interfaces : List (ℕ × Name))
    → system.pin_fails ≡ false
    → bpf.program ≡ some id
    → system.interfaces ≡ some interfaces
    → (detach_all system bpf).0 ≡ true
    → IsDetached id interfaces (detach_all system bpf).1
unfolding detach_all
detach_all-IsDetached system bpf id interfaces readable own listed ok =
    let same = tc_prune-all system bpf id interfaces readable own listed in
    elim (prune-verify system.calls id [] interfaces bpf.filters).1 [
      | inl failure ↦ absurd (ground (arith, ap (λ o. o.0) same))
      | inr clean ↦
          verify_interfaces-IsDetached system.calls id interfaces (detach_all system bpf).1
            (ap (λ o. verify_interfaces system.calls id [] interfaces o.1) same ∙ clean)
    ]

-- A pinned program is given up only after its filters: where its pin and the list of the interfaces
-- can be read, a load leaves the program pinned, or the program is neither at the owned nor at the
-- former coordinate of an interface of the list.
pub object_load-IsDetached :
    (system : System) (object : Object) (replace : Bool) (bpf : Bpf)
    → (id : ℕ) (interfaces : List (ℕ × Name)) → system.pin_fails ≡ false
    → bpf.program ≡ some id
    → system.interfaces ≡ some interfaces
    → ((object_load system object replace bpf).1.program ≡ some id)
      ⊎ IsDetached id interfaces (object_load system object replace bpf).1
unfolding object_load object_unlink detach_all load_object
object_load-IsDetached system object replace bpf id interfaces readable own listed =
    elim (Bool-cases (not replace && object_available system bpf)) [
      | inl there ↦ inl (rw (there, object_load) own)
      | inr absent ↦ elim (Bool-cases object.makes_root) [
        | inr a ↦ inl (rw (absent, a, object_load) own)
        | inl a ↦ elim (Bool-cases (detach_all system bpf).0) [
          | inr stuck ↦ inl (rw (absent, a, stuck, object_load) own)
          | inl free ↦
              let bare = object_unlink (detach_all system bpf).1 in
              let is : object_load system object replace bpf ≡ load_object object bare =
                simp (absent, a, free, object_load) in
              let kept : (object_load system object replace bpf).1.filters
                  ≡ (detach_all system bpf).1.filters =
                ap (λ o. o.1.filters) is ∙ load_object-filters object bare in
              let clean = detach_all-IsDetached system bpf id interfaces readable own listed free in
              inr (λ e at. rw kept (clean e at))
        ]
      ]
    ]
