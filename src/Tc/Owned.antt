-- ===== src/Tc/Owned.antt =====
-- src/bpf-tc.c: the controller detaches its own program alone, and a pruned system is verified.
use client_access.Prelude.{
  ℕ, ◌≡◌, ◌∙◌, refl, sym, ap, Bool, true, false, ◌&&◌, Option, none, some, List, [], ◌∷◌, ◌==◌, ◌⊎◌,
  inl, inr, arith, Bool-cases, Option-cases,
}
use client_access.Tc.{
  Coordinate, owned, legacy, same_coordinate, Filters, set, Calls, query, detach, Name,
  keep_interface, detach_at, detach_interfaces, verify_at, verify_interfaces, tc_detach, tc_attach,
}
use mathlib.Core.Path.{ap₂}

-- Of the filters, only ones of the program are gone.
abbrev pub Releases : ℕ → Filters → Filters → Type 0
Releases program_id f g =
    (i : ℕ) (c : Coordinate) → (g i c ≡ f i c) ⊎ ((g i c ≡ none) × (f i c ≡ some program_id))

set_cases :
    (f : Filters) (ifindex : ℕ) (c : Coordinate) (v : Option ℕ) (i : ℕ) (d : Coordinate)
    → (set f ifindex c v i d ≡ f i d) ⊎ ((set f ifindex c v i d ≡ v) × (f i d ≡ f ifindex c))
set_cases f ifindex c v i d = elim (Bool-cases (i == ifindex && same_coordinate d c)) [
  | inl hit ↦
      let at : i ≡ ifindex = ground arith in
      let handle : d.0 ≡ c.0 = ground arith in
      let priority : d.1 ≡ c.1 = ground arith in
      inr (rw hit refl, ap₂ f at (ap₂ (λ x y. (x, y)) handle priority))
  | inr other ↦ inl (rw other refl)
]

detach_at-Releases :
    (calls : Calls) (program_id : ℕ) (kept : Bool) (ifindex : ℕ) (c : Coordinate) (f : Filters)
    → Releases program_id f (detach_at calls program_id kept ifindex c f).1
unfolding detach_at query detach
detach_at-Releases calls program_id kept ifindex c f i d = elim (Option-cases (f ifindex c)) [
  | inl none_there ↦ inl (ground arith)
  | inr (id, there) ↦ elim (Bool-cases (id == program_id)) [
    | inr foreign ↦ inl (ground arith)
    | inl own ↦
        let mine : f ifindex c ≡ some program_id = there ∙ ap some (ground arith) in
        ground (arith, set_cases f ifindex c none i d)
  ]
]

trans-Releases :
    (program_id : ℕ) (f g h : Filters)
    → Releases program_id f g
    → Releases program_id g h
    → Releases program_id f h
trans-Releases program_id f g h r s i c = elim (s i c) [
  | inl same ↦ elim (r i c) [
    | inl same' ↦ inl (same ∙ same')
    | inr (gone, was) ↦ inr (same ∙ gone, was)
  ]
  | inr (gone, was) ↦ elim (r i c) [
    | inl same' ↦ inr (gone, sym same' ∙ was)
    | inr (gone', was') ↦ inr (gone, was')
  ]
]

verify_at-Releases :
    (calls : Calls) (program_id : ℕ) (kept : Bool) (ifindex : ℕ) (c : Coordinate) (f g : Filters)
    → Releases program_id f g
    → verify_at calls program_id kept ifindex c f ≡ true
    → verify_at calls program_id kept ifindex c g ≡ true
unfolding verify_at query
verify_at-Releases calls program_id kept ifindex c f g r v = ground (arith, r ifindex c)

detach_at-verify_at :
    (calls : Calls) (program_id : ℕ) (kept : Bool) (ifindex : ℕ) (c : Coordinate) (f : Filters)
    → (detach_at calls program_id kept ifindex c f).0 ≡ true
    → verify_at calls program_id kept ifindex c (detach_at calls program_id kept ifindex c f).1
      ≡ true
unfolding detach_at verify_at query detach
detach_at-verify_at calls program_id kept ifindex c f ok = ground arith

detach_interfaces-Releases :
    (calls : Calls) (program_id : ℕ) (keep : List Name) (interfaces : List (ℕ × Name)) (f : Filters)
    → Releases program_id f (detach_interfaces calls program_id keep interfaces f).1
unfolding detach_interfaces
detach_interfaces-Releases calls program_id keep [] f = λ i c. inl refl
detach_interfaces-Releases calls program_id keep ((ifindex, name) ∷ interfaces) f =
    let kept = keep_interface name keep in
    let first = detach_at calls program_id kept ifindex owned f in
    let second = detach_at calls program_id kept ifindex legacy first.1 in
    trans-Releases program_id f first.1 _ (detach_at-Releases calls program_id kept ifindex owned f)
      (trans-Releases program_id first.1 second.1 _
        (detach_at-Releases calls program_id kept ifindex legacy first.1)
        (detach_interfaces-Releases calls program_id keep interfaces second.1))

detach_interfaces-verify_interfaces :
    (calls : Calls) (program_id : ℕ) (keep : List Name) (interfaces : List (ℕ × Name)) (f : Filters)
    → (detach_interfaces calls program_id keep interfaces f).0 ≡ true
    → verify_interfaces calls program_id keep interfaces
        (detach_interfaces calls program_id keep interfaces f).1
      ≡ true
unfolding detach_interfaces verify_interfaces
detach_interfaces-verify_interfaces calls program_id keep [] f ok = refl
detach_interfaces-verify_interfaces calls program_id keep ((ifindex, name) ∷ interfaces) f ok =
    let kept = keep_interface name keep in
    let first = detach_at calls program_id kept ifindex owned f in
    let second = detach_at calls program_id kept ifindex legacy first.1 in
    let rest = detach_interfaces calls program_id keep interfaces second.1 in
    let ok_first : first.0 ≡ true = ground arith in
    let ok_second : second.0 ≡ true = ground arith in
    let ok_rest : rest.0 ≡ true = ground arith in
    let later = detach_interfaces-Releases calls program_id keep interfaces second.1 in
    let owned_done : verify_at calls program_id kept ifindex owned rest.1 ≡ true =
      verify_at-Releases calls program_id kept ifindex owned first.1 rest.1
        (trans-Releases program_id first.1 second.1 rest.1
          (detach_at-Releases calls program_id kept ifindex legacy first.1) later)
        (detach_at-verify_at calls program_id kept ifindex owned f ok_first) in
    let legacy_done : verify_at calls program_id kept ifindex legacy rest.1 ≡ true =
      verify_at-Releases calls program_id kept ifindex legacy second.1 rest.1 later
        (detach_at-verify_at calls program_id kept ifindex legacy first.1 ok_second) in
    let rest_done : verify_interfaces calls program_id keep interfaces rest.1 ≡ true =
      detach_interfaces-verify_interfaces calls program_id keep interfaces second.1 ok_rest in
    rw (owned_done, legacy_done) rest_done

-- Pruning takes down filters of the pinned program alone, whichever calls fail and whichever
-- interfaces are kept; and if it reports success, the verification that follows with the same
-- interfaces and names finds nothing unexpected.
pub prune-verify :
    (calls : Calls) (program_id : ℕ) (keep : List Name) (interfaces : List (ℕ × Name)) (f : Filters)
    → Releases program_id f (detach_interfaces calls program_id keep interfaces f).1
      × (((detach_interfaces calls program_id keep interfaces f).0 ≡ false)
          ⊎ (verify_interfaces calls program_id keep interfaces
                (detach_interfaces calls program_id keep interfaces f).1
              ≡ true))
prune-verify calls program_id keep interfaces f = (
  detach_interfaces-Releases calls program_id keep interfaces f,
  elim (Bool-cases (detach_interfaces calls program_id keep interfaces f).0) [
    | inl ok ↦ inr (detach_interfaces-verify_interfaces calls program_id keep interfaces f ok)
    | inr failure ↦ inl failure
  ],
)

tc_detach-Releases :
    (calls : Calls) (program_id ifindex : ℕ) (f : Filters)
    → Releases program_id f (tc_detach calls program_id ifindex f).1
unfolding tc_detach query detach
tc_detach-Releases calls program_id ifindex f i d = elim (Option-cases (f ifindex owned)) [
  | inl none_there ↦ inl (ground arith)
  | inr (id, there) ↦ elim (Bool-cases (id == program_id)) [
    | inr foreign ↦ inl (ground arith)
    | inl own ↦
        let mine : f ifindex owned ≡ some program_id = there ∙ ap some (ground arith) in
        ground (arith, set_cases f ifindex owned none i d)
  ]
]

-- Detaching from an interface takes down filters of the pinned program alone, and fails or leaves
-- the owned coordinate of the interface empty.
pub tc_detach-owned :
    (calls : Calls) (program_id ifindex : ℕ) (f : Filters)
    → Releases program_id f (tc_detach calls program_id ifindex f).1
      × (((tc_detach calls program_id ifindex f).0 ≡ false)
          ⊎ ((tc_detach calls program_id ifindex f).1 ifindex owned ≡ none))
unfolding tc_detach detach query
tc_detach-owned calls program_id ifindex f =
    (tc_detach-Releases calls program_id ifindex f, ground arith)

tc_attach_keeps :
    (calls : Calls) (raced : Option ℕ) (program_id ifindex : ℕ) (f : Filters) (i : ℕ)
    (c : Coordinate)
    → ((tc_attach calls raced program_id ifindex f).1 i c ≡ f i c) ⊎ (f i c ≡ none)
unfolding tc_attach query
tc_attach_keeps calls none program_id ifindex f i c =
    ground (arith, set_cases f ifindex owned (some program_id) i c)
tc_attach_keeps calls (some id) program_id ifindex f i c =
    ground (arith, set_cases f ifindex owned (some id) i c)

-- No other controller gets in between: there is none, or an earlier call ends the attachment, or
-- the coordinate has a filter already.
abbrev pub IsUndisturbed : Calls → (raced : Option ℕ) → (ifindex : ℕ) → Filters → Type 0
IsUndisturbed calls raced ifindex f =
    (raced ≡ none)
    ⊎ (calls.create_fails ≡ true)
    ⊎ (calls.query_fails ifindex owned ≡ true)
    ⊎ (id : ℕ) × (f ifindex owned ≡ some id)

-- The filter of the other controller is there in the end; success means that it is the pinned
-- program, and that the second query said so.
abbrev pub IsKept : Calls → (raced : Option ℕ) → (program_id ifindex : ℕ) → Bool × Filters → Type 0
IsKept calls raced program_id ifindex out =
    (id : ℕ) × (raced ≡ some id)
    × (out.1 ifindex owned ≡ some id)
    × ((out.0 ≡ false) ⊎ (id ≡ program_id) × (calls.requery_fails ≡ false))

tc_attach_raced :
    (calls : Calls) (raced : Option ℕ) (program_id ifindex : ℕ) (f : Filters)
    → IsUndisturbed calls raced ifindex f
      ⊎ IsKept calls raced program_id ifindex (tc_attach calls raced program_id ifindex f)
unfolding tc_attach query
tc_attach_raced calls none program_id ifindex f = inl (inl refl)
tc_attach_raced calls (some id) program_id ifindex f = elim (Bool-cases calls.create_fails) [
  | inl hook ↦ inl (inr (inl hook))
  | inr hook ↦ elim (Bool-cases (calls.query_fails ifindex owned)) [
    | inl blind ↦ inl (inr (inr (inl blind)))
    | inr seen ↦ elim (Option-cases (f ifindex owned)) [
      | inr there ↦ inl (inr (inr (inr there)))
      | inl empty ↦ inr (id, refl, ground arith, ground arith)
    ]
  ]
]

-- Attaching to an interface changes no coordinate that has a filter, and fails or leaves the pinned
-- program at the owned coordinate. Where another controller attaches between the first query and
-- the attachment, its filter stays, and there is success only if it is the pinned program.
pub tc_attach-owned :
    (calls : Calls) (raced : Option ℕ) (program_id ifindex : ℕ) (f : Filters)
    → ((i : ℕ) (c : Coordinate)
        → ((tc_attach calls raced program_id ifindex f).1 i c ≡ f i c) ⊎ (f i c ≡ none))
      × (((tc_attach calls raced program_id ifindex f).0 ≡ false)
          ⊎ ((tc_attach calls raced program_id ifindex f).1 ifindex owned ≡ some program_id))
      × (IsUndisturbed calls raced ifindex f
          ⊎ IsKept calls raced program_id ifindex (tc_attach calls raced program_id ifindex f))
unfolding tc_attach query
tc_attach-owned calls raced program_id ifindex f = (
  tc_attach_keeps calls raced program_id ifindex f,
  ground arith,
  tc_attach_raced calls raced program_id ifindex f,
)
