-- ===== src/Tc.antt =====
-- src/bpf-tc.c: the filters that the controller attaches at TC ingress. The kernel's table of
-- filters is a function; the calls of libbpf that may fail are parameters (`Calls`).
pub mod Owned
pub mod Examples
use client_access.Prelude.{
  ℕ, Bool, true, false, not, ◌&&◌, ◌||◌, Option, none, some, List, [], ◌∷◌, ◌==◌, if◌then◌else◌,
}

-- A handle and a priority.
abbrev pub Coordinate : Type 0
Coordinate = ℕ × ℕ

-- { CA_TC_HANDLE, CA_TC_PRIORITY }, and that of older versions
abbrev pub owned : Coordinate
owned = (202, 202)

abbrev pub legacy : Coordinate
legacy = (1, 1)

abbrev pub same_coordinate : Coordinate → Coordinate → Bool
same_coordinate c d = c.0 == d.0 && c.1 == d.1

-- The program at a coordinate of an interface's ingress hook.
abbrev pub Filters : Type 0
Filters = ℕ → Coordinate → Option ℕ

abbrev pub set : Filters → ℕ → Coordinate → Option ℕ → Filters
set f ifindex c value i d = if i == ifindex && same_coordinate d c then value else f i d

-- Which calls fail: the query with an error other than ENOENT or EINVAL, the detachment with one
-- other than ENOENT, the creation of the hook with one other than EEXIST, the attachment, and the query
-- that follows an EEXIST of the attachment.
pub record Calls : Type 0 where
  pub query_fails : ℕ → Coordinate → Bool
  pub detach_fails : ℕ → Coordinate → Bool
  pub create_fails : Bool
  pub attach_fails : Bool
  pub requery_fails : Bool

pub data Found : Type 0 where
  program : ℕ → Found
  absent : Found
  failed : Found

-- `ca_bpf_tc_query_program` and `tc_query_absent`
unfoldable pub query : Calls → Filters → ℕ → Coordinate → Found
query calls f ifindex c =
    if calls.query_fails ifindex c
    then failed
    else elim (f ifindex c) [ none ↦ absent | some id ↦ program id ]

-- `bpf_tc_detach`; `true` is no failure
unfoldable pub detach : Calls → Filters → ℕ → Coordinate → Bool × Filters
detach calls f ifindex c =
    if calls.detach_fails ifindex c then (false, f) else (true, set f ifindex c none)

-- A name is the list of its characters; `strcmp(a, b) == 0`.
abbrev pub Name : Type 0
Name = List ℕ

abbrev pub same_name : Name → Name → Bool
same_name [] [] = true
same_name [] (b ∷ bs) = false
same_name (a ∷ rest) [] = false
same_name (a ∷ rest) (b ∷ bs) = a == b && same_name rest bs

abbrev pub keep_interface : Name → List Name → Bool
keep_interface name [] = false
keep_interface name (kept ∷ names) = same_name name kept || keep_interface name names

-- One round of the inner loop of `detach_program_from_interfaces`.
unfoldable pub detach_at : Calls → ℕ → (kept : Bool) → ℕ → Coordinate → Filters → Bool × Filters
detach_at calls program_id kept ifindex c f = elim (query calls f ifindex c) [
  | absent ↦ (true, f)
  | failed ↦ (false, f)
  | program attached ↦
      if not (attached == program_id)
      then (true, f)
      else if same_coordinate c owned && kept
      then (true, f)
      else detach calls f ifindex c
]

-- Whether there was no failure, and the filters.
unfoldable pub detach_interfaces :
    Calls → ℕ → List Name → List (ℕ × Name) → Filters → Bool × Filters
detach_interfaces calls program_id keep [] f = (true, f)
detach_interfaces calls program_id keep ((ifindex, name) ∷ interfaces) f =
    let kept = keep_interface name keep in
    let (first, f₁) = detach_at calls program_id kept ifindex owned f in
    let (second, f₂) = detach_at calls program_id kept ifindex legacy f₁ in
    let (rest, f₃) = detach_interfaces calls program_id keep interfaces f₂ in
    (first && (second && rest), f₃)

-- One round of the inner loop of `ca_bpf_tc_verify_program_interfaces`.
unfoldable pub verify_at : Calls → ℕ → (kept : Bool) → ℕ → Coordinate → Filters → Bool
verify_at calls program_id kept ifindex c f = elim (query calls f ifindex c) [
  | absent ↦ true
  | failed ↦ false
  | program attached ↦ not (attached == program_id) || (same_coordinate c owned && kept)
]

-- `true` is the return value 0.
unfoldable pub verify_interfaces : Calls → ℕ → List Name → List (ℕ × Name) → Filters → Bool
verify_interfaces calls program_id keep [] f = true
verify_interfaces calls program_id keep ((ifindex, name) ∷ interfaces) f =
    let kept = keep_interface name keep in
    verify_at calls program_id kept ifindex owned f
    && (verify_at calls program_id kept ifindex legacy f
        && verify_interfaces calls program_id keep interfaces f)

-- `ca_bpf_tc_action` on an interface that exists, with the program pinned: detachment.
unfoldable pub tc_detach : Calls → ℕ → ℕ → Filters → Bool × Filters
tc_detach calls program_id ifindex f = elim (query calls f ifindex owned) [
  | absent ↦ (true, f)
  | failed ↦ (false, f)
  | program attached ↦
      if not (attached == program_id) then (false, f) else detach calls f ifindex owned
]

-- The same: attachment. Another controller may have attached `raced` since the first query: then
-- the attachment ends with EEXIST and the coordinate is queried again.
unfoldable pub tc_attach : Calls → (raced : Option ℕ) → ℕ → ℕ → Filters → Bool × Filters
tc_attach calls raced program_id ifindex f =
    if calls.create_fails then (false, f) else elim (query calls f ifindex owned) [
      | program attached ↦ (attached == program_id, f)
      | failed ↦ (false, f)
      | absent ↦ elim raced [
        | some id ↦ (not calls.requery_fails && id == program_id, set f ifindex owned (some id))
        | none ↦
            if calls.attach_fails then (false, f) else (true, set f ifindex owned (some program_id))
      ]
    ]

-- The pinned program: its id, ENOENT, or another error of `bpf_obj_get` or of the query of the id.
pub data Pin : Type 0 where
  pinned : ℕ → Pin
  missing : Pin
  unavailable : Pin

abbrev pub all_known : (Name → Bool) → List Name → Bool
all_known known [] = true
all_known known (name ∷ names) = known name && all_known known names

-- `known` is `if_nametoindex`; `interfaces` is `if_nameindex`, `none` if it fails.
unfoldable pub tc_prune :
    Calls
    → (known : Name → Bool) → Pin
    → (keep : List Name) → Option (List (ℕ × Name))
    → Filters
    → Bool × Filters
tc_prune calls known pin keep interfaces f =
    if not (all_known known keep) then (false, f) else elim pin [
      | missing ↦ (true, f)
      | unavailable ↦ (false, f)
      | pinned id ↦ elim interfaces [
        | none ↦ (false, f)
        | some entries ↦ detach_interfaces calls id keep entries f
      ]
    ]

unfoldable pub tc_action :
    Calls
    → (raced : Option ℕ) → Pin
    → (ifindex : Option ℕ) → (attach : Bool) → Filters
    → Bool × Filters
tc_action calls raced pin none attach f = (false, f)
tc_action calls raced pin (some ifindex) attach f = elim pin [
  | missing ↦ (false, f)
  | unavailable ↦ (false, f)
  | pinned id ↦ if attach then tc_attach calls raced id ifindex f else tc_detach calls id ifindex f
]
