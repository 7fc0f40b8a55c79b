-- ===== src/Snapshot/Table.antt =====
-- src/bpf-snapshot.c, `clear_map` and the loops that populate a map. The kernel's maps are a
-- parameter: the system calls that the controller makes, with what bpf(2) documents of them.
pub mod Entries
pub mod Listed
use client_access.Prelude.{
  ℕ, zero, suc, ◌<◌, ◌≡◌, Bool, true, false, Option, none, some, List, [], ◌∷◌, ◌⊎◌, inl, inr, refl,
}

-- The result of `bpf_map_get_next_key(fd, NULL, key)`; `no_entry` is ENOENT.
pub data Next (K : Type 0) : Type 0 where
  key : K → Next K
  no_entry : Next K
  failed : Next K

pub record Table (K V : Type 0) : Type 1 where
  pub Map : Type 0
  -- The map has this value under exactly this key.
  pub Holds : Map → K → V → Type 0
  pub size : Map → ℕ
  pub first_key : Map → Next K
  -- `bpf_map_update_elem` with BPF_NOEXIST, and `bpf_map_delete_elem`; `none` is an error
  pub insert : Map → K → V → Option Map
  pub delete : Map → K → Option Map
  pub no_entry-empty : (m : Map) (k : K) (v : V) → first_key m ≡ no_entry → Holds m k v → ⊥
  pub delete-size :
      (m n : Map) (k : K) → first_key m ≡ key k → delete m k ≡ some n → size n < size m
  pub insert-holds : (m n : Map) (k : K) (v : V) → insert m k v ≡ some n → Holds n k v
  pub insert-keeps :
      (m n : Map) (k j : K) (v w : V) → insert m k v ≡ some n → Holds m j w → Holds n j w
  pub insert-only :
      (m n : Map) (k j : K) (v w : V)
      → insert m k v ≡ some n
      → Holds n j w
      → Holds m j w ⊎ ((j ≡ k) × (w ≡ v))
  pub insert-new : (m n : Map) (k : K) (v w : V) → insert m k v ≡ some n → Holds m k w → ⊥

module _ {K V : Type 0} (t : Table K V) where
  -- `none` is fuel that ran out; `true` is the return value 0. A map of n entries takes n + 1.
  unfoldable pub clear_map : (fuel : ℕ) → t.Map → Option (Bool × t.Map)
  clear_map zero m = none
  clear_map (suc fuel) m = elim (t.first_key m) [
    | no_entry ↦ some (true, m)
    | failed ↦ some (false, m)
    | key k ↦ elim (t.delete m k) [ none ↦ some (false, m) | some n ↦ clear_map fuel n ]
  ]

  unfoldable pub populate : List (K × V) → t.Map → Bool × t.Map
  populate [] m = (true, m)
  populate ((k, v) ∷ entries) m = elim (t.insert m k v) [
    | none ↦ (false, m)
    | some n ↦ populate entries n
  ]
