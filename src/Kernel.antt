-- ===== src/Kernel.antt =====
-- BPF hash maps as the kernel offers them: the operations that the sources call, with what
-- bpf-helpers(7) documents of them. The kernel's code is not part of the repository, so a map is
-- a parameter. `Kernel.Functions` has a value of the
-- interface.
pub mod Functions
use client_access.Prelude.{◌≡◌, ◌≢◌, Option, none, some}

pub record BpfMap (K V : Type 0) : Type 1 where
  pub Map : Type 0
  -- `bpf_map_lookup_elem`; `none` is NULL
  pub lookup : Map → K → Option V
  -- a store through the pointer that a lookup returned
  pub write : Map → K → V → Map
  -- `bpf_map_update_elem` with BPF_NOEXIST and with BPF_EXIST; `none` is a nonzero result
  pub insert : Map → K → V → Option Map
  pub replace : Map → K → V → Option Map
  -- `bpf_map_delete_elem`
  pub delete : Map → K → Map
  pub lookup-write_self :
      (m : Map) (k : K) (v w : V) → lookup m k ≡ some w → lookup (write m k v) k ≡ some v
  pub lookup-write_ne : (m : Map) (k j : K) (v : V) → k ≢ j → lookup (write m k v) j ≡ lookup m j
  pub lookup-insert_self : (m n : Map) (k : K) (v : V) → insert m k v ≡ some n → lookup n k ≡ some v
  pub lookup-insert_ne :
      (m n : Map) (k j : K) (v : V) → insert m k v ≡ some n → k ≢ j → lookup n j ≡ lookup m j
  pub insert-present : (m : Map) (k : K) (v w : V) → lookup m k ≡ some w → insert m k v ≡ none
  pub lookup-replace_self :
      (m n : Map) (k : K) (v : V) → replace m k v ≡ some n → lookup n k ≡ some v
  pub lookup-replace_ne :
      (m n : Map) (k j : K) (v : V) → replace m k v ≡ some n → k ≢ j → lookup n j ≡ lookup m j
  pub replace-absent : (m : Map) (k : K) (v : V) → lookup m k ≡ none → replace m k v ≡ none
  pub lookup-delete_self : (m : Map) (k : K) → lookup (delete m k) k ≡ none
  pub lookup-delete_ne : (m : Map) (k j : K) → k ≢ j → lookup (delete m k) j ≡ lookup m j
