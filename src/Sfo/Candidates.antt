-- ===== src/Sfo/Candidates.antt =====
-- sfo/client-access-sfoctl.c: the flow records that a command is about, in an array with a hash
-- index of chains. The array is a list of its first `count` elements; the heads of the chains are a
-- function, absent before the index is built. `bucket_count` is a power of two, so that the mask by
-- `bucket_count - 1` is the remainder.
pub mod Index
pub mod Chain
pub mod Collect
pub mod Total
use client_access.Prelude.{
  ℕ, zero, suc, ◌+◌, ◌*◌, ◌%◌, Bool, true, false, not, ◌&&◌, ◌||◌, Option, none, some, List, [],
  ◌∷◌, ◌++◌, ◌==◌, ltb, leb, if◌then◌else◌, length, get_elem?, set,
}
use client_access.Abi.{FlowKey, FlowState, max_flows}
use client_access.Sfo.Tuple.{
  Conntrack, supported_flow, candidate_hash, conntrack_hash, tuple_matches,
}

pub record Candidate : Type 0 where
  pub key : FlowKey
  pub state : FlowState
  pub next : ℕ
  pub present : Bool

pub record Candidates : Type 0 where
  pub items : List Candidate
  pub capacity : ℕ
  pub buckets : Option (ℕ → ℕ)
  pub bucket_count : ℕ

-- `UINT32_MAX`, the end of a chain
abbrev pub chain_end : ℕ
chain_end = 4294967295

abbrev pub max_candidates : ℕ
max_candidates = 4096

-- `while (buckets < capacity * 2) buckets <<= 1`; `none` is fuel that ran out.
unfoldable pub double_buckets : (fuel : ℕ) → (capacity buckets : ℕ) → Option ℕ
double_buckets zero capacity buckets = none
double_buckets (suc fuel) capacity buckets =
    let more = double_buckets fuel capacity (buckets * 2) in
    if ltb buckets (capacity * 2) then more else some buckets

abbrev pub set_bucket : (ℕ → ℕ) → ℕ → ℕ → ℕ → ℕ
set_bucket buckets b i b' = if b' == b then i else buckets b'

abbrev pub bucket : (bucket_count : ℕ) → FlowKey → ℕ
bucket bucket_count key = candidate_hash key % bucket_count

-- The loop that links the items, from index `i` on.
unfoldable pub link : (bucket_count i : ℕ) → List Candidate → (ℕ → ℕ) → List Candidate × (ℕ → ℕ)
link n i [] buckets = ([], buckets)
link n i (c ∷ rest) buckets =
    let b = bucket n c.key in
    let (linked, heads) = link n (suc i) rest (set_bucket buckets b i) in
    (record c { next = buckets b } ∷ linked, heads)

-- A `size_t` has 64 bits, so the loop makes at most 64 rounds.
abbrev pub size_bits : ℕ
size_bits = 64

-- `none` is the return value -1.
unfoldable pub index_candidates : (memory : Bool) → Candidates → Option Candidates
index_candidates memory s = elim (double_buckets size_bits s.capacity 1) [
  | none ↦ none
  | some n ↦
      if not memory
      then none
      else let (items, heads) = link n 0 s.items (λ b. chain_end) in
        some (record s { items = items; buckets = some heads; bucket_count = n })
]

-- The records that a command asks for: a subject and a class, each if it is given.
pub record Selection : Type 0 where
  pub subject : Option ℕ
  pub class : Option ℕ

abbrev pub allows : Option ℕ → ℕ → Bool
allows none n = true
allows (some wanted) n = n == wanted

unfoldable pub selects : Selection → FlowKey → FlowState → Bool
selects wanted key state =
    allows wanted.subject key.subject_id
    && (supported_flow key && allows wanted.class state.class_id)

-- `ca_flows` as the command reads it: whether it opens, whether an empty map gives ENOENT, the
-- keys in the order that `bpf_map_get_next_key` delivers them, each with its lookup, and whether
-- the memory for the index is there.
pub record Flows : Type 0 where
  pub opens : Bool
  pub enoent : Bool
  pub entries : List (FlowKey × Option FlowState)
  pub memory : Bool

-- The loop over the keys; `none` is an overflow.
unfoldable pub collect :
    (capacity : ℕ)
    → Selection
    → List (FlowKey × Option FlowState)
    → List Candidate
    → Option (List Candidate)
collect capacity wanted [] items = some items
collect capacity wanted ((key, none) ∷ rest) items = collect capacity wanted rest items
collect capacity wanted ((key, some state) ∷ rest) items = elim (selects wanted key state) [
  | false ↦ collect capacity wanted rest items
  | true ↦ elim (leb capacity (length items)) [
    | true ↦ none
    | false ↦
        collect capacity wanted rest
          (items ++ (record { key = key; state = state; next = 0; present = false } ∷ []))
  ]
]

abbrev pub empty_set : (capacity : ℕ) → Candidates
empty_set capacity = record { items = []; capacity = capacity; buckets = none; bucket_count = 0 }

-- `none` is a return value other than 0.
unfoldable pub collect_candidates : Flows → Selection → (capacity : ℕ) → Option Candidates
collect_candidates flows wanted capacity = if not flows.opens then none else elim flows.entries [
  | [] ↦ if flows.enoent then some (empty_set capacity) else none
  | e ∷ rest ↦ elim (collect capacity wanted flows.entries []) [
    | none ↦ none
    | some items ↦ index_candidates flows.memory (record (empty_set capacity) { items = items })
  ]
]

-- The loop along a chain, which marks the items that match: the items, and whether one matched.
-- `none` is an index outside of the array, or fuel that ran out.
unfoldable pub walk :
    (fuel : ℕ)
    → Conntrack
    → (i : ℕ) → (matched : Bool) → List Candidate
    → Option (List Candidate × Bool)
walk zero ct i matched items = none
walk (suc fuel) ct i matched items = elim (i == chain_end) [
  | true ↦ some (items, matched)
  | false ↦ elim (get_elem? items i) [
    | none ↦ none
    | some c ↦ elim (tuple_matches c.key ct) [
      | false ↦ walk fuel ct c.next matched items
      | true ↦ walk fuel ct c.next true (set items i (record c { present = true }))
    ]
  ]
]

-- The marking of one conntrack entry: each chain is shorter than the array.
unfoldable pub mark_candidates : Conntrack → Candidates → (ℕ → ℕ) → Option (List Candidate × Bool)
mark_candidates ct s heads =
    walk (suc (length s.items)) ct (heads (conntrack_hash ct % s.bucket_count)) false s.items

-- `candidates.items[i].present = false` for every item
unfoldable pub clear_present : List Candidate → List Candidate
clear_present [] = []
clear_present (c ∷ rest) = record c { present = false } ∷ clear_present rest
