-- ===== src/Sfo/Scan.antt =====
-- sfo/client-access-sfoctl.c: one dump of the conntrack table. The entries, in the order of the
-- dump, come with whether `nfct_clone` copies them; whether the handle opens, whether the callback
-- can be registered and what the query returns are of the library.
pub mod Marking
pub mod Reference
pub mod Query
pub mod Records
pub mod Capacity
pub mod Read
use client_access.Prelude.{
  ℕ, zero, suc, ◌+◌, Bool, true, false, not, ◌&&◌, ◌||◌, Option, none, some, List, [], ◌∷◌, ◌++◌,
  ltb, leb, if◌then◌else◌, length,
}
use client_access.Prelude.Word.{u32}
use client_access.Sfo.Tuple.{
  Conntrack, supported_conntrack_tuple, software_offloaded, hardware_offloaded,
}
use client_access.Sfo.Candidates.{Candidate, Candidates, mark_candidates}

abbrev pub max_conntrack_snapshot : ℕ
max_conntrack_snapshot = 32768

pub record CtList : Type 0 where
  pub items : List Conntrack
  pub capacity : ℕ
  pub overflow : Bool

unfoldable pub append_ct : (copied : Bool) → Conntrack → CtList → CtList
append_ct copied ct list =
    if leb list.capacity (length list.items)
    then record list { overflow = true }
    else if not copied
    then record list { overflow = true }
    else record list { items = list.items ++ (ct ∷ []) }

-- `candidates` and `matches` are null where they are absent. An offload count is the scan's.
pub record Scan : Type 0 where
  pub candidates : Option Candidates
  pub matches : Option CtList
  pub entries : ℕ
  pub software : ℕ
  pub hardware : ℕ
  pub snapshot_overflow : Bool
  pub offloaded_only : Bool

pub data CbResult : Type 0 where
  cb_continue : CbResult
  cb_stop : CbResult

-- `scan->matches && scan->matches->overflow`
abbrev pub is_full : Option CtList → Bool
is_full none = false
is_full (some list) = list.overflow

-- `if (wanted && scan->matches) append_ct(scan->matches, ct)`
unfoldable pub append_if : (wanted copied : Bool) → Conntrack → Option CtList → Option CtList
append_if wanted copied ct none = none
append_if wanted copied ct (some list) =
    if wanted then some (append_ct copied ct list) else some list

-- The callback's result: STOP after an overflow of the matches.
abbrev pub deliver : Scan → Scan × CbResult
deliver scan = (scan, if is_full scan.matches then cb_stop else cb_continue)

-- The entry counters.
unfoldable pub count_entry : Conntrack → Scan → Scan
count_entry ct scan = record scan {
  hardware = if hardware_offloaded ct then u32 (suc scan.hardware) else scan.hardware;
  software = if software_offloaded ct then u32 (suc scan.software) else scan.software;
}

-- The branch that looks for the candidates; `none` is an access outside of the array.
unfoldable pub match_entry : (copied : Bool) → Conntrack → Scan → Option (Scan × CbResult)
match_entry copied ct scan = elim scan.candidates [
  | none ↦ some (scan, cb_continue)
  | some s ↦ elim s.items [
    | [] ↦ some (scan, cb_continue)
    | c ∷ rest ↦
        if not (supported_conntrack_tuple ct) then some (scan, cb_continue) else elim s.buckets [
          | none ↦ some (scan, cb_continue)
          | some heads ↦ elim (mark_candidates ct s heads) [
            | none ↦ none
            | some (items, matched) ↦ some (
                deliver (record scan {
                  candidates = some (record s { items = items });
                  matches = append_if matched copied ct scan.matches;
                }))
          ]
        ]
  ]
]

unfoldable pub offload_entry : (copied : Bool) → Conntrack → Scan → Scan × CbResult
offload_entry copied ct scan = deliver (record scan {
  matches = append_if (software_offloaded ct && not (hardware_offloaded ct)) copied ct scan.matches;
})

unfoldable pub scan_cb : (copied : Bool) → Conntrack → Scan → Option (Scan × CbResult)
scan_cb copied ct scan =
    let seen = record scan { entries = u32 (suc scan.entries) } in
    if ltb max_conntrack_snapshot (u32 (suc scan.entries))
    then some (record seen { snapshot_overflow = true }, cb_stop)
    else if scan.offloaded_only
    then some (offload_entry copied ct (count_entry ct seen))
    else match_entry copied ct (count_entry ct seen)

pub record Dump : Type 0 where
  pub opens : Bool
  pub registers : Bool
  pub entries : List (Conntrack × Bool)
  pub succeeds : Bool

-- The query calls `scan_cb` for the entries until it says STOP.
unfoldable pub query_dump : List (Conntrack × Bool) → Scan → Option Scan
query_dump [] scan = some scan
query_dump ((ct, copied) ∷ rest) scan = elim (scan_cb copied ct scan) [
  | none ↦ none
  | some (after, cb_stop) ↦ some after
  | some (after, cb_continue) ↦ query_dump rest after
]

-- The scan after the dump, and whether 0 is returned.
unfoldable pub conntrack_scan : Dump → Scan → Option (Scan × Bool)
conntrack_scan dump scan =
    if not dump.opens
    then some (scan, false)
    else if not dump.registers
    then some (scan, false)
    else elim (query_dump dump.entries scan) [
      | none ↦ none
      | some after ↦ some (after, dump.succeeds)
    ]

-- `struct ca_scan scan = { .candidates = …, .matches = … }`
abbrev pub new_scan : Option Candidates → Option CtList → (offloaded_only : Bool) → Scan
new_scan candidates matches offloaded_only = record {
  candidates = candidates;
  matches = matches;
  entries = 0;
  software = 0;
  hardware = 0;
  snapshot_overflow = false;
  offloaded_only = offloaded_only;
}

abbrev pub new_list : (capacity : ℕ) → CtList
new_list capacity = record { items = []; capacity = capacity; overflow = false }
