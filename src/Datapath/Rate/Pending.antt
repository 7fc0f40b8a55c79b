-- ===== src/Datapath/Rate/Pending.antt =====
-- src/client-access-bpf.c, `ca_pending_reserve` and `ca_pending_release`: the packed word of the
-- pending count and its peak.
use client_access.Prelude.{
  ℕ, ◌+◌, ◌^◌, ◌<◌, ◌≡◌, true, false, Option, some, [], arith, max, Option-cases, inl, inr, ◌⊎◌,
}
use client_access.Prelude.Word.{sub64, low32, high32}
use client_access.Datapath.Rate.{cas_loop, pending_next, pending_reserve, pending_release}

-- What a reservation stores, when it is granted.
pub pending_next-fields :
    (limit w v : ℕ)
    → w < 2 ^ 64
    → limit < 2 ^ 32
    → pending_next limit w ≡ some v
    → (low32 w < limit)
      × (low32 v ≡ low32 w + 1)
      × (high32 v ≡ max (high32 w) (low32 w + 1))
      × (v < 2 ^ 64)
unfolding pending_next
pending_next-fields limit w v hw hl h = ground arith

-- With no interference, a word of 64 bits and a limit of 32 bits, a granted reservation that is
-- released gives back the count, and the peak is at least the count in between.
pub reserve-release :
    (limit w : ℕ)
    → w < 2 ^ 64
    → limit < 2 ^ 32
    → (pending_reserve [] (some w) limit).0 ≡ true
    → (v : ℕ) × (pending_release (pending_reserve [] (some w) limit).1 ≡ some v)
      × (low32 v ≡ low32 w)
      × (high32 v ≡ max (high32 w) (low32 w + 1))
unfolding pending_reserve cas_loop pending_release
reserve-release limit w hw hl taken = elim (Option-cases (pending_next limit w)) [
  | inl refused ↦ absurd (ground arith)
  | inr (v, next) ↦
      let fields = pending_next-fields limit w v hw hl next in
      (sub64 v 1, ground arith, omega arith, omega arith)
]

pub reserve_refused :
    (limit w : ℕ)
    → (pending_reserve [] (some w) limit).0 ≡ false
    → (pending_reserve [] (some w) limit).1 ≡ some w
unfolding pending_reserve cas_loop
reserve_refused limit w refused = ground arith

-- The count is that of `w`; the peak is that of `w`, or one more than the count.
unfoldable pub KeepsCount : ℕ → Option ℕ → Type 0
KeepsCount w runtime =
    (v : ℕ) × (runtime ≡ some v)
    × (low32 v ≡ low32 w)
    × ((high32 v ≡ high32 w) ⊎ (high32 v ≡ max (high32 w) (low32 w + 1)))
