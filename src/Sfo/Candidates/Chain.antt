-- ===== src/Sfo/Candidates/Chain.antt =====
-- sfo/client-access-sfoctl.c: along a well-linked chain, the marking of `scan_cb` is that of a scan
-- over all candidates.
use client_access.Prelude.{
  ℕ, zero, suc, ◌<◌, ◌≤◌, ◌%◌, ◌≡◌, ◌∙◌, refl, sym, ap, Bool, true, false, ◌&&◌, ◌||◌, some, List,
  [], ◌∷◌, ◌==◌, if◌then◌else◌, length, get_elem?, set, get_elem?-set, get_elem?-lt, length-set,
  Bool-cases, inl, inr, arith, ==_iff,
}
use mathlib.Core.Option
use mathlib.Core.Path.{subst, ap₂}
use client_access.Sfo.Tuple.{Conntrack, conntrack_hash, candidate_hash, tuple_matches}
use client_access.Sfo.Tuple.Hash.{candidate_hash-eq-conntrack_hash}
use client_access.Sfo.Candidates.{Candidate, chain_end, bucket, walk}

-- The last index below `k` in the bucket `b`, where `buckets` gives the bucket of an index.
unfoldable pub last : (buckets : ℕ → ℕ) → (b k : ℕ) → ℕ
last buckets b zero = chain_end
last buckets b (suc k) = let below = last buckets b k in if buckets k == b then k else below

-- Each item points to the one before it in its bucket.
abbrev pub IsLinked : (bucket_count : ℕ) → (ℕ → ℕ) → List Candidate → Type 0
IsLinked n buckets items =
    (j : ℕ) (c : Candidate)
    → get_elem? items j ≡ some c
    → (bucket n c.key ≡ buckets j) × (c.next ≡ last buckets (buckets j) j)

-- The reference: every candidate is tried.
abbrev pub mark : Conntrack → Candidate → Candidate
mark ct c = if tuple_matches c.key ct then record c { present = true } else c

unfoldable pub mark_all : Conntrack → List Candidate → List Candidate
mark_all ct [] = []
mark_all ct (c ∷ rest) = mark ct c ∷ mark_all ct rest

unfoldable pub any_matches : Conntrack → List Candidate → Bool
any_matches ct [] = false
any_matches ct (c ∷ rest) = tuple_matches c.key ct || any_matches ct rest

-- The same for the candidates below an index that are in a bucket.
abbrev in_bucket : (n b : ℕ) → Conntrack → Candidate → Bool
in_bucket n b ct c = bucket n c.key == b && tuple_matches c.key ct

abbrev mark_in : (n b : ℕ) → Conntrack → Candidate → Candidate
mark_in n b ct c = if in_bucket n b ct c then record c { present = true } else c

mark_below : (n b : ℕ) → Conntrack → (k : ℕ) → List Candidate → List Candidate
mark_below n b ct zero items = items
mark_below n b ct (suc k) [] = []
mark_below n b ct (suc k) (c ∷ rest) = mark_in n b ct c ∷ mark_below n b ct k rest

any_below : (n b : ℕ) → Conntrack → (k : ℕ) → List Candidate → Bool
any_below n b ct zero items = false
any_below n b ct (suc k) [] = false
any_below n b ct (suc k) (c ∷ rest) = in_bucket n b ct c || any_below n b ct k rest

or_false : (p : Bool) → (p || false) ≡ p
or_false true = refl
or_false false = refl

and_false : (p : Bool) → (p && false) ≡ false
and_false true = refl
and_false false = refl

or_true : (m a : Bool) → (m || (a || true)) ≡ true
or_true true a = refl
or_true false true = refl
or_true false false = refl

set_same :
    (items : List Candidate) (k : ℕ) (c : Candidate)
    → get_elem? items k ≡ some c
    → set items k c ≡ items
set_same [] k c h = refl
set_same (x ∷ rest) zero c h = ap (λ y. y ∷ rest) (sym (Option.some-injective x c h))
set_same (x ∷ rest) (suc k) c h = ap (λ r. x ∷ r) (set_same rest k c h)

mark_below-set :
    (n b : ℕ) (ct : Conntrack) (k : ℕ) (items : List Candidate) (c : Candidate)
    → get_elem? items k ≡ some c
    → mark_below n b ct (suc k) items ≡ mark_below n b ct k (set items k (mark_in n b ct c))
unfolding mark_below
mark_below-set n b ct k [] c h = absurd (ground arith)
mark_below-set n b ct zero (x ∷ rest) c h =
    ap (λ y. mark_in n b ct y ∷ rest) (Option.some-injective x c h)
mark_below-set n b ct (suc k) (x ∷ rest) c h =
    ap (λ r. mark_in n b ct x ∷ r) (mark_below-set n b ct k rest c h)

any_below-set :
    (n b : ℕ) (ct : Conntrack) (k : ℕ) (items : List Candidate) (c v : Candidate)
    → get_elem? items k ≡ some c
    → any_below n b ct (suc k) items ≡ (any_below n b ct k (set items k v) || in_bucket n b ct c)
unfolding any_below
any_below-set n b ct k [] c v h = absurd (ground arith)
any_below-set n b ct zero (x ∷ rest) c v h =
    or_false (in_bucket n b ct x) ∙ ap (in_bucket n b ct) (Option.some-injective x c h)
any_below-set n b ct (suc k) (x ∷ rest) c v h = ground (arith, any_below-set n b ct k rest c v h)

-- What a round at index `k` leaves to the rounds below it, where its item matches or not.
rest_skip :
    (n b : ℕ) (ct : Conntrack) (k : ℕ) (c : Candidate) (items : List Candidate) (m : Bool)
    → get_elem? items k ≡ some c
    → in_bucket n b ct c ≡ false
    → ◌≡◌ {A = List Candidate × Bool}
        (mark_below n b ct k items, m || any_below n b ct k items)
        (mark_below n b ct (suc k) items, m || any_below n b ct (suc k) items)
rest_skip n b ct k c items m there out =
    let same : set items k (mark_in n b ct c) ≡ items = rw out (set_same items k c there) in
    let any : any_below n b ct (suc k) items ≡ any_below n b ct k items =
      any_below-set n b ct k items c c there
      ∙ ap₂ (λ i q. any_below n b ct k i || q) (set_same items k c there) out
      ∙ or_false (any_below n b ct k items) in
    ap₂ (λ i q. (i, m || q))
      (sym (mark_below-set n b ct k items c there ∙ ap (mark_below n b ct k) same)) (sym any)

rest_hit :
    (n b : ℕ) (ct : Conntrack) (k : ℕ) (c : Candidate) (items : List Candidate) (m : Bool)
    → get_elem? items k ≡ some c
    → in_bucket n b ct c ≡ true
    → ◌≡◌ {A = List Candidate × Bool}
        (
          mark_below n b ct k (set items k (record c { present = true })),
          true || any_below n b ct k (set items k (record c { present = true })),
        )
        (mark_below n b ct (suc k) items, m || any_below n b ct (suc k) items)
rest_hit n b ct k c items m there hit =
    let same : mark_in n b ct c ≡ record c { present = true } = rw hit refl in
    let any : (m || any_below n b ct (suc k) items) ≡ true =
      ap (λ q. m || q)
        (any_below-set n b ct k items c c there
          ∙ ap (λ q. any_below n b ct k (set items k c) || q) hit)
      ∙ or_true m (any_below n b ct k (set items k c)) in
    ap₂ (λ i q. (i, q))
      (sym (
        mark_below-set n b ct k items c there ∙ ap (λ v. mark_below n b ct k (set items k v)) same))
      (sym any)

walk_step :
    (fuel : ℕ) (ct : Conntrack) (k : ℕ) (matched : Bool) (items : List Candidate) (c : Candidate)
    → k < chain_end
    → get_elem? items k ≡ some c
    → walk (suc fuel) ct k matched items ≡ elim (tuple_matches c.key ct) [
      | false ↦ walk fuel ct c.next matched items
      | true ↦ walk fuel ct c.next true (set items k (record c { present = true }))
    ]
unfolding walk
walk_step fuel ct k matched items c small there =
    let inner : (k == chain_end) ≡ false = ground arith in rw (inner, there, walk) refl

set-IsLinked :
    (n : ℕ) (buckets : ℕ → ℕ) (items : List Candidate) (k : ℕ) (c : Candidate) (p : Bool)
    → IsLinked n buckets items
    → get_elem? items k ≡ some c
    → IsLinked n buckets (set items k (record c { present = p }))
set-IsLinked n buckets items k c p linked there j d e =
    elim (get_elem?-set items k j (record c { present = p }) d e) [
      | inl same ↦ linked j d same
      | inr (at, same, _) ↦
          subst (λ x. (bucket n x.key ≡ buckets j) × (x.next ≡ last buckets (buckets j) j))
            (sym same)
            (subst (λ i. (bucket n c.key ≡ buckets i) × (c.next ≡ last buckets (buckets i) i)) at
              (linked k c there))
    ]

-- In the bucket of the entry are all candidates that match it.
in_bucket-own :
    (n : ℕ) (ct : Conntrack) (c : Candidate)
    → in_bucket n (conntrack_hash ct % n) ct c ≡ tuple_matches c.key ct
in_bucket-own n ct c = elim (Bool-cases (tuple_matches c.key ct)) [
  | inl hit ↦
      let same : candidate_hash c.key ≡ conntrack_hash ct =
        candidate_hash-eq-conntrack_hash c.key ct hit in
      let own : (bucket n c.key == conntrack_hash ct % n) ≡ true =
        (==_iff _ _).1 (ap (λ h. h % n) same) in
      rw (own, hit) refl
  | inr miss ↦ rw miss (and_false (bucket n c.key == conntrack_hash ct % n))
]

mark_below-all :
    (n : ℕ) (ct : Conntrack) (items : List Candidate)
    → mark_below n (conntrack_hash ct % n) ct (length items) items ≡ mark_all ct items
unfolding mark_below mark_all
mark_below-all n ct [] = refl
mark_below-all n ct (c ∷ rest) =
    ap₂ (λ x r. x ∷ r)
      (ap (λ p. if p then record c { present = true } else c) (in_bucket-own n ct c))
      (mark_below-all n ct rest)

any_below-all :
    (n : ℕ) (ct : Conntrack) (items : List Candidate)
    → any_below n (conntrack_hash ct % n) ct (length items) items ≡ any_matches ct items
unfolding any_below any_matches
any_below-all n ct [] = refl
any_below-all n ct (c ∷ rest) = ap₂ (λ x r. x || r) (in_bucket-own n ct c) (any_below-all n ct rest)

module _ (n b : ℕ) (buckets : ℕ → ℕ) (ct : Conntrack) where
  walk_below :
      (k fuel : ℕ) (matched : Bool) (items : List Candidate)
      → IsLinked n buckets items
      → length items < chain_end
      → k ≤ length items
      → k < fuel
      → walk fuel ct (last buckets b k) matched items
        ≡ some (mark_below n b ct k items, matched || any_below n b ct k items)
  unfolding walk last mark_below any_below
  walk_below k zero matched items linked small inside h = absurd (omega arith)
  walk_below zero (suc fuel) matched items linked small inside h =
      ap (λ m. some (items, m)) (sym (or_false matched))
  walk_below (suc k) (suc fuel) matched items linked small inside h =
      let (c, there) = get_elem?-lt items k (omega arith) in
      let (own, next) = linked k c there in
      elim (Bool-cases (buckets k == b)) [
        | inr other ↦
            let out : in_bucket n b ct c ≡ false = rw (own, other) refl in
            rw (other, last)
              (walk_below k (suc fuel) matched items linked small (omega arith) (omega arith)
                ∙ ap some (rest_skip n b ct k c items matched there out))
        | inl here ↦
            let at : buckets k ≡ b = (==_iff _ _).0 here in
            let down : c.next ≡ last buckets b k = next ∙ ap (λ x. last buckets x k) at in
            rw (here, last)
              (walk_step fuel ct k matched items c (omega arith) there
                ∙ elim (Bool-cases (tuple_matches c.key ct)) [
                  | inr miss ↦
                      let out : in_bucket n b ct c ≡ false = rw (own, here, miss) refl in
                      rw (miss, down)
                        (walk_below k fuel matched items linked small (omega arith) (omega arith)
                          ∙ ap some (rest_skip n b ct k c items matched there out))
                  | inl hit ↦
                      let both : in_bucket n b ct c ≡ true = rw (own, here, hit) refl in
                      let items' = set items k (record c { present = true }) in
                      let long : length items' ≡ length items = length-set items k _ in
                      rw hit (
                        ap (λ x. walk fuel ct x true items') down
                        ∙ walk_below k fuel true items'
                            (set-IsLinked n buckets items k c true linked there) (omega arith)
                            (omega arith) (omega arith)
                        ∙ ap some (rest_hit n b ct k c items matched there both))
                ])
      ]

pub walk-IsLinked :
    (n : ℕ) (buckets : ℕ → ℕ) (ct : Conntrack) (items : List Candidate)
    → IsLinked n buckets items
    → length items < chain_end
    → walk (suc (length items)) ct (last buckets (conntrack_hash ct % n) (length items)) false items
      ≡ some (mark_all ct items, any_matches ct items)
walk-IsLinked n buckets ct items linked small =
    walk_below n (conntrack_hash ct % n) buckets ct (length items) (suc (length items)) false items
      linked small (omega arith) (omega arith)
    ∙ ap₂ (λ i q. some (i, q)) (mark_below-all n ct items) (any_below-all n ct items)
