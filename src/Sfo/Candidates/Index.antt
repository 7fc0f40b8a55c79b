-- ===== src/Sfo/Candidates/Index.antt =====
-- sfo/client-access-sfoctl.c: the index that `index_candidates` builds is well linked, and stays so
-- while candidates are marked and cleared.
use client_access.Prelude.{
  ℕ, zero, suc, ◌+◌, ◌<◌, ◌%◌, ◌≡◌, ◌∙◌, refl, sym, ap, Bool, true, false, some, List, [], ◌∷◌,
  ◌==◌, if◌then◌else◌, length, get_elem?, Bool-cases, inl, inr, arith, ==_iff, Option-cases,
}
use mathlib.Core.Option
use mathlib.Core.Path.{subst}
use client_access.Sfo.Tuple.{Conntrack, conntrack_hash, tuple_matches}
use client_access.Sfo.Candidates.{
  Candidate, Candidates, chain_end, bucket, set_bucket, link, index_candidates, double_buckets,
  size_bits, walk, mark_candidates, clear_present,
}
use client_access.Sfo.Candidates.Chain.{last, IsLinked, mark_all, any_matches, walk-IsLinked}

-- The bucket of the candidate at an index.
unfoldable pub bucket_at : (bucket_count : ℕ) → List Candidate → ℕ → ℕ
bucket_at n [] j = 0
bucket_at n (c ∷ rest) zero = bucket n c.key
bucket_at n (c ∷ rest) (suc j) = bucket_at n rest j

-- The items are linked, and the head of each chain is the last item in its bucket.
abbrev pub IsIndexed : (bucket_count : ℕ) → (heads : ℕ → ℕ) → List Candidate → Type 0
IsIndexed n heads items =
    (f : ℕ → ℕ) × IsLinked n f items
    × ((b : ℕ) → heads b ≡ last f b (length items))
    × (length items < chain_end)

-- The items from index `i` on are linked to those before them.
abbrev IsLinkedFrom : (bucket_count : ℕ) → (ℕ → ℕ) → (i : ℕ) → List Candidate → Type 0
IsLinkedFrom n f i items =
    (j k : ℕ) (c : Candidate)
    → k ≡ i + j
    → get_elem? items j ≡ some c
    → (bucket n c.key ≡ f k) × (c.next ≡ last f (f k) k)

set_bucket-last :
    (f : ℕ → ℕ) (heads : ℕ → ℕ) (i b b' : ℕ)
    → heads b' ≡ last f b' i
    → f i ≡ b
    → set_bucket heads b i b' ≡ last f b' (suc i)
unfolding last
set_bucket-last f heads i b b' h e = elim (Bool-cases (b' == b)) [
  | inl same ↦
      let other : (f i == b') ≡ true = (==_iff _ _).1 (e ∙ sym ((==_iff _ _).0 same)) in
      rw (same, other) refl
  | inr differ ↦ let other : (f i == b') ≡ false = ground arith in rw (differ, other) h
]

cons-IsLinkedFrom :
    (n i : ℕ) (c : Candidate) (rest : List Candidate) (f : ℕ → ℕ)
    → bucket n c.key ≡ f i
    → c.next ≡ last f (f i) i
    → IsLinkedFrom n f (suc i) rest
    → IsLinkedFrom n f i (c ∷ rest)
cons-IsLinkedFrom n i c rest f own next linked zero k d at there =
    let same : c ≡ d = Option.some-injective c d there in
    let here : k ≡ i = omega arith in
    (
      subst (λ x. bucket n x.key ≡ f k) same (own ∙ ap f (sym here)),
      subst (λ x. x.next ≡ last f (f k) k) same (next ∙ ap (λ m. last f (f m) m) (sym here)),
    )
cons-IsLinkedFrom n i c rest f own next linked (suc j) k d at there =
    linked j k d (omega arith) there

link-IsLinked :
    (n i : ℕ) (items : List Candidate) (heads f : ℕ → ℕ)
    → ((b : ℕ) → heads b ≡ last f b i)
    → ((j k : ℕ) (c : Candidate) → k ≡ i + j → get_elem? items j ≡ some c → f k ≡ bucket n c.key)
    → IsLinkedFrom n f i (link n i items heads).0
      × ((b k : ℕ) → k ≡ i + length items → (link n i items heads).1 b ≡ last f b k)
unfolding link
link-IsLinked n i [] heads f ends own =
    (λ j k c at there. absurd (ground arith), λ b k at. ends b ∙ ap (last f b) (omega arith))
link-IsLinked n i (c ∷ rest) heads f ends own =
    let mine : f i ≡ bucket n c.key = own 0 i c (omega arith) refl in
    let (linked, heads') =
      link-IsLinked n (suc i) rest (set_bucket heads (bucket n c.key) i) f
        (λ b. set_bucket-last f heads i (bucket n c.key) b (ends b) mine)
        (λ j k d at there. own (suc j) k d (omega arith) there) in
    let next : heads (bucket n c.key) ≡ last f (f i) i =
      ends (bucket n c.key) ∙ ap (λ b. last f b i) (sym mine) in
    (
      cons-IsLinkedFrom n i (record c { next = heads (bucket n c.key) }) _ f (sym mine) next linked,
      λ b k at. heads' b k (omega arith),
    )

pub bucket_at-get :
    (n j : ℕ) (items : List Candidate) (c : Candidate)
    → get_elem? items j ≡ some c
    → bucket_at n items j ≡ bucket n c.key
unfolding bucket_at
bucket_at-get n j [] c h = absurd (ground arith)
bucket_at-get n zero (x ∷ rest) c h = ap (λ y. bucket n y.key) (Option.some-injective x c h)
bucket_at-get n (suc j) (x ∷ rest) c h = bucket_at-get n j rest c h

pub length-link :
    (n i : ℕ) (items : List Candidate) (heads : ℕ → ℕ)
    → length (link n i items heads).0 ≡ length items
unfolding link
length-link n i [] heads = refl
length-link n i (c ∷ rest) heads =
    ap suc (length-link n (suc i) rest (set_bucket heads (bucket n c.key) i))

link-IsIndexed :
    (n : ℕ) (items : List Candidate)
    → length items < chain_end
    → IsIndexed n (link n 0 items (λ b. chain_end)).1 (link n 0 items (λ b. chain_end)).0
unfolding last
link-IsIndexed n items small =
    let f = bucket_at n items in
    let (linked, heads) =
      link-IsLinked n 0 items (λ b. chain_end) f (λ b. refl)
        (λ j k c at there. ap f (omega (arith, at)) ∙ bucket_at-get n j items c there) in
    let long = length-link n 0 items (λ b. chain_end) in
    (
      f,
      λ j c there. linked j j c (omega arith) there,
      λ b. heads b (length items) (omega arith) ∙ ap (last f b) (sym long),
      omega (arith, long, small),
    )

-- Marking and clearing change neither the keys nor the chains.
mark_all-get :
    (ct : Conntrack) (items : List Candidate) (j : ℕ) (d : Candidate)
    → get_elem? (mark_all ct items) j ≡ some d
    → (c : Candidate) × (get_elem? items j ≡ some c)
      × (d ≡ (if tuple_matches c.key ct then record c { present = true } else c))
unfolding mark_all
mark_all-get ct [] j d h = absurd (ground arith)
mark_all-get ct (c ∷ rest) zero d h = (c, refl, sym (Option.some-injective _ d h))
mark_all-get ct (c ∷ rest) (suc j) d h = mark_all-get ct rest j d h

clear_present-get :
    (items : List Candidate) (j : ℕ) (d : Candidate)
    → get_elem? (clear_present items) j ≡ some d
    → (c : Candidate) × (get_elem? items j ≡ some c) × (d ≡ record c { present = false })
unfolding clear_present
clear_present-get [] j d h = absurd (ground arith)
clear_present-get (c ∷ rest) zero d h = (c, refl, sym (Option.some-injective _ d h))
clear_present-get (c ∷ rest) (suc j) d h = clear_present-get rest j d h

pub length-mark_all :
    (ct : Conntrack) (items : List Candidate) → length (mark_all ct items) ≡ length items
unfolding mark_all
length-mark_all ct [] = refl
length-mark_all ct (c ∷ rest) = ap suc (length-mark_all ct rest)

pub length-clear_present : (items : List Candidate) → length (clear_present items) ≡ length items
unfolding clear_present
length-clear_present [] = refl
length-clear_present (c ∷ rest) = ap suc (length-clear_present rest)

same_links :
    (n : ℕ) (f : ℕ → ℕ) (j : ℕ) (c d : Candidate)
    → d.key ≡ c.key
    → d.next ≡ c.next
    → (bucket n c.key ≡ f j) × (c.next ≡ last f (f j) j)
    → (bucket n d.key ≡ f j) × (d.next ≡ last f (f j) j)
same_links n f j c d k e (own, next) = (ap (bucket n) k ∙ own, e ∙ next)

pub mark-key :
    (p : Bool) (c : Candidate)
    → ((if p then record c { present = true } else c).key ≡ c.key)
      × ((if p then record c { present = true } else c).next ≡ c.next)
mark-key true c = (refl, refl)
mark-key false c = (refl, refl)

pub mark_all-IsIndexed :
    (n : ℕ) (heads : ℕ → ℕ) (ct : Conntrack) (items : List Candidate)
    → IsIndexed n heads items
    → IsIndexed n heads (mark_all ct items)
mark_all-IsIndexed n heads ct items (f, linked, ends, small) =
    let long = length-mark_all ct items in
    (
      f,
      λ j d there.
          let (c, at, e) = mark_all-get ct items j d there in
          let (key, next) = mark-key (tuple_matches c.key ct) c in
          same_links n f j c d (ap (λ x. x.key) e ∙ key) (ap (λ x. x.next) e ∙ next)
            (linked j c at),
      λ b. ends b ∙ ap (last f b) (sym long),
      omega (arith, long, small),
    )

pub clear_present-IsIndexed :
    (n : ℕ) (heads : ℕ → ℕ) (items : List Candidate)
    → IsIndexed n heads items
    → IsIndexed n heads (clear_present items)
clear_present-IsIndexed n heads items (f, linked, ends, small) =
    let long = length-clear_present items in
    (
      f,
      λ j d there.
          let (c, at, e) = clear_present-get items j d there in
          same_links n f j c d (ap (λ x. x.key) e) (ap (λ x. x.next) e) (linked j c at),
      λ b. ends b ∙ ap (last f b) (sym long),
      omega (arith, long, small),
    )

pub mark_candidates-reference :
    (ct : Conntrack) (s : Candidates) (heads : ℕ → ℕ)
    → IsIndexed s.bucket_count heads s.items
    → mark_candidates ct s heads ≡ some (mark_all ct s.items, any_matches ct s.items)
unfolding mark_candidates
mark_candidates-reference ct s heads (f, linked, ends, small) =
    ap (λ i. walk (suc (length s.items)) ct i false s.items)
      (ends (conntrack_hash ct % s.bucket_count))
    ∙ walk-IsLinked s.bucket_count f ct s.items linked small

abbrev pub indexed : (bucket_count : ℕ) → Candidates → Candidates
indexed n s = record s {
  items = (link n 0 s.items (λ b. chain_end)).0;
  buckets = some (link n 0 s.items (λ b. chain_end)).1;
  bucket_count = n;
}

pub index_candidates-indexed :
    (memory : Bool) (s t : Candidates)
    → index_candidates memory s ≡ some t
    → (n : ℕ) × (indexed n s ≡ t)
unfolding index_candidates
index_candidates-indexed memory s t h =
    elim (Option-cases (double_buckets size_bits s.capacity 1)) [
      | inl tight ↦ absurd (ground arith)
      | inr (n, found) ↦ elim (Bool-cases memory) [
        | inr full ↦ absurd (ground arith)
        | inl room ↦
            let e : index_candidates memory s ≡ some (indexed n s) =
              rw (found, room, index_candidates) refl in
            (n, Option.some-injective (indexed n s) t (sym e ∙ h))
      ]
    ]

pub index_candidates-IsIndexed :
    (memory : Bool) (s t : Candidates)
    → length s.items < chain_end
    → index_candidates memory s ≡ some t
    → (heads : ℕ → ℕ) × (t.buckets ≡ some heads) × IsIndexed t.bucket_count heads t.items
index_candidates-IsIndexed memory s t small h =
    let (n, same) = index_candidates-indexed memory s t h in
    subst (λ t. (heads : ℕ → ℕ) × (t.buckets ≡ some heads) × IsIndexed t.bucket_count heads t.items)
      same ((link n 0 s.items (λ b. chain_end)).1, refl, link-IsIndexed n s.items small)
