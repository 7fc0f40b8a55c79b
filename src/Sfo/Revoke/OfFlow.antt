-- ===== src/Sfo/Revoke/OfFlow.antt =====
-- sfo/client-access-sfoctl.c: the entries of the flows that a revocation is about, by the flow map
-- and the original tuple of an entry. Families, protocols and addresses are written out.
use client_access.Prelude.{
  ℕ, ◌≡◌, ◌⊎◌, ◌∙◌, refl, sym, ap, true, ◌&&◌, ◌==◌, Option, none, some, List, [], ◌∷◌, In,
  Bool-cases, inl, inr, arith, take, drop, same_bytes, same_bytes→≡,
}
use mathlib.Core.Option
use mathlib.Core.Path.{ap₂}
use client_access.Abi.{FlowKey, FlowState}
use client_access.Sfo.Tuple.{Conntrack, supported_flow, number, bytes, ct_has, tuple_matches}
use client_access.Sfo.Candidates.{Selection, selects}
use client_access.Sfo.Candidates.Chain.{any_matches}
use client_access.Sfo.Candidates.Collect.{selected}
use client_access.Sfo.Revoke.{wanted}

-- An IPv4 entry between the addresses in the first eight bytes of the key, or an IPv6 entry between
-- those in its 32 bytes.
abbrev pub HasAddresses : FlowKey → Conntrack → Type 0
HasAddresses key ct =
    ((key.eth_proto ≡ 0x0800)
      × (ct.l3proto ≡ some 2)
      × (ct.ipv4_src ≡ some (take 4 key.addr))
      × (ct.ipv4_dst ≡ some (take 4 (drop 4 key.addr))))
    ⊎ (key.eth_proto ≡ 0x86dd)
      × (ct.l3proto ≡ some 10)
      × (ct.ipv6_src ≡ some (take 16 key.addr))
      × (ct.ipv6_dst ≡ some (take 16 (drop 16 key.addr)))

-- The original tuple of an entry is the one of the key, of TCP or UDP.
abbrev pub HasTuple : FlowKey → Conntrack → Type 0
HasTuple key ct =
    ((key.ip_proto ≡ 6) ⊎ (key.ip_proto ≡ 17))
    × (ct.l4proto ≡ some key.ip_proto)
    × (ct.port_src ≡ some key.src_port)
    × (ct.port_dst ≡ some key.dst_port)
    × HasAddresses key ct

-- The flow map has a record of the subject, of the class if one is given, with the tuple of the
-- entry.
abbrev pub IsOfFlow :
    List (FlowKey × Option FlowState)
    → (subject_id : ℕ) → (class_id : Option ℕ) → Conntrack
    → Type 0
IsOfFlow entries subject_id class_id ct =
    (key : FlowKey) × (state : FlowState) × In (key, some state) entries
    × (key.subject_id ≡ subject_id)
    × ((class_id ≡ none) ⊎ (class_id ≡ some state.class_id))
    × HasTuple key ct

number-some : (o : Option ℕ) (n : ℕ) → ct_has o ≡ true → (number o == n) ≡ true → o ≡ some n
number-some none n has same = absurd (ground arith)
number-some (some m) n has same = ap some (ground arith)

bytes-some :
    (o : Option (List ℕ)) (b : List ℕ)
    → ct_has o ≡ true
    → same_bytes (bytes o) b ≡ true
    → o ≡ some b
bytes-some none b has same = absurd (ground arith)
bytes-some (some a) b has same = ap some (same_bytes→≡ a b same)

same_bytes_refl : (b : List ℕ) → same_bytes b b ≡ true
same_bytes_refl [] = refl
same_bytes_refl (b ∷ bs) = ground (arith, same_bytes_refl bs)

tuple_matches-HasAddresses :
    (key : FlowKey) (ct : Conntrack)
    → supported_flow key ≡ true
    → tuple_matches key ct ≡ true
    → HasAddresses key ct
unfolding tuple_matches supported_flow
tuple_matches-HasAddresses key ct known h = elim (Bool-cases (key.eth_proto == 0x0800)) [
  | inl four ↦ inl (
    ground arith,
    number-some ct.l3proto 2 (ground arith) (ground arith),
    bytes-some ct.ipv4_src _ (ground arith) (ground arith),
    bytes-some ct.ipv4_dst _ (ground arith) (ground arith),
  )
  | inr six ↦ inr (
    ground arith,
    number-some ct.l3proto 10 (ground arith) (ground arith),
    bytes-some ct.ipv6_src _ (ground arith) (ground arith),
    bytes-some ct.ipv6_dst _ (ground arith) (ground arith),
  )
]

tuple_matches-HasTuple :
    (key : FlowKey) (ct : Conntrack)
    → supported_flow key ≡ true
    → tuple_matches key ct ≡ true
    → HasTuple key ct
unfolding tuple_matches supported_flow
tuple_matches-HasTuple key ct known h = (
  ground arith,
  number-some ct.l4proto key.ip_proto (ground arith) (ground arith),
  number-some ct.port_src key.src_port (ground arith) (ground arith),
  number-some ct.port_dst key.dst_port (ground arith) (ground arith),
  tuple_matches-HasAddresses key ct known h,
)

HasTuple-tuple_matches :
    (key : FlowKey) (ct : Conntrack) → HasTuple key ct → tuple_matches key ct ≡ true
unfolding tuple_matches
HasTuple-tuple_matches key ct (known, l4, src, dst, inl (eth, l3, a, b)) =
    simp (l4, src, dst, l3, a, b, eth, same_bytes_refl, tuple_matches) (ground arith)
HasTuple-tuple_matches key ct (known, l4, src, dst, inr (eth, l3, a, b)) =
    simp (l4, src, dst, l3, a, b, eth, same_bytes_refl, tuple_matches) (ground arith)

HasTuple-supported_flow :
    (key : FlowKey) (ct : Conntrack) → HasTuple key ct → supported_flow key ≡ true
unfolding supported_flow
HasTuple-supported_flow key ct (known, l4, src, dst, inl (eth, l3, a, b)) = ground arith
HasTuple-supported_flow key ct (known, l4, src, dst, inr (eth, l3, a, b)) = ground arith

selects-asked :
    (subject_id : ℕ) (class_id : Option ℕ) (key : FlowKey) (state : FlowState)
    → selects (wanted subject_id class_id) key state ≡ true
    → (key.subject_id ≡ subject_id)
      × ((class_id ≡ none) ⊎ (class_id ≡ some state.class_id))
      × (supported_flow key ≡ true)
unfolding selects
selects-asked subject_id none key state h = (ground arith, inl refl, ground arith)
selects-asked subject_id (some class_id) key state h =
    (ground arith, inr (ap some (ground arith)), ground arith)

asked-selects :
    (subject_id : ℕ) (class_id : Option ℕ) (key : FlowKey) (state : FlowState)
    → (key.subject_id ≡ subject_id)
      × ((class_id ≡ none) ⊎ (class_id ≡ some state.class_id))
      × (supported_flow key ≡ true)
    → selects (wanted subject_id class_id) key state ≡ true
unfolding selects
asked-selects subject_id none key state (subject, class, known) = ground arith
asked-selects subject_id (some class_id) key state (subject, inl differ, known) =
    absurd (ground arith)
asked-selects subject_id (some class_id) key state (subject, inr same, known) =
    let same' = Option.some-injective class_id state.class_id same in ground arith

matches-selected :
    (asked_for : Selection) (entries : List (FlowKey × Option FlowState)) (ct : Conntrack)
    → (k : FlowKey) (s : FlowState) → In (k, some s) entries
    → selects asked_for k s ≡ true
    → tuple_matches k ct ≡ true
    → any_matches ct (selected asked_for entries) ≡ true
unfolding selected any_matches
matches-selected asked_for [] ct k s at asked match = absurd at
matches-selected asked_for ((key, none) ∷ rest) ct k s (inl here) asked match =
    let differ : some s ≡ none = ap (λ x. x.1) here in absurd (ground arith)
matches-selected asked_for ((key, none) ∷ rest) ct k s (inr there) asked match =
    matches-selected asked_for rest ct k s there asked match
matches-selected asked_for ((key, some state) ∷ rest) ct k s (inl here) asked match =
    let same : k ≡ key = ap (λ x. x.0) here in
    let same' : s ≡ state = Option.some-injective s state (ap (λ x. x.1) here) in
    let own : selects asked_for key state ≡ true =
      sym (ap₂ (selects asked_for) same same') ∙ asked in
    let hit : tuple_matches key ct ≡ true = sym (ap (λ y. tuple_matches y ct) same) ∙ match in
    rw (own, hit, any_matches) refl
matches-selected asked_for ((key, some state) ∷ rest) ct k s (inr there) asked match =
    let later = matches-selected asked_for rest ct k s there asked match in
    elim (Bool-cases (selects asked_for key state)) [
      | inr other ↦ rw other later
      | inl own ↦ rw (own, any_matches) (ground (arith, later))
    ]

IsOfFlow-later :
    (first : FlowKey × Option FlowState) (rest : List (FlowKey × Option FlowState)) (subject_id : ℕ)
    (class_id : Option ℕ) (ct : Conntrack)
    → IsOfFlow rest subject_id class_id ct
    → IsOfFlow (first ∷ rest) subject_id class_id ct
IsOfFlow-later first rest subject_id class_id ct (k, s, at, subject, class, tuple) =
    (k, s, inr at, subject, class, tuple)

pub selected-IsOfFlow :
    (subject_id : ℕ) (class_id : Option ℕ) (entries : List (FlowKey × Option FlowState))
    (ct : Conntrack)
    → any_matches ct (selected (wanted subject_id class_id) entries) ≡ true
    → IsOfFlow entries subject_id class_id ct
unfolding selected any_matches
selected-IsOfFlow subject_id class_id [] ct h = absurd (ground arith)
selected-IsOfFlow subject_id class_id ((key, none) ∷ rest) ct h =
    IsOfFlow-later (key, none) rest subject_id class_id ct
      (selected-IsOfFlow subject_id class_id rest ct h)
selected-IsOfFlow subject_id class_id ((key, some state) ∷ rest) ct h =
    let own = selects (wanted subject_id class_id) key state in
    elim (Bool-cases (own && tuple_matches key ct)) [
      | inl both ↦
          let (subject, class, known) =
            selects-asked subject_id class_id key state (ground arith) in
          (key, state, inl refl, subject, class, tuple_matches-HasTuple key ct known (ground arith))
      | inr other ↦
          IsOfFlow-later (key, some state) rest subject_id class_id ct
            (selected-IsOfFlow subject_id class_id rest ct (ground arith))
    ]

-- Where no selected record matches, no record that is asked for does.
pub IsOfFlow-selected :
    (subject_id : ℕ) (class_id : Option ℕ) (entries : List (FlowKey × Option FlowState))
    (ct : Conntrack)
    → IsOfFlow entries subject_id class_id ct
    → any_matches ct (selected (wanted subject_id class_id) entries) ≡ true
IsOfFlow-selected subject_id class_id entries ct (k, s, at, subject, class, tuple) =
    matches-selected (wanted subject_id class_id) entries ct k s at
      (asked-selects subject_id class_id k s (subject, class, HasTuple-supported_flow k ct tuple))
      (HasTuple-tuple_matches k ct tuple)
