-- ===== src/Snapshot/Prefix/Canonical.antt =====
-- src/bpf-snapshot.c, `canonicalize_prefix`: what is left of an address.
use client_access.Prelude.{
  ℕ, zero, suc, ◌+◌, ◌-◌, ◌*◌, ◌/◌, ◌%◌, ◌^◌, ◌≤◌, ◌<◌, ◌≡◌, ◌∙◌, refl, ap, not, ◌&&◌, Bool-cases,
  inl, inr, List, [], ◌∷◌, arith, length, In, ltb, ◌==◌,
}
use native.Mathlib.Nat.{mul-mod_left, mul-div_cancel, div-mul-le_self}
use mathlib.Core.Path.{ap₂}
use client_access.Snapshot.Prefix.{
  Family, inet, inet6, clear_low, ntohl, htonl, modify, zero_from, canonicalize_bytes,
  canonicalize_prefix, prefix_maximum,
}

-- The bytes that `inet_pton` writes: four, or sixteen.
abbrev pub IsAddress : Family → List ℕ → Type 0
IsAddress inet address = (length address ≡ 4) × ((b : ℕ) → In b address → b < 2 ^ 8)
IsAddress inet6 address = (length address ≡ 16) × ((b : ℕ) → In b address → b < 2 ^ 8)

two_pow_pos : (n : ℕ) → 0 < 2 ^ n
two_pow_pos zero = omega arith
two_pow_pos (suc n) = omega (arith, two_pow_pos n)

clear_low-clear_low : (n v : ℕ) → clear_low n (clear_low n v) ≡ clear_low n v
clear_low-clear_low n v = ap (λ q. q * 2 ^ n) (mul-div_cancel (v / 2 ^ n) (two_pow_pos n))

clear_low-le : (n v : ℕ) → clear_low n v ≤ v
clear_low-le n v = div-mul-le_self v (2 ^ n)

ntohl-htonl : (v : ℕ) → v < 2 ^ 32 → ntohl (htonl v) ≡ v
ntohl-htonl v h = omega arith

ntohl-lt :
    (a b c d : ℕ) → a < 256 → b < 256 → c < 256 → d < 256 → ntohl (a ∷ b ∷ c ∷ d ∷ []) < 2 ^ 32
ntohl-lt a b c d ha hb hc hd = omega arith

ntohl-IsAddress : (a : List ℕ) → IsAddress inet a → ntohl a < 2 ^ 32
ntohl-IsAddress (a ∷ b ∷ c ∷ d ∷ []) (four, bytes) =
    ntohl-lt a b c d (bytes a (inl refl)) (bytes b (inr (inl refl)))
      (bytes c (inr (inr (inl refl)))) (bytes d (inr (inr (inr (inl refl)))))
ntohl-IsAddress [] (four, bytes) = omega arith
ntohl-IsAddress (a ∷ []) (four, bytes) = absurd (omega arith)
ntohl-IsAddress (a ∷ b ∷ []) (four, bytes) = absurd (omega arith)
ntohl-IsAddress (a ∷ b ∷ c ∷ []) (four, bytes) = absurd (omega arith)
ntohl-IsAddress (a ∷ b ∷ c ∷ d ∷ e ∷ rest) (four, bytes) = absurd (omega arith)

zero_from-zero_from : (w : ℕ) (bs : List ℕ) → zero_from w (zero_from w bs) ≡ zero_from w bs
zero_from-zero_from w [] = refl
zero_from-zero_from zero (b ∷ bs) = ap (λ r. 0 ∷ r) (zero_from-zero_from zero bs)
zero_from-zero_from (suc w) (b ∷ bs) = ap (λ r. b ∷ r) (zero_from-zero_from w bs)

zero_from-modify :
    (f : ℕ → ℕ) (same : (b : ℕ) → f (f b) ≡ f b) (w : ℕ) (bs : List ℕ)
    → zero_from (suc w) (modify w f (zero_from (suc w) (modify w f bs)))
      ≡ zero_from (suc w) (modify w f bs)
zero_from-modify f same zero [] = refl
zero_from-modify f same (suc w) [] = refl
zero_from-modify f same zero (b ∷ bs) = ap₂ (λ x r. x ∷ r) (same b) (zero_from-zero_from zero bs)
zero_from-modify f same (suc w) (b ∷ bs) = ap (λ r. b ∷ r) (zero_from-modify f same w bs)

canonicalize_bytes-canonicalize_bytes :
    (p : ℕ) (bs : List ℕ) → canonicalize_bytes p (canonicalize_bytes p bs) ≡ canonicalize_bytes p bs
unfolding canonicalize_bytes
canonicalize_bytes-canonicalize_bytes p bs =
    elim (Bool-cases (ltb (p / 8) 16 && not (p % 8 == 0))) [
      | inl partial ↦
          rw (partial, canonicalize_bytes)
            (zero_from-modify (clear_low (8 - p % 8)) (clear_low-clear_low (8 - p % 8)) (p / 8) bs)
      | inr whole ↦ rw (whole, canonicalize_bytes) (zero_from-zero_from (p / 8) bs)
    ]

masked :
    (n : ℕ) (a : List ℕ)
    → IsAddress inet a
    → htonl (clear_low n (ntohl (htonl (clear_low n (ntohl a))))) ≡ htonl (clear_low n (ntohl a))
masked n a address =
    ap (λ v. htonl (clear_low n v))
      (ntohl-htonl (clear_low n (ntohl a))
        (omega (arith, clear_low-le n (ntohl a), ntohl-IsAddress a address)))
    ∙ ap htonl (clear_low-clear_low n (ntohl a))

canonicalize_prefix_again :
    (family : Family) (address : List ℕ) (p : ℕ)
    → IsAddress family address
    → canonicalize_prefix family (canonicalize_prefix family address p) p
      ≡ canonicalize_prefix family address p
unfolding canonicalize_prefix
canonicalize_prefix_again inet address p h = elim (Bool-cases (p == 0)) [
  | inl all ↦ rw (all, canonicalize_prefix) refl
  | inr some_bits ↦ rw (some_bits, canonicalize_prefix) (masked (32 - p) address h)
]
canonicalize_prefix_again inet6 address p h = canonicalize_bytes-canonicalize_bytes p address

-- The first `p` bits of the bytes, and zeros.
abbrev pub cut : (p : ℕ) → List ℕ → List ℕ
cut p [] = []
cut p (b ∷ bs) = b / 2 ^ (8 - p) * 2 ^ (8 - p) ∷ cut (p - 8) bs

-- An IPv4 address is cut to the largest multiple of 2 ^ (32 - p) that is not above it, as numbers;
-- an IPv6 address keeps its first `p` bits, and the rest is zeros.
abbrev pub IsCut : Family → (p : ℕ) → (address result : List ℕ) → Type 0
IsCut inet p address result =
    (length result ≡ 4)
    × (ntohl result ≤ ntohl address)
    × (ntohl address < ntohl result + 2 ^ (32 - p))
    × (ntohl result % 2 ^ (32 - p) ≡ 0)
IsCut inet6 p address result = result ≡ cut p address

zero_from-cut : (bs : List ℕ) → ((b : ℕ) → In b bs → b < 2 ^ 8) → zero_from 0 bs ≡ cut 0 bs
zero_from-cut [] bytes = refl
zero_from-cut (b ∷ bs) bytes =
    ap₂ (λ x r. x ∷ r) (omega (arith, bytes b (inl refl)))
      (zero_from-cut bs (λ c at. bytes c (inr at)))

zero_from-whole :
    (w : ℕ) (bs : List ℕ) → ((b : ℕ) → In b bs → b < 2 ^ 8) → zero_from w bs ≡ cut (w * 8) bs
zero_from-whole zero bs bytes = zero_from-cut bs bytes
zero_from-whole (suc w) [] bytes = refl
zero_from-whole (suc w) (b ∷ bs) bytes =
    let none_cleared : 8 - suc w * 8 ≡ 0 = omega arith in
    let left : suc w * 8 - 8 ≡ w * 8 = omega arith in
    rw (none_cleared, left)
      (ap₂ (λ x r. x ∷ r) (omega arith) (zero_from-whole w bs (λ c at. bytes c (inr at))))

zero_from-partial :
    (w r : ℕ) (bs : List ℕ)
    → r < 8
    → ((b : ℕ) → In b bs → b < 2 ^ 8)
    → zero_from (suc w) (modify w (clear_low (8 - r)) bs) ≡ cut (w * 8 + r) bs
zero_from-partial zero r [] small bytes = refl
zero_from-partial (suc w) r [] small bytes = refl
zero_from-partial zero r (b ∷ bs) small bytes =
    let none_left : 0 ≡ 0 * 8 + r - 8 = omega arith in
    ap₂ (λ x y. x ∷ y) (ap (λ k. clear_low (8 - k) b) (omega arith))
      (zero_from-cut bs (λ c at. bytes c (inr at)) ∙ ap (λ n. cut n bs) none_left)
zero_from-partial (suc w) r (b ∷ bs) small bytes =
    let none_cleared : 8 - (suc w * 8 + r) ≡ 0 = omega arith in
    let left : suc w * 8 + r - 8 ≡ w * 8 + r = omega arith in
    rw (none_cleared, left)
      (ap₂ (λ x y. x ∷ y) (omega arith) (zero_from-partial w r bs small (λ c at. bytes c (inr at))))

canonicalize_bytes-cut :
    (p : ℕ) (bs : List ℕ)
    → p ≤ 128
    → ((b : ℕ) → In b bs → b < 2 ^ 8)
    → canonicalize_bytes p bs ≡ cut p bs
unfolding canonicalize_bytes
canonicalize_bytes-cut p bs few bytes = elim (Bool-cases (ltb (p / 8) 16 && not (p % 8 == 0))) [
  | inl partial ↦
      let sum : p / 8 * 8 + p % 8 ≡ p = omega arith in
      rw (partial, canonicalize_bytes)
        (zero_from-partial (p / 8) (p % 8) bs (omega arith) bytes ∙ ap (λ n. cut n bs) sum)
  | inr whole ↦
      let none_partial : p / 8 * 8 ≡ p = ground arith in
      rw (whole, canonicalize_bytes)
        (zero_from-whole (p / 8) bs bytes ∙ ap (λ n. cut n bs) none_partial)
]

clear_low-IsCut :
    (p v : ℕ)
    → v < 2 ^ 32
    → (ntohl (htonl (clear_low (32 - p) v)) ≤ v)
      × (v < ntohl (htonl (clear_low (32 - p) v)) + 2 ^ (32 - p))
      × (ntohl (htonl (clear_low (32 - p) v)) % 2 ^ (32 - p) ≡ 0)
clear_low-IsCut p v fits =
    let n = 32 - p in
    let back = ntohl-htonl (clear_low n v) (omega (arith, clear_low-le n v, fits)) in
    rw back (clear_low-le n v, ground (arith, two_pow_pos n), mul-mod_left (v / 2 ^ n) (2 ^ n))

canonicalize_prefix_bits :
    (family : Family) (address : List ℕ) (p : ℕ)
    → IsAddress family address
    → p ≤ prefix_maximum family
    → IsCut family p address (canonicalize_prefix family address p)
unfolding canonicalize_prefix
canonicalize_prefix_bits inet address p h few = elim (Bool-cases (p == 0)) [
  | inl all ↦
      let zero_p : p ≡ 0 = ground arith in
      rw (all, canonicalize_prefix, zero_p)
        (refl, omega arith, ntohl-IsAddress address h, omega arith)
  | inr some_bits ↦
      let (below, above, multiple) =
        clear_low-IsCut p (ntohl address) (ntohl-IsAddress address h) in
      rw (some_bits, canonicalize_prefix) (refl, below, above, multiple)
]
canonicalize_prefix_bits inet6 address p (n, bytes) few = canonicalize_bytes-cut p address few bytes

-- Cutting an address to a prefix length of its family keeps the bits of the prefix and clears the
-- others, and cutting the result again changes nothing. The address is four or sixteen bytes, each
-- below 256.
pub canonicalize_prefix-IsCut :
    (family : Family) (address : List ℕ) (p : ℕ)
    → IsAddress family address
    → p ≤ prefix_maximum family
    → IsCut family p address (canonicalize_prefix family address p)
      × (canonicalize_prefix family (canonicalize_prefix family address p) p
          ≡ canonicalize_prefix family address p)
canonicalize_prefix-IsCut family address p h few =
    (canonicalize_prefix_bits family address p h few, canonicalize_prefix_again family address p h)
