-- ===== src/Snapshot/Prefix.antt =====
-- src/bpf-snapshot.c, `parse_prefix` and `canonicalize_prefix`. The C library's `strtoul` and
-- `inet_pton` are parameters. A text is the list of its characters; an address is its bytes.
pub mod Canonical
use client_access.Prelude.{
  ℕ, zero, suc, ◌+◌, ◌-◌, ◌*◌, ◌/◌, ◌%◌, ◌^◌, Bool, not, ◌&&◌, ◌||◌, Option, none, some, List, [],
  ◌∷◌, ltb, leb, ◌==◌, if◌then◌else◌, length,
}

abbrev pub Text : Type 0
Text = List ℕ

-- `AF_INET` and `AF_INET6`
pub data Family : Type 0 where
  inet : Family
  inet6 : Family

-- The result of `strtoul(text, &end, 10)`: the value, whether `errno` is set, and whether `end`
-- is the end of the text.
pub record Scanned : Type 0 where
  pub value : ℕ
  pub errno : Bool
  pub at_end : Bool

pub record Libc : Type 0 where
  pub strtoul : Text → Scanned
  -- `none` if it does not return 1
  pub inet_pton : Family → Text → Option (List ℕ)

-- '/'
abbrev pub slash : ℕ
slash = 47

-- The texts before and after the first slash.
abbrev pub split_slash : Text → Option (Text × Text)
split_slash [] = none
split_slash (c ∷ cs) =
    let rest = split_slash cs in
    if c == slash
    then some ([], cs)
    else elim rest [ none ↦ none | some (before, after) ↦ some (c ∷ before, after) ]

-- `INET6_ADDRSTRLEN + 4`
abbrev pub prefix_capacity : ℕ
prefix_capacity = 50

abbrev pub prefix_maximum : Family → ℕ
prefix_maximum Family.inet = 32
prefix_maximum Family.inet6 = 128

-- `none` is -EINVAL; the result is the address and the prefix length.
unfoldable pub parse_prefix : Libc → Text → Family → Option (List ℕ × ℕ)
parse_prefix libc text family =
    if leb prefix_capacity (length text) then none else elim (split_slash text) [
      | none ↦ none
      | some (before, after) ↦
          let scan = libc.strtoul after in
          if scan.errno || not scan.at_end || ltb (prefix_maximum family) scan.value
          then none
          else elim (libc.inet_pton family before) [
            | none ↦ none
            | some address ↦ some (address, scan.value)
          ]
    ]

-- `value & (~0 << n)`
abbrev pub clear_low : (n value : ℕ) → ℕ
clear_low n value = value / 2 ^ n * 2 ^ n

-- `ntohl` and `htonl` on four bytes
abbrev pub ntohl : List ℕ → ℕ
ntohl [] = 0
ntohl (b ∷ bs) = b * 2 ^ (8 * length bs) + ntohl bs

abbrev pub htonl : ℕ → List ℕ
htonl v = v / 2 ^ 24 % 2 ^ 8 ∷ v / 2 ^ 16 % 2 ^ 8 ∷ v / 2 ^ 8 % 2 ^ 8 ∷ v % 2 ^ 8 ∷ []

-- `bytes[i] &= …`
abbrev pub modify : (i : ℕ) → (ℕ → ℕ) → List ℕ → List ℕ
modify i f [] = []
modify zero f (b ∷ bs) = f b ∷ bs
modify (suc i) f (b ∷ bs) = b ∷ modify i f bs

-- `for (i = whole; i < 16; i++) bytes[i] = 0`
abbrev pub zero_from : (whole : ℕ) → List ℕ → List ℕ
zero_from whole [] = []
zero_from zero (b ∷ bs) = 0 ∷ zero_from zero bs
zero_from (suc whole) (b ∷ bs) = b ∷ zero_from whole bs

unfoldable pub canonicalize_bytes : (prefixlen : ℕ) → List ℕ → List ℕ
canonicalize_bytes prefixlen bytes =
    let whole = prefixlen / 8 in
    let remainder = prefixlen % 8 in
    if ltb whole 16 && not (remainder == 0)
    then zero_from (suc whole) (modify whole (clear_low (8 - remainder)) bytes)
    else zero_from whole bytes

unfoldable pub canonicalize_prefix : Family → List ℕ → (prefixlen : ℕ) → List ℕ
canonicalize_prefix Family.inet address prefixlen =
    if prefixlen == 0 then htonl 0 else htonl (clear_low (32 - prefixlen) (ntohl address))
canonicalize_prefix Family.inet6 address prefixlen = canonicalize_bytes prefixlen address
