-- ===== src/Prelude/Word.antt =====
-- Unsigned machine words as native numbers: casts wrap by `%`, shifts are `/` and `*`.
use Prim.Native.Nat.{ℕ, ◌+◌, ◌-◌, ◌*◌, ◌/◌, ◌%◌, ◌^◌}

abbrev pub u8 : ℕ → ℕ
u8 n = n % 2 ^ 8

abbrev pub u16 : ℕ → ℕ
u16 n = n % 2 ^ 16

abbrev pub u32 : ℕ → ℕ
u32 n = n % 2 ^ 32

abbrev pub u64 : ℕ → ℕ
u64 n = n % 2 ^ 64

-- `a - b` on uint64_t
abbrev pub sub64 : ℕ → ℕ → ℕ
sub64 a b = (a + 2 ^ 64 - b) % 2 ^ 64

-- The two halves of a uint64_t that packs two counters, and the packing.
abbrev pub high32 : ℕ → ℕ
high32 w = w / 2 ^ 32

abbrev pub low32 : ℕ → ℕ
low32 w = w % 2 ^ 32

abbrev pub pack64 : ℕ → ℕ → ℕ
pack64 high low = high * 2 ^ 32 + low
