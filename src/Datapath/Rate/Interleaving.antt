-- ===== src/Datapath/Rate/Interleaving.antt =====
-- src/client-access-bpf.c, `ca_pending_reserve` and `ca_pending_release` on several CPUs that share
-- the word, interleaved in any order at its atomic accesses.
use client_access.Prelude.{
  ℕ, zero, suc, ◌+◌, ◌≤◌, ◌<◌, ◌^◌, ◌≡◌, ◌≢◌, none, some, List, [], ◌∷◌, ◌++◌, arith,
}
use client_access.Prelude.Word.{low32, high32, sub64}
use client_access.Datapath.Rate.{cas_attempts, pending_next}
use client_access.Datapath.Rate.Pending.{pending_next-fields}

-- Where a CPU stands in a run of the program, as far as the word is concerned.
pub data Cpu : Type 0 where
  outside : Cpu
  trying : (left : ℕ) → Cpu  -- before the load, with so many attempts left
  loaded : (left old : ℕ) → Cpu  -- between the load and the swap
  holding : Cpu  -- the reservation is granted

-- One atomic step of one CPU on the word: the loop of `ca_pending_reserve`, then the release.
pub data Move (limit word : ℕ) : Cpu → ℕ → Cpu → Type 0 where
  enter : Move limit word outside word (trying cas_attempts)
  give_up : Move limit word (trying zero) word outside
  load : {left : ℕ} → Move limit word (trying (suc left)) word (loaded left word)
  refuse :
      {left old : ℕ}
      → pending_next limit old ≡ none
      → Move limit word (loaded left old) word outside
  swap :
      {left old next : ℕ}
      → pending_next limit old ≡ some next
      → word ≡ old
      → Move limit word (loaded left old) next holding
  retry :
      {left old next : ℕ}
      → pending_next limit old ≡ some next
      → word ≢ old
      → Move limit word (loaded left old) word (trying left)
  release : Move limit word holding (sub64 word 1) outside

pub record System : Type 0 where
  pub word : ℕ
  pub cpus : List Cpu

pub data Step (limit : ℕ) (s t : System) : Type 0 where
  turn :
      (before after : List Cpu) (p q : Cpu)
      → s.cpus ≡ before ++ p ∷ after
      → t.cpus ≡ before ++ q ∷ after
      → Move limit s.word p t.word q
      → Step limit s t

-- What is reached from a state by any number of steps of any CPUs.
pub data Reach (limit : ℕ) (s : System) : System → Type 0 where
  start : Reach limit s s
  later : {t u : System} → Reach limit s t → Step limit t u → Reach limit s u

abbrev pub holds : Cpu → ℕ
holds outside = 0
holds (trying _) = 0
holds (loaded _ _) = 0
holds holding = 1

unfoldable pub holders : List Cpu → ℕ
holders [] = 0
holders (c ∷ cs) = holds c + holders cs

holders-append : (xs ys : List Cpu) → holders (xs ++ ys) ≡ holders xs + holders ys
unfolding holders
holders-append [] ys = omega arith
holders-append (x ∷ xs) ys = omega (arith, holders-append xs ys)

holders_at :
    (before after : List Cpu) (c : Cpu)
    → holders (before ++ c ∷ after) ≡ holders before + holds c + holders after
unfolding holders
holders_at before after c = omega (arith, holders-append before (c ∷ after))

-- The word counts the CPUs that hold a reservation, within the limit, and the peak bounds it.
pub record IsCounted (limit : ℕ) (s : System) : Type 0 where
  pub fits : s.word < 2 ^ 64
  pub counted : low32 s.word ≡ holders s.cpus
  pub bounded : holders s.cpus ≤ limit
  pub peak : holders s.cpus ≤ high32 s.word

-- What a move does to the word, against the change in what its CPU holds.
record Balanced (limit word : ℕ) (p : Cpu) (next : ℕ) (q : Cpu) : Type 0 where
  fits : next < 2 ^ 64
  count : low32 next + holds p ≡ low32 word + holds q
  within : low32 next ≤ limit
  peak : low32 next ≤ high32 next

Move-Balanced :
    {limit word next : ℕ} {p q : Cpu}
    → limit < 2 ^ 32
    → word < 2 ^ 64
    → low32 word ≤ limit
    → low32 word ≤ high32 word
    → holds p ≤ low32 word
    → Move limit word p next q
    → Balanced limit word p next q
Move-Balanced small fits within peak own enter = omega arith
Move-Balanced small fits within peak own give_up = omega arith
Move-Balanced small fits within peak own load = omega arith
Move-Balanced small fits within peak own (refuse h) = omega arith
Move-Balanced {limit} {word} {next} small fits within peak own (swap h same) =
    ground (arith, pending_next-fields limit word next)
Move-Balanced small fits within peak own (retry h other) = omega arith
Move-Balanced small fits within peak own release = omega arith

pub Step-IsCounted :
    {limit : ℕ} {s t : System}
    → limit < 2 ^ 32
    → Step limit s t
    → IsCounted limit s
    → IsCounted limit t
Step-IsCounted {limit} {s} {t} small (turn before after p q from to move) i =
    let here : holders s.cpus ≡ holders before + holds p + holders after =
      rw from (holders_at before after p) in
    let there : holders t.cpus ≡ holders before + holds q + holders after =
      rw to (holders_at before after q) in
    let b = Move-Balanced small i.fits (omega arith) (omega arith) (omega arith) move in omega arith

-- From a state where it is so, on any number of CPUs, in any interleaving of their loads, swaps
-- and releases, and for a limit of 32 bits: the low half of the word is the number of CPUs that
-- hold a reservation, that number is within the limit, and the high half is at least that number.
pub Reach-IsCounted :
    {limit : ℕ} {s t : System}
    → limit < 2 ^ 32
    → IsCounted limit s
    → Reach limit s t
    → IsCounted limit t
Reach-IsCounted small i start = i
Reach-IsCounted small i (later r step) = Step-IsCounted small step (Reach-IsCounted small i r)
