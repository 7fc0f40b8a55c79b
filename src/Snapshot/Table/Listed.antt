-- ===== src/Snapshot/Table/Listed.antt =====
-- A value of the map interface: the entries as a list, newest last. It shows that what is asked
-- of the kernel can be met, and runs the examples.
use client_access.Prelude.{
  ◌<◌, ◌≡◌, ◌⊎◌, inl, inr, refl, sym, ap, Option, none, some, List, [], ◌∷◌, ◌++◌, In, In-snoc,
  length, arith, ◌>>=◌,
}
use mathlib.Core.Logic.{ite}
use mathlib.Core.Option
use mathlib.Core.Path.{subst}
use client_access.Snapshot.Table.{Next, key, no_entry, Table}

module _ {K V : Type 0} (same : Discrete K) where
  abbrev pub first_key : List (K × V) → Next K
  first_key [] = no_entry
  first_key ((k, v) ∷ m) = key k

  abbrev pub find : List (K × V) → K → Option V
  find [] k = none
  find ((j, v) ∷ m) k = ite (same j k) (some v) (find m k)

  abbrev pub insert_at : Option V → List (K × V) → K → V → Option (List (K × V))
  insert_at none m k v = some (m ++ ((k, v) ∷ []))
  insert_at (some _) m k v = none

  abbrev pub remove : List (K × V) → K → Option (List (K × V))
  remove [] k = none
  remove ((j, v) ∷ m) k =
      let rest = remove m k in ite (same j k) (some m) (rest >>= λ n. some ((j, v) ∷ n))

  pub remove-size :
      (m n : List (K × V)) (k : K) → first_key m ≡ key k → remove m k ≡ some n → length n < length m
  remove-size [] n k e h = absurd (ground arith)
  remove-size ((j, v) ∷ m) n k e h = ground arith

  pub first_key-empty :
      (m : List (K × V)) (k : K) (v : V) → first_key m ≡ no_entry → In (k, v) m → ⊥
  first_key-empty [] k v e h = h
  first_key-empty ((j, w) ∷ m) k v e h = ground arith

  pub find-In : (m : List (K × V)) (k : K) (v : V) → In (k, v) m → find m k ≡ none → ⊥
  find-In [] k v h e = h
  find-In ((j, w) ∷ m) k v (inl p) e = absurd (ground arith)
  find-In ((j, w) ∷ m) k v (inr h) e = find-In m k v h (ground arith)

  pub insert_at-eq :
      (o : Option V) (m n : List (K × V)) (k : K) (v : V)
      → insert_at o m k v ≡ some n
      → (o ≡ none) × (n ≡ m ++ ((k, v) ∷ []))
  insert_at-eq none m n k v h = (refl, sym (Option.some-injective _ _ h))
  insert_at-eq (some _) m n k v h = absurd (ground arith)

  pub In-last : (m : List (K × V)) (e : K × V) → In e (m ++ (e ∷ []))
  In-last [] e = inl refl
  In-last (x ∷ m) e = inr (In-last m e)

  pub In-append : (m : List (K × V)) (e x : K × V) → In e m → In e (m ++ (x ∷ []))
  In-append [] e x h = absurd h
  In-append (y ∷ m) e x (inl p) = inl p
  In-append (y ∷ m) e x (inr h) = inr (In-append m e x h)

  pub insert-only_lem :
      (m n : List (K × V)) (k j : K) (v w : V)
      → insert_at (find m k) m k v ≡ some n
      → In (j, w) n
      → In (j, w) m ⊎ ((j ≡ k) × (w ≡ v))
  insert-only_lem m n k j v w e h =
      elim (In-snoc (j, w) (k, v) m (subst (In (j, w)) (insert_at-eq (find m k) m n k v e).1 h)) [
        | inl old ↦ inl old
        | inr new ↦ inr (ap (λ p. p.0) new, ap (λ p. p.1) new)
      ]

  abbrev pub listed : Table K V
  listed = record {
    Map = List (K × V);
    Holds = λ m k v. In (k, v) m;
    size = length;
    first_key = first_key;
    insert = λ m k v. insert_at (find m k) m k v;
    delete = remove;
    no_entry-empty = first_key-empty;
    delete-size = remove-size;
    insert-holds = λ m n k v e.
        subst (In (k, v)) (sym (insert_at-eq (find m k) m n k v e).1) (In-last m (k, v));
    insert-keeps = λ m n k j v w e h.
        subst (In (j, w)) (sym (insert_at-eq (find m k) m n k v e).1) (In-append m (j, w) (k, v) h);
    insert-only = insert-only_lem;
    insert-new = λ m n k v w e h. find-In m k w h (insert_at-eq (find m k) m n k v e).0;
  }
