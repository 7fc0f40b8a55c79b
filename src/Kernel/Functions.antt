-- ===== src/Kernel/Functions.antt =====
-- A value of the map interface: a function from keys, never full. It shows that what is asked of
-- the kernel can be met, and runs the examples.
use client_access.Prelude.{◌≡◌, sym, ap, ◌∙◌, ◌≢◌, Option, none, some, arith}
use client_access.Kernel.{BpfMap}
use mathlib.Core.Logic.{ite}
use mathlib.Core.Option

module _ {K V : Type 0} (same : Discrete K) where
  abbrev pub update : (K → Option V) → K → Option V → K → Option V
  update m k v j = ite (same k j) v (m j)

  pub update_self : (m : K → Option V) (k : K) (v : Option V) → update m k v k ≡ v
  update_self m k v = ground arith

  pub update_ne : (m : K → Option V) (k j : K) (v : Option V) → k ≢ j → update m k v j ≡ m j
  update_ne m k j v h = ground arith

  abbrev pub insert_at : Option V → (K → Option V) → K → V → Option (K → Option V)
  insert_at none m k v = some (update m k (some v))
  insert_at (some _) m k v = none

  abbrev pub replace_at : Option V → (K → Option V) → K → V → Option (K → Option V)
  replace_at none m k v = none
  replace_at (some _) m k v = some (update m k (some v))

  insert_at-eq :
      (o : Option V) (m n : K → Option V) (k : K) (v : V)
      → insert_at o m k v ≡ some n
      → n ≡ update m k (some v)
  insert_at-eq none m n k v h = sym (Option.some-injective _ _ h)
  insert_at-eq (some _) m n k v h = cc

  replace_at-eq :
      (o : Option V) (m n : K → Option V) (k : K) (v : V)
      → replace_at o m k v ≡ some n
      → n ≡ update m k (some v)
  replace_at-eq none m n k v h = cc
  replace_at-eq (some _) m n k v h = sym (Option.some-injective _ _ h)

  written_self : (m n : K → Option V) (k : K) (v : V) → n ≡ update m k (some v) → n k ≡ some v
  written_self m n k v e = ap (λ f. f k) e ∙ update_self m k (some v)

  written_ne : (m n : K → Option V) (k j : K) (v : V) → n ≡ update m k (some v) → k ≢ j → n j ≡ m j
  written_ne m n k j v e d = ap (λ f. f j) e ∙ update_ne m k j (some v) d

  pub insert_at-present :
      (o : Option V) (m : K → Option V) (k : K) (v w : V) → o ≡ some w → insert_at o m k v ≡ none
  insert_at-present o m k v w h = ground arith

  pub replace_at-absent :
      (o : Option V) (m : K → Option V) (k : K) (v : V) → o ≡ none → replace_at o m k v ≡ none
  replace_at-absent o m k v h = ground arith

  pub insert_self :
      (m n : K → Option V) (k : K) (v : V) → insert_at (m k) m k v ≡ some n → n k ≡ some v
  insert_self m n k v h = written_self m n k v (insert_at-eq (m k) m n k v h)

  pub insert_ne :
      (m n : K → Option V) (k j : K) (v : V) → insert_at (m k) m k v ≡ some n → k ≢ j → n j ≡ m j
  insert_ne m n k j v h d = written_ne m n k j v (insert_at-eq (m k) m n k v h) d

  pub replace_self :
      (m n : K → Option V) (k : K) (v : V) → replace_at (m k) m k v ≡ some n → n k ≡ some v
  replace_self m n k v h = written_self m n k v (replace_at-eq (m k) m n k v h)

  pub replace_ne :
      (m n : K → Option V) (k j : K) (v : V) → replace_at (m k) m k v ≡ some n → k ≢ j → n j ≡ m j
  replace_ne m n k j v h d = written_ne m n k j v (replace_at-eq (m k) m n k v h) d

  abbrev pub functions : BpfMap K V
  functions = record {
    Map = K → Option V;
    lookup = λ m k. m k;
    write = λ m k v. update m k (some v);
    insert = λ m k v. insert_at (m k) m k v;
    replace = λ m k v. replace_at (m k) m k v;
    delete = λ m k. update m k none;
    lookup-write_self = λ m k v w h. update_self m k (some v);
    lookup-write_ne = λ m k j v h. update_ne m k j (some v) h;
    lookup-insert_self = insert_self;
    lookup-insert_ne = insert_ne;
    insert-present = λ m k v w h. insert_at-present (m k) m k v w h;
    lookup-replace_self = replace_self;
    lookup-replace_ne = replace_ne;
    replace-absent = λ m k v h. replace_at-absent (m k) m k v h;
    lookup-delete_self = λ m k. update_self m k none;
    lookup-delete_ne = λ m k j h. update_ne m k j none h;
  }
