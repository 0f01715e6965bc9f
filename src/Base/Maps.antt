-- ===== src/Base/Maps.antt =====
-- Go maps as association lists with distinct keys. The order of the list stands for the order in
-- which one `range` over the map visits it, which Go leaves open.
use aesirguard_audit.Base.Eq.{Equality, ◌==◌}
use aesirguard_audit.Base.Lists.{length}
use aesirguard_audit.Base.Tests.{if◌then◌else◌, Bool-cases}
use Prim.Native.Nat.{ℕ, ◌+◌, ◌≤◌}
use mathlib.Core.Path.{◌≡◌, refl, subst₂}
use mathlib.Core.Logic.{inl, inr}
use mathlib.Core.Option.{Option, none, some}
use mathlib.Core.List.{List, [], ◌∷◌}
use native.Mathlib.Omega.{arith}

-- The value of a weight at an optional entry.
abbrev pub weigh {ℓ} : {V : Type ℓ} → (V → ℕ) → Option V → ℕ
weigh f none = 0
weigh f (some v) = f v

-- The sum of a weight over the values of a map.
abbrev pub total {ℓ κ} : {K : Type ℓ} {V : Type κ} → (V → ℕ) → List (K × V) → ℕ
total f [] = 0
total f ((k, v) ∷ m) = f v + total f m

-- A change to every value.
abbrev pub map_values {ℓ κ} : {K : Type ℓ} {V : Type κ} → (K → V → V) → List (K × V) → List (K × V)
map_values f [] = []
map_values f ((k, v) ∷ m) = (k, f k v) ∷ map_values f m

abbrev pub AllOf {ℓ κ μ} : {K : Type ℓ} {V : Type κ} → (K → V → Type μ) → List (K × V) → Type μ
AllOf P [] = Unit
AllOf P ((k, v) ∷ m) = P k v × AllOf P m

module _ {ℓ κ} {K : Type ℓ} {V : Type κ} ⦃e : Equality K⦄ where
  -- `m[key]`, with the second result of Go as the option.
  unfoldable pub lookup : K → List (K × V) → Option V
  lookup wanted [] = none
  lookup wanted ((key, value) ∷ rest) = if key == wanted then some value else lookup wanted rest

  -- `m[key] = value`.
  unfoldable pub insert : K → V → List (K × V) → List (K × V)
  insert key value [] = (key, value) ∷ []
  insert key value ((other, old) ∷ rest) =
      if other == key then (key, value) ∷ rest else (other, old) ∷ insert key value rest

  -- `delete(m, key)`.
  unfoldable pub delete : K → List (K × V) → List (K × V)
  delete k [] = []
  delete k ((j, w) ∷ m) = let rest = delete k m in if j == k then rest else (j, w) ∷ rest

  abbrev pub Distinct : List (K × V) → Type κ
  Distinct [] = Unit
  Distinct ((k, v) ∷ m) = (lookup k m ≡ none) × Distinct m

module _ {ℓ κ} {K : Type ℓ} {V : Type κ} ⦃e : Equality K⦄ where
  -- A write is seen under its key and no other.
  pub lookup-insert :
      (key wanted : K) (value : V) (m : List (K × V))
      → lookup wanted (insert key value m) ≡ (if key == wanted then some value else lookup wanted m)
  unfolding lookup insert
  lookup-insert key wanted value [] = refl
  lookup-insert key wanted value ((other, old) ∷ rest) = ground (
    arith,
    lookup-insert key wanted value rest,
    e.beq_iff other key,
    e.beq_iff other wanted,
    e.beq_iff key wanted,
  )

  pub lookup-delete :
      (k j : K) (m : List (K × V)) → lookup j (delete k m) ≡ (if k == j then none else lookup j m)
  unfolding lookup delete
  lookup-delete k j [] = ground arith
  lookup-delete k j ((i, w) ∷ m) =
      ground (arith, e.beq_iff k j, e.beq_iff i k, e.beq_iff i j, lookup-delete k j m)

  pub delete-absent : (k : K) (m : List (K × V)) → lookup k m ≡ none → delete k m ≡ m
  unfolding lookup delete
  delete-absent k [] h = refl
  delete-absent k ((i, w) ∷ m) h = ground (arith, delete-absent k m)

  pub Distinct-insert : (k : K) (v : V) (m : List (K × V)) → Distinct m → Distinct (insert k v m)
  unfolding insert
  Distinct-insert k v [] d = (unfold lookup in refl, tt)
  Distinct-insert k v ((i, w) ∷ m) d =
      ground (arith, e.beq_iff i k, e.beq_iff k i, lookup-insert k i v m, Distinct-insert k v m d.1)

  pub Distinct-delete : (k : K) (m : List (K × V)) → Distinct m → Distinct (delete k m)
  unfolding delete
  Distinct-delete k [] d = tt
  Distinct-delete k ((i, w) ∷ m) d = ground (arith, lookup-delete k i m, Distinct-delete k m d.1)

  -- What a write adds to the sum of a weight, against the entry that it replaces.
  pub total-insert :
      (f : V → ℕ) (k : K) (v : V) (m : List (K × V))
      → total f (insert k v m) + weigh f (lookup k m) ≡ total f m + f v
  unfolding insert lookup
  total-insert f k v [] = omega arith
  total-insert f k v ((i, w) ∷ m) = ground (arith, total-insert f k v m)

  -- A deleted entry takes its weight along.
  pub total-delete :
      (f : V → ℕ) (k : K) (m : List (K × V))
      → Distinct m
      → total f (delete k m) + weigh f (lookup k m) ≡ total f m
  unfolding delete lookup
  total-delete f k [] d = omega arith
  total-delete f k ((i, w) ∷ m) d =
      ground (arith, e.beq_iff i k, total-delete f k m d.1, delete-absent k m)

  pub lookup-map_values :
      (g : K → V → V) (k : K) (m : List (K × V))
      → lookup k (map_values g m) ≡ elim (lookup k m) [ none ↦ none | some v ↦ some (g k v) ]
  unfolding lookup
  lookup-map_values g k [] = refl
  lookup-map_values g k ((i, w) ∷ m) = ground (arith, e.beq_iff i k, lookup-map_values g k m)

  pub Distinct-map_values :
      (g : K → V → V) (m : List (K × V)) → Distinct m → Distinct (map_values g m)
  Distinct-map_values g [] d = tt
  Distinct-map_values g ((i, w) ∷ m) d =
      ground (arith, lookup-map_values g i m, Distinct-map_values g m d.1)

  pub total-map_values :
      (f : V → ℕ) (g : K → V → V) (m : List (K × V))
      → ((k : K) (v : V) → f (g k v) ≡ f v)
      → total f (map_values g m) ≡ total f m
  total-map_values f g [] h = refl
  total-map_values f g ((i, w) ∷ m) h = omega (arith, h i w, total-map_values f g m h)

  pub length-total : (m : List (K × V)) → length m ≡ total (λ _. 1) m
  length-total [] = refl
  length-total (x ∷ m) = omega (arith, length-total m)

  -- A predicate on the entries, under the operations.
  pub AllOf-lookup {μ} :
      (P : K → V → Type μ) (k : K) (m : List (K × V)) {v : V}
      → AllOf P m
      → lookup k m ≡ some v
      → P k v
  unfolding lookup
  AllOf-lookup P k [] a h = cc
  AllOf-lookup P k ((i, w) ∷ m) {v} a h = elim (Bool-cases (i == k)) [
    | inl same ↦ subst₂ P ((e.beq_iff i k).0 same) (ground arith) a.0
    | inr other ↦ AllOf-lookup P k m a.1 (ground arith)
  ]

  pub AllOf-insert {μ} :
      (P : K → V → Type μ) (k : K) (v : V) (m : List (K × V))
      → AllOf P m
      → P k v
      → AllOf P (insert k v m)
  unfolding insert
  AllOf-insert P k v [] a h = (h, tt)
  AllOf-insert P k v ((i, w) ∷ m) a h = ground (arith, AllOf-insert P k v m a.1 h)

  pub AllOf-delete {μ} :
      (P : K → V → Type μ) (k : K) (m : List (K × V)) → AllOf P m → AllOf P (delete k m)
  unfolding delete
  AllOf-delete P k [] a = tt
  AllOf-delete P k ((i, w) ∷ m) a = ground (arith, AllOf-delete P k m a.1)

  pub AllOf-map_values {μ} :
      (P : K → V → Type μ) (g : K → V → V) (m : List (K × V))
      → ((k : K) (v : V) → P k v → P k (g k v))
      → AllOf P m
      → AllOf P (map_values g m)
  AllOf-map_values P g [] h a = tt
  AllOf-map_values P g ((i, w) ∷ m) h a = (h i w a.0, AllOf-map_values P g m h a.1)

  pub length-map_values : (g : K → V → V) (m : List (K × V)) → length (map_values g m) ≡ length m
  length-map_values g [] = refl
  length-map_values g (x ∷ m) = omega (arith, length-map_values g m)

  pub length-delete-le : (k : K) (m : List (K × V)) → length (delete k m) ≤ length m
  unfolding delete
  length-delete-le k [] = omega arith
  length-delete-le k ((i, w) ∷ m) = ground (arith, length-delete-le k m)

  -- A write adds an entry, unless one is replaced.
  pub length-insert :
      (k : K) (v : V) (m : List (K × V))
      → length (insert k v m) + weigh (λ _. 1) (lookup k m) ≡ length m + 1
  length-insert k v m =
      omega (arith, total-insert (λ _. 1) k v m, length-total m, length-total (insert k v m))
