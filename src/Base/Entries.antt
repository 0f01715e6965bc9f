-- ===== src/Base/Entries.antt =====
-- The entries of a map, taken out one after the other in any chosen order.
use aesirguard_audit.Base.Eq.{Equality, ◌==◌, beq_refl}
use aesirguard_audit.Base.Lists.{All, keep}
use aesirguard_audit.Base.Maps.{lookup, delete, Distinct, lookup-delete, delete-absent}
use aesirguard_audit.Base.Sort.{insert_by, sort_by}
use Prim.Native.Nat.{ℕ}
use mathlib.Core.Path.{◌≡◌, refl}
use mathlib.Core.Bool.{Bool, false}
use mathlib.Core.Option.{none, some}
use mathlib.Core.List.{List, [], ◌∷◌}
use native.Mathlib.Omega.{arith}

module _ {ℓ} {K : Type ℓ} {V : Type ℓ} ⦃e : Equality K⦄ where
  abbrev pub AreIn : List (K × V) → List (K × V) → Type ℓ
  AreIn es m = All (λ (x : K × V). lookup x.0 m ≡ some x.1) es

  -- Each entry is there when its turn comes to be deleted.
  abbrev pub IsListed : List (K × V) → List (K × V) → Type ℓ
  IsListed [] m = Unit
  IsListed ((k, v) ∷ es) m = (lookup k m ≡ some v) × IsListed es (delete k m)

  AreIn-cons :
      (k : K) (v : V) (es m : List (K × V))
      → lookup k es ≡ none
      → AreIn es m
      → AreIn es ((k, v) ∷ m)
  unfolding lookup
  AreIn-cons k v [] m h a = tt
  AreIn-cons k v ((i, w) ∷ es) m h a =
      ground (arith, e.beq_iff i k, e.beq_iff k i, AreIn-cons k v es m)

  AreIn-delete :
      (k : K) (es m : List (K × V)) → lookup k es ≡ none → AreIn es m → AreIn es (delete k m)
  unfolding lookup
  AreIn-delete k [] m h a = tt
  AreIn-delete k ((i, w) ∷ es) m h a =
      ground (arith, e.beq_iff i k, e.beq_iff k i, lookup-delete k i m, AreIn-delete k es m)

  pub AreIn-self : (m : List (K × V)) → Distinct m → AreIn m m
  AreIn-self [] d = tt
  AreIn-self ((k, v) ∷ m) d =
      (unfold lookup in rw (beq_refl k), AreIn-cons k v m m d.0 (AreIn-self m d.1))

  pub AreIn-IsListed : (es m : List (K × V)) → Distinct es → AreIn es m → IsListed es m
  AreIn-IsListed [] m d a = tt
  AreIn-IsListed ((k, v) ∷ es) m d a =
      (a.0, AreIn-IsListed es (delete k m) d.1 (AreIn-delete k es m d.0 a.1))

  lookup-keep :
      (p : K × V → Bool) (k : K) (m : List (K × V)) → lookup k m ≡ none → lookup k (keep p m) ≡ none
  unfolding lookup keep
  lookup-keep p k [] h = refl
  lookup-keep p k ((i, w) ∷ m) h = ground (arith, lookup-keep p k m)

  Distinct-keep : (p : K × V → Bool) (m : List (K × V)) → Distinct m → Distinct (keep p m)
  unfolding keep
  Distinct-keep p [] d = tt
  Distinct-keep p ((i, w) ∷ m) d = ground (arith, lookup-keep p i m, Distinct-keep p m d.1)

  AreIn-keep : (p : K × V → Bool) (es m : List (K × V)) → AreIn es m → AreIn (keep p es) m
  unfolding keep
  AreIn-keep p [] m a = tt
  AreIn-keep p ((i, w) ∷ es) m a = ground (arith, AreIn-keep p es m)

  module _ (f : K × V → ℕ) where
    lookup-insert_by :
        (k i : K) (w : V) (m : List (K × V))
        → (i == k) ≡ false
        → lookup k m ≡ none
        → lookup k (insert_by f (i, w) m) ≡ none
    unfolding lookup insert_by
    lookup-insert_by k i w [] n h = ground arith
    lookup-insert_by k i w ((j, u) ∷ m) n h = ground (arith, lookup-insert_by k i w m n)

    Distinct-insert_by :
        (i : K) (w : V) (m : List (K × V))
        → lookup i m ≡ none
        → Distinct m
        → Distinct (insert_by f (i, w) m)
    unfolding lookup insert_by
    Distinct-insert_by i w [] h d = (refl, tt)
    Distinct-insert_by i w ((j, u) ∷ m) h d =
        ground
          (arith, e.beq_iff i j, e.beq_iff j i, lookup-insert_by j i w m, Distinct-insert_by i w m)

    lookup-sort_by : (k : K) (m : List (K × V)) → lookup k m ≡ none → lookup k (sort_by f m) ≡ none
    unfolding lookup sort_by
    lookup-sort_by k [] h = refl
    lookup-sort_by k ((i, w) ∷ m) h =
        lookup-insert_by k i w (sort_by f m) (ground arith) (lookup-sort_by k m (ground arith))

    Distinct-sort_by : (m : List (K × V)) → Distinct m → Distinct (sort_by f m)
    unfolding sort_by
    Distinct-sort_by [] d = tt
    Distinct-sort_by ((i, w) ∷ m) d =
        Distinct-insert_by i w (sort_by f m) (lookup-sort_by i m d.0) (Distinct-sort_by m d.1)

    AreIn-insert_by :
        (x : K × V) (es m : List (K × V))
        → lookup x.0 m ≡ some x.1
        → AreIn es m
        → AreIn (insert_by f x es) m
    unfolding insert_by
    AreIn-insert_by x [] m h a = (h, tt)
    AreIn-insert_by x (y ∷ es) m h a = ground (arith, AreIn-insert_by x es m h)

    AreIn-sort_by : (es m : List (K × V)) → AreIn es m → AreIn (sort_by f es) m
    unfolding sort_by
    AreIn-sort_by [] m a = tt
    AreIn-sort_by (x ∷ es) m a = AreIn-insert_by x (sort_by f es) m a.0 (AreIn-sort_by es m a.1)

    -- A sorted selection of a map's entries can be deleted one by one.
    pub sort_by-IsListed :
        (p : K × V → Bool) (m : List (K × V)) → Distinct m → IsListed (sort_by f (keep p m)) m
    sort_by-IsListed p m d =
        AreIn-IsListed (sort_by f (keep p m)) m (Distinct-sort_by (keep p m) (Distinct-keep p m d))
          (AreIn-sort_by (keep p m) m (AreIn-keep p m m (AreIn-self m d)))

  -- All entries of a list taken out.
  abbrev pub delete_all : List (K × V) → List (K × V) → List (K × V)
  delete_all [] m = m
  delete_all ((k, v) ∷ es) m = delete_all es (delete k m)

  delete_all-nil : (es : List (K × V)) → delete_all es [] ≡ []
  unfolding delete
  delete_all-nil [] = refl
  delete_all-nil (x ∷ es) = delete_all-nil es

  pub delete-head :
      (k : K) (v : V) (m : List (K × V)) → lookup k m ≡ none → delete k ((k, v) ∷ m) ≡ m
  unfolding delete
  delete-head k v m h = rw (beq_refl k) (delete-absent k m h)

  pub delete_all_self : (m : List (K × V)) → Distinct m → delete_all m m ≡ []
  delete_all_self [] d = refl
  delete_all_self ((k, v) ∷ m) d = rw (delete-head k v m d.0) (delete_all_self m d.1)

  pub self-IsListed : (m : List (K × V)) → Distinct m → IsListed m m
  self-IsListed m d = AreIn-IsListed m m d (AreIn-self m d)
