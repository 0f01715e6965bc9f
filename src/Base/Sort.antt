-- ===== src/Base/Sort.antt =====
-- `sort.SliceStable` by a number: insertion sort, which is stable.
use aesirguard_audit.Base.Lists.{sum_by, All, length}
use aesirguard_audit.Base.Tests.{leb, if◌then◌else◌, Bool-cases}
use Prim.Native.Nat.{ℕ, ◌+◌, ◌≤◌}
use mathlib.Core.Logic.{inl, inr}
use mathlib.Core.Path.{◌≡◌, refl}
use mathlib.Core.List.{List, [], ◌∷◌}
use native.Mathlib.Omega.{arith}

-- Any two elements, the earlier one first.
abbrev pub Pairs {ℓ} : {A : Type ℓ} → (A → A → Type 0) → List A → Type 0
Pairs R [] = Unit
Pairs R (x ∷ xs) = All (R x) xs × Pairs R xs

module _ {ℓ} {A : Type ℓ} (f : A → ℕ) where
  unfoldable pub insert_by : A → List A → List A
  insert_by x [] = x ∷ []
  insert_by x (y ∷ ys) = if leb (f x) (f y) then x ∷ y ∷ ys else y ∷ insert_by x ys

  unfoldable pub sort_by : List A → List A
  sort_by [] = []
  sort_by (x ∷ xs) = insert_by x (sort_by xs)

  -- Each element is at most the next one.
  abbrev pub IsSorted : List A → Type 0
  IsSorted [] = Unit
  IsSorted (x ∷ xs) = All (λ y. f x ≤ f y) xs × IsSorted xs

  insert_by-sum : (w : A → ℕ) (x : A) (xs : List A) → sum_by w (insert_by x xs) ≡ w x + sum_by w xs
  unfolding insert_by
  insert_by-sum w x [] = refl
  insert_by-sum w x (y ∷ ys) = ground (arith, insert_by-sum w x ys)

  pub sort_by-sum : (w : A → ℕ) (xs : List A) → sum_by w (sort_by xs) ≡ sum_by w xs
  unfolding sort_by
  sort_by-sum w [] = refl
  sort_by-sum w (x ∷ xs) = omega (arith, insert_by-sum w x (sort_by xs), sort_by-sum w xs)

  All-insert_by : (P : A → Type 0) (x : A) (xs : List A) → P x → All P xs → All P (insert_by x xs)
  unfolding insert_by
  All-insert_by P x [] p a = (p, tt)
  All-insert_by P x (y ∷ ys) p a = ground (arith, All-insert_by P x ys p a.1)

  All-later_by : (m n : ℕ) (xs : List A) → m ≤ n → All (λ y. n ≤ f y) xs → All (λ y. m ≤ f y) xs
  All-later_by m n [] h a = tt
  All-later_by m n (x ∷ xs) h a = (omega (arith, h, a.0), All-later_by m n xs h a.1)

  insert_by-IsSorted : (x : A) (xs : List A) → IsSorted xs → IsSorted (insert_by x xs)
  unfolding insert_by
  insert_by-IsSorted x [] s = (tt, tt)
  insert_by-IsSorted x (y ∷ ys) s = elim (Bool-cases (leb (f x) (f y))) [
    | inl here ↦ rw here (((ground arith, All-later_by (f x) (f y) ys (ground arith) s.0), s))
    | inr later ↦
        rw later
          ((All-insert_by (λ z. f y ≤ f z) x ys (ground arith) s.0, insert_by-IsSorted x ys s.1))
  ]

  pub sort_by-IsSorted : (xs : List A) → IsSorted (sort_by xs)
  unfolding sort_by
  sort_by-IsSorted [] = tt
  sort_by-IsSorted (x ∷ xs) = insert_by-IsSorted x (sort_by xs) (sort_by-IsSorted xs)

  insert_by-length : (x : A) (xs : List A) → length (insert_by x xs) ≡ length xs + 1
  unfolding insert_by
  insert_by-length x [] = omega arith
  insert_by-length x (y ∷ ys) = ground (arith, insert_by-length x ys)

  pub sort_by-length : (xs : List A) → length (sort_by xs) ≡ length xs
  unfolding sort_by
  sort_by-length [] = refl
  sort_by-length (x ∷ xs) = omega (arith, insert_by-length x (sort_by xs), sort_by-length xs)

  pub sort_by-All : (P : A → Type 0) (xs : List A) → All P xs → All P (sort_by xs)
  unfolding sort_by
  sort_by-All P [] h = tt
  sort_by-All P (x ∷ xs) h = All-insert_by P x (sort_by xs) h.0 (sort_by-All P xs h.1)

  All-symmetric :
      (R : A → A → Type 0) (x : A) (xs : List A)
      → ((y z : A) → R y z → R z y)
      → All (R x) xs
      → All (λ y. R y x) xs
  All-symmetric R x [] s h = tt
  All-symmetric R x (y ∷ ys) s h = (s x y h.0, All-symmetric R x ys s h.1)

  insert_by-Pairs :
      (R : A → A → Type 0) (x : A) (xs : List A)
      → ((y z : A) → R y z → R z y)
      → All (R x) xs
      → Pairs R xs
      → Pairs R (insert_by x xs)
  unfolding insert_by
  insert_by-Pairs R x [] s h p = (tt, tt)
  insert_by-Pairs R x (y ∷ ys) s h p = elim (Bool-cases (leb (f x) (f y))) [
    | inl here ↦ rw here ((h, p))
    | inr later ↦
        rw later ((All-insert_by (R y) x ys (s x y h.0) p.0, insert_by-Pairs R x ys s h.1 p.1))
  ]

  pub sort_by-Pairs :
      (R : A → A → Type 0) (xs : List A)
      → ((y z : A) → R y z → R z y)
      → Pairs R xs
      → Pairs R (sort_by xs)
  unfolding sort_by
  sort_by-Pairs R [] s p = tt
  sort_by-Pairs R (x ∷ xs) s p =
      insert_by-Pairs R x (sort_by xs) s (sort_by-All (R x) xs p.0) (sort_by-Pairs R xs s p.1)
