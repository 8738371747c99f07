-- ===== src/Base/Sort.antt =====
-- `sorted(xs, key=key, reverse=True)`: a stable sort by falling key.
use dbmanager.Base.Tests.{if◌then◌else◌, leb, Bool-cases}
use mathlib.Core.Logic.{inl, inr}
use dbmanager.Base.Lists.{drop, take, count, All, All-drop}
use Prim.Native.Nat.{ℕ, zero, suc, ◌≤◌}
use mathlib.Core.Path.{◌≡◌, refl}
use mathlib.Core.Bool.{Bool}
use mathlib.Core.List.{List, [], ◌∷◌}
use native.Mathlib.Omega.{arith}

module _ {ℓ} {A : Type ℓ} (key : A → ℕ) where
  -- Equal keys keep their order: an element goes before the later ones that have its key.
  unfoldable pub insert_desc : A → List A → List A
  insert_desc x [] = x ∷ []
  insert_desc x (y ∷ ys) =
      let rest = insert_desc x ys in if leb (key y) (key x) then x ∷ y ∷ ys else y ∷ rest

  unfoldable pub sort_desc : List A → List A
  unfolding insert_desc
  sort_desc [] = []
  sort_desc (x ∷ xs) = insert_desc x (sort_desc xs)

  abbrev pub IsSorted : List A → Type 0
  IsSorted [] = Unit
  IsSorted (x ∷ xs) = All (λ y. key y ≤ key x) xs × IsSorted xs

  All-insert :
      (n : ℕ) (x : A) (ys : List A)
      → key x ≤ n
      → All (λ y. key y ≤ n) ys
      → All (λ y. key y ≤ n) (insert_desc x ys)
  unfolding insert_desc
  All-insert n x [] h k = (h, tt)
  All-insert n x (y ∷ ys) h k = ground (arith, All-insert n x ys h k.1)

  All-weaken : (m n : ℕ) (ys : List A) → m ≤ n → All (λ y. key y ≤ m) ys → All (λ y. key y ≤ n) ys
  All-weaken m n [] h k = tt
  All-weaken m n (y ∷ ys) h k = (omega arith, All-weaken m n ys h k.1)

  insert-IsSorted : (x : A) (ys : List A) → IsSorted ys → IsSorted (insert_desc x ys)
  unfolding insert_desc
  insert-IsSorted x [] h = (tt, tt)
  insert-IsSorted x (y ∷ ys) h =
      ground
        (arith, insert-IsSorted x ys h.1, All-weaken (key y) (key x) ys, All-insert (key y) x ys)

  pub sort-IsSorted : (xs : List A) → IsSorted (sort_desc xs)
  unfolding sort_desc
  sort-IsSorted [] = tt
  sort-IsSorted (x ∷ xs) = insert-IsSorted x (sort_desc xs) (sort-IsSorted xs)

  count-insert :
      (p : A → Bool) (x : A) (ys : List A) → count p (insert_desc x ys) ≡ count p (x ∷ ys)
  unfolding insert_desc
  count-insert p x [] = refl
  count-insert p x (y ∷ ys) = ground (arith, count-insert p x ys)

  -- The sorted list has every element as often as the list.
  pub count-sort : (p : A → Bool) (xs : List A) → count p (sort_desc xs) ≡ count p xs
  unfolding sort_desc
  count-sort p [] = refl
  count-sort p (x ∷ xs) = ground (arith, count-insert p x (sort_desc xs), count-sort p xs)

  All-insert_desc :
      (P : A → Type 0) (x : A) (ys : List A) → P x → All P ys → All P (insert_desc x ys)
  unfolding insert_desc
  All-insert_desc P x [] h k = (h, tt)
  All-insert_desc P x (y ∷ ys) h k = elim (Bool-cases (leb (key y) (key x))) [
    | inl e ↦ rw e (h, k)
    | inr e ↦ rw e (k.0, All-insert_desc P x ys h k.1)
  ]

  pub All-sort : (P : A → Type 0) (xs : List A) → All P xs → All P (sort_desc xs)
  unfolding sort_desc
  All-sort P [] h = tt
  All-sort P (x ∷ xs) h = All-insert_desc P x (sort_desc xs) h.0 (All-sort P xs h.1)

  -- In a sorted list no element after the first `n` has a greater key than one of these.
  pub drop-le-take :
      (n : ℕ) (xs : List A)
      → IsSorted xs
      → All (λ x. All (λ y. key y ≤ key x) (drop n xs)) (take n xs)
  drop-le-take zero xs h = tt
  drop-le-take (suc n) [] h = tt
  drop-le-take (suc n) (x ∷ xs) h = (All-drop (λ y. key y ≤ key x) n xs h.0, drop-le-take n xs h.1)
