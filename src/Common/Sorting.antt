-- ===== src/Common/Sorting.antt =====
-- Stable sorting by a Boolean order, as `slice::sort_by` and ORDER BY do it, and the first elements
-- of a list.
use Prim.Native.Nat.{ℕ, zero, suc, ◌≤◌, min}
use mathlib.Core.Path.{◌≡◌, refl, ap, ◌∙◌}
use mathlib.Core.Logic.{inl, inr}
use mathlib.Core.Bool.{Bool}
use mathlib.Core.List.{List, [], ◌∷◌, ◌++◌, map}
use native.Mathlib.Omega.{arith}
use tmdb_mteam_hub.Common.Tests.{if◌then◌else◌, Bool-cases}
use tmdb_mteam_hub.Common.Lists.{length, Every}

module _ {ℓ} {A : Type ℓ} where
  abbrev pub take : ℕ → List A → List A
  take zero xs = []
  take (suc n) [] = []
  take (suc n) (x ∷ xs) = x ∷ take n xs

  -- In front of the first element that does not come before.
  abbrev pub insert_by : (A → A → Bool) → A → List A → List A
  insert_by before x [] = x ∷ []
  insert_by before x (y ∷ ys) =
      let rest = insert_by before x ys in if before y x then y ∷ rest else x ∷ y ∷ ys

  abbrev pub insert_all : (A → A → Bool) → List A → List A → List A
  insert_all before [] ys = ys
  insert_all before (x ∷ xs) ys = insert_by before x (insert_all before xs ys)

  abbrev pub sort_by : (A → A → Bool) → List A → List A
  sort_by before xs = insert_all before xs []

  abbrev pub concat : List (List A) → List A
  concat [] = []
  concat (xs ∷ xss) = xs ++ concat xss

module _ {A B : Type 0} (before : A → A → Bool) (f : B → A) where
  abbrev by_key : B → B → Bool
  by_key b c = before (f b) (f c)

  map-insert_by :
      (b : B) (bs : List B) → map f (insert_by by_key b bs) ≡ insert_by before (f b) (map f bs)
  map-insert_by b [] = refl
  map-insert_by b (c ∷ bs) = elim (Bool-cases (before (f c) (f b))) [
    | inl h ↦ rw h (ap (λ r. f c ∷ r) (map-insert_by b bs))
    | inr h ↦ rw h refl
  ]

  -- Sorting by a key sorts the keys.
  pub map-sort_by :
      (bs : List B) → map f (sort_by (λ b c. before (f b) (f c)) bs) ≡ sort_by before (map f bs)
  map-sort_by [] = refl
  map-sort_by (b ∷ bs) =
      map-insert_by b (sort_by by_key bs) ∙ ap (insert_by before (f b)) (map-sort_by bs)

module _ {A B : Type 0} (f : B → A) where
  pub map-take : (k : ℕ) (bs : List B) → map f (take k bs) ≡ take k (map f bs)
  map-take zero bs = refl
  map-take (suc k) [] = refl
  map-take (suc k) (b ∷ bs) = ap (λ r. f b ∷ r) (map-take k bs)

pub length-take {ℓ} : {A : Type ℓ} (k : ℕ) (xs : List A) → length (take k xs) ≡ min k (length xs)
length-take zero xs = omega arith
length-take (suc k) [] = omega arith
length-take (suc k) (x ∷ xs) = omega (arith, length-take k xs)

module _ {A : Type 0} where
  pub take-all : (n : ℕ) (xs : List A) → length xs ≤ n → take n xs ≡ xs
  take-all zero [] h = refl
  take-all zero (x ∷ xs) h = absurd (omega arith)
  take-all (suc n) [] h = refl
  take-all (suc n) (x ∷ xs) h = ap (λ r. x ∷ r) (take-all n xs (omega arith))

  pub take-take-suc : (n : ℕ) (xs : List A) → take n (take (suc n) xs) ≡ take n xs
  take-take-suc zero xs = refl
  take-take-suc (suc n) [] = refl
  take-take-suc (suc n) (x ∷ xs) = ap (λ r. x ∷ r) (take-take-suc n xs)

  -- Orders that agree on what is sorted.
  module _ (P : A → Type 0) where
    Every-insert_by :
        (before : A → A → Bool) (x : A) (xs : List A)
        → P x
        → Every P xs
        → Every P (insert_by before x xs)
    Every-insert_by before x [] h k = (h, tt)
    Every-insert_by before x (y ∷ xs) h k = elim (Bool-cases (before y x)) [
      | inl b ↦ rw b (k.0, Every-insert_by before x xs h k.1)
      | inr b ↦ rw b (h, k)
    ]

    pub Every-sort_by :
        (before : A → A → Bool) (xs : List A) → Every P xs → Every P (sort_by before xs)
    Every-sort_by before [] h = tt
    Every-sort_by before (x ∷ xs) h =
        Every-insert_by before x (sort_by before xs) h.0 (Every-sort_by before xs h.1)

    pub Every-take : (n : ℕ) (xs : List A) → Every P xs → Every P (take n xs)
    Every-take zero xs h = tt
    Every-take (suc n) [] h = tt
    Every-take (suc n) (x ∷ xs) h = (h.0, Every-take n xs h.1)

    module _ (first second : A → A → Bool)
        (agree : (a b : A) → P a → P b → first a b ≡ second a b) where
      insert_by_agree :
          (x : A) (xs : List A) → P x → Every P xs → insert_by first x xs ≡ insert_by second x xs
      insert_by_agree x [] h k = refl
      insert_by_agree x (y ∷ xs) h k = rw (agree y x k.0 h, insert_by_agree x xs h k.1) refl

      pub sort_by_agree : (xs : List A) → Every P xs → sort_by first xs ≡ sort_by second xs
      sort_by_agree [] h = refl
      sort_by_agree (x ∷ xs) h =
          insert_by_agree x (sort_by first xs) h.0 (Every-sort_by first xs h.1)
          ∙ ap (insert_by second x) (sort_by_agree xs h.1)
