-- ===== src/Common/Lists.antt =====
-- Lists measured by native numbers, under the library's names, and Boolean searches.
use Prim.Native.Nat.{ℕ, suc, ◌+◌}
use mathlib.Core.Path.{◌≡◌, refl, ap, subst}
use mathlib.Core.Logic.{◌⊎◌, inl, inr}
use mathlib.Core.Bool.{Bool, true, false, ◌&&◌, ◌||◌}
use mathlib.Core.List.{List, [], ◌∷◌, ◌++◌, map}
use mathlib.Core.Option.{Option, none, some}
use native.Mathlib.Omega.{arith}
use tmdb_mteam_hub.Common.Tests.{Bool-cases, if◌then◌else◌}

module _ {ℓ} {A : Type ℓ} where
  abbrev pub length : List A → ℕ
  length [] = 0
  length (x ∷ xs) = suc (length xs)

  abbrev pub any : (A → Bool) → List A → Bool
  any p [] = false
  any p (x ∷ xs) = p x || any p xs

  abbrev pub all : (A → Bool) → List A → Bool
  all p [] = true
  all p (x ∷ xs) = p x && all p xs

  -- `Iterator::filter`, by a Boolean test.
  abbrev pub retain : (A → Bool) → List A → List A
  retain p [] = []
  retain p (x ∷ xs) = let rest = retain p xs in if p x then x ∷ rest else rest

  abbrev pub find : (A → Bool) → List A → Option A
  find p [] = none
  find p (x ∷ xs) = let rest = find p xs in if p x then some x else rest

  -- Every element satisfies a predicate.
  abbrev pub Every {κ} : (A → Type κ) → List A → Type κ
  Every P [] = Unit
  Every P (x ∷ xs) = P x × Every P xs

  pub length-append : (xs ys : List A) → length (xs ++ ys) ≡ length xs + length ys
  length-append [] ys = omega arith
  length-append (x ∷ xs) ys = omega (arith, length-append xs ys)

-- Membership, with the place where the element stands.
abbrev pub Among : {A : Type 0} → A → List A → Type 0
Among a [] = ⊥
Among a (x ∷ xs) = (x ≡ a) ⊎ Among a xs

pub find-Among :
    {A : Type 0} (p : A → Bool) (xs : List A) (a : A)
    → find p xs ≡ some a
    → Among a xs × (p a ≡ true)
find-Among p [] a h = ground arith
find-Among p (x ∷ xs) a h = ground (arith, find-Among p xs a)

-- Lists with fronts of one length split in one way.
pub append-injective :
    {A : Type 0} (a b x y : List A) → length a ≡ length b → a ++ x ≡ b ++ y → (a ≡ b) × (x ≡ y)
append-injective [] [] x y l e = (refl, e)
append-injective [] (d ∷ b) x y l e = absurd (omega arith)
append-injective (c ∷ a) [] x y l e = absurd (omega arith)
append-injective (c ∷ a) (d ∷ b) x y l e = ground (arith, append-injective a b x y)

pub append-cancel : {A : Type 0} (a x y : List A) → a ++ x ≡ a ++ y → x ≡ y
append-cancel a x y e = (append-injective a a x y refl e).1

pub Every-append :
    {A : Type 0} (P : A → Type 0) (xs ys : List A) → Every P xs → Every P ys → Every P (xs ++ ys)
Every-append P [] ys h k = k
Every-append P (x ∷ xs) ys h k = (h.0, Every-append P xs ys h.1 k)

module _ {A : Type 0} (P : A → Type 0) where
  pub Every-retain : (p : A → Bool) (xs : List A) → Every P xs → Every P (retain p xs)
  Every-retain p [] h = tt
  Every-retain p (x ∷ xs) h = elim (Bool-cases (p x)) [
    | inl k ↦ rw k (h.0, Every-retain p xs h.1)
    | inr k ↦ rw k (Every-retain p xs h.1)
  ]

  pub Every-of_Among : (xs : List A) → ((x : A) → Among x xs → P x) → Every P xs
  Every-of_Among [] h = tt
  Every-of_Among (x ∷ xs) h = (h x (inl refl), Every-of_Among xs (λ y k. h y (inr k)))

  pub Every-Among : (xs : List A) (x : A) → Every P xs → Among x xs → P x
  Every-Among [] x h k = absurd k
  Every-Among (y ∷ xs) x h (inl e) = subst P e h.0
  Every-Among (y ∷ xs) x h (inr k) = Every-Among xs x h.1 k

pub retain-Every : {A : Type 0} (p : A → Bool) (xs : List A) → Every (λ x. p x ≡ true) (retain p xs)
retain-Every p [] = tt
retain-Every p (x ∷ xs) = elim (Bool-cases (p x)) [
  | inl k ↦ rw k (k, retain-Every p xs)
  | inr k ↦ rw k (retain-Every p xs)
]

pub retain_cong {ℓ} :
    {A : Type ℓ} (p q : A → Bool) (xs : List A) → ((x : A) → p x ≡ q x) → retain p xs ≡ retain q xs
retain_cong p q [] h = refl
retain_cong p q (x ∷ xs) h = rw (h x, retain_cong p q xs h) refl

pub any-map :
    {A B : Type 0} (p : B → Bool) (f : A → B) (xs : List A)
    → any p (map f xs) ≡ any (λ x. p (f x)) xs
any-map p f [] = refl
any-map p f (x ∷ xs) = ap (λ r. p (f x) || r) (any-map p f xs)

pub map-map :
    {A B C : Type 0} (g : B → C) (f : A → B) (xs : List A)
    → map g (map f xs) ≡ map (λ x. g (f x)) xs
map-map g f [] = refl
map-map g f (x ∷ xs) = ap (λ r. g (f x) ∷ r) (map-map g f xs)

pub length-map : {A B : Type 0} (f : A → B) (xs : List A) → length (map f xs) ≡ length xs
length-map f [] = refl
length-map f (x ∷ xs) = omega (arith, length-map f xs)

pub map-append :
    {A B : Type 0} (f : A → B) (xs ys : List A) → map f (xs ++ ys) ≡ map f xs ++ map f ys
map-append f [] ys = refl
map-append f (x ∷ xs) ys = ap (λ r. f x ∷ r) (map-append f xs ys)

pub Every-map :
    {A B : Type 0} (P : B → Type 0) (f : A → B) (xs : List A)
    → Every (λ x. P (f x)) xs
    → Every P (map f xs)
Every-map P f [] h = tt
Every-map P f (x ∷ xs) h = (h.0, Every-map P f xs h.1)

pub Every-weaken :
    {A : Type 0} (P Q : A → Type 0) (xs : List A) → ((x : A) → P x → Q x) → Every P xs → Every Q xs
Every-weaken P Q [] f h = tt
Every-weaken P Q (x ∷ xs) f h = (f x h.0, Every-weaken P Q xs f h.1)
