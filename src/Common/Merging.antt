-- ===== src/Common/Merging.antt =====
-- Merging bounded parts: what is bounded before a merge does not change what is bounded after it.
use Prim.Native.Nat.{ℕ, zero, suc}
use mathlib.Core.Path.{◌≡◌, refl, sym, ap, ◌∙◌}
use mathlib.Core.Logic.{inl, inr}
use mathlib.Core.Bool.{Bool, true, false, ◌&&◌, ◌||◌}
use mathlib.Core.List.{List, [], ◌∷◌, ◌++◌, map}
use native.Mathlib.Omega.{arith}
use tmdb_mteam_hub.Common.Tests.{Bool-cases}
use tmdb_mteam_hub.Common.Lists.{any, retain}
use tmdb_mteam_hub.Common.Sorting.{take, insert_by, insert_all, sort_by, concat}

-- A strict order that is total.
pub record IsOrder {A : Type 0} (before : A → A → Bool) : Type 0 where
  pub asym : (a b : A) → before a b ≡ true → before b a ≡ false
  pub between : (a b c : A) → before a c ≡ true → before a b ≡ false → before b c ≡ true
  pub equal : (a b : A) → before a b ≡ false → before b a ≡ false → a ≡ b

module _ {A : Type 0} (before : A → A → Bool) where
  insert_all-append :
      (xs ys zs : List A)
      → insert_all before (xs ++ ys) zs ≡ insert_all before xs (insert_all before ys zs)
  insert_all-append [] ys zs = refl
  insert_all-append (x ∷ xs) ys zs = ap (insert_by before x) (insert_all-append xs ys zs)

  take-take : (k : ℕ) (xs : List A) → take k (take k xs) ≡ take k xs
  take-take zero xs = refl
  take-take (suc k) [] = refl
  take-take (suc k) (x ∷ xs) = ap (λ r. x ∷ r) (take-take k xs)

  take-cons : (k : ℕ) (x : A) (xs : List A) → take k (x ∷ xs) ≡ take k (x ∷ take k xs)
  take-cons zero x xs = refl
  take-cons (suc zero) x xs = refl
  take-cons (suc (suc k)) x [] = refl
  take-cons (suc (suc k)) x (y ∷ xs) = ap (λ r. x ∷ r) (take-cons (suc k) y xs)

  -- An insertion looks no further than it moves.
  take-insert_by :
      (k : ℕ) (x : A) (zs : List A)
      → take k (insert_by before x zs) ≡ take k (insert_by before x (take k zs))
  take-insert_by zero x zs = refl
  take-insert_by (suc k) x [] = refl
  take-insert_by (suc k) x (z ∷ zs) = elim (Bool-cases (before z x)) [
    | inl h ↦ rw h (ap (λ r. z ∷ r) (take-insert_by k x zs))
    | inr h ↦ rw h (ap (λ r. x ∷ r) (take-cons k z zs))
  ]

  take-insert_all :
      (k : ℕ) (xs zs : List A)
      → take k (insert_all before xs zs) ≡ take k (insert_all before xs (take k zs))
  take-insert_all k [] zs = sym (take-take k zs)
  take-insert_all k (x ∷ xs) zs =
      take-insert_by k x (insert_all before xs zs)
      ∙ ap (λ r. take k (insert_by before x r)) (take-insert_all k xs zs)
      ∙ sym (take-insert_by k x (insert_all before xs (take k zs)))

  -- Sorted: no element comes before its predecessor.
  abbrev Follows : A → List A → Type 0
  Follows x [] = Unit
  Follows x (y ∷ ys) = before y x ≡ false

  abbrev Sorted : List A → Type 0
  Sorted [] = Unit
  Sorted (x ∷ xs) = Follows x xs × Sorted xs

  Follows-take : (k : ℕ) (x : A) (xs : List A) → Follows x xs → Follows x (take k xs)
  Follows-take zero x xs h = tt
  Follows-take (suc k) x [] h = tt
  Follows-take (suc k) x (y ∷ xs) h = h

  Sorted-take : (k : ℕ) (xs : List A) → Sorted xs → Sorted (take k xs)
  Sorted-take zero xs h = tt
  Sorted-take (suc k) [] h = tt
  Sorted-take (suc k) (x ∷ xs) h = (Follows-take k x xs h.0, Sorted-take k xs h.1)

  sort_by-Sorted : (xs : List A) → Sorted xs → sort_by before xs ≡ xs
  sort_by-Sorted [] h = refl
  sort_by-Sorted (x ∷ []) h = refl
  sort_by-Sorted (x ∷ y ∷ xs) h = rw (sort_by-Sorted (y ∷ xs) h.1, h.0) refl

-- Tests of which one element satisfies one at most.
abbrev pub Apart {ℓ} : {B : Type ℓ} → List (B → Bool) → Type ℓ
Apart [] = Unit
Apart {B = B} (p ∷ ps) = ((b : B) → (p b && any (λ q. q b) ps) ≡ false) × Apart ps

retain-none {ℓ} : {A : Type ℓ} (xs : List A) → retain (λ x. false) xs ≡ []
retain-none [] = refl
retain-none (x ∷ xs) = retain-none xs

-- With a total order, the sorted list does not depend on the order of the input.
module _ {A : Type 0} (before : A → A → Bool) (o : IsOrder before) where
  insert_by_comm :
      (x y : A) (zs : List A)
      → insert_by before x (insert_by before y zs) ≡ insert_by before y (insert_by before x zs)
  insert_by_comm x y [] = elim (Bool-cases (before y x)) [
    | inl h ↦ rw (h, o.asym y x h) refl
    | inr h ↦ elim (Bool-cases (before x y)) [
      | inl k ↦ rw (h, k) refl
      | inr k ↦ rw (h, k) (cc (o.equal x y k h))
    ]
  ]
  insert_by_comm x y (z ∷ zs) = ground (
    arith,
    insert_by_comm x y zs,
    o.asym x y,
    o.asym y x,
    o.equal x y,
    o.between z x y,
    o.between z y x,
  )

  insert_by-Follows :
      (x z : A) (zs : List A)
      → before x z ≡ false
      → Follows before z zs
      → Follows before z (insert_by before x zs)
  insert_by-Follows x z [] h k = h
  insert_by-Follows x z (y ∷ zs) h k = elim (Bool-cases (before y x)) [
    | inl b ↦ rw b k
    | inr b ↦ rw b h
  ]

  insert_by-Sorted :
      (x : A) (zs : List A) → Sorted before zs → Sorted before (insert_by before x zs)
  insert_by-Sorted x [] h = (tt, tt)
  insert_by-Sorted x (z ∷ zs) h = elim (Bool-cases (before z x)) [
    | inl b ↦ rw b (insert_by-Follows x z zs (o.asym z x b) h.0, insert_by-Sorted x zs h.1)
    | inr b ↦ rw b (b, h)
  ]

  insert_all-Sorted : (xs zs : List A) → Sorted before zs → Sorted before (insert_all before xs zs)
  insert_all-Sorted [] zs h = h
  insert_all-Sorted (x ∷ xs) zs h =
      insert_by-Sorted x (insert_all before xs zs) (insert_all-Sorted xs zs h)

  insert_all-insert_by :
      (x : A) (xs zs : List A)
      → insert_all before xs (insert_by before x zs) ≡ insert_by before x (insert_all before xs zs)
  insert_all-insert_by x [] zs = refl
  insert_all-insert_by x (y ∷ xs) zs =
      ap (insert_by before y) (insert_all-insert_by x xs zs)
      ∙ insert_by_comm y x (insert_all before xs zs)

  insert_all_comm :
      (xs ys zs : List A)
      → insert_all before xs (insert_all before ys zs)
        ≡ insert_all before ys (insert_all before xs zs)
  insert_all_comm [] ys zs = refl
  insert_all_comm (x ∷ xs) ys zs =
      ap (insert_by before x) (insert_all_comm xs ys zs)
      ∙ sym (insert_all-insert_by x ys (insert_all before xs zs))

  sort_by-take :
      (k : ℕ) (xs : List A)
      → sort_by before (take k (sort_by before xs)) ≡ take k (sort_by before xs)
  sort_by-take k xs = sort_by-Sorted before _ (Sorted-take before k _ (insert_all-Sorted xs [] tt))

  -- Bounded parts, merged and bounded, are the bounded whole.
  pub take-sort_by-concat :
      (k : ℕ) (parts : List (List A))
      → take k (sort_by before (concat (map (λ xs. take k (sort_by before xs)) parts)))
        ≡ take k (sort_by before (concat parts))
  take-sort_by-concat k [] = refl
  take-sort_by-concat k (xs ∷ parts) =
      let cut = take k (sort_by before xs) in
      let bounded = concat (map (λ ys. take k (sort_by before ys)) parts) in
      let whole = concat parts in
      ap (take k) (insert_all-append before cut bounded [] ∙ insert_all_comm cut bounded [])
      ∙ ap (λ r. take k (insert_all before bounded r)) (sort_by-take k xs)
      ∙ sym (take-insert_all before k bounded (sort_by before xs))
      ∙ ap (take k) (insert_all_comm bounded xs [])
      ∙ take-insert_all before k xs (sort_by before bounded)
      ∙ ap (λ r. take k (insert_all before xs r)) (take-sort_by-concat k parts)
      ∙ sym (take-insert_all before k xs (sort_by before whole))
      ∙ ap (take k) (sym (insert_all-append before xs whole []))

  sort_by-append_cong :
      (xs ys zs : List A)
      → sort_by before ys ≡ sort_by before zs
      → sort_by before (xs ++ ys) ≡ sort_by before (xs ++ zs)
  sort_by-append_cong xs ys zs e =
      insert_all-append before xs ys []
      ∙ ap (insert_all before xs) e
      ∙ sym (insert_all-append before xs zs [])

  sort_by-middle :
      (x : A) (xs ys : List A)
      → sort_by before (xs ++ x ∷ ys) ≡ insert_by before x (sort_by before (xs ++ ys))
  sort_by-middle x xs ys =
      insert_all-append before xs (x ∷ ys) []
      ∙ insert_all-insert_by x xs (sort_by before ys)
      ∙ ap (insert_by before x) (sym (insert_all-append before xs ys []))

  module _ {B : Type 0} (f : B → A) where
    sort_by-two :
        (p q : B → Bool) (bs : List B)
        → ((b : B) → (p b && q b) ≡ false)
        → sort_by before (map f (retain p bs) ++ map f (retain q bs))
          ≡ sort_by before (map f (retain (λ b. p b || q b) bs))
    sort_by-two p q [] apart = refl
    sort_by-two p q (b ∷ bs) apart = elim (Bool-cases (p b)) [
      | inl h ↦ elim (Bool-cases (q b)) [
        | inl k ↦ absurd (ground (arith, apart b))
        | inr k ↦ rw (h, k) (ap (insert_by before (f b)) (sort_by-two p q bs apart))
      ]
      | inr h ↦ elim (Bool-cases (q b)) [
        | inl k ↦
            rw (h, k)
              (sort_by-middle (f b) (map f (retain p bs)) (map f (retain q bs))
                ∙ ap (insert_by before (f b)) (sort_by-two p q bs apart))
        | inr k ↦ rw (h, k) (sort_by-two p q bs apart)
      ]
    ]

    -- The parts that such tests select, put together and sorted, are what one of the tests selects.
    pub sort_by-parts :
        (ps : List (B → Bool)) (bs : List B)
        → Apart ps
        → sort_by before (concat (map (λ p. map f (retain p bs)) ps))
          ≡ sort_by before (map f (retain (λ b. any (λ p. p b) ps) bs))
    sort_by-parts [] bs h = ap (λ r. sort_by before (map f r)) (sym (retain-none bs))
    sort_by-parts (p ∷ ps) bs h =
        sort_by-append_cong (map f (retain p bs)) _ _ (sort_by-parts ps bs h.1)
        ∙ sort_by-two p (λ b. any (λ q. q b) ps) bs h.0
