-- ===== src/Listing/Strict.antt =====
-- The listing of distinct keys: in strict order, and what is behind one of its keys.
use tmdb_mteam_hub.Common.{
  Bool, Bool-cases, Every, Every-Among, Every-retain, Every-sort_by, Every-take, Every-weaken, List,
  [], ap, arith, false, if◌then◌else◌, inl, inr, insert_by, map, refl, retain, some, some-injective,
  sort_by, subst, suc, take, true, zero, ℕ, ◌&&◌, ◌∷◌, ◌≡◌, ◌≢◌,
}
use tmdb_mteam_hub.Repository.Listing.{ListCursor}
use tmdb_mteam_hub.Listing.{key_before, last}
use tmdb_mteam_hub.Listing.Order.{key_before-IsOrder}
use tmdb_mteam_hub.Listing.Page.{last-Among}

-- Strictly in order.
abbrev pub Strict : List ListCursor → Type 0
Strict [] = Unit
Strict (k ∷ keys) = Every (λ l. key_before k l ≡ true) keys × Strict keys

pub key_before_irrefl : (k : ListCursor) → key_before k k ≡ false
key_before_irrefl k = elim (Bool-cases (key_before k k)) [
  | inl h ↦ absurd (ground (arith, h, key_before-IsOrder.asym k k h))
  | inr h ↦ h
]

retain-all :
    {A : Type 0} (p : A → Bool) (xs : List A) → Every (λ x. p x ≡ true) xs → retain p xs ≡ xs
retain-all p [] h = refl
retain-all p (x ∷ xs) h = rw h.0 (ap (λ r. x ∷ r) (retain-all p xs h.1))

abbrev pub drop : ℕ → List ListCursor → List ListCursor
drop zero keys = keys
drop (suc n) [] = []
drop (suc n) (k ∷ keys) = drop n keys

-- Behind the last of the first keys are the others.
pub retain-drop :
    (n : ℕ) (keys : List ListCursor) (c : ListCursor)
    → Strict keys
    → last (take n keys) ≡ some c
    → retain (key_before c) keys ≡ drop n keys
retain-drop zero keys c h e = cc
retain-drop (suc n) [] c h e = cc
retain-drop (suc zero) (k ∷ keys) c h e =
    subst (λ x. retain (key_before x) (k ∷ keys) ≡ keys) (some-injective refl e)
      (rw (key_before_irrefl k) (retain-all (key_before k) keys h.0))
retain-drop (suc (suc n)) (k ∷ []) c h e =
    subst (λ x. retain (key_before x) (k ∷ []) ≡ []) (some-injective refl e)
      (rw (key_before_irrefl k) refl)
retain-drop (suc (suc n)) (k ∷ l ∷ keys) c h e =
    let among = last-Among (l ∷ take n keys) c e in
    let after =
      Every-Among (λ m. key_before k m ≡ true) (take (suc n) (l ∷ keys)) c
        (Every-take _ (suc n) (l ∷ keys) h.0) among in
    rw (key_before-IsOrder.asym k c after) (retain-drop (suc n) (l ∷ keys) c h.1 e)

-- The same without an order.
abbrev pub Distinct : List ListCursor → Type 0
Distinct [] = Unit
Distinct (k ∷ keys) = Every (λ l. k ≢ l) keys × Distinct keys

distinct-before : (k l : ListCursor) → k ≢ l → key_before l k ≡ false → key_before k l ≡ true
distinct-before k l other h = elim (Bool-cases (key_before k l)) [
  | inl yes' ↦ yes'
  | inr no' ↦ absurd (other (key_before-IsOrder.equal k l no' h))
]

-- All that follows a key which does not come before `k` comes after `k`.
after-all :
    (k z : ListCursor) (keys : List ListCursor)
    → key_before z k ≡ false
    → Every (λ l. key_before z l ≡ true) keys
    → Every (λ l. key_before k l ≡ true) keys
after-all k z keys h follow =
    Every-weaken _ _ keys (λ l later. key_before-IsOrder.between z k l later h) follow

insert_by-Every :
    (P : ListCursor → Type 0) (k : ListCursor) (keys : List ListCursor)
    → P k
    → Every P keys
    → Every P (insert_by key_before k keys)
insert_by-Every P k [] h hs = (h, tt)
insert_by-Every P k (z ∷ keys) h hs = elim (Bool-cases (key_before z k)) [
  | inl b ↦ rw b (hs.0, insert_by-Every P k keys h hs.1)
  | inr b ↦ rw b (h, hs)
]

insert_by-Strict :
    (k : ListCursor) (keys : List ListCursor)
    → Every (λ l. k ≢ l) keys
    → Strict keys
    → Strict (insert_by key_before k keys)
insert_by-Strict k [] other h = (tt, tt)
insert_by-Strict k (z ∷ keys) other h = elim (Bool-cases (key_before z k)) [
  | inl b ↦ rw b (
    insert_by-Every (λ l. key_before z l ≡ true) k keys b h.0,
    insert_by-Strict k keys other.1 h.1,
  )
  | inr b ↦ rw b ((distinct-before k z other.0 b, after-all k z keys b h.0), h)
]

pub sort_by-Strict : (keys : List ListCursor) → Distinct keys → Strict (sort_by key_before keys)
sort_by-Strict [] h = tt
sort_by-Strict (k ∷ keys) h =
    insert_by-Strict k (sort_by key_before keys) (Every-sort_by _ key_before keys h.0)
      (sort_by-Strict keys h.1)

insert_by-front :
    (k : ListCursor) (keys : List ListCursor)
    → Every (λ l. key_before k l ≡ true) keys
    → insert_by key_before k keys ≡ k ∷ keys
insert_by-front k [] h = refl
insert_by-front k (z ∷ keys) h = rw (key_before-IsOrder.asym k z h.0) refl

-- A filter and the sort commute.
retain-insert_by :
    (p : ListCursor → Bool) (k : ListCursor) (keys : List ListCursor)
    → Every (λ l. k ≢ l) keys
    → Strict keys
    → retain p (insert_by key_before k keys)
      ≡ (if p k then insert_by key_before k (retain p keys) else retain p keys)
retain-insert_by p k [] other h = refl
retain-insert_by p k (z ∷ keys) other h = elim (Bool-cases (key_before z k)) [
  | inl b ↦ ground (arith, b, retain-insert_by p k keys other.1 h.1)
  | inr b ↦
      let front =
        insert_by-front k (retain p (z ∷ keys))
          (Every-retain _ p (z ∷ keys) (distinct-before k z other.0 b, after-all k z keys b h.0)) in
      rw (b, front) refl
]

module _ {A : Type 0} (f : A → ListCursor) (w : A → Bool) (p : ListCursor → Bool) where
  pub retain-sort_by :
      (xs : List A)
      → Distinct (map f (retain w xs))
      → sort_by key_before (map f (retain (λ x. w x && p (f x)) xs))
        ≡ retain p (sort_by key_before (map f (retain w xs)))
  retain-sort_by [] h = refl
  retain-sort_by (x ∷ xs) h =
      let split = λ (b : Bool). Distinct (map f (if b then x ∷ retain w xs else retain w xs)) in
      elim (Bool-cases (w x)) [
        | inr k ↦ rw k (retain-sort_by xs (subst split k h))
        | inl k ↦
            let h' : Distinct (f x ∷ map f (retain w xs)) = subst split k h in
            let keys = map f (retain w xs) in
            let moved =
              retain-insert_by p (f x) (sort_by key_before keys)
                (Every-sort_by _ key_before keys h'.0) (sort_by-Strict keys h'.1) in
            elim (Bool-cases (p (f x))) [
              | inl q ↦ rw (k, moved, q) (ap (insert_by key_before (f x)) (retain-sort_by xs h'.1))
              | inr q ↦ rw (k, moved, q) (retain-sort_by xs h'.1)
            ]
      ]
