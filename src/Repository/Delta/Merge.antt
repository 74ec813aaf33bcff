-- ===== src/Repository/Delta/Merge.antt =====
-- The merge of artifact updates (src/subscription/repository.rs): the last update of a key wins.
use tmdb_mteam_hub.Common.{
  ◌≡◌, refl, List, [], ◌∷◌, Bool, true, not, ◌&&◌, ◌||◌, if◌then◌else◌, Option, some, Text, text_eq,
  text_eq_iff, find, any, arith,
}
use tmdb_mteam_hub.Repository.Payload.{DownloadArtifact}
use tmdb_mteam_hub.Repository.Delta.{upsert, merge_updates, merge_download_updates}

module _ {A : Type 0} (key : A → Text) where
  -- The last of the updates with the key, or else what was there before.
  abbrev pub latest : Text → List A → Option A → Option A
  latest k [] before = before
  latest k (update ∷ rest) before =
      latest k rest (if text_eq (key update) k then some update else before)

  -- An element of the list has the key.
  abbrev pub has_key : Text → List A → Bool
  has_key k xs = any (λ x. text_eq (key x) k) xs

  -- No two elements have one key.
  abbrev pub distinct_keys : List A → Bool
  distinct_keys [] = true
  distinct_keys (x ∷ xs) = not (has_key (key x) xs) && distinct_keys xs

  find-upsert :
      (k : Text) (update : A) (xs : List A)
      → find (λ x. text_eq (key x) k) (upsert key update xs)
        ≡ (if text_eq (key update) k then some update else find (λ x. text_eq (key x) k) xs)
  unfolding upsert
  find-upsert k update [] = refl
  find-upsert k update (x ∷ xs) = ground (
    arith,
    find-upsert k update xs,
    text_eq_iff (key x) (key update),
    text_eq_iff (key x) k,
    text_eq_iff (key update) k,
  )

  pub find-merge_updates :
      (k : Text) (current updates : List A)
      → find (λ x. text_eq (key x) k) (merge_updates key current updates)
        ≡ latest k updates (find (λ x. text_eq (key x) k) current)
  unfolding merge_updates
  find-merge_updates k current [] = refl
  find-merge_updates k current (update ∷ rest) =
      rw (find-merge_updates k (upsert key update current) rest, find-upsert k update current) refl

  has_key-upsert :
      (k : Text) (update : A) (xs : List A)
      → has_key k (upsert key update xs) ≡ (text_eq (key update) k || has_key k xs)
  unfolding upsert
  has_key-upsert k update [] = refl
  has_key-upsert k update (x ∷ xs) = ground (
    arith,
    has_key-upsert k update xs,
    text_eq_iff (key x) (key update),
    text_eq_iff (key x) k,
    text_eq_iff (key update) k,
  )

  distinct_keys-upsert :
      (update : A) (xs : List A)
      → distinct_keys xs ≡ true
      → distinct_keys (upsert key update xs) ≡ true
  unfolding upsert
  distinct_keys-upsert update [] h = refl
  distinct_keys-upsert update (x ∷ xs) h = ground (
    arith,
    distinct_keys-upsert update xs,
    has_key-upsert (key x) update xs,
    text_eq_iff (key x) (key update),
    text_eq_iff (key update) (key x),
  )

  pub distinct_keys-merge_updates :
      (current updates : List A)
      → distinct_keys current ≡ true
      → distinct_keys (merge_updates key current updates) ≡ true
  unfolding merge_updates
  distinct_keys-merge_updates current [] h = h
  distinct_keys-merge_updates current (update ∷ rest) h =
      distinct_keys-merge_updates (upsert key update current) rest
        (distinct_keys-upsert update current h)

abbrev pub download_key : DownloadArtifact → Text
download_key d = d.idempotency_key

-- A merge of download updates finds, under each idempotency key, the last update with the key, or the
-- current download if there is none; and it keeps keys distinct if those of the current downloads are.
pub merge_download_updates-latest :
    (current updates : List DownloadArtifact) (k : Text)
    → distinct_keys download_key current ≡ true
    → (find (λ d. text_eq d.idempotency_key k) (merge_download_updates current updates)
        ≡ latest download_key k updates (find (λ d. text_eq d.idempotency_key k) current))
      × (distinct_keys download_key (merge_download_updates current updates) ≡ true)
unfolding merge_download_updates
merge_download_updates-latest current updates k h = (
  find-merge_updates download_key k current updates,
  distinct_keys-merge_updates download_key current updates h,
)
