-- ===== src/Effects/Reconcile/Tags.antt =====
-- The observations that have a hash or a tag (src/subscription/effects.rs).
use tmdb_mteam_hub.Common.{
  ◌≡◌, refl, inl, inr, List, [], ◌∷◌, Bool, true, false, not, ◌&&◌, ◌||◌, if◌then◌else◌, is_some,
  Text, text_eq, text_eq_iff, any, all, insert_set, IsSorted, insert_set-IsSorted, contains,
  contains-insert_set, arith, Bool-cases,
}
use tmdb_mteam_hub.Effects.Reconcile.{QbTorrentObservation, has_exact_tag, by_hash, tagged_hashes}

-- Some observation has the hash.
abbrev pub observed : Text → List QbTorrentObservation → Bool
observed hash obs = any (λ o. text_eq o.hash hash) obs

-- Some observation with the tag has the hash.
abbrev pub tagged_with : Text → Text → List QbTorrentObservation → Bool
tagged_with tag hash obs = any (λ o. has_exact_tag tag o && text_eq o.hash hash) obs

-- Every observation with the tag has the hash.
abbrev pub only_tagged : Text → Text → List QbTorrentObservation → Bool
only_tagged tag hash obs = all (λ o. not (has_exact_tag tag o) || text_eq o.hash hash) obs

pub contains-tagged_hashes :
    (tag h : Text) (acc : List Text) (obs : List QbTorrentObservation)
    → contains h (tagged_hashes tag acc obs) ≡ (contains h acc || tagged_with tag h obs)
unfolding tagged_hashes
contains-tagged_hashes tag h acc [] = ground arith
contains-tagged_hashes tag h acc (o ∷ obs) = ground (
  arith,
  contains-tagged_hashes tag h (if has_exact_tag tag o then insert_set o.hash acc else acc) obs,
  contains-insert_set h o.hash acc,
  text_eq_iff h o.hash,
  text_eq_iff o.hash h,
)

pub by_hash-observed :
    (h : Text) (obs : List QbTorrentObservation) → is_some (by_hash h obs) ≡ observed h obs
unfolding by_hash
by_hash-observed h [] = refl
by_hash-observed h (o ∷ obs) = ground (arith, by_hash-observed h obs)

pub tagged_with-observed :
    (tag h : Text) (obs : List QbTorrentObservation)
    → tagged_with tag h obs ≡ true
    → observed h obs ≡ true
tagged_with-observed tag h [] e = e
tagged_with-observed tag h (o ∷ obs) e = ground (arith, tagged_with-observed tag h obs)

some_tagged :
    (tag : Text) (obs : List QbTorrentObservation)
    → any (has_exact_tag tag) obs ≡ true
    → (h : Text) × (tagged_with tag h obs ≡ true)
some_tagged tag [] e = ground arith
some_tagged tag (o ∷ obs) e = elim (Bool-cases (has_exact_tag tag o)) [
  | inl here ↦ (o.hash, ground (arith, text_eq_iff o.hash o.hash))
  | inr other ↦ let (h, k) = some_tagged tag obs (ground arith) in (h, ground arith)
]

-- No hash is tagged only if no observation has the tag.
pub none_tagged :
    (tag : Text) (obs : List QbTorrentObservation)
    → ((h : Text) → tagged_with tag h obs ≡ false)
    → any (has_exact_tag tag) obs ≡ false
none_tagged tag obs e = elim (Bool-cases (any (has_exact_tag tag) obs)) [
  | inl found ↦ let (h, k) = some_tagged tag obs found in cc (e h)
  | inr absent ↦ absent
]

pub only_tagged-none :
    (tag h : Text) (obs : List QbTorrentObservation)
    → any (has_exact_tag tag) obs ≡ false
    → only_tagged tag h obs ≡ true
only_tagged-none tag h [] e = refl
only_tagged-none tag h (o ∷ obs) e = ground (arith, only_tagged-none tag h obs)

pub only_tagged-one :
    (tag h : Text) (obs : List QbTorrentObservation)
    → ((g : Text) → tagged_with tag g obs ≡ true → text_eq g h ≡ true)
    → only_tagged tag h obs ≡ true
only_tagged-one tag h [] e = refl
only_tagged-one tag h (o ∷ obs) e = ground (
  arith,
  e o.hash,
  text_eq_iff o.hash o.hash,
  only_tagged-one tag h obs (λ g k. e g (ground arith)),
)

pub tagged_hashes-IsSorted :
    (tag : Text) (acc : List Text) (obs : List QbTorrentObservation)
    → IsSorted acc
    → IsSorted (tagged_hashes tag acc obs)
unfolding tagged_hashes
tagged_hashes-IsSorted tag acc [] h = h
tagged_hashes-IsSorted tag acc (o ∷ obs) h = elim (Bool-cases (has_exact_tag tag o)) [
  | inl e ↦
      rw e
        (tagged_hashes-IsSorted tag (insert_set o.hash acc) obs (insert_set-IsSorted o.hash acc h))
  | inr e ↦ rw e (tagged_hashes-IsSorted tag acc obs h)
]
