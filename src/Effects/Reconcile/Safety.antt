-- ===== src/Effects/Reconcile/Safety.antt =====
-- What a reconciliation decision says of the observations that it was made from.
use tmdb_mteam_hub.Common.{
  ℕ, ◌≡◌, refl, sym, List, [], ◌∷◌, Bool, true, false, not, ◌||◌, if◌then◌else◌, Option, none, some,
  is_some, Text, text_eq, text_eq_iff, any, IsSorted, IsSorted-ne, contains, Among, find-Among,
  arith,
}
use tmdb_mteam_hub.Common.{ok, >>=-eq-ok, ok-injective, subst}
use tmdb_mteam_hub.Effects.Identity.{effect_key_try_new, qb_add_torrent}
use tmdb_mteam_hub.Effects.Reconcile.{
  agreed_hash, normalized_qb_hash, request_try_new, QbReconcileRequest, QbTorrentObservation,
  QbReconciledBy, QbReconciliationDecision, add, use_existing, conflict, duplicate_stable_tag,
  hash_and_tag_disagree, has_exact_tag, by_hash, tagged_hashes, reconcile_by_hash, reconcile_tagged,
  reconcile_qb_torrent, QbHashSource, use_or_add, use_tagged, stored_artifact, selected_torrent,
  stored_hash, selected_torrent_hash, hash_and_stable_tag,
}
use tmdb_mteam_hub.Effects.Reconcile.Tags.{
  observed, tagged_with, only_tagged, contains-tagged_hashes, by_hash-observed,
  tagged_with-observed, none_tagged, only_tagged-none, only_tagged-one, tagged_hashes-IsSorted,
}

-- The torrent has the hash that the request names, if it names one.
abbrev pub agrees : Option Text → Text → Bool
agrees none hash = true
agrees (some authoritative) hash = text_eq hash authoritative

-- No observation has the hash that the request names.
abbrev pub unobserved : Option Text → List QbTorrentObservation → Bool
unobserved none obs = true
unobserved (some authoritative) obs = not (observed authoritative obs)

-- What each decision says of the observations, for the stable tag and the hash of a request.
abbrev pub Describes :
    Text → Option Text → List QbTorrentObservation → Option QbReconciliationDecision → Type 0
Describes tag hash obs none = ⊥
Describes tag hash obs (some add) =
    (any (has_exact_tag tag) obs ≡ false) × (unobserved hash obs ≡ true)
Describes tag hash obs (some (use_existing torrent by)) =
    Among torrent obs
    × (agrees hash torrent.hash ≡ true)
    × (only_tagged tag torrent.hash obs ≡ true)
    × ((is_some hash || tagged_with tag torrent.hash obs) ≡ true)
Describes tag hash obs (some (conflict (duplicate_stable_tag (a ∷ b ∷ rest)))) =
    (text_eq a b ≡ false) × (tagged_with tag a obs ≡ true) × (tagged_with tag b obs ≡ true)
Describes tag hash obs (some (conflict (duplicate_stable_tag hashes))) = ⊥
Describes tag hash obs (some (conflict (hash_and_tag_disagree authoritative tagged))) =
    (hash ≡ some authoritative)
    × (text_eq tagged authoritative ≡ false)
    × (tagged_with tag tagged obs ≡ true)

by_hash-Among :
    (h : Text) (obs : List QbTorrentObservation) (o : QbTorrentObservation)
    → by_hash h obs ≡ some o
    → Among o obs × (text_eq o.hash h ≡ true)
unfolding by_hash
by_hash-Among h obs o e = find-Among (λ o. text_eq o.hash h) obs o e

module _ (tag : Text) (obs : List QbTorrentObservation) where
  abbrev Holds : List Text → Type 0
  Holds tags = (h : Text) → contains h tags ≡ tagged_with tag h obs

  untagged : Holds [] → any (has_exact_tag tag) obs ≡ false
  untagged e = none_tagged tag obs (λ h. ground (arith, e h))

  one_tagged : (t h : Text) → Holds (t ∷ []) → text_eq h t ≡ true → only_tagged tag h obs ≡ true
  one_tagged t h e k =
      only_tagged-one tag h obs
        (λ g p. ground (arith, e g, text_eq_iff g t, text_eq_iff h t, text_eq_iff g h))

  is_tagged : (t : Text) → Holds (t ∷ []) → tagged_with tag t obs ≡ true
  is_tagged t e = ground (arith, e t, text_eq_iff t t)

  -- The lookup's answer, when the tag allows the hash.
  use_or_add-Describes :
      (h : Text) (by : QbReconciledBy) (found : Option QbTorrentObservation)
      → by_hash h obs ≡ found
      → only_tagged tag h obs ≡ true
      → (found ≡ none → any (has_exact_tag tag) obs ≡ false)
      → Describes tag (some h) obs (use_or_add (some by) found)
  unfolding use_or_add
  use_or_add-Describes h by none e o u = (u refl, ground (arith, by_hash-observed h obs))
  use_or_add-Describes h by (some t) e o u = (
    (by_hash-Among h obs t e).0,
    (by_hash-Among h obs t e).1,
    cc ((text_eq_iff t.hash h).0 (by_hash-Among h obs t e).1),
    refl,
  )

  hash-untagged :
      (h : Text) (source : Option QbHashSource)
      → is_some source ≡ true
      → Holds []
      → Describes tag (some h) obs (reconcile_by_hash source h none obs)
  unfolding reconcile_by_hash
  hash-untagged h none s e = cc
  hash-untagged h (some stored_artifact) s e =
      use_or_add-Describes h stored_hash _ refl (only_tagged-none tag h obs (untagged e))
        (λ _. untagged e)
  hash-untagged h (some selected_torrent) s e =
      use_or_add-Describes h selected_torrent_hash _ refl (only_tagged-none tag h obs (untagged e))
        (λ _. untagged e)

  -- A tagged hash was observed.
  tagged_is_observed : (t : Text) → Holds (t ∷ []) → by_hash t obs ≡ none → ⊥
  tagged_is_observed t e absent =
      ground (arith, by_hash-observed t obs, tagged_with-observed tag t obs (is_tagged t e))

  hash-tagged :
      (h t : Text) (source : Option QbHashSource)
      → Holds (t ∷ [])
      → Describes tag (some h) obs (reconcile_by_hash source h (some t) obs)
  unfolding reconcile_by_hash
  hash-tagged h t source e = go (text_eq t h) refl
    where
      go :
          (b : Bool)
          → text_eq t h ≡ b
          → Describes tag (some h) obs (
              if not b
              then some (conflict (hash_and_tag_disagree h t))
              else use_or_add (some hash_and_stable_tag) (by_hash h obs))
      go true k =
          use_or_add-Describes h hash_and_stable_tag _ refl
            (one_tagged t h e (ground (arith, text_eq_iff t h, text_eq_iff h t)))
            (λ absent. absurd (tagged_is_observed t e (rw ((text_eq_iff t h).0 k) absent)))
      go false k = (refl, k, is_tagged t e)

  use_tagged-Describes :
      (t : Text) (found : Option QbTorrentObservation)
      → Holds (t ∷ [])
      → by_hash t obs ≡ found
      → Describes tag none obs (use_tagged found)
  unfolding use_tagged
  use_tagged-Describes t none e absent = tagged_is_observed t e absent
  use_tagged-Describes t (some o) e found =
      let at = by_hash-Among t obs o found in
      let eq = (text_eq_iff o.hash t).0 at.1 in
      (at.0, refl, one_tagged t o.hash e at.1, cc (eq, is_tagged t e))

  reconcile_tagged-Describes :
      (hash : Option Text) (source : Option QbHashSource) (tags : List Text)
      → is_some hash ≡ is_some source
      → IsSorted tags
      → Holds tags
      → Describes tag hash obs (reconcile_tagged hash source tags obs)
  unfolding reconcile_tagged
  reconcile_tagged-Describes hash source (a ∷ b ∷ rest) s o e = (
    IsSorted-ne a b rest o,
    ground (arith, e a, text_eq_iff a a),
    ground (arith, e b, text_eq_iff b b),
  )
  reconcile_tagged-Describes (some h) source (t ∷ []) s o e = hash-tagged h t source e
  reconcile_tagged-Describes (some h) source [] s o e = hash-untagged h source (sym s) e
  reconcile_tagged-Describes none source (t ∷ []) s o e = use_tagged-Describes t _ e refl
  reconcile_tagged-Describes none source [] s o e = (untagged e, refl)

-- The decision on a request whose hash, if there is one, has a source.
pub reconcile-Describes :
    (r : QbReconcileRequest) (obs : List QbTorrentObservation)
    → is_some r.authoritative_hash ≡ is_some r.hash_source
    → Describes r.idempotency_key r.authoritative_hash obs (reconcile_qb_torrent r obs)
unfolding reconcile_qb_torrent
reconcile-Describes r obs s =
    reconcile_tagged-Describes r.idempotency_key obs r.authoritative_hash r.hash_source
      (tagged_hashes r.idempotency_key [] obs) s
      (tagged_hashes-IsSorted r.idempotency_key [] obs tt)
      (λ h. contains-tagged_hashes r.idempotency_key h [] obs)

agreed_hash-sourced :
    (stored selected : Option Text) (c : Option Text × Option QbHashSource)
    → agreed_hash stored selected ≡ ok c
    → is_some c.0 ≡ is_some c.1
unfolding agreed_hash
agreed_hash-sourced none none c h = ground arith
agreed_hash-sourced none (some b) c h = ground arith
agreed_hash-sourced (some a) none c h = ground arith
agreed_hash-sourced (some a) (some b) c h = ground arith

-- A request that passes its checks has a source for its hash.
pub request_try_new-sourced :
    (sha256 : List ℕ → List ℕ) (account subject torrent : Text) (stored selected : Option Text)
    (r : QbReconcileRequest)
    → request_try_new sha256 account subject torrent stored selected ≡ ok r
    → is_some r.authoritative_hash ≡ is_some r.hash_source
unfolding request_try_new
request_try_new-sourced sha256 account subject torrent stored selected r h =
    let (key, e, h1) =
      >>=-eq-ok (effect_key_try_new sha256 account subject torrent qb_add_torrent) _ h in
    let (s, e1, h2) = >>=-eq-ok (normalized_qb_hash "stored_hash" stored) _ h1 in
    let (t, e2, h3) = >>=-eq-ok (normalized_qb_hash "selected_torrent_hash" selected) _ h2 in
    let (c, e3, h4) = >>=-eq-ok (agreed_hash s t) _ h3 in
    subst (λ q. is_some q.authoritative_hash ≡ is_some q.hash_source) (ok-injective h4)
      (agreed_hash-sourced s t c e3)

-- Every reconciliation of a checked request fails closed. It never panics. An add is decided only if
-- no observed torrent
-- has the stable tag or the request's hash. A torrent is reused only if it was observed, has the
-- request's hash (if there is one), and no torrent of another hash has the tag. A conflict names
-- two tagged hashes that differ, or a tagged hash that differs from the request's.
pub reconcile_request-Describes :
    (sha256 : List ℕ → List ℕ) (account subject torrent : Text) (stored selected : Option Text)
    (r : QbReconcileRequest) (obs : List QbTorrentObservation)
    → request_try_new sha256 account subject torrent stored selected ≡ ok r
    → Describes r.idempotency_key r.authoritative_hash obs (reconcile_qb_torrent r obs)
reconcile_request-Describes sha256 account subject torrent stored selected r obs h =
    reconcile-Describes r obs
      (request_try_new-sourced sha256 account subject torrent stored selected r h)
