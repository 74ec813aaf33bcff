-- ===== src/Effects/Reconcile.antt =====
-- The reconciliation of a qBittorrent add before it is attempted, and the add itself
-- (src/subscription/effects.rs).
pub mod Safety
pub mod Tags
use tmdb_mteam_hub.Common.{
  ℕ, ◌-◌, ◌+◌, List, [], ◌∷◌, map, Bool, true, false, not, ◌&&◌, ◌||◌, if◌then◌else◌, ltb, leb,
  ◌==◌, Option, none, some, Text, text_eq, to_ascii_lowercase, trim, is_empty, as_bytes, length,
  all, any, find, String, insert_set, contains, ok, err, ◌>>=◌,
}
use mathlib.Core.Option
use tmdb_mteam_hub.Effects.Identity.{
  Checked, invalid_qb_hash, conflicting_qb_hashes, effect_key_try_new, qb_add_torrent,
}

pub data QbHashSource : Type 0 where
  stored_artifact selected_torrent : QbHashSource

pub record QbReconcileRequest : Type 0 where
  pub idempotency_key : Text
  pub selected_torrent_id : Text
  pub authoritative_hash : Option Text
  pub hash_source : Option QbHashSource

unfoldable pub is_ascii_hexdigit : ℕ → Bool
is_ascii_hexdigit b =
    (leb b'0' b && leb b b'9') || (leb b'a' b && leb b b'f') || (leb b'A' b && leb b b'F')

unfoldable pub normalized_qb_hash : String → Option Text → Checked (Option Text)
unfolding is_ascii_hexdigit
normalized_qb_hash field none = ok none
normalized_qb_hash field (some raw) =
    let value = trim raw in
    let bytes = as_bytes value in
    if not (length bytes == 40 || length bytes == 64) || not (all is_ascii_hexdigit bytes)
    then err (invalid_qb_hash field)
    else ok (some (to_ascii_lowercase value))

-- The check that the two hashes agree, and the choice between them.
unfoldable pub agreed_hash : Option Text → Option Text → Checked (Option Text × Option QbHashSource)
agreed_hash (some stored) (some expected) =
    if text_eq stored expected
    then ok (some stored, some stored_artifact)
    else err (conflicting_qb_hashes stored expected)
agreed_hash (some stored) none = ok (some stored, some stored_artifact)
agreed_hash none (some expected) = ok (some expected, some selected_torrent)
agreed_hash none none = ok (none, none)

-- `QbReconcileRequest::try_new`
unfoldable pub request_try_new :
    (List ℕ → List ℕ) → Text → Text → Text → Option Text → Option Text → Checked QbReconcileRequest
unfolding agreed_hash normalized_qb_hash
request_try_new sha256 account subject torrent stored selected = do
  key ← effect_key_try_new sha256 account subject torrent qb_add_torrent
  stored_hash ← normalized_qb_hash "stored_hash" stored
  selected_hash ← normalized_qb_hash "selected_torrent_hash" selected
  chosen ← agreed_hash stored_hash selected_hash
  ok (record {
    idempotency_key = key;
    selected_torrent_id = torrent;
    authoritative_hash = chosen.0;
    hash_source = chosen.1;
  })

pub record QbTorrentObservation : Type 0 where
  pub hash : Text
  pub name : Text
  pub tags : List Text

-- The tags of an observation, trimmed, without blanks and duplicates.
unfoldable pub collect_tags : List Text → List Text
collect_tags [] = []
collect_tags (tag ∷ rest) =
    let kept = collect_tags rest in if is_empty (trim tag) then kept else insert_set (trim tag) kept

-- `QbTorrentObservation::try_new`; the `None` that the source calls impossible is an empty hash.
unfoldable pub observation_try_new : Text → Text → List Text → Checked QbTorrentObservation
unfolding collect_tags normalized_qb_hash
observation_try_new hash name tags = do
  normal ← normalized_qb_hash "observed_hash" (some hash)
  ok (record {
    hash = elim normal [ none ↦ [] | some h ↦ h ];
    name = name;
    tags = collect_tags tags;
  })

unfoldable pub has_exact_tag : Text → QbTorrentObservation → Bool
has_exact_tag tag o = contains tag o.tags

pub data QbReconciledBy : Type 0 where
  stored_hash selected_torrent_hash stable_tag hash_and_stable_tag : QbReconciledBy

pub data QbReconciliationConflict : Type 0 where
  duplicate_stable_tag : List Text → QbReconciliationConflict
  hash_and_tag_disagree : Text → Text → QbReconciliationConflict

pub data QbReconciliationDecision : Type 0 where
  use_existing : QbTorrentObservation → QbReconciledBy → QbReconciliationDecision
  add : QbReconciliationDecision
  conflict : QbReconciliationConflict → QbReconciliationDecision

-- `observations_by_hash`: `entry(hash).or_insert` keeps the first observation of a hash, so the map
-- answers with it.
unfoldable pub by_hash : Text → List QbTorrentObservation → Option QbTorrentObservation
by_hash hash observations = find (λ o. text_eq o.hash hash) observations

-- `tagged_hashes`: the loop over the observations.
unfoldable pub tagged_hashes : Text → List Text → List QbTorrentObservation → List Text
unfolding has_exact_tag
tagged_hashes tag acc [] = acc
tagged_hashes tag acc (o ∷ rest) =
    tagged_hashes tag (if has_exact_tag tag o then insert_set o.hash acc else acc) rest

-- `none` is the `unreachable!` of the source.
unfoldable pub matched_by : Option QbHashSource → Option QbReconciledBy
matched_by (some stored_artifact) = some stored_hash
matched_by (some selected_torrent) = some selected_torrent_hash
matched_by none = none

-- The torrent with the authoritative hash is used if it is there, and added if not.
unfoldable pub use_or_add :
    Option QbReconciledBy → Option QbTorrentObservation → Option QbReconciliationDecision
use_or_add by none = some add
use_or_add by (some torrent) = Option.map (use_existing torrent) by

-- `reconcile_qb_torrent` with an authoritative hash, after the check for duplicate tags.
unfoldable pub reconcile_by_hash :
    Option QbHashSource
    → Text
    → Option Text
    → List QbTorrentObservation
    → Option QbReconciliationDecision
unfolding matched_by use_or_add
reconcile_by_hash source authoritative none observations =
    use_or_add (matched_by source) (by_hash authoritative observations)
reconcile_by_hash source authoritative (some tagged) observations =
    if not (text_eq tagged authoritative)
    then some (conflict (hash_and_tag_disagree authoritative tagged))
    else use_or_add (some hash_and_stable_tag) (by_hash authoritative observations)

-- The torrent with the stable tag; `none` is the `expect` of the source.
unfoldable pub use_tagged : Option QbTorrentObservation → Option QbReconciliationDecision
use_tagged none = none
use_tagged (some torrent) = some (use_existing torrent stable_tag)

-- `reconcile_qb_torrent` without an authoritative hash.
unfoldable pub reconcile_by_tag :
    Option Text → List QbTorrentObservation → Option QbReconciliationDecision
unfolding use_tagged
reconcile_by_tag none observations = some add
reconcile_by_tag (some tagged) observations = use_tagged (by_hash tagged observations)

unfoldable pub reconcile_tagged :
    Option Text
    → Option QbHashSource
    → List Text
    → List QbTorrentObservation
    → Option QbReconciliationDecision
unfolding reconcile_by_hash reconcile_by_tag
reconcile_tagged authoritative source (a ∷ b ∷ rest) observations =
    some (conflict (duplicate_stable_tag (a ∷ b ∷ rest)))
reconcile_tagged (some hash) source (tagged ∷ []) observations =
    reconcile_by_hash source hash (some tagged) observations
reconcile_tagged (some hash) source [] observations =
    reconcile_by_hash source hash none observations
reconcile_tagged none source (tagged ∷ []) observations =
    reconcile_by_tag (some tagged) observations
reconcile_tagged none source [] observations = reconcile_by_tag none observations

-- `none` is a panic: the `expect` or the `unreachable!` of the source.
unfoldable pub reconcile_qb_torrent :
    QbReconcileRequest → List QbTorrentObservation → Option QbReconciliationDecision
unfolding reconcile_tagged
reconcile_qb_torrent request observations =
    reconcile_tagged request.authoritative_hash request.hash_source
      (tagged_hashes request.idempotency_key [] observations) observations
