-- ===== src/Effects/Examples.antt =====
-- Concrete effects: a server that loses its responses, one link file, and the theorems applied to them.
use tmdb_mteam_hub.Common.{
  ◌≡◌, ◌≢◌, refl, inr, List, [], ◌∷◌, true, false, none, some, Text, text, text_eq_refl, any, Every,
  Result, ok, err, arith, hex, is_whitespace, is_blank, contains_nul, subst, ok-injective,
  is_scalar, as_bytes, encode_char, text_eq, is_empty, starts_with,
}
use tmdb_mteam_hub.Effects.Identity.{
  qb_add_torrent, effect_key_try_new, validated_identity_component, stable_effect_key, key_prefix,
}
use tmdb_mteam_hub.Effects.Identity.Framing.{Fits, Fits-of_tests, effect_key_input-injective}
use tmdb_mteam_hub.Effects.Reconcile.{
  request_try_new, normalized_qb_hash, agreed_hash, QbReconcileRequest, QbTorrentObservation,
  has_exact_tag, reconcile_qb_torrent, tagged_hashes, reconcile_tagged, reconcile_by_tag,
  use_tagged,
}
use tmdb_mteam_hub.Effects.Reconcile.Safety.{Describes, reconcile_request-Describes}
use tmdb_mteam_hub.Effects.Ensure.{
  QbEffectPort, add_request, ensure_qb_torrent, inspected, act, add_result, IsRetrySafe, retries,
  ensure_adds_once,
}
use tmdb_mteam_hub.Effects.Link.{
  LinkFileEffect, LinkFileProbe, PlannedLinkFile, create, pending, plan_link_retry, plan_files,
  choose_action, duplicate_target,
}
use tmdb_mteam_hub.Effects.Link.Plan.{Planned, plan_link_retry-Planned}
use tmdb_mteam_hub.Effects.Paths.{components, path_eq, split_path, texts_eq}

three_Fits : Every Fits (text "a" ∷ text "s" ∷ text "t" ∷ [])
three_Fits = (
  Fits-of_tests (text "a") (unfold is_scalar in refl) (unfold as_bytes encode_char in refl),
  (
    Fits-of_tests (text "s") (unfold is_scalar in refl) (unfold as_bytes encode_char in refl),
    (Fits-of_tests (text "t") (unfold is_scalar in refl) (unfold as_bytes encode_char in refl), tt),
  ),
)

effect_key_input-injective_example :
    (text "a" ≡ text "a")
    × (text "s" ≡ text "s")
    × (text "t" ≡ text "t")
    × (qb_add_torrent ≡ qb_add_torrent)
effect_key_input-injective_example =
    effect_key_input-injective (text "a") (text "s") (text "t") qb_add_torrent (text "a") (text "s")
      (text "t") qb_add_torrent three_Fits three_Fits refl

abbrev request : QbReconcileRequest
request = record {
  idempotency_key = text "k";
  selected_torrent_id = text "t";
  authoritative_hash = none;
  hash_source = none;
}

-- With a digest of no bytes, the key is its prefix.
abbrev made : QbReconcileRequest
made = record {
  idempotency_key = key_prefix qb_add_torrent;
  selected_torrent_id = text "t";
  authoritative_hash = none;
  hash_source = none;
}

abbrev foreign : QbTorrentObservation
foreign = record {
  hash = text "0a";
  name = text "n";
  tags = key_prefix qb_add_torrent ∷ text "z" ∷ [];
}

requested : request_try_new (λ b. []) (text "a") (text "s") (text "t") none none ≡ ok (made)
unfolding request_try_new normalized_qb_hash agreed_hash effect_key_try_new
    validated_identity_component stable_effect_key key_prefix hex is_whitespace is_blank
    contains_nul
requested = refl

reconcile_request-Describes_example :
    Describes made.idempotency_key none (foreign ∷ []) (reconcile_qb_torrent made (foreign ∷ []))
reconcile_request-Describes_example =
    reconcile_request-Describes (λ b. []) (text "a") (text "s") (text "t") none none made
      (foreign ∷ []) requested

-- A server that adds each torrent, and whose response to it is lost.
abbrev lossy : QbEffectPort
lossy = record {
  State = List QbTorrentObservation;
  Error = Unit {0};
  inspect = λ s tag hash. (s, ok s);
  add_torrent = λ s r.
      (record { hash = text "0b"; name = text "n"; tags = r.idempotency_key ∷ [] } ∷ s, err tt);
}

shown :
    (s : List QbTorrentObservation) (o : QbTorrentObservation) (tag : Text)
    (obs : List QbTorrentObservation)
    → has_exact_tag tag o ≡ true
    → ◌≡◌ {A = Result (Unit {0}) (List QbTorrentObservation)} (ok (o ∷ s)) (ok obs)
    → any (has_exact_tag tag) obs ≡ true
shown s o tag obs h e =
    subst (λ l. any (has_exact_tag tag) l ≡ true) (ok-injective e) (ground arith)

has_own_tag :
    (hash name tag : Text)
    → has_exact_tag tag (record { hash = hash; name = name; tags = tag ∷ [] }) ≡ true
unfolding has_exact_tag
has_own_tag hash name tag = ground (arith, text_eq_refl tag)

lossy-IsRetrySafe : IsRetrySafe lossy
lossy-IsRetrySafe = record {
  inspect_reads = λ s tag hash. refl;
  add_visible = λ s r. inr (λ hash obs.
      shown s (record { hash = text "0b"; name = text "n"; tags = r.idempotency_key ∷ [] })
        r.idempotency_key obs (has_own_tag (text "0b") (text "n") r.idempotency_key));
}

lossy_adds : (ensure_qb_torrent lossy request []).0 ≢ []
unfolding ensure_qb_torrent inspected act add_result add_request reconcile_qb_torrent tagged_hashes
    reconcile_tagged reconcile_by_tag use_tagged
lossy_adds e = cc

ensure_adds_once_example :
    retries lossy 3 request (ensure_qb_torrent lossy request []).0
    ≡ (ensure_qb_torrent lossy request []).0
ensure_adds_once_example = ensure_adds_once lossy lossy-IsRetrySafe request refl [] 3 lossy_adds

abbrev file : LinkFileEffect
file = record { source_path = text "/d/a"; target_path = text "/m/a"; persisted_outcome = pending }

abbrev probe : LinkFileProbe
probe = record { source = some (record { namespace = 1; object = 2 }); target = none }

abbrev plan : List PlannedLinkFile
plan = record { source_path = text "/d/a"; target_path = text "/m/a"; action = create } ∷ []

plan_link_retry-Planned_example :
    Planned (file ∷ []) (probe ∷ []) (plan_link_retry (file ∷ []) (probe ∷ []))
plan_link_retry-Planned_example = plan_link_retry-Planned (file ∷ []) (probe ∷ [])

-- A separator more does not make another target.
same_target :
    plan_link_retry (file ∷ record file { target_path = text "/m//./a/" } ∷ []) (probe ∷ probe ∷ [])
    ≡ err (duplicate_target (text "/m//./a/"))
unfolding plan_link_retry plan_files choose_action path_eq components split_path texts_eq text_eq
    is_empty starts_with
same_target = refl

-- `.` is kept at the start of a relative path only.
relative_paths :
    (path_eq (text "./a/./b") (text ".//a/b/") ≡ true)
    × (path_eq (text "./a") (text "a") ≡ false)
    × (path_eq (text "/a") (text "a") ≡ false)
unfolding path_eq components split_path texts_eq text_eq is_empty starts_with
relative_paths = (refl, refl, refl)
