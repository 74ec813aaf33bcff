-- ===== src/Detail/Examples.antt =====
-- A concrete update of a detail, with the theorems applied to it.
use tmdb_mteam_hub.Common.{
  [], contains_nul, err, insert_set, is_blank, is_empty, is_whitespace, ok, refl, some, text,
  text_eq, text_lt, trim, trim_start, ℕ_discrete, ◌∷◌, ◌≡◌, ◌≢◌,
}
use tmdb_mteam_hub.Model.{Attention-discrete, Lifecycle-discrete, Media-discrete, skipped}
use tmdb_mteam_hub.Repository.Operation.{Operation-discrete, for_lifecycle, key_eq}
use tmdb_mteam_hub.Repository.Errors.{
  check_number, check_optional, check_text, command_integer, for_each, key_try_new,
  revision_conflict, revision_try_new, validate_text_bytes, validated_text,
}
use tmdb_mteam_hub.Repository.Payload.{Payload-discrete, SubscriptionPayload}
use tmdb_mteam_hub.Repository.Payload.Validate.{
  validate, validate_artifacts, validate_downloads, validate_links, validate_observation,
  validate_source, validate_tv,
}
use tmdb_mteam_hub.Repository.Payload.Keys.{validate_for}
use tmdb_mteam_hub.Repository.Source.{
  Projection-discrete, SubscriptionProjection, from_source, observed_text, projected_title,
}
use tmdb_mteam_hub.Repository.Head.{
  OptionText-discrete, detail_validate, head_validate, retries_exhausted, validate_against,
  validate_attention_tags, validate_payload_media_kind,
}
use tmdb_mteam_hub.Claim.Table.{
  Db, Row, attempt_taken, check_controls, find_row, satisfies_checks, update_found, update_row,
  write_row, check_each_column, check_together,
}
use tmdb_mteam_hub.Claim.Load.{
  checked_required_text, checked_text, decode_detail, decode_head, decode_summary,
}
use tmdb_mteam_hub.Claim.Steps.{here}
use tmdb_mteam_hub.Claim.Scenario.{idle_db, idle_row, key, no_digest, payload, source}
use tmdb_mteam_hub.Detail.{
  UpdateSubscriptionDetailCommand, expect_detail_update, gate_open, load_detail, load_detail_found,
  resolve_miss, same_tags, set_detail, swap_detail, update_detail,
}
use tmdb_mteam_hub.Detail.Swap.{Swaps}
use tmdb_mteam_hub.Detail.Exclusive.{update_detail-Exclusive, update_detail-Swaps}

abbrev renamed : SubscriptionPayload
renamed = record payload {
  source = record source { title = text "U" };
  skip_reason = some (text "later");
}

abbrev rename : UpdateSubscriptionDetailCommand
rename = record {
  key = key;
  expected_revision = 7;
  updated_at = 90;
  attention_tags = skipped ∷ [];
  payload = renamed;
}

abbrev renamed_row : Row
renamed_row = record idle_row {
  detail = record idle_row.detail {
    head = record idle_row.detail.head { revision = 8; updated_at = 90 };
    projection = record idle_row.detail.projection { title = text "U" };
    attention_tags = skipped ∷ [];
    payload = renamed;
  };
}

abbrev renamed_db : Db
renamed_db = record { rows = renamed_row ∷ []; logs = [] }

renames : update_detail no_digest idle_db rename ≡ ok (renamed_db, renamed_row.detail)
unfolding update_detail swap_detail load_detail load_detail_found set_detail gate_open same_tags
    expect_detail_update resolve_miss command_integer check_number decode_head decode_summary
    decode_detail checked_required_text checked_text find_row write_row attempt_taken check_controls
    check_each_column check_together satisfies_checks update_found update_row head_validate
    retries_exhausted validate_attention_tags validate_payload_media_kind validate_against
    detail_validate OptionText-discrete Projection-discrete from_source projected_title
    observed_text validate validate_for validate_source validate_observation validate_tv
    validate_artifacts validate_downloads validate_links Payload-discrete validated_text
    validate_text_bytes check_optional check_text for_each key_try_new revision_try_new key_eq
    for_lifecycle Lifecycle-discrete Media-discrete is_blank is_whitespace contains_nul text_eq
    is_empty trim trim_start ℕ_discrete text_lt insert_set Operation-discrete Attention-discrete
renames = refl

update_detail-Swaps_example :
    (projection : SubscriptionProjection) × (from_source renamed.source ≡ ok projection)
    × ((r : Row) × (r' : Row) × Swaps idle_db rename projection renamed_db renamed_row.detail r r')
update_detail-Swaps_example =
    update_detail-Swaps no_digest idle_db renamed_db rename renamed_row.detail renames

update_detail-Exclusive_example :
    update_detail no_digest renamed_db rename ≢ ok (renamed_db, renamed_row.detail)
update_detail-Exclusive_example =
    update_detail-Exclusive no_digest idle_db renamed_db renamed_db rename rename renamed_row.detail
      (renamed_db, renamed_row.detail) renames here refl refl

-- A second update with the same revision is refused, and told the revision that is there.
refused : update_detail no_digest renamed_db rename ≡ err (revision_conflict key 7 8)
unfolding update_detail swap_detail load_detail load_detail_found set_detail gate_open same_tags
    expect_detail_update resolve_miss command_integer check_number decode_head decode_summary
    decode_detail checked_required_text checked_text find_row write_row attempt_taken check_controls
    check_each_column check_together satisfies_checks update_found update_row head_validate
    retries_exhausted validate_attention_tags validate_payload_media_kind validate_against
    detail_validate OptionText-discrete Projection-discrete from_source projected_title
    observed_text validate validate_for validate_source validate_observation validate_tv
    validate_artifacts validate_downloads validate_links Payload-discrete validated_text
    validate_text_bytes check_optional check_text for_each key_try_new revision_try_new key_eq
    for_lifecycle Lifecycle-discrete Media-discrete is_blank is_whitespace contains_nul text_eq
    is_empty trim trim_start ℕ_discrete text_lt insert_set Operation-discrete Attention-discrete
refused = refl
