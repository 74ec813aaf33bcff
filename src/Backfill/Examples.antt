-- ===== src/Backfill/Examples.antt =====
-- A concrete repair: a film whose original title is known.
use tmdb_mteam_hub.Common.{
  [], contains_nul, insert_set, is_blank, is_empty, is_whitespace, ok, refl, some, text, text_eq,
  text_lt, trim, trim_start, ℕ_discrete, ◌∷◌, ◌≡◌,
}
use tmdb_mteam_hub.Model.{Attention-discrete, Lifecycle-discrete, Media-discrete}
use tmdb_mteam_hub.Repository.Operation.{Operation-discrete, for_lifecycle, key_eq}
use tmdb_mteam_hub.Repository.Errors.{
  check_optional, check_text, command_integer, for_each, key_try_new, revision_try_new,
  validate_text_bytes, validated_text,
}
use tmdb_mteam_hub.Repository.Payload.{Payload-discrete, SubscriptionPayload}
use tmdb_mteam_hub.Repository.Payload.Validate.{
  validate, validate_artifacts, validate_downloads, validate_links, validate_observation,
  validate_source, validate_tv,
}
use tmdb_mteam_hub.Repository.Payload.Keys.{validate_for}
use tmdb_mteam_hub.Repository.Source.{
  Projection-discrete, from_source, observed_text, projected_title,
}
use tmdb_mteam_hub.Repository.Head.{
  OptionText-discrete, detail_validate, head_validate, retries_exhausted, validate_against,
  validate_attention_tags, validate_payload_media_kind,
}
use tmdb_mteam_hub.Claim.Table.{
  Db, Row, attempt_taken, check_controls, find_row, satisfies_checks, update_found, update_row,
  write_row, check_each_column, check_together,
}
use tmdb_mteam_hub.Claim.Load.{
  checked_required_text, checked_text, decode_detail, decode_head, decode_summary,
}
use tmdb_mteam_hub.Claim.Scenario.{idle_row, no_digest, payload, source}
use tmdb_mteam_hub.Detail.{load_detail, load_detail_found}
use tmdb_mteam_hub.Backfill.{
  backfill_loop, backfill_metadata_titles, backfill_one, expect_title_update, lacks_title,
  repair_title, set_title, write_title,
}
use tmdb_mteam_hub.Backfill.Keeps.{KeepsRows, backfill_metadata_titles-Keeps}

abbrev old_payload : SubscriptionPayload
old_payload = record payload { source = record source { original_title = some (text " O ") } }

abbrev old_row : Row
old_row = record idle_row { detail = record idle_row.detail { payload = old_payload } }

abbrev old_db : Db
old_db = record { rows = old_row ∷ []; logs = [] }

abbrev repaired_row : Row
repaired_row = record old_row {
  detail = record old_row.detail {
    head = record old_row.detail.head { revision = 8 };
    projection = record old_row.detail.projection { title = text "O" };
    payload = record old_payload {
      source = record old_payload.source { detail_title = some (text "O") };
    };
  };
}

abbrev new_db : Db
new_db = record { rows = repaired_row ∷ []; logs = [] }

repairs : backfill_metadata_titles no_digest old_db ≡ ok (new_db, 1)
unfolding backfill_metadata_titles backfill_loop backfill_one repair_title write_title
    expect_title_update set_title lacks_title load_detail load_detail_found command_integer
    decode_head decode_summary decode_detail checked_required_text checked_text find_row write_row
    attempt_taken check_controls check_each_column check_together satisfies_checks update_found
    update_row head_validate retries_exhausted validate_attention_tags validate_payload_media_kind
    validate_against detail_validate OptionText-discrete Projection-discrete from_source
    projected_title observed_text validate validate_for validate_source validate_observation
    validate_tv validate_artifacts validate_downloads validate_links Payload-discrete validated_text
    validate_text_bytes check_optional check_text for_each key_try_new revision_try_new key_eq
    for_lifecycle Lifecycle-discrete Media-discrete is_blank is_whitespace contains_nul text_eq
    is_empty trim trim_start ℕ_discrete text_lt insert_set Operation-discrete Attention-discrete
repairs = refl

-- A second run finds nothing to do.
repaired : backfill_metadata_titles no_digest new_db ≡ ok (new_db, 0)
unfolding backfill_metadata_titles backfill_loop backfill_one repair_title write_title
    expect_title_update set_title lacks_title load_detail load_detail_found command_integer
    decode_head decode_summary decode_detail checked_required_text checked_text find_row write_row
    attempt_taken check_controls check_each_column check_together satisfies_checks update_found
    update_row head_validate retries_exhausted validate_attention_tags validate_payload_media_kind
    validate_against detail_validate OptionText-discrete Projection-discrete from_source
    projected_title observed_text validate validate_for validate_source validate_observation
    validate_tv validate_artifacts validate_downloads validate_links Payload-discrete validated_text
    validate_text_bytes check_optional check_text for_each key_try_new revision_try_new key_eq
    for_lifecycle Lifecycle-discrete Media-discrete is_blank is_whitespace contains_nul text_eq
    is_empty trim trim_start ℕ_discrete text_lt insert_set Operation-discrete Attention-discrete
repaired = refl

backfill_metadata_titles-Keeps_example :
    KeepsRows old_db.rows new_db.rows × (new_db.logs ≡ old_db.logs)
backfill_metadata_titles-Keeps_example =
    backfill_metadata_titles-Keeps no_digest old_db new_db 1 repairs
