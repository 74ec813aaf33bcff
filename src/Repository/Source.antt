-- ===== src/Repository/Source.antt =====
-- The projection of a wanted source, and the merge of an observed source
-- (src/subscription/repository.rs).

use tmdb_mteam_hub.Common.{
  ℕ, List, [], ◌∷◌, ◌++◌, Bool, true, not, ◌&&◌, if◌then◌else◌, leb, Option, none, some, Text, text,
  text_eq, trim, is_empty, starts_with, any, ok, ◌>>◌, guard, ℕ_discrete,
}
use tmdb_mteam_hub.Repository.Errors.{
  RepositoryResult, invalid_input, validate_text_bytes, check_optional,
}
use tmdb_mteam_hub.Repository.Payload.{WantedSource}
use tmdb_mteam_hub.Repository.Payload.Validate.{validate_source}

pub record SubscriptionProjection : Type 0 where
  pub title : Text
  pub release_year : Option ℕ
  pub poster_url : Text
  pub category_text : Option Text
  pub douban_sort_time : Option ℕ

unfoldable pub Projection-discrete : Discrete SubscriptionProjection
unfolding ℕ_discrete
Projection-discrete = hlevel ℕ_discrete

-- A text that is there and not blank, trimmed: `.map(str::trim).filter(|t| !t.is_empty())`.
unfoldable pub observed_text : Option Text → Option Text
observed_text none = none
observed_text (some value) = if is_empty (trim value) then none else some (trim value)

abbrev pub or_text : Option Text → Text → Text
or_text none default = default
or_text (some value) default = value

unfoldable pub projected_title : WantedSource → Text
unfolding observed_text
projected_title source = elim source.detail_title [
  | none ↦ source.title
  | some detail ↦ or_text (observed_text source.original_title) detail
]

abbrev pub year_in_range : Option ℕ → Bool
year_in_range none = true
year_in_range (some year) = leb 1 year && leb year 9999

-- `SubscriptionProjection::from_source`
unfoldable pub from_source : WantedSource → RepositoryResult SubscriptionProjection
unfolding projected_title
from_source source = do
  validate_source source
  guard (year_in_range source.release_year) (invalid_input "source.release_year")
  validate_text_bytes "source.poster_url" source.poster_url
  check_optional (validate_text_bytes "source.category_text") source.category_text
  ok (record {
    title = projected_title source;
    release_year = source.release_year;
    poster_url = source.poster_url;
    category_text = source.category_text;
    douban_sort_time = source.douban_sort_time;
  })

-- `replace_text_if_observed`
unfoldable pub replace_text : Text → Text → Text
replace_text current observed = if is_empty (trim observed) then current else trim observed

-- `replace_optional_text_if_observed`
unfoldable pub replace_optional_text : Option Text → Option Text → Option Text
unfolding observed_text
replace_optional_text current observed = elim (observed_text observed) [
  | none ↦ current
  | some value ↦ some value
]

-- The values that are not blank, trimmed.
unfoldable pub trimmed_values : List Text → List Text
trimmed_values [] = []
trimmed_values (v ∷ rest) =
    let kept = trimmed_values rest in if is_empty (trim v) then kept else trim v ∷ kept

abbrev pub or_values : List Text → List Text → List Text
or_values [] current = current
or_values (v ∷ vs) current = v ∷ vs

-- `replace_values_if_observed`
unfoldable pub replace_values : List Text → List Text → List Text
unfolding trimmed_values
replace_values current observed = or_values (trimmed_values observed) current

-- `normalized_unique_values`; `kept` are the values before, in their order.
unfoldable pub unique_values : List Text → List Text → List Text
unique_values kept [] = kept
unique_values kept (v ∷ rest) =
    unique_values
      (if not (is_empty (trim v)) && not (any (λ k. text_eq k (trim v)) kept)
        then kept ++ (trim v ∷ [])
        else kept)
      rest

-- `observed.or(current)`
abbrev pub or_else : Option ℕ → Option ℕ → Option ℕ
or_else none current = current
or_else (some value) current = some value

-- `super::posters::POSTER_PREFIX`
abbrev pub poster_prefix : Text
poster_prefix = text "/api/subscriptions/posters/"

abbrev pub keep_local_poster : Text → Text → Text
keep_local_poster current observed =
    if starts_with current poster_prefix then current else replace_text current observed

unfoldable pub merge_source_observation : WantedSource → WantedSource → WantedSource
unfolding replace_text replace_optional_text replace_values unique_values
merge_source_observation current observed =
    let detail = replace_optional_text current.detail_title observed.detail_title in
    record {
      title = trim (or_text detail observed.title);
      detail_title = detail;
      release_year = or_else observed.release_year current.release_year;
      poster_url = keep_local_poster current.poster_url observed.poster_url;
      cover_url = keep_local_poster current.cover_url observed.cover_url;
      original_title = replace_optional_text current.original_title observed.original_title;
      aka = replace_values current.aka observed.aka;
      languages = replace_values current.languages observed.languages;
      countries = replace_values current.countries observed.countries;
      genres = replace_values current.genres observed.genres;
      directors = replace_values current.directors observed.directors;
      actors = replace_values current.actors observed.actors;
      date_published = replace_optional_text current.date_published observed.date_published;
      duration = replace_optional_text current.duration observed.duration;
      summary = replace_optional_text current.summary observed.summary;
      rating_value = or_else observed.rating_value current.rating_value;
      rating_count = or_else observed.rating_count current.rating_count;
      category_text = replace_optional_text current.category_text observed.category_text;
      tags = unique_values [] observed.tags;
      douban_date = replace_optional_text current.douban_date observed.douban_date;
      douban_sort_time = or_else observed.douban_sort_time current.douban_sort_time;
      douban_return_order = or_else observed.douban_return_order current.douban_return_order;
    }
