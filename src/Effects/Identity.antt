-- ===== src/Effects/Identity.antt =====
-- The stable identity of an external effect (src/subscription/effects.rs): a digest of the framed
-- identity components. SHA-256 is the crate `ring`'s, and a parameter.
pub mod Framing
use tmdb_mteam_hub.Common.{
  ℕ, List, [], ◌∷◌, ◌++◌, Bool, true, false, if◌then◌else◌, Text, text, is_blank, contains_nul,
  as_bytes, to_be_bytes, hex, length, String, Result, ok, err, ◌>>=◌,
}

pub data ExternalEffectOperation : Type 0 where
  qb_add_torrent hardlink_files : ExternalEffectOperation

pub data EffectIdentityError : Type 0 where
  blank : String → EffectIdentityError
  contains_nul_byte : String → EffectIdentityError
  invalid_qb_hash : String → EffectIdentityError
  conflicting_qb_hashes : Text → Text → EffectIdentityError

abbrev pub Checked : Type 0 → Type 0
Checked A = Result EffectIdentityError A

unfoldable pub operation_as_str : ExternalEffectOperation → Text
operation_as_str qb_add_torrent = text "qb_add_torrent"
operation_as_str hardlink_files = text "hardlink_files"

unfoldable pub key_prefix : ExternalEffectOperation → Text
key_prefix qb_add_torrent = text "download:v1:"
key_prefix hardlink_files = text "link:v1:"

-- One component, behind its length as eight bytes.
unfoldable pub frame : List ℕ → List ℕ → List ℕ
frame bytes rest = to_be_bytes (length bytes) ++ (bytes ++ rest)

-- The framed bytes of the components, in their order.
unfoldable pub frame_components : List Text → List ℕ
unfolding frame
frame_components [] = []
frame_components (c ∷ rest) = frame (as_bytes c) (frame_components rest)

-- `EFFECT_KEY_DOMAIN`
abbrev pub effect_key_domain : List ℕ
effect_key_domain = text "tmdb-mteam-hub/external-effect/v1" ++ 0 ∷ []

-- What `stable_effect_key` feeds to the digest.
unfoldable pub effect_key_input : Text → Text → Text → ExternalEffectOperation → List ℕ
unfolding frame_components operation_as_str
effect_key_input account subject torrent operation =
    effect_key_domain
    ++ frame_components (account ∷ subject ∷ torrent ∷ operation_as_str operation ∷ [])

unfoldable pub validated_identity_component : String → Text → Checked Text
validated_identity_component field value =
    if is_blank value
    then err (blank field)
    else if contains_nul value
    then err (contains_nul_byte field)
    else ok value

module _ (sha256 : List ℕ → List ℕ) where
  unfoldable pub stable_effect_key : Text → Text → Text → ExternalEffectOperation → Text
  unfolding key_prefix effect_key_input
  stable_effect_key account subject torrent operation =
      key_prefix operation ++ hex (sha256 (effect_key_input account subject torrent operation))

  -- `EffectIdempotencyKey::try_new`
  unfoldable pub effect_key_try_new : Text → Text → Text → ExternalEffectOperation → Checked Text
  unfolding stable_effect_key validated_identity_component
  effect_key_try_new account subject torrent operation = do
    account' ← validated_identity_component "account_key" account
    subject' ← validated_identity_component "subject_id" subject
    torrent' ← validated_identity_component "selected_torrent_id" torrent
    ok (stable_effect_key account' subject' torrent' operation)

  unfoldable pub stable_qb_idempotency_key : Text → Text → Text → Text
  unfolding stable_effect_key
  stable_qb_idempotency_key account subject torrent =
      stable_effect_key account subject torrent qb_add_torrent
