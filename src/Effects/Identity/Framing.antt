-- ===== src/Effects/Identity/Framing.antt =====
-- The framing of identity components is read back, so distinct identities have distinct inputs.
use tmdb_mteam_hub.Common.{
  Every, IsText, List, Text, [], all, append-cancel, append-injective, arith, as_bytes,
  as_bytes-injective, is_scalar, length, ltb, refl, split_be_bytes-to_be_bytes, true, ℕ, ◌++◌, ◌<◌,
  ◌^◌, ◌∷◌, ◌≡◌,
}
use tmdb_mteam_hub.Effects.Identity.{
  ExternalEffectOperation, effect_key_domain, effect_key_input, frame, frame_components,
  hardlink_files, operation_as_str, qb_add_torrent,
}

pub frame-injective :
    (a b x y : List ℕ)
    → length a < 2 ^ 64
    → length b < 2 ^ 64
    → frame a x ≡ frame b y
    → (a ≡ b) × (x ≡ y)
unfolding frame
frame-injective a b x y la lb e =
    append-injective a b x y
      (cc (
        split_be_bytes-to_be_bytes (length a) (a ++ x) la,
        split_be_bytes-to_be_bytes (length b) (b ++ y) lb,
        e,
      ))
      (cc (
        split_be_bytes-to_be_bytes (length a) (a ++ x) la,
        split_be_bytes-to_be_bytes (length b) (b ++ y) lb,
        e,
      ))

-- A component is text whose UTF-8 length fits `u64`.
abbrev pub Fits : Text → Type 0
Fits s = IsText s × (length (as_bytes s) < 2 ^ 64)

IsText-of_all : (s : Text) → all is_scalar s ≡ true → IsText s
IsText-of_all [] h = tt
IsText-of_all (c ∷ s) h = ground (arith, IsText-of_all s)

-- Both facts by evaluation.
pub Fits-of_tests :
    (s : Text) → all is_scalar s ≡ true → ltb (length (as_bytes s)) (2 ^ 64) ≡ true → Fits s
Fits-of_tests s h k = (IsText-of_all s h, ground arith)

frame_components-injective :
    (ss ts : List Text)
    → length ss ≡ length ts
    → Every Fits ss
    → Every Fits ts
    → frame_components ss ≡ frame_components ts
    → ss ≡ ts
unfolding frame_components
frame_components-injective [] [] l hs ht e = refl
frame_components-injective [] (t ∷ ts) l hs ht e = absurd (omega arith)
frame_components-injective (s ∷ ss) [] l hs ht e = absurd (omega arith)
frame_components-injective (s ∷ ss) (t ∷ ts) l hs ht e =
    let split = frame-injective (as_bytes s) (as_bytes t) _ _ hs.0.1 ht.0.1 e in
    cc (
      as_bytes-injective s t hs.0.0 ht.0.0 split.0,
      frame_components-injective ss ts (omega arith) hs.1 ht.1 split.1,
    )

operation-Fits : (operation : ExternalEffectOperation) → Fits (operation_as_str operation)
unfolding operation_as_str as_bytes is_scalar
operation-Fits qb_add_torrent = Fits-of_tests (operation_as_str qb_add_torrent) refl refl
operation-Fits hardlink_files = Fits-of_tests (operation_as_str hardlink_files) refl refl

operation_as_str-injective :
    (p q : ExternalEffectOperation) → operation_as_str p ≡ operation_as_str q → p ≡ q
unfolding operation_as_str
operation_as_str-injective p q e = ground arith

-- The bytes that are hashed into an effect key determine the account, the subject, the torrent and
-- the operation: no two identities of texts that fit are hashed from the same bytes.
pub effect_key_input-injective :
    (account subject torrent : Text) (operation : ExternalEffectOperation)
    (account' subject' torrent' : Text) (operation' : ExternalEffectOperation)
    → Every Fits (account ∷ subject ∷ torrent ∷ [])
    → Every Fits (account' ∷ subject' ∷ torrent' ∷ [])
    → effect_key_input account subject torrent operation
      ≡ effect_key_input account' subject' torrent' operation'
    → (account ≡ account') × (subject ≡ subject') × (torrent ≡ torrent') × (operation ≡ operation')
unfolding effect_key_input
effect_key_input-injective a s t o a' s' t' o' h h' e =
    let same_texts =
      frame_components-injective (a ∷ s ∷ t ∷ operation_as_str o ∷ [])
        (a' ∷ s' ∷ t' ∷ operation_as_str o' ∷ []) refl
        (h.0, (h.1.0, (h.1.1.0, (operation-Fits o, tt))))
        (h'.0, (h'.1.0, (h'.1.1.0, (operation-Fits o', tt))))
        (append-cancel effect_key_domain _ _ e) in
    ground (arith, same_texts, operation_as_str-injective o o')
