-- ===== src/Effects/Ensure.antt =====
-- `ensure_qb_torrent` of src/subscription/effects.rs: reconcile, and add at most once. The port is a
-- trait that an adapter implements, so it is a parameter.
use tmdb_mteam_hub.Common.{
  ℕ, zero, suc, List, ◌≡◌, ◌≢◌, refl, sym, ◌∙◌, subst, ◌⊎◌, inl, inr, Option, none, some, is_some,
  true, any, Text, Result, ok, err,
}
use tmdb_mteam_hub.Effects.Reconcile.{
  QbReconcileRequest, QbTorrentObservation, QbReconciledBy, QbReconciliationConflict,
  QbReconciliationDecision, add, use_existing, conflict, has_exact_tag, reconcile_qb_torrent,
}
use tmdb_mteam_hub.Effects.Reconcile.Safety.{Describes, reconcile-Describes}

pub record QbAddRequest : Type 0 where
  pub idempotency_key : Text
  pub selected_torrent_id : Text
  pub selected_torrent_hash : Option Text

-- `QbReconcileRequest::add_request`
unfoldable pub add_request : QbReconcileRequest → QbAddRequest
add_request r = record {
  idempotency_key = r.idempotency_key;
  selected_torrent_id = r.selected_torrent_id;
  selected_torrent_hash = r.authoritative_hash;
}

-- The trait `QbEffectPort`; `&mut self` is the state that each call returns.
pub record QbEffectPort : Type 1 where
  pub State : Type 0
  pub Error : Type 0
  pub inspect : State → Text → Option Text → State × Result Error (List QbTorrentObservation)
  pub add_torrent : State → QbAddRequest → State × Result Error (Unit {0})

pub data EnsureQbTorrentOutcome : Type 0 where
  added : Text → EnsureQbTorrentOutcome
  reconciled : QbTorrentObservation → QbReconciledBy → EnsureQbTorrentOutcome

-- `panicked` stands for the panic of the reconciliation, which never comes.
pub data EnsureQbTorrentError (E : Type 0) : Type 0 where
  port_error : E → EnsureQbTorrentError E
  conflicting : QbReconciliationConflict → EnsureQbTorrentError E
  panicked : EnsureQbTorrentError E

module _ (port : QbEffectPort) where
  open port use {State, Error, inspect, add_torrent}

  abbrev pub Outcome : Type 0
  Outcome = Result (EnsureQbTorrentError Error) EnsureQbTorrentOutcome

  unfoldable pub add_result : Text → Result Error (Unit {0}) → Outcome
  add_result key (ok done) = ok (added key)
  add_result key (err e) = err (port_error e)

  unfoldable pub act :
      QbReconcileRequest → State → Option QbReconciliationDecision → State × Outcome
  unfolding add_result add_request
  act r s (some (use_existing torrent by)) = (s, ok (reconciled torrent by))
  act r s (some add) =
      let (s', result) = add_torrent s (add_request r) in (s', add_result r.idempotency_key result)
  act r s (some (conflict c)) = (s, err (conflicting c))
  act r s none = (s, err panicked)

  unfoldable pub inspected :
      QbReconcileRequest → State → Result Error (List QbTorrentObservation) → State × Outcome
  unfolding act
  inspected r s (err e) = (s, err (port_error e))
  inspected r s (ok observations) = act r s (reconcile_qb_torrent r observations)

  unfoldable pub ensure_qb_torrent : QbReconcileRequest → State → State × Outcome
  unfolding inspected
  ensure_qb_torrent r s =
      let (s', observations) = inspect s r.idempotency_key r.authoritative_hash in
      inspected r s' observations

  -- What the source documents of its adapters: an inspection only reads, and an add that changed the
  -- server (also one whose response was lost) is seen under its stable tag by every later inspection.
  pub record IsRetrySafe : Type 0 where
    pub inspect_reads : (s : State) (tag : Text) (hash : Option Text) → (inspect s tag hash).0 ≡ s
    pub add_visible :
        (s : State) (request : QbAddRequest)
        → ((add_torrent s request).0 ≡ s)
          ⊎ ((hash : Option Text) (obs : List QbTorrentObservation)
              → (inspect (add_torrent s request).0 request.idempotency_key hash).1 ≡ ok obs
              → any (has_exact_tag request.idempotency_key) obs ≡ true)

  -- The state after any number of further calls.
  pub retries : ℕ → QbReconcileRequest → State → State
  retries zero r s = s
  retries (suc n) r s = retries n r (ensure_qb_torrent r s).0

  module _ (safe : IsRetrySafe) (r : QbReconcileRequest)
      (sourced : is_some r.authoritative_hash ≡ is_some r.hash_source) where
    -- Every inspection at `s` shows the stable tag.
    abbrev Visible : State → Type 0
    Visible s =
        (obs : List QbTorrentObservation)
        → (inspect s r.idempotency_key r.authoritative_hash).1 ≡ ok obs
        → any (has_exact_tag r.idempotency_key) obs ≡ true

    act-cases :
        (s : State) (obs : List QbTorrentObservation) (d : Option QbReconciliationDecision)
        → Describes r.idempotency_key r.authoritative_hash obs d
        → ((act r s d).0 ≡ s)
          ⊎ (((act r s d).0 ≡ (add_torrent s (add_request r)).0)
              × (any (has_exact_tag r.idempotency_key) obs ≢ true))
    unfolding act
    act-cases s obs (some (use_existing torrent by)) h = inl refl
    act-cases s obs (some add) h = inr (refl, λ e. cc)
    act-cases s obs (some (conflict c)) h = inl refl
    act-cases s obs none h = inl refl

    decided :
        (s : State) (obs : List QbTorrentObservation)
        → let d = reconcile_qb_torrent r obs in
          ((act r s d).0 ≡ s)
          ⊎ (((act r s d).0 ≡ (add_torrent s (add_request r)).0)
              × (any (has_exact_tag r.idempotency_key) obs ≢ true))
    decided s obs = act-cases s obs (reconcile_qb_torrent r obs) (reconcile-Describes r obs sourced)

    Visible-keeps : (s : State) → Visible s → (ensure_qb_torrent r s).0 ≡ s
    unfolding ensure_qb_torrent
    Visible-keeps s visible =
        go (inspect s r.idempotency_key r.authoritative_hash).1 refl
        ∙ safe.inspect_reads s r.idempotency_key r.authoritative_hash
      where
        go :
            (answer : Result Error (List QbTorrentObservation))
            → (inspect s r.idempotency_key r.authoritative_hash).1 ≡ answer
            → (inspected r (inspect s r.idempotency_key r.authoritative_hash).0 answer).0
              ≡ (inspect s r.idempotency_key r.authoritative_hash).0
        go (err e) q = refl
        go (ok obs) q = elim (decided (inspect s r.idempotency_key r.authoritative_hash).0 obs) [
          | inl kept ↦ kept
          | inr (e, untagged) ↦ absurd (untagged (visible obs q))
        ]

    -- A call leaves the server as it was, or leaves the tag visible.
    ensure-cases : (s : State) → ((ensure_qb_torrent r s).0 ≡ s) ⊎ Visible (ensure_qb_torrent r s).0
    unfolding ensure_qb_torrent add_request
    ensure-cases s = go (inspect s r.idempotency_key r.authoritative_hash).1
      where
        s' : State
        s' = (inspect s r.idempotency_key r.authoritative_hash).0

        reads : s' ≡ s
        reads = safe.inspect_reads s r.idempotency_key r.authoritative_hash

        go :
            (answer : Result Error (List QbTorrentObservation))
            → ((inspected r s' answer).0 ≡ s) ⊎ Visible (inspected r s' answer).0
        go (err e) = inl reads
        go (ok obs) = elim (decided s' obs) [
          | inl kept ↦ inl (kept ∙ reads)
          | inr (e, untagged) ↦ elim (safe.add_visible s' (add_request r)) [
            | inl refused ↦ inl (e ∙ refused ∙ reads)
            | inr shown ↦ inr (subst Visible (sym e) (λ seen. shown r.authoritative_hash seen))
          ]
        ]

    retries-Visible : (n : ℕ) (s : State) → Visible s → retries n r s ≡ s
    unfolding retries
    retries-Visible zero s v = refl
    retries-Visible (suc n) s v = rw (Visible-keeps s v) (retries-Visible n s v)

    -- Where inspections only read and an add that changed the server is seen under its tag, for a
    -- request whose hash, if there is one, has a source: once a call has changed the server, no
    -- number of further calls for the same request changes it again, whatever the responses were.
    pub ensure_adds_once :
        (s : State) (n : ℕ)
        → (ensure_qb_torrent r s).0 ≢ s
        → retries n r (ensure_qb_torrent r s).0 ≡ (ensure_qb_torrent r s).0
    ensure_adds_once s n changed = elim (ensure-cases s) [
      | inl kept ↦ absurd (changed kept)
      | inr visible ↦ retries-Visible n (ensure_qb_torrent r s).0 visible
    ]
