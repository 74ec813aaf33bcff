-- ===== src/Poll/Commits.antt =====
-- `begin_poll` (src/storage/subscription_repo/poll.rs) where nothing stands against it.
use tmdb_mteam_hub.Poll.Begin.{Begins, begin_poll-Begins}
use tmdb_mteam_hub.Common.{
  ==_iff, List, Option, Option-cases, Text, ap, arith, contains_nul, false, hex, hex_digit, inl,
  inr, is_blank, is_whitespace, leb, le→leb, max, none, nonblank-not_spaces, not_spaces, ok, refl,
  some, text, true, ℕ, ◌+◌, ◌++◌, ◌==◌, >>=-eq-ok, ◌∙◌, ◌≡◌, ◌≤◌, ◌<◌, [], ◌∷◌, ◌/◌, ◌%◌,
}
use tmdb_mteam_hub.Repository.Operation.{i64_max}
use tmdb_mteam_hub.Repository.Errors.{command_integer, validated_text}
use tmdb_mteam_hub.Repository.Poll.{BeginPollCommand, begin_poll_try_new, poll_generation_try_new}
use tmdb_mteam_hub.Poll.Meta.{
  Meta, Store, check_meta_columns, check_meta_together, check_success, find_meta, insert_meta,
  meta_satisfies, require_single_write, snapshot_id_input, stable_snapshot_id, state_version,
  update_meta, update_meta_found, validate_state_version, write_meta,
}
use tmdb_mteam_hub.Poll.Opening.{
  BeginPollResult, begin_found, begin_poll, latest, new_meta, set_begun, validate_command_time,
}

hex_digit-ne : (n : ℕ) → (hex_digit n == 0) ≡ false
unfolding hex_digit
hex_digit-ne n = ground arith

contains_nul-hex : (bytes : List ℕ) → contains_nul (hex bytes) ≡ false
unfolding contains_nul hex
contains_nul-hex [] = refl
contains_nul-hex (b ∷ rest) =
    ground (arith, hex_digit-ne (b / 16), hex_digit-ne (b % 16), contains_nul-hex rest)

-- The id of a snapshot.
abbrev snapshot_id : (List ℕ → List ℕ) → Text → ℕ → Text
snapshot_id sha256 account generation =
    text "wanted-poll-v1-" ++ hex (sha256 (snapshot_id_input account generation))

stable_snapshot_id-ok :
    (sha256 : List ℕ → List ℕ) (account : Text) (generation : ℕ)
    → stable_snapshot_id sha256 account generation ≡ ok (snapshot_id sha256 account generation)
unfolding stable_snapshot_id validated_text is_blank is_whitespace contains_nul
stable_snapshot_id-ok sha256 account generation =
    rw (contains_nul-hex (sha256 (snapshot_id_input account generation))) refl

-- The time of the last event that a row tells of.
abbrev pub last_event : Meta → ℕ
last_event m =
    latest m.last_poll_success_at (latest m.last_poll_attempt_at (max m.created_at m.updated_at))

begun-columns :
    (m : Meta) (at generation : ℕ) (id : Text)
    → not_spaces id ≡ true
    → check_meta_columns m ≡ true
    → check_meta_columns (set_begun at (generation + 1) id m) ≡ true
unfolding check_meta_columns set_begun
begun-columns m at generation id letters h = rw letters (ground arith)

latest-max : (o : Option ℕ) (bound at : ℕ) → latest o bound ≤ at → bound ≤ at
latest-max none bound at h = h
latest-max (some t) bound at h = omega (arith, h)

begun-together :
    (m : Meta) (at generation : ℕ) (id : Text) (success : Option ℕ)
    → m.last_poll_success_at ≡ success
    → m.created_at ≤ at
    → check_meta_together m ≡ true
    → check_meta_together (set_begun at (generation + 1) id m) ≡ true
unfolding check_meta_together check_success set_begun
begun-together m at generation id none s le h = rw s (ground arith)
begun-together m at generation id (some t) s le h = rw s (ground arith)

begun-satisfies :
    (m : Meta) (at : ℕ) (id : Text)
    → not_spaces id ≡ true
    → last_event m ≤ at
    → meta_satisfies m ≡ true
    → meta_satisfies (set_begun at (m.poll_generation + 1) id m) ≡ true
unfolding meta_satisfies
begun-satisfies m at id letters late h =
    let updated = max m.created_at m.updated_at in
    let le =
      latest-max m.last_poll_attempt_at updated at
        (latest-max m.last_poll_success_at (latest m.last_poll_attempt_at updated) at late) in
    ground (
      arith,
      begun-columns m at m.poll_generation id letters,
      begun-together m at m.poll_generation id m.last_poll_success_at refl (omega (arith, le)),
    )

new-satisfies :
    (account : Text) (at : ℕ) (id : Text)
    → not_spaces account ≡ true
    → not_spaces id ≡ true
    → meta_satisfies (new_meta account at id) ≡ true
unfolding meta_satisfies check_meta_columns check_meta_together check_success new_meta
new-satisfies account at id letters letters' =
    rw (letters, letters', le→leb at at (omega arith)) refl

-- A row that a begin may find: it satisfies the CHECK clauses and has the version that the code
-- reads, it tells of nothing later than the attempt, and its generation can be counted up.
abbrev pub CanBegin : ℕ → Meta → Type 0
CanBegin at m =
    (meta_satisfies m ≡ true)
    × (m.state_version ≡ state_version)
    × (last_event m ≤ at)
    × (m.poll_generation < i64_max)

module _ (sha256 : List ℕ → List ℕ) (metas : List Meta) (c : BeginPollCommand) where
  begin_new :
      not_spaces c.account_key ≡ true
      → begin_found sha256 metas c none
        ≡ ok (
          metas ++ new_meta c.account_key c.attempted_at (snapshot_id sha256 c.account_key 1) ∷ [],
          1,
          snapshot_id sha256 c.account_key 1,
        )
  unfolding begin_found insert_meta require_single_write
  begin_new letters = rw (
    stable_snapshot_id-ok sha256 c.account_key 1,
    new-satisfies c.account_key c.attempted_at (snapshot_id sha256 c.account_key 1) letters refl,
  )

  begin_next :
      (m : Meta)
      → find_meta c.account_key metas ≡ some m
      → CanBegin c.attempted_at m
      → begin_found sha256 metas c (some m)
        ≡ ok (
          write_meta c.account_key
              (set_begun c.attempted_at
                (m.poll_generation + 1)
                (snapshot_id sha256 c.account_key (m.poll_generation + 1))
                m)
              metas,
          m.poll_generation + 1,
          snapshot_id sha256 c.account_key (m.poll_generation + 1),
        )
  unfolding begin_found validate_command_time validate_state_version update_meta update_meta_found
      require_single_write
  begin_next m found (checks, version, late, room) =
      let known : (m.state_version == state_version) ≡ true =
        (==_iff m.state_version state_version).1 version in
      let same_generation : (m.poll_generation == m.poll_generation) ≡ true =
        (==_iff m.poll_generation m.poll_generation).1 refl in
      let can_count : leb i64_max m.poll_generation ≡ false = ground arith in
      rw (
        known,
        le→leb (last_event m) c.attempted_at late,
        can_count,
        stable_snapshot_id-ok sha256 c.account_key (m.poll_generation + 1),
        found,
        same_generation,
        begun-satisfies m c.attempted_at (snapshot_id sha256 c.account_key (m.poll_generation + 1))
            refl late checks,
      )

generation_ok : (n : ℕ) → poll_generation_try_new (n + 1) ≡ ok (n + 1)
unfolding poll_generation_try_new
generation_ok n = ground arith

account-nonblank :
    (c : BeginPollCommand)
    → begin_poll_try_new c.account_key c.attempted_at ≡ ok c
    → is_blank c.account_key ≡ false
unfolding begin_poll_try_new validated_text
account-nonblank c h =
    let (account, e, h1) = >>=-eq-ok (validated_text "account_key" c.account_key) _ h in
    ground arith

module _ (sha256 : List ℕ → List ℕ) (s : Store) (c : BeginPollCommand) where
  begin_found-commits :
      (metas : List Meta) (generation : ℕ) (id : Text)
      → c.attempted_at ≤ i64_max
      → begin_found sha256 s.metas c (find_meta c.account_key s.metas)
        ≡ ok (metas, generation + 1, id)
      → begin_poll sha256 s c
        ≡ ok (
          record s { metas = metas },
          record {
            token = record { generation = generation + 1; snapshot_id = id };
            attempted_at = c.attempted_at;
          },
        )
  unfolding begin_poll command_integer
  begin_found-commits metas generation id fits h =
      rw (le→leb c.attempted_at i64_max fits, h, generation_ok generation)

  -- A poll can be begun by every valid command, at a time that fits an i64, for an account without a
  -- row, and for one whose row satisfies the CHECK clauses, has the version that the code reads, tells
  -- of nothing later than the attempt, and has a generation below the largest i64: the begin
  -- commits, whether or not a poll is open, and opens its token.
  pub begin_poll-commits :
      begin_poll_try_new c.account_key c.attempted_at ≡ ok c
      → c.attempted_at ≤ i64_max
      → ((m : Meta) → find_meta c.account_key s.metas ≡ some m → CanBegin c.attempted_at m)
      → (s' : Store) × (r : BeginPollResult) × (begin_poll sha256 s c ≡ ok (s', r))
        × Begins c r s s'
  begin_poll-commits valid fits can = elim (Option-cases (find_meta c.account_key s.metas)) [
    | inl gone ↦
        let letters = nonblank-not_spaces c.account_key (account-nonblank c valid) in
        let commits =
          begin_found-commits _ 0 _ fits
            (ap (begin_found sha256 s.metas c) gone ∙ begin_new sha256 s.metas c letters) in
        (_, _, commits, begin_poll-Begins sha256 s _ c _ commits)
    | inr (m, found) ↦
        let commits = begin_found-commits _ m.poll_generation _ fits (
          ap (begin_found sha256 s.metas c) found
          ∙ begin_next sha256 s.metas c m found (can m found)) in
        (_, _, commits, begin_poll-Begins sha256 s _ c _ commits)
  ]
