-- ===== src/Poll/Steps/Generation.antt =====
-- Generations of polls only grow, so that a superseded token is refused for ever.
use tmdb_mteam_hub.Common.{
  ℕ, ◌≤◌, ◌<◌, ◌≡◌, ◌≢◌, sym, ap, ◌∙◌, some, Text, text_eq, text_eq_iff, Bool-cases, inl, inr,
  some-injective, ok, arith, List,
}
use tmdb_mteam_hub.Repository.Poll.{BeginPollCommand}
use tmdb_mteam_hub.Poll.Meta.{Meta, Store, find_meta}
use tmdb_mteam_hub.Poll.Meta.Rows.{ReplacesMeta}
use tmdb_mteam_hub.Poll.Opening.{BeginPollResult, begin_poll}
use tmdb_mteam_hub.Poll.Terminal.{TerminalPoll, poll_account, poll_token, execute_poll}
use tmdb_mteam_hub.Poll.Consumes.{execute_poll-Consumes}
use tmdb_mteam_hub.Poll.Begin.{begin_poll-Begins, Follows-generation}
use tmdb_mteam_hub.Poll.Steps.{StoreStep, begins, settles, works, StoreSteps, here, step}

-- The account's row is there, with a generation of at least `g`.
abbrev AtLeast : Text → ℕ → Store → Type 0
AtLeast account g s = (m : Meta) × (find_meta account s.metas ≡ some m) × (g ≤ m.poll_generation)

-- A row is replaced by one whose generation is no less.
AtLeast-replaced :
    (account key : Text) (g : ℕ) (s s' : Store) (m' : Meta)
    → ReplacesMeta key m' s.metas s'.metas
    → ((m : Meta) → find_meta key s.metas ≡ some m → m.poll_generation ≤ m'.poll_generation)
    → AtLeast account g s
    → AtLeast account g s'
AtLeast-replaced account key g s s' m' (found, others) grows (m, at, le) =
    elim (Bool-cases (text_eq key account)) [
      | inl same_account ↦
          let e : key ≡ account = (text_eq_iff key account).0 same_account in
          (
            m',
            ap (λ x. find_meta x s'.metas) (sym e) ∙ found,
            omega (arith, le, grows m (ap (λ x. find_meta x s.metas) e ∙ at)),
          )
      | inr ne ↦ (m, others account ne ∙ at, le)
    ]

module _ (sha256 : List ℕ → List ℕ) where
  AtLeast-StoreStep :
      (account : Text) (g : ℕ) (s s' : Store)
      → StoreStep sha256 s s'
      → AtLeast account g s
      → AtLeast account g s'
  AtLeast-StoreStep account g s s' (begins c r h) =
      let (m', replaced, checks, version, gen, current, at, updated, told, same_db, next) =
        begin_poll-Begins sha256 s s' c r h in
      AtLeast-replaced account c.account_key g s s' m' replaced (λ m f.
        omega (arith, gen, Follows-generation c (find_meta c.account_key s.metas) m m' next f))
  AtLeast-StoreStep account g s s' (settles command h) =
      let (m, m', found, o, id, version, generation, checks, open', id', gen', version', replaced) =
        execute_poll-Consumes sha256 s s' command h in
      AtLeast-replaced account (poll_account command) g s s' m' replaced
        (λ x f. omega (arith, gen', ap (λ y. y.poll_generation) (some-injective f found)))
  AtLeast-StoreStep account g s s' (works kept steps) =
      λ (m, at, le). (m, ap (find_meta account) kept ∙ at, le)

  AtLeast-StoreSteps :
      (account : Text) (g : ℕ) (s s' : Store)
      → StoreSteps sha256 s s'
      → AtLeast account g s
      → AtLeast account g s'
  AtLeast-StoreSteps account g s s' here before = before
  AtLeast-StoreSteps account g s s'' (step {s' = s'} one rest) before =
      AtLeast-StoreSteps account g s' s'' rest (AtLeast-StoreStep account g s s' one before)

  begun-AtLeast :
      (s s' : Store) (c : BeginPollCommand) (r : BeginPollResult)
      → begin_poll sha256 s c ≡ ok (s', r)
      → AtLeast c.account_key r.token.generation s'
  begun-AtLeast s s' c r h =
      let (m', replaced, checks, version, gen, current, at, updated, told, same_db, next) =
        begin_poll-Begins sha256 s s' c r h in
      (m', replaced.0, omega (arith, gen))

  -- Where an account's poll is begun, and later another one, with any steps between and after: the
  -- later token has a greater generation, and no terminal write with the earlier token ever commits
  -- again.
  pub superseded_poll-never_commits :
      (s s1 s2 s3 s4 s5 : Store) (c c' : BeginPollCommand) (r r' : BeginPollResult)
      (command : TerminalPoll)
      → begin_poll sha256 s c ≡ ok (s1, r)
      → StoreSteps sha256 s1 s2
      → begin_poll sha256 s2 c' ≡ ok (s3, r')
      → c'.account_key ≡ c.account_key
      → StoreSteps sha256 s3 s4
      → poll_account command ≡ c.account_key
      → poll_token command ≡ r.token
      → (r.token.generation < r'.token.generation) × (execute_poll sha256 s4 command ≢ ok s5)
  superseded_poll-never_commits s s1 s2 s3 s4 s5 c c' r r' command b steps b' same_account steps'
        at_account same_token =
      let (m, f, le) =
        AtLeast-StoreSteps c.account_key r.token.generation s1 s2 steps
          (begun-AtLeast s s1 c r b) in
      let (m', replaced, checks, version, gen, current, at, updated, told, same_db, next) =
        begin_poll-Begins sha256 s2 s3 c' r' b' in
      let newer : r.token.generation < r'.token.generation = omega (
        arith,
        le,
        gen,
        Follows-generation c' (find_meta c'.account_key s2.metas) m m' next
            (ap (λ a. find_meta a s2.metas) same_account ∙ f),
      ) in
      (
        newer,
        λ h.
            let (
              x, x', found, o, id, v, generation, checks', open', id', gen', version', replaced',
            ) =
              execute_poll-Consumes sha256 s4 s5 command h in
            let (y, fy, ley) =
              AtLeast-StoreSteps c'.account_key r'.token.generation s3 s4 steps'
                (begun-AtLeast s2 s3 c' r' b') in
            let same_row : x ≡ y =
              some-injective found
                (ap (λ a. find_meta a s4.metas) (at_account ∙ sym same_account) ∙ fy) in
            absurd (
              omega (
                arith,
                newer,
                ley,
                generation,
                ap (λ z. z.poll_generation) same_row,
                ap (λ t. t.generation) same_token,
              )),
      )
