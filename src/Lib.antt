-- ===== src/Lib.antt =====
-- The execution core of a media subscription service, as definitions that run and theorems about them.
--
-- The service watches a list of films and series. A subscription moves through a lifecycle: its data
-- is looked up, torrents are searched, a download is followed, and files are hardlinked. A worker
-- claims a subscription in the SQLite repository, which gives it an attempt with an id and a lease;
-- it runs the operation of the lifecycle state, with effects on qBittorrent and on the file system;
-- and it ends the attempt by a finish, a failure or a release. A crashed worker's lease ends, and
-- another worker takes the row over under a new attempt id, so that late results of the old one
-- are refused. What was done outside is reconciled before it is done again. A poll of the account's
-- list opens a token in the account's row; its terminal write merges the snapshot that was read into
-- the subscriptions, and is refused once another poll has begun. The user interface lists an account
-- page by page, with an opaque cursor, and changes a subscription's detail at an expected revision.
--
-- Files, with the paths of the repository that they model:
--   Common            texts as lists of Unicode scalars, UTF-8, hexadecimal, sorted sets, results
--   Model             src/subscription/model.rs
--   Effects           src/subscription/effects.rs: Identity (idempotency keys), Reconcile
--                     (reconcile_qb_torrent), Ensure (ensure_qb_torrent over the trait
--                     QbEffectPort, whose implementation is a parameter), Link (plan_link_retry),
--                     Paths (the equality of paths by their components, on Unix)
--   Repository        src/subscription/repository.rs: Operation, Errors, Source (the projection and
--                     the merge of an observation), Delta (ExecutionPayloadDelta), Head, Retry
--                     (PollRetryPolicy); and
--                     src/subscription/repository/payload.rs: Payload, with Validate and Keys
--   Claim/Table       the table wanted_subscription_records and its constraints
--                     (src/storage/schema_v5.rs), the audit log
--                     (src/storage/subscription_repo/execution_audit.rs), an UPDATE by the key
--   Claim/Load        the decoding of a row (src/storage/subscription_repo.rs) and
--                     load_stored_subscription
--   Claim             src/storage/subscription_repo/claim.rs: Classify (classify), Select (the
--                     candidate queries), Update (the statements of a claim and the loop that
--                     allocates an id), Persist (persist_claim, claim_one, claim_due)
--   Claim/Terminal    of the same file: the fence require_live_attempt, the three statements and the
--                     checks after them; Commands and Operations have extend_lease, finish,
--                     fail and release; Issues has the attention tags and the issues
--   Claim/Steps       the operations as steps of the database
--   Poll              src/storage/subscription_repo/poll.rs: Meta (the table subscription_meta and
--                     the open token), Existing (the decoding of a row, the supersede audit), Merged
--                     and Seen (the merge of a snapshot's records), Missing (the rows that it leaves
--                     out), Opening (begin_poll), Operations (record_poll_failure,
--                     record_incomplete_snapshot, apply_complete_snapshot), Terminal, Steps; the
--                     contract is in Repository/Poll
--   Listing           list_summaries of src/storage/subscription_repo.rs, with the queries of
--                     build_list_queries; Wanted has the specification of a page; the contract is in
--                     Repository/Listing
--   Detail            update_detail of the same file
--   Backfill          backfill_metadata_titles of the same file
--   Http/Cursor       src/http/dto/subscriptions/cursor.rs
-- The other modules below Claim, Poll, Listing, Detail and Http, and Framing, Tags, Safety, Plan,
-- Merge and Closed elsewhere, hold lemmas and theorems; the modules Examples and Scenario hold data and tests.
--
-- State and operations. A database is the list of the table's rows and the list of audit entries; a
-- row is the decoded SubscriptionDetail with the three attempt columns. An operation takes the
-- database and returns a result with the database after the commit, or the error; on an error the
-- transaction is rolled back, so the database is as it was. The operations of a poll take a store: the
-- rows of the table of accounts beside the database. The clock's reading and the source of
-- attempt ids are arguments. Numbers are natural numbers; the limits of i64 and u32 are the
-- tests of the code. The one loop with a bound, eight rounds for an attempt id, is the code's own.
-- SHA-256 (crate ring) is a parameter of what uses it.
--
-- Not modelled: SQLite's I/O failures, and its storage format (JSON columns hold decoded values); the
-- messages of errors; that an f64 equality fails on NaN, which validation excludes; the other storage
-- commands of the user interface, the rest of HTTP, clients and the frontend.
pub mod Backfill
pub mod Claim
pub mod Common
pub mod Detail
pub mod Effects
pub mod Http
pub mod Listing
pub mod Model
pub mod Poll
pub mod Repository
