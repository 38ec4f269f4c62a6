-- ===== src/Lib.antt =====
-- Verification of the polis memory library (crates/): a tamper-evident record of prompts and
-- decisions, and the pure code that plans, packs and checks what is read back from it.
--
-- The parts and how they interact. The ledger is a hash chain of events in SQLite. Every write goes
-- through `append_event`, which opens a transaction, reads the head and inserts the next row; two
-- verifiers walk the chain, one of them from an anchor that it moves. Supersessions write an event
-- and an index row beside it. A bundle is an export of rows that verifies without the database. The
-- job queue holds leases on background work. A prompt's words are swapped for a gist, kept in an
-- archive or forgotten for good. The user's notes are rows with an event for each act. The
-- gardener's runs reorganize the catalog of classes; they only mark rows as retired, journal an
-- image of each operation, and are reverted from it until a vacuum deletes the marked rows. A
-- question is planned into full-text queries, the hits are deduplicated and excerpted, and the
-- answer pack is trimmed to a byte budget. What is captured goes to a model between fences, and the
-- object in its reply is found by its braces.
--
-- Files and sources:
--   Ledger         crates/polis-core/src/ledger.rs: rows and hashes; Ledger/Kinds its event kinds,
--                  Ledger/Roles its sources and roles, Ledger/Guard its TTL guard and agent-prompt
--                  guard
--   Ledger/Append  crates/polis-store/src/ledger.rs: append_event, append_in_txn
--   Ledger/Verify  crates/polis-store/src/chain.rs: verify_ledger_chain; Ledger/Binding says what
--                  its verdict binds
--   Ledger/Anchor  crates/polis-store/src/chain.rs: verify_ledger_chain_incremental
--   Jobs           crates/polis-store/src/jobs.rs, all operations
--   Supersession   crates/polis-store/src/supersessions.rs: the two operations that write
--   Compaction     crates/polis-store/src/compaction.rs: compact_prompt_body; Compaction/Restore
--                  restore_prompt_body; Compaction/Cases and Frames say what each step does and leaves
--                  alone, Invariant and Keeps what stays true, Restores and Forgets what comes back
--                  and what does not
--   Notes          crates/polis-store/src/notes.rs: write_user_note, get_user_note
--   Catalog        crates/polis-store/src/runs.rs: retire_node_subtree, unretire_locked;
--                  Catalog/Reorg and Merge are the operations of apply_class_proposal_in_run in
--                  crates/polis-store/src/catalog.rs
--   Adjudicate     crates/polis-memory/src/adjudicate.rs: the walks over the catalog; Adjudicate/Titles
--                  adjudicate_create, Adjudicate/Rules adjudicate_structural, Adjudicate/Queue the loop
--                  of process_queue in crates/polis-memory/src/organize.rs; Adjudicate/Walks and Forest
--                  are the lemmas on nodes below roots
--   Coldness       crates/polis-core/src/coldness.rs: auto_collapse_safe, Coldness/Rollup
--                  subtree_stats_protected; Adjudicate/Descents, Protects, Covers and Collapse prove
--                  what it promises
--   Runs           crates/polis-store/src/runs.rs: the journal and invert_op_locked; Runs/Revert is
--                  revert_run, Runs/Vacuum vacuum_retired; Runs/Marks, Journal and Guards
--                  are the lemmas on the inverses, the journal's rows and the checks
--   Bundle         crates/polis-core/src/bundle.rs: the scopes, verify_bundle
--   Query          crates/polis-core/src/query.rs: plan_fts_query, plan_query_with_context,
--                  looks_literal; Query/Grammar is the reader of FTS5's quoted strings,
--                  Query/Tokens the lemmas on tokenize
--   Dedup          crates/polis-core/src/dedup.rs: dedup, simhash, excerpt_around, per_hit_budget;
--                  Dedup/Reference is its specification without indices
--   Pack           crates/polis-core/src/pack.rs: budgeted_item_count, enforce_pack_budget_bytes
--   Chunks         crates/polis-core/src/vec.rs: chunk_text, find_break
--   Fence          crates/polis-memory/src/fence.rs: wrap, split, role_for; Fence/Loop is the loop of
--                  split, Fence/Closer what ends an item, Fence/Headers and Fields its opening line
--   Json           crates/polis-core/src/json.rs: matching_brace, extract_object_with_key;
--                  Json/Objects is the grammar of balanced objects
--   Gist           crates/polis-core/src/gist.rs: deterministic_gist
--   Prelude        what they share: lists, options, signed integers, texts as lists of characters;
--                  Prelude/Tables the SQL statements by key, Prelude/Undo marks that are cleared
-- A function of the source has its own name here; state that the source keeps in a table, a map or
-- a vector is passed in and returned.
--
-- Choices. Sequence numbers, row ids and job times are i64 in the source and never negative there;
-- they are native numbers here. Ids of class nodes are opaque strings, for which numbers stand; an
-- operation takes the new ones. Columns that no modelled operation reads or writes are left out. A
-- journal row holds its image as data, not as JSON. Event times and prompt ids are signed. A table
-- is the list of its rows in the order of its primary key. The sums that the source takes with
-- saturation keep it; the 64-bit products of FNV-1a keep their wrap-around.
--
-- Parameters, for code that is not in the repository: sha2 and serde_json's printer are a `Hasher`,
-- any pair of functions, and where a theorem needs more it says so or concludes with a broken hash;
-- SQLite's answers to BEGIN, INSERT and COMMIT, and whether it ends a transaction by itself when
-- COMMIT fails, are an `Answers`, and in Compaction those to the
-- archive's insert and the marker's write; flate2 is a `Codec`; serde_json's parser in Json, the
-- size of a pack's JSON text and Unicode's case and alphanumeric tables are functions, as is the
-- oracle of alike classes. Of the floating-point comparisons in Adjudicate, that of a title's share
-- of words with 0.8 is on whole numbers, which decide it alike for fewer than 2 ^ 50 words; that of
-- an age with 0.34 of a span is a parameter.
--
-- Bounds. A loop of the source is structural recursion where it walks a list. On fuel: the retries
-- of BEGIN (8, the source's own bound), the chain of supersessions (64 hops, the source's own
-- bound), the loops of the pack's two passes (the length of the list they cut, which each turn
-- makes shorter), the decimal digits of a number, the items of a prompt (its length: each turn
-- drops an opening tag), the walks up and down the catalog in Adjudicate (64 steps, the source's
-- own bound), the walk down a branch (10,000 nodes, the source's own bound), and the chunks of a
-- text (its length: each chunk starts later than the one before).
--
-- Not modelled: the floating-point code (embeddings, rank fusion, is_warm), the random bytes of a
-- fence's nonce, the network, the command line, the language models, and the store's other tables:
-- among them the copies that the organizer derives from a prompt, which a forget releases too, the
-- claims, and the rows of the proposal queue.
mod Prelude
pub mod Ledger
pub mod Jobs
pub mod Supersession
pub mod Bundle
pub mod Dedup
pub mod Query
pub mod Pack
pub mod Chunks
pub mod Compaction
pub mod Catalog
pub mod Runs
pub mod Notes
pub mod Json
pub mod Fence
pub mod Coldness
pub mod Adjudicate
mod Gist
