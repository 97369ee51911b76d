-- ===== src/Lib.antt =====
-- rs-runvault records runs of experiments in directories. This library models the core of the crate
-- crates/runvault: how a run is identified, and when two runs count as the same condition or the
-- same execution. The parameters of a run are a JSON document, and a control block declares which
-- places of it are left out of the hashes. The pointers of the block are parsed and resolved, the
-- document is pruned, written as canonical JSON, and hashed together with the datasets, the seeds,
-- the code and the environment; the first digits of the hashes go into the name of the directory.
-- Recorded runs are verified, copied to a vault, which keeps what it holds of a file that only grows,
-- and deleted from both places behind a tombstone. What a deletion reads of the vault is what a copy
-- has left there: `read_synced_optional` is the view in which the copying is specified.
--
-- Files, and the code that they model:
--   Base, Base/*         text, lists, equality, order, stable sorting and decimals
--   Error                crates/runvault/src/error.rs
--   Json                 the values of serde_json
--   Canonical            crates/runvault/src/canonical.rs: canonicalize and what it calls;
--                        Canonical/Framing has push_lp and join_lp, Canonical/Strings reads
--                        strings back, Canonical/Order is about the order of members
--   Pointer              crates/runvault/src/pointer.rs; Pointer/Syntax is about parsing,
--                        Pointer/Prune about removal, Pointer/Indices about array indices
--   Config               crates/runvault/src/config.rs; Config/Precedence is about the three lists
--   Meta                 the data types of crates/runvault/src/meta.rs that are hashed or checked
--   Hash                 crates/runvault/src/hash.rs; Hash/Collisions and Hash/Executions say what
--                        equal hashes mean, Hash/Conditions and Hash/Order what does not change them
--   Status               crates/runvault/src/status.rs
--   Verify               crates/runvault/src/verify.rs: the checks of one record; Verify/Tables has
--                        those of the CSV files, Verify/Walk those of the lineage, Verify/Lines
--                        those of the events, Verify/Contents those of the digests,
--                        Verify/Research those of a replication;
--                        Verify/Research/Identified, Verify/Contents/Sealed,
--                        Verify/Walk/Acyclic, Verify/Walk/Cyclic, Verify/Walk/Ends,
--                        Verify/Walk/Accepts, Verify/Records, Verify/Data, Verify/Hashes,
--                        Verify/Slug and Verify/Tables/Keys say what the checks accept
--   Vocabulary           crates/runvault/src/vocabulary.rs: the two questions asked of the registry;
--                        Vocabulary/Retired is about retired names
--   Metrics              crates/runvault/src/metrics_meta.rs: declared metrics and parameters;
--                        Metrics/Described is about the part that a run carries, with
--                        the counts of its patterns in Metrics/Tally
--   Run                  crates/runvault/src/run.rs: a run in progress and what it records; Run/Event has
--                        log_event, Run/Finish the ways in which a run ends, Run/Start the options and
--                        the directory. Run/Recorded, Run/Stamped and Run/Sequence are about the calls
--                        that record, Run/Explained about the metadata, Run/Sealed about the manifest,
--                        Run/Settled about the end, Run/Points about the lineage that is written,
--                        Run/Names about the name of the directory
--   Paths                crates/runvault/src/paths.rs: update_latest_finished, whose updates are taken
--                        one after the other; Paths/Latest is about a sequence of them
--   Tree                 the part of std::fs that looks at a tree of files and takes parts away;
--                        Tree/Laws says what is left
--   Lock                 crates/runvault/src/lockfile.rs: the record of a lock and its liveness
--   Delete               crates/runvault/src/delete.rs: what is asked of a run before its deletion;
--                        Delete/Tombstones reads the file of tombstones, Delete/Scan the two trees,
--                        Delete/Plan plans, Delete/Execute executes a plan. Delete/Safety is about
--                        the names and states that pass, Delete/Scanned and Delete/Planned about
--                        what plan returns, Delete/Stages and Delete/Settled about each stage,
--                        Delete/Recovery and Delete/Removed about an execution that is cut off,
--                        Delete/Crashes about all of these together, Delete/Anew about a
--                        deletion that is planned again, with what a plan takes from the call
--                        in Delete/Origin; Delete/Codec and
--                        Delete/Scenario have a deletion at concrete data
--   Gc                   crates/runvault/src/gc.rs: collect_one, while the process behind the lock may
--                        rewrite it; Gc/Verdict is about what is left
--   Sync                 crates/runvault/src/sync.rs: the receipt and the copying of a run;
--                        Sync/Plan plans the sending of a run; Sync/Reader has read_full and the
--                        comparison by buffers, Sync/Prefix is about them, Sync/Apart and Sync/Loop
--                        about the files that are sent, Sync/Kept about what is read back, and
--                        Sync/Chosen about the files of a plan; Sync/Vault has the declaration of
--                        the destination, and Sync/Declared is about it
--   Progress             crates/runvault/src/progress.rs: the count of a stage and when it reports;
--                        Progress/Lines is about the number of its lines
--   Legacy               crates/runvault/src/legacy.rs: the names and the keys of runs that predate the
--                        specification; Legacy/Keys is about the keys, Legacy/Boundaries about names
--                        that are not of ASCII; Legacy/Wide converts a CSV file, Legacy/Long one that
--                        is long already, with what both gather in Legacy/Rows; Legacy/Gathered, Legacy/Unique
--                        and Legacy/Conversion are about the metrics that come of it
--   Ids                  crates/runvault/src/ids.rs
--
-- How the code is read. A text is the list of its UTF-8 bytes. A `Result` is a `Result`, a panic is
-- `none`, a loop over a list is recursion on it, and a `HashSet` is the list of what was put in.
-- The message of an error is a `Reason`. What belongs to other crates (the numbers of serde_json, the
-- formatting of an `f64`, NFC, BLAKE3) is a record `Library`, the two calls of chrono and `f64`
-- in the check of `status.json` are a record `Clock`, and the dates of `Paths` a record `Calendar`.
-- Nothing is assumed of them: where a theorem needs that BLAKE3 is injective, it gives the two
-- colliding inputs instead. The lines of tombstones are read and written by serde_json, a record
-- `Lines`, of which a theorem asks that what is written is read again; zstd, the sizes of reads and
-- the clock of a sync are a record `Outside`, of which a theorem asks that compression loses nothing.
-- The parsing of an `f64`
-- in a legacy CSV file is a parameter, that of an `i64` is written out.
-- A run in progress takes `verify::shallow` as a parameter, and the buffers of its writers are part
-- of its files. In `verify`, what is read from the disk enters as a value: a file that is absent, or fails to
-- parse, is one case of it. The scans of `Delete` take the directories that are listed likewise.
--
-- Three loops need fuel. The walk of `check_no_cycle`: six steps for each sibling, and nine, are
-- enough, since a run is entered once and has at most three edges. `read_full`: as much as the buffer
-- has room, since each read but the last gives a byte. The comparison by buffers: one more than the
-- stored bytes, since each round but the last takes one. The loop in `Stage::tick` has the count and
-- one, since the step is not zero.
--
-- A crash is a constructor of `Interrupted`: it falls between two steps, or within remove_dir_all,
-- when entries below the directory have gone and the directory has not. A line of `_deleted.jsonl` is
-- written as a whole. A step that fails leaves the tree as it was. The receipt of a sync is kept apart
-- from the files of the vault, so that a planned file of the name sync.json does not meet it, and a copy
-- is written without its temporary file. Whether the run of a stage is open is taken when the stage is
-- opened. In the check of a manifest, a file that cannot be read is one that is not there.
--
-- Not modelled: reading and writing files but for these trees and maps, git, the clock, the
-- terminal, serialization by serde, globs, the planning of several runs (`plan_all`) and of legacy
-- runs, the list `left_behind` as a part of the result, the share, the estimate and the formatting
-- of a progress line, the directory walk, the builders of the options of a run and the files that a
-- start writes, the walk to legacy runs and the list of their files, the command line
-- crates/runvault-cli, and the second implementation under python.
pub mod Base
pub mod Error
pub mod Json
pub mod Canonical
pub mod Pointer
pub mod Config
pub mod Meta
pub mod Hash
pub mod Ids
pub mod Delete
pub mod Gc
pub mod Legacy
pub mod Lock
pub mod Metrics
pub mod Paths
pub mod Progress
pub mod Run
pub mod Status
pub mod Sync
pub mod Tree
pub mod Verify
pub mod Vocabulary
