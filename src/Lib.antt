-- ===== src/Lib.antt =====
-- Verification of sequel-ace-mcp, an MCP server that runs SQL statements of a language model against
-- the databases of Sequel Ace under a policy, with a person's approval where the policy asks for it.
--
-- A statement takes one way: the gate (`src/app/gate.rs`, `run_sql`) loads the configuration, has
-- the classifier say what the statement does, has the resolver decide `allow`, `confirm` or `deny`
-- per table, asks for approval, reads the configuration again, uses up a one-time approval, and
-- hands the statement to an executor; the ends of that way that the code audits are calls of the
-- audit log. The stores of approvals and of request states live across calls; the operation journal
-- records what a crash may leave undecided.
--
-- Files, and the code they model:
-- - Prelude, with its children: Boolean tests, lists, text (a list of code points), sorting and
--   association lists that stand for the maps and sets of the standard library.
-- - Policy.Model: `src/policy/model.rs`, categories, actions, policies, overrides and presets.
--   Children: Merge, Bounds, Names.
-- - Policy.RuleKey: `TableId` and `TableRuleKey` of the same file. Child: Roundtrip.
-- - Policy.Statement, Policy.Lexical, Policy.Keywords, Policy.Classifier: `src/policy/classifier.rs`, in
--   the order of the text: the classification's record, comment stripping and the scan for several
--   statements, the keyword fast paths, `classify_statement`. Children: Comments, Quotes, Hidden.
-- - Policy.Resolver: `src/policy/resolver.rs`, `resolve` with its helpers; its loops are functions on
--   the record of the variables that they update. Children: Rules, Loops, Refinement, Safety, and
--   Legacy with `resolve_databases_legacy`.
-- - Approval.Canonical and Approval.Engine: `src/approval/mod.rs`. The mutexes make each method one
--   step, so a history is a list of calls and `run` is the engine after it. Children: Order,
--   Injective, Collision; OneShots, Sessions.
-- - Approval.Mrtr: `src/mcp/mrtr.rs`, the store of pending approvals behind request states. Children:
--   Bounds, Taking.
-- - Gate, with Stages, Approving, Run and Snippet: `src/app/gate.rs`; what lies outside is the record
--   `World`. Its theorems are in Authorized, Permitted and Audited.
-- - Backup.Journal: `src/backup/journal.rs`, the journal as the list of its rows. Child: Recovery.
-- - Backup.Json, Values and Quoting: stored values, `value_to_json` of `src/sql/mysql.rs`, and how the
--   servers read a quoted string. Backup.Extractor, with Specs and Limits: `src/backup/extractor.rs`
--   over what it reads of a parsed statement; theorems in Limited, Literals, Aliases and Panics.
--   Backup.Capture, with Drivers and Hint: `src/backup/mod.rs` and `capture_backup_mysql`, the table of
--   backups as an explicit state; child Caps. Backup.Restore, with Plan: `src/backup/restore.rs`;
--   children Strings, Bytes.
-- - Sql.Transaction: `run_in_transaction` of `src/sql/mysql.rs` and the work around it, with what is sent
--   to the server as a list, in which the queries of a capture are one item. Children: Session, with
--   `execute_mysql_statement` from START TRANSACTION on; Backing, Order, States, Sending.
-- - Sql.Pool: the cache of `src/sql/pool.rs`. A lookup, a publication, an eviction and an invalidation
--   are each one step under its lock. Children: Bounds, Served.
-- - Ipc, with System and Steps: `src/approval/ipc.rs`. Asks and connections are two families of actors
--   over one slot, a step is what one of them does under one lock or between two awaits, and an
--   execution is a sequence of steps. Children: Vouched and Served (the invariant), Races.
-- - Transport.Lines: `LineLimited` of `src/mcp/limits.rs`. A poll is a loop of looks at the buffer and
--   reads of what is upstream, which gives chunks, delays, errors and its end. Children: Accepted (the
--   lines that are meant to pass), Search, View, Looking, Absorbing, Fuel, Reading.
-- - Ssh.Splitting, Ssh.Pattern and Ssh.KnownHosts: `src/sql/known_hosts.rs`, in the order of the text.
--   Ssh.Tunnel: its checked loader, `expand_tilde` of `src/app/paths.rs`, and the check of the server's
--   key in `src/sql/ssh.rs`. Children: Glob, Single; Bytes, Decision; Blank, Trust.
-- - Ddl.Rewrite and Ddl.Preflight: `src/sql/ddl.rs`. Ddl.Plan: the targets that `src/mcp/tools.rs` binds
--   to an approval and the decision of `src/sql/mysql.rs` before a DDL statement is sent. Proofs are in
--   Chain, Renames, Stale, Plan.Targets and Plan.Gap.
-- - Audit.Chain: the hashes of `src/audit/mod.rs` and their check, over the rows in the order of their
--   ids, and the deletion by category of `src/audit/retention.rs`. Children: Written, Retention.
-- - The modules named Tests hold the theorems' examples; Policy.SampleStatement holds their data.
--
-- Numbers and bounds: times are nanoseconds of a monotonic clock and are arguments; the limits of a
-- policy are naturals, since the code compares them with constants and never adds them; the scan's
-- depth of parentheses is a sign and a natural, as the code's counter may fall below zero. Bytes are
-- naturals. Recursion is structural on a text or a list but for the loop of `poll_read`, whose fuel is
-- three rounds for each read that can still bring something, and four more; a theorem says that this
-- is enough. A port has five digits at most.
--
-- Not modelled: the SQL parser (a library) and the walk over its syntax tree, `classify_ast`, are
-- parameters of `classify_statement`; the configuration's file and lock, the audit database, the
-- executors, tunnels and secret stores are parameters of the gate; digests and tokens are texts, with
-- the base64 decoding a parameter; message texts, durations and time stamps are left out. The lower
-- case of a statement is ASCII, as in the code; whitespace is that of Unicode. base64, HMAC-SHA1,
-- SHA-256, the fingerprint of a key, the JSON text of an audit entry, the file system and the server's
-- answer about a table are arguments; one function makes the JSON text of an audit entry for the writer
-- and for the check, whose two constructions agree in the source. Of the deadline around a transaction
-- only the inner one is modelled, as an answer; its KILL is left out. The other parts of the program
-- (most of the tools, the drivers' I/O, the opening of a pool, importer, windows) are not modelled.
mod Prelude
pub mod Policy
pub mod Approval
pub mod Gate
pub mod Ipc
pub mod Sql
pub mod Backup
pub mod Audit
pub mod Ddl
pub mod Ssh
pub mod Transport
