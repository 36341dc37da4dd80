-- ===== src/Lib.antt =====
-- finbot mirrors YNAB plans into one SQLite file, keeps the active plan current with delta requests, and
-- serves the mirror to MCP clients that sign in over OAuth. This library models the parts that decide
-- what is in the file and what is told of it: the sync of a plan, the write transactions under it, the
-- storage of the OAuth server, the request budget of the YNAB client, the queries behind the
-- transaction tools, the backups in Turso, and the Slack message that shows how finbot fares.
--
-- Parts, and how they interact.
--   Sql, Table       The driver and the tables. A Session holds the database, the number of the next
--                    statement and `fault`, a function that says which statements the driver fails, so
--                    every theorem over a Session holds for any pattern of failures. An action is a
--                    state function with an error result. Sql.write_tx is writeTx of store/store.go:
--                    BEGIN, the body, COMMIT with its deferred foreign keys, ROLLBACK on any other
--                    exit. Sql.Refines, Sql.Atomic, Sql.Keeps, Sql.Preserves, Sql.Reads and
--                    Sql.Outcomes are the rules for actions; Table holds the statements on one table and
--                    their laws.
--   Mirror           store/mirror.go and store/migrations/0001_mirror.sql. Mirror.Rows has the row
--                    types, Mirror the tables and the upserts of one row (put_account and so on),
--                    Mirror.Writes the methods of Tx (upsert_accounts for UpsertAccounts).
--   Ynab.Api         The structs of the YNAB library that the code reads.
--   Ynab.Governor    ynab/governor.go: new_governor, take, allow, remaining.
--   Sync             sync/. Sync.Mapping is mapPlan, Sync.Stitch is stitch, has and liveSubs, Sync.Links
--                    is linkEvents, Sync.Freshness is Freshness, Sync.Tick is SyncPlan (sync_plan)
--                    and TriggerImport. A tick reads the cursor, asks the network, stitches the batch to
--                    the mirror and writes rows and cursor in one write transaction. Sync.Tick.Plain
--                    gives the same tick as a function of the mirror alone.
--   Scan             ScanDiscretionary of sync/mirror.go (Scan.Run and Scan.Ends, with the category's name
--                    in Scan.Category and the redaction of ids in Scan.Redaction) and store/planscan.go
--                    (Scan.Stored, Scan.Replacement). Names and error texts are lists of code points here.
--   Auth             auth/storage.go, auth/clients.go, auth/generations.go and
--                    store/migrations/0005_oauth.sql. Auth.Storage has the fosite storage (create, load,
--                    rotate_refresh_token, prune), Auth.Clients the registration with its cap,
--                    Auth.Generations the revocation counters. Auth.Steps makes every writing operation
--                    a step and defines which databases are reached. Auth.Allowlist is auth/allowlist.go.
--                    Auth.Signin is the sign-in of auth/server.go: handle_authorize,
--                    handle_google_callback and handle_consent over what is parked (Auth.Parked) and the
--                    database; Auth.Signin.Issued serves them in any order. Auth.Active is ActiveTokens of
--                    auth/storage.go, Auth.Verify the token endpoint (handle_token) and the check of a
--                    bearer token (verify_token) of auth/server.go.
--   Ledger           store/transactions_read.go: the lines of a plan (lines), the filter (Ledger.Filter,
--                    Ledger.Like), QueryLines, NameMatches and CategoryTotals (Ledger.Query). Ledger.Paging
--                    is keyset paging apart from what is paged, Ledger.Order the order of the keys,
--                    Ledger.Dollars and Ledger.Totals are about sums.
--   Mcp              mcp/tools_transactions.go: Mcp.Money is formatMoney and parseMoney, Mcp.Dates the
--                    dates and periods, Mcp.Query the tool query_transactions (query_transactions) and a
--                    client that follows its cursors (follow_cursors).
--   Status           status/ and store/status.go. Status.Slack is the client of Slack, Status.Store the
--                    interface Store of the updater with its laws, Status.Stored store.DB's side of it,
--                    Status.Render the message's text, Status.Run the Updater: a World holds it with the
--                    store, the requests and clock readings made and the posts asked for; perform_all runs
--                    sync outcomes, backup outcomes and restarts in any order.
--   Backup           backup/turso.go and the download of backup/backup.go. Backup.Turso is Put, eachChunk
--                    and Fetch over Hrana's pipelines; `ask` is one round trip to the service. What Turso
--                    documents of its streams is the interface Promises (Backup.Turso.Promises).
--   Migrate          store/migrate.go: load_migrations, migrate_fs and apply_migration over a Session, with
--                    `run_sql` for what SQLite makes of a script.
--   Cmd              cmd/health.go: Cmd.Health is Health and its answer. cmd/revoke.go: Cmd.Revoke is
--                    revokeTarget and revokeCmd over the storage of Auth. cmd/app.go: Cmd.Archived is
--                    syncArchived, a scan (Scan) and then a tick (Sync) of each plan found, in one Session.
--   Tests            Runs on concrete data.
--
-- Choices of the model.
--   - The network's answers to a tick are a parameter (PlanApi): any plan, any error.
--   - A time is a number of nanoseconds; formatTime writes times with a fixed width, so the order of the
--     stored texts is the order of the numbers. A calendar date is its text.
--   - A JSON column is the data that it encodes. Reading back what was written gives the same data, but for
--     a number in a session, which comes back as a float64.
--   - Wrapped errors are named by the sentinel that errors.Is sees. Log lines are left out.
--   - Where SQL leaves the order of rows open, the order of insertion stands for it.
--   - int64 columns are unbounded integers: the sums of amounts stay far inside int64.
--   - The responses of Slack are a parameter: any function of the request and of how many came before it.
--     The deadline of a run is the number of pages that fit in it.
--   - The float64 fields of the Governor are exact numbers, in small units: a token is 3600000000000
--     units, and a limit of n tokens an hour refills n units a nanosecond. The rounding of float64 is left
--     out, and with it the wait that an error of Take names.
--   - unicode.ToLower is a parameter (Ledger.Like.Unicode) that on ASCII lowers the letters and keeps the
--     rest.
--   - A transaction of auth that the caller has opened is the argument `nested` of in_tx.
--   - Four loops need fuel: printing a number (the number itself is enough: it falls with every digit),
--     the chunks of a backup (the length of the data is enough), the pages of Slack's
--     channels (the run's deadline bounds them in the code too) and a client that follows cursors (more
--     pages than lines are enough). Every other loop runs over a list.
--   - What fosite makes of a request, how it issues a code, the answer of Google, the random texts and
--     the digest of a user's id are parameters.
--
-- Not modelled: registration, redirect URIs and the revocation endpoint of auth/server.go, the rest of
-- mcp/, the routing of HTTP, the redaction of errors in status/ and backup/, the encryption, files,
-- list and pruning of backups (the rest of backup/), configuration, the other commands and the
-- scheduler (config/, the rest of cmd/), the text of a ScanError (sync/mirror.go), the HMAC secret of
-- auth/, and the opening of SQLite. The spikes are experiments.
pub mod Prelude
pub mod Sql
pub mod Table
pub mod Mirror
pub mod Ynab
pub mod Sync
pub mod Scan
pub mod Status
pub mod Cmd
pub mod Ledger
pub mod Mcp
pub mod Auth
pub mod Backup
pub mod Migrate
pub mod Tests
