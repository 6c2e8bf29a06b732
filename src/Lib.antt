-- ===== src/Lib.antt =====
-- meta-pulse: a verification development for the Pulse service (services/pulse), the part of the
-- program that accounts for contributions, tickets and rewards.
--
-- The program's parts. The domain packages hold pure rules: fixed-point money, the append-only
-- ledger, the periods, the levels, the contribution rules, the experiments and the weighted
-- reward draw. The ledger service runs the ledger rules inside a database transaction: it looks a
-- request up by its key, locks the account's row, applies the entry and stores entry and snapshot
-- together. An action that wins a reward reserves its amount in a budget and stores a grant with
-- an outbox row; the settlement service claims outbox rows, asks the benefit service to pay, and
-- moves the amount from reserved to settled, or on a rollback from settled to released.
--
-- Files:
-- - Prelude: shared names, integers, fixed-width words, texts, results, stable sorting and the
--   cumulative walk over weights.
-- - Money: services/pulse/internal/domain/money/money.go. `add`, `sub` and `multiply_bps` are the
--   methods of `Milli`.
-- - Ledger: services/pulse/internal/domain/ledger/ledger.go. `validate_entry`, `apply` and
--   `rebuild` are the functions of those names.
-- - Period: services/pulse/internal/domain/period/period.go and lifecycle.go. `resolve_active` is
--   `ResolveActive`, with one function for each of its two loops.
-- - Level: services/pulse/internal/domain/level/level.go.
-- - Economics: services/pulse/internal/domain/economics/economics.go. `path.Match` is a
--   parameter; Economics/Pipeline has the three functions in a row.
-- - Experiment: services/pulse/internal/domain/experiment/experiment.go. HMAC-SHA256 is a
--   parameter.
-- - LedgerStore: services/pulse/internal/store/mysql/ledger.go and unit_of_work.go. `Db` holds
--   the two tables as lists of rows, one function per repository method.
-- - LedgerService: services/pulse/internal/service/ledger.go. `append` is `LedgerService.Append`
--   with `appendEntry` cut at its two looks for the key; `rebuild_account` is `RebuildAccount`.
-- - Reward: services/pulse/internal/domain/reward/reward.go. SHA-256 is a parameter.
-- - Nonce: the nonce store of services/pulse/internal/security/signature.go.
-- - Budget: `RewardBudget` of services/pulse/internal/ports/reward.go with `CanReserve`,
--   `reserveBudget` of services/pulse/internal/service/action.go, and the budget parts of
--   `complete` and `Rollback`.
-- - RewardStore: services/pulse/internal/store/mysql/reward.go, and `MarkAwardSettledByGrantID`
--   of admin.go beside it. `Db` holds the budgets, grants, outbox rows and content awards as
--   lists of rows in the order of their ids, one function per repository method.
-- - Settlement: services/pulse/internal/service/settlement.go. `backoff` is the retry schedule,
--   Settlement/Setup has the constructor, Settlement/Service has the transactions of one grant
--   (`load_settlement`, `complete`, `retry`, `fail_payload`), Settlement/Passes the passes over
--   many (`process_batch`, `reconcile`, `retry_dead`, `rollback`), Settlement/Fence the attempt
--   counts.
-- - Action: the reward part of `ActionService.Execute` of
--   services/pulse/internal/service/action.go: the locks on the budgets, the reservation and the
--   rows stored for the grant.
-- - RewardAccounts: what the budgets say against the grants, and that each transaction keeps the
--   two in step.
-- - Idempotency: the table of idempotent requests in
--   services/pulse/internal/store/mysql/reward.go (`GetOrCreateForUpdate` and `Save`).
-- - RewardRuns: histories of actions and passes.
--
-- Transactions: a statement is a function on the tables with an error as a value. `fails` says
-- which calls of the database fail, `between` what other transactions commit while this one waits
-- for its row lock, and `Isolation` whether a second plain read repeats the first. A failure
-- undoes the transaction's own writes; ids that it took are taken as free again. In the
-- settlement service a `World` is what one pass meets: the calls that fail, the answers of the
-- benefit service, which are functions of the request, the clock, and what is committed while the
-- service waits for an answer. The JSON codec, SHA-256 and the JSON columns of the database are
-- the record `Codec`: its `column` gives the bytes that come back for the bytes written, which
-- are in general others. Texts of errors are a parameter; a long one is cut after 1000 bytes,
-- where a character that the cut would split is left out whole. An appended ledger entry comes
-- last in its table, where the id that the database assigns puts it: no caller brings an id of
-- its own. Texts are compared exactly, where the database's collation also ignores case.
--
-- Numbers: an int64 is an integer whose range is a hypothesis, and every int64 operation keeps
-- its wrap-around (Prelude/Word); a uint64 is a natural number. A duration of the retry schedule
-- is an int64 too, and its doubling wraps. Instants are natural numbers, 0 the zero time. Strings
-- are texts; their byte order is the order of their code points. `sort.SliceStable` is insertion
-- sort.
--
-- Fuel: the rejection loop of `SelectWeighted` takes fuel, since SHA-256 decides how often it
-- runs; `reject_total` says that the fuel suffices as soon as it exceeds the number of rejected
-- draws. Without enough fuel `select_weighted` returns none, a case of `select_weighted_lem` that
-- the code does not have.
--
-- Not modelled: of `Execute` what comes before the reward, the replay of stored responses, the
-- choice of a ticket and the ticket spending; the report of a targeted retry beside its outcome;
-- content rewards, periods, usage ingest, HTTP transport, configuration, Redis, the New API
-- adapters and the forum plugin, which move data between this core and other systems.
pub mod Prelude
pub mod Money
pub mod Ledger
pub mod Period
pub mod Level
pub mod Economics
pub mod Experiment
pub mod Reward
pub mod LedgerStore
pub mod LedgerService
pub mod Nonce
pub mod Settlement
pub mod Budget
pub mod RewardStore
pub mod RewardAccounts
pub mod Action
pub mod RewardRuns
pub mod Idempotency
