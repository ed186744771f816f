-- ===== src/Lib.antt =====
-- Kudi AI: the core of a neobank's backend, in TypeScript with NestJS and Prisma. Money moves
-- between accounts by transfers; each movement is a balanced posting of a double-entry ledger; the
-- tier of a user's KYC profile caps what an account may hold and send.
--
-- Paths are from the repository's root. What each module models:
--   Shared: the shared kernel. Enums and Users (shared/enums and the enums of the modules), Errors (one
--     constructor for each exception, `message` and the result of code that may throw), Events (one
--     constructor for each domain event), Money (shared/value-objects/money.vo.ts, with its decimal
--     text in Money.Decimal), Time and Digits (the text of an instant and of digits), Action (a call on a state that may throw; what was written before a
--     throw stays).
--   Database: the tables of infrastructure/prisma/schema.prisma as lists of rows, and the world:
--     the tables, the published events, the clock, the stream of random texts.
--   Ledger: shared/ledger. `post` is PrismaLedgerRecorderService.post.
--   Idempotency: shared/idempotency, the repository of keys and the guard, with the changes that other
--     requests make to the table between the calls. Acquire has the rounds of tryAcquire, Stale the
--     reclaim of an old claim, Guard the runs.
--   Accounts: modules/accounts. Account is the aggregate (domain/entities/account.entity.ts), Mapper
--     and Repository its persistence, MaxBalance the guard of the tier's ceiling, Numbers the generator
--     of account numbers, Commands the handlers of application/commands, Opening that of the opening of
--     an account with the activation and the queries.
--   Identity: modules/identity. User and RefreshToken are the entities, Values the value objects,
--     Repository the two repositories, Services the ports, Sessions the handlers of login, refresh,
--     logout and password change, Register that of a registration, which opens an account, Access the
--     guard of a user's own resources.
--   Compliance: modules/compliance. Profile is the aggregate (domain/entities/kyc-profile.entity.ts),
--     Limits the schedule of limits, its table and the resolver of a user's tier, Identifiers the BVN
--     and NIN with the ports, Repository that of profiles, Audit the audit log with its recorder,
--     Screening the watchlist, Handlers those of application.
--   Transfers: modules/transfers. Transfer is the aggregate (domain/entities/transfer.entity.ts),
--     Mapper and Repository its persistence, Fees the fee calculator, Limits the limits of the tier,
--     InitiateInternal and InitiateExternal the handlers that start a transfer
--     (application/commands/initiate-internal-transfer, initiate-external-transfer), Guarded both
--     under the idempotency guard, Confirm the webhook of a payout
--     (application/commands/confirm-external-transfer), External the legs of its journals and the port
--     of the provider, Journals what these journals say line by line, Executor the internal transfer
--     (infrastructure/services/prisma-internal-transfer-executor.service.ts), Held the state that its
--     and the payout's catch blocks see.
--
-- How state is modelled. An aggregate is its props with its pending domain events, and a method is a
-- function to the changed aggregate or an error. A repository call is an action on the world. A call
-- of the database client fails when the world's list of outcomes says so; no theorem limits that
-- list, unless it says so. A transaction puts the tables back when its closure or its commit throws;
-- the objects that the closure changed stay changed, as in the source. One reading of the clock
-- serves a whole call. `randomUUID()` and `TransferReference.generate()` take the next text of a
-- stream.
--
-- Conventions. `bigint` is an integer without bounds; ids, references and account numbers are texts;
-- a `Date` is its milliseconds. `version` is a natural number: `version - 1 < 0` is version 0.
-- Amounts in events are integers, where the source has their text. The ledger's unique
-- `sourceEventId` is not enforced: each row draws its own. `findFirst` without an order takes the first
-- row of the table. Recursion is structural but for two
-- functions on fuel: `print_digits`, the text of a number, has one step more than the number, which
-- is more than the number has digits, as the round trip of Money shows; `try_acquire` has one round more
-- than other requests make changes, which is shown to be enough. The loop of the number generator has
-- the ten attempts of the source.
--
-- The payout provider, the password hasher, the token service, the verification provider, the hasher
-- of identifiers, the bank code and the random serials are parameters, and no theorem assumes
-- anything of them.
--
-- Not modelled: the codes and HTTP statuses of errors, event ids and times, the network
-- (Flutterwave, RabbitMQ), controllers and dependency injection, the frontend, the lists of
-- transfers, flagged profiles and audit entries, and letters outside ASCII in the case of emails and
-- names. The handlers of events run when the bus delivers them; the model has them as functions.
pub mod Common
pub mod Shared
pub mod Compliance
pub mod Database
pub mod Ledger
pub mod Accounts
pub mod Transfers
pub mod Idempotency
pub mod Identity
