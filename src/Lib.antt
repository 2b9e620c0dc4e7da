-- ===== src/Lib.antt =====
-- The cashbook backend: its money arithmetic, its double-entry ledger, and the rules around them.
--
-- The program keeps cashbooks and wallets whose balances are cached columns. Every money event
-- (an entry of a cashbook, a wallet transaction, a transfer, a receivable or payable) goes through
-- a posting rule, a pure function to a journal draft; the posting service resolves the draft's
-- references to ledger accounts, checks it, writes the journal and its lines, and increments the
-- cached columns by deltas that it derives from the lines. The older arithmetic of money.ts
-- derives the same columns from entries and transactions.
--
-- Files:
--   * Base: shared names, Boolean tests, lists, signed integers, results.
--   * Decimal: the interface of decimal.js' Decimal, with the laws that the code relies on
--     (`IsExact`: finite values within the working precision) and a concrete arithmetic of
--     whole ten-thousandths.
--   * Finance/Money: src/core/finance/money.ts. Money/Books and Money/Status hold its theorems.
--   * Finance/Interest: src/core/finance/obligation-interest.ts. Interest/Split: its theorems.
--   * Ledger/Types: src/core/ledger/ledger.types.ts.
--   * Ledger/Rules: src/core/ledger/rules/entry.rules.ts, wallet.rules.ts, obligation.rules.ts.
--   * Ledger/Posting: src/core/ledger/posting.service.ts. Posting/Resolver is the interface of
--     src/core/ledger/account-resolver.ts; Posting/Deltas has `resolveDraft`, `deltasFromLines`
--     and `assertBalanced`; Posting/Rows has the rows; Posting/Store has `applyCacheDeltas`,
--     `post`, `reverse` and `repost`.
--   * Ledger/Coa: Coa/Template is src/core/ledger/coa.template.ts, Coa/Seed and Coa/Provision are
--     coa.seed.ts, Coa/Resolve is account-resolver.ts over the rows of Coa/Rows. Coa/Valid says what
--     a chart keeps, Coa/Owned which account each reference has, Coa/Mapped when the account of a
--     category counts as its fallback's, and Coa/Store makes such charts the store of the posting
--     service; the other children hold lemmas and theorems.
--   * Ledger/Identity: what the cached columns mean, as sums over journal lines.
--   * Ledger/Effect: what posting the journal of each event moves; the account classes of
--     src/core/ledger/coa.template.ts.
--   * Ledger/Replay: calling `post` and `reverse` a second time.
--   * Ledger/Balance: the events with a posting rule and the sums of their legs.
--   * Access/Cashbook: src/core/types/permissions.ts. Access/Workspace:
--     src/core/types/workspace-permissions.ts. Access/Desk: src/core/authz/ticketing-access.ts and
--     src/core/authz/workspace-access.ts. Their children hold the theorems.
--   * Ticketing/Pricing: src/modules/ticketing/pricing.ts. Pricing/Basket has the basket and the order of
--     the rules, Pricing/Quote the loop and the roll-up; the other children hold lemmas and theorems.
--   * Breaker: src/utils/circuitBreaker.ts. Breaker/Interleaved has overlapping calls,
--     Breaker/Sequence calls one after the other.
--   * Ledger/Period: src/core/ledger/period.ts, and closePeriod and reopenPeriod of
--     src/modules/chart-of-accounts/chart-of-accounts.service.ts. Period/Closing has the dates
--     that a close locks, Period/Reopening those that a reopening gives back, Period/History what
--     any sequence of the two keeps.
--   * Tests: runs on concrete data.
--
-- Correspondence: a function keeps its name in snake case. A class with a database transaction
-- becomes a function from the rows to a `Result`: a thrown error is `err` and leaves no new rows,
-- since it aborts the caller's transaction. `null` and `undefined` are `none`. Ids, dates and
-- currency codes are numbers, since the code only compares them; the text of a posting key is the
-- data it is built from, so two keys are equal when their data are. Rows that a foreign key
-- guarantees (the cashbook or wallet of a delta) are there. All recursion is structural; no fuel.
--
-- Not modelled: Prisma, Express, queues and mail; concurrent transactions (each call runs alone,
-- as under the row locks and unique keys of the database); the services under src/modules, which
-- call the parts above. The theorems of posting take the account resolver as a parameter, which
-- Ledger/Coa/Store fills with the program's own.
pub mod Access
pub mod Base
pub mod Breaker
pub mod Decimal
pub mod Finance
pub mod Ledger
pub mod Tests
pub mod Ticketing
