-- ===== src/Ledger/Posting/Resolver.antt =====
-- What the posting service asks of `LedgerAccountResolver` (src/core/ledger/account-resolver.ts).
-- The chart of accounts `C` may grow while a reference is resolved.
use project_task_cashbook_ba.Base.{ℕ, ◌≡◌}
use project_task_cashbook_ba.Base.Result.{Result, ok}
use project_task_cashbook_ba.Ledger.Types.{LedgerRef, LedgerAccountMeta}

pub data LedgerError : Type 0 where
  posting_key_conflict invalid_leg empty_journal unbalanced account_missing : LedgerError
  account_not_found invalid_account cashbook_not_found unique_violation : LedgerError

-- `resolve` takes the workspace and the currency of the journal.
pub record Resolver (C : Type 0) : Type 0 where
  pub resolve : C → ℕ → ℕ → LedgerRef → Result LedgerError (C × ℕ)
  pub meta_for : C → ℕ → Result LedgerError LedgerAccountMeta

-- Resolving may add accounts; those that are there keep their class, origin and owner.
pub record IsStable (C : Type 0) ⦃r : Resolver C⦄ : Type 0 where
  pub meta_for-resolve :
      (c c' : C) (workspace currency : ℕ) (ref : LedgerRef) (a b : ℕ) (m : LedgerAccountMeta)
      → r.resolve c workspace currency ref ≡ ok (c', b)
      → r.meta_for c a ≡ ok m
      → r.meta_for c' a ≡ ok m
