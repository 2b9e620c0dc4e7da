-- ===== src/Ledger/Coa/Rows.antt =====
-- The rows that the chart of accounts is made of, and their lookups.
use native.Mathlib.Decide.{ℕ_discrete}
use project_task_cashbook_ba.Base.{
  ℕ, ◌+◌, ◌≡◌, refl, Bool, true, false, ◌&&◌, ◌==◌, Option, none, some, List, [], ◌∷◌, ltb,
  if◌then◌else◌,
}
use project_task_cashbook_ba.Ledger.Types.{SystemLedgerKey, LedgerAccountClass, LedgerAccountOrigin}
use project_task_cashbook_ba.Ledger.Coa.Template.{NormalBalance}

-- The text of an account's code: `1100`, `4100-USD`, `1100-3`, a text that reads as `1100-3` does
-- (`parseInt` stops at the first character that is no digit) but is another, and any other text.
pub data Code : Type 0 where
  bare : ℕ → Code
  scoped : ℕ → ℕ → Code
  child : ℕ → ℕ → Code
  extended : ℕ → ℕ → ℕ → Code
  other : ℕ → Code

pub record LedgerAccount : Type 0 where
  pub id : ℕ
  pub workspace_id : ℕ
  pub code : Code
  pub class : LedgerAccountClass
  pub normal_balance : NormalBalance
  pub origin : LedgerAccountOrigin
  pub system_key : Option SystemLedgerKey
  pub parent_id : Option ℕ
  pub currency : ℕ
  pub is_cash_equivalent : Bool
  pub is_postable : Bool
  pub is_protected : Bool
  pub is_active : Bool

pub data AccountClassification : Type 0 where
  asset_wallet liability_wallet : AccountClassification

-- The columns of a wallet (`Account`) and of a cashbook that the resolver reads.
pub record Wallet : Type 0 where
  pub id : ℕ
  pub workspace_id : ℕ
  pub currency : ℕ
  pub classification : AccountClassification
  pub ledger_account_id : Option ℕ

pub record Cashbook : Type 0 where
  pub id : ℕ
  pub workspace_id : ℕ
  pub currency : ℕ
  pub cash_ledger_account_id : Option ℕ

pub record Category : Type 0 where
  pub id : ℕ
  pub gl_account_id : Option ℕ

pub record Workspace : Type 0 where
  pub id : ℕ
  pub default_currency : ℕ

pub record Chart : Type 0 where
  pub accounts : List LedgerAccount
  pub wallets : List Wallet
  pub cashbooks : List Cashbook
  pub categories : List Category
  pub workspaces : List Workspace

-- The first item that passes a test.
unfoldable pub find {ℓ} : {A : Type ℓ} → (A → Bool) → List A → Option A
find p [] = none
find p (x ∷ xs) = if p x then some x else find p xs

unfoldable pub Code-discrete : Discrete Code
Code-discrete = hlevel ℕ_discrete

unfoldable pub SystemLedgerKey-discrete : Discrete SystemLedgerKey
SystemLedgerKey-discrete = hlevel

unfoldable pub same_code : Code → Code → Bool
same_code a b = elim (Code-discrete a b) [ yes _ ↦ true | no _ ↦ false ]

unfoldable pub is_key : SystemLedgerKey → Option SystemLedgerKey → Bool
is_key k (some j) = elim (SystemLedgerKey-discrete k j) [ yes _ ↦ true | no _ ↦ false ]
is_key k none = false

abbrev pub by_id : ℕ → LedgerAccount → Bool
by_id id row = row.id == id

-- The unique keys `workspaceId_code` and `workspaceId_systemKey_currency`.
abbrev pub by_code : ℕ → Code → LedgerAccount → Bool
by_code workspace code row = row.workspace_id == workspace && same_code row.code code

abbrev pub by_system_key : ℕ → SystemLedgerKey → ℕ → LedgerAccount → Bool
by_system_key workspace key currency row =
    row.workspace_id == workspace && is_key key row.system_key && row.currency == currency

-- An id that no account has.
unfoldable pub fresh_id : List LedgerAccount → ℕ
fresh_id [] = 1
fresh_id (row ∷ rows) = let rest = fresh_id rows in if ltb row.id rest then rest else row.id + 1

-- What a wallet and a cashbook share: an id, and the link to their ledger account.
pub record Holder (H : Type 0) : Type 0 where
  pub id_of : H → ℕ
  pub link_of : H → Option ℕ
  pub set_link : ℕ → H → H
  pub link_of-set_link : (a : ℕ) (h : H) → link_of (set_link a h) ≡ some a
  pub id_of-set_link : (a : ℕ) (h : H) → id_of (set_link a h) ≡ id_of h

instance abbrev pub wallet_holder : Holder Wallet
wallet_holder = record {
  id_of = λ w. w.id;
  link_of = λ w. w.ledger_account_id;
  set_link = λ a w. record w { ledger_account_id = some a };
  link_of-set_link = λ a w. refl;
  id_of-set_link = λ a w. refl;
}

instance abbrev pub cashbook_holder : Holder Cashbook
cashbook_holder = record {
  id_of = λ b. b.id;
  link_of = λ b. b.cash_ledger_account_id;
  set_link = λ a b. record b { cash_ledger_account_id = some a };
  link_of-set_link = λ a b. refl;
  id_of-set_link = λ a b. refl;
}

abbrev pub links_to : ℕ → Option ℕ → Bool
links_to a (some b) = b == a
links_to a none = false

module _ {H : Type 0} ⦃h : Holder H⦄ where
  -- The row with an id.
  abbrev pub find_holder : ℕ → List H → Option H
  find_holder id = find (λ x. h.id_of x == id)

  -- The link of a row that was looked up, if there is one.
  abbrev pub held : Option H → Option ℕ
  held (some x) = h.link_of x
  held none = none

  -- The id of the row that an account is linked from (`walletAccount`, `cashbook`).
  unfoldable pub owner : ℕ → List H → Option ℕ
  owner a [] = none
  owner a (x ∷ xs) = if links_to a (h.link_of x) then some (h.id_of x) else owner a xs

  -- `update` of the link of the row with an id.
  unfoldable pub link : ℕ → ℕ → List H → List H
  link id a [] = []
  link id a (x ∷ xs) = if h.id_of x == id then h.set_link a x ∷ xs else x ∷ link id a xs
