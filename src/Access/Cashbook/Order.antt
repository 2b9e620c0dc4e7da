-- ===== src/Access/Cashbook/Order.antt =====
-- The cashbook roles by rank (src/core/types/permissions.ts).
use project_task_cashbook_ba.Base.{
  ℕ, ◌≤◌, ◌≡◌, refl, leb, Bool, true, not, ◌||◌, some, arith, every, get_elem?, every-get_elem?,
}
use project_task_cashbook_ba.Access.Cashbook.{
  CashbookRole, CashbookPermission, all_permissions, permission_index, has_permission,
}

abbrev pub rank : CashbookRole → ℕ
rank CashbookRole.viewer = 0
rank CashbookRole.data_operator = 1
rank CashbookRole.book_admin = 2
rank CashbookRole.admin = 3
rank CashbookRole.primary_admin = 4

abbrev implied : CashbookRole → CashbookRole → CashbookPermission → Bool
implied r s p = not (leb (rank r) (rank s)) || (not (has_permission r p) || has_permission s p)

table : (r s : CashbookRole) → every (implied r s) all_permissions ≡ true
unfolding has_permission
table CashbookRole.viewer CashbookRole.viewer = refl
table CashbookRole.viewer _ = refl
table CashbookRole.data_operator CashbookRole.viewer = refl
table CashbookRole.data_operator _ = refl
table CashbookRole.book_admin CashbookRole.viewer = refl
table CashbookRole.book_admin _ = refl
table CashbookRole.admin CashbookRole.viewer = refl
table CashbookRole.admin _ = refl
table CashbookRole.primary_admin CashbookRole.viewer = refl
table CashbookRole.primary_admin _ = refl

listed : (p : CashbookPermission) → get_elem? all_permissions (permission_index p) ≡ some p
listed CashbookPermission.view_cashbook = refl
listed _ = refl

follow : (a b : ℕ) (x y : Bool) → not (leb a b) || (not x || y) ≡ true → a ≤ b → x ≡ true → y ≡ true
follow a b x y h le e = ground arith

-- A cashbook role may do everything that a role below it may: viewer, data operator, book admin,
-- admin and primary admin, in this order.
pub has_permission_mono :
    (r s : CashbookRole) (p : CashbookPermission)
    → rank r ≤ rank s
    → has_permission r p ≡ true
    → has_permission s p ≡ true
has_permission_mono r s p le h =
    follow (rank r) (rank s) _ _
      (every-get_elem? (implied r s) all_permissions (permission_index p) p (table r s) (listed p))
      le h
