-- ===== src/Access/Cashbook.antt =====
-- src/core/types/permissions.ts: what each role may do in a cashbook.
pub mod Order
use project_task_cashbook_ba.Base.{ℕ, ◌==◌, Bool, true, false, ◌||◌, List, [], ◌∷◌, any}

pub data CashbookRole : Type 0 where
  primary_admin admin book_admin data_operator viewer : CashbookRole

pub data CashbookPermission : Type 0 where
  view_cashbook update_cashbook delete_cashbook manage_settings view_members add_member :
      CashbookPermission
  remove_member change_member_role view_entries create_entry update_entry delete_entry :
      CashbookPermission
  approve_delete view_categories manage_categories view_contacts manage_contacts :
      CashbookPermission
  view_payment_modes manage_payment_modes view_attachments upload_attachment delete_attachment :
      CashbookPermission
  view_obligations manage_obligations generate_report view_audit_log : CashbookPermission

-- The position in the enumeration: two permissions are the same when theirs are.
abbrev pub permission_index : CashbookPermission → ℕ
permission_index CashbookPermission.view_cashbook = 0
permission_index CashbookPermission.update_cashbook = 1
permission_index CashbookPermission.delete_cashbook = 2
permission_index CashbookPermission.manage_settings = 3
permission_index CashbookPermission.view_members = 4
permission_index CashbookPermission.add_member = 5
permission_index CashbookPermission.remove_member = 6
permission_index CashbookPermission.change_member_role = 7
permission_index CashbookPermission.view_entries = 8
permission_index CashbookPermission.create_entry = 9
permission_index CashbookPermission.update_entry = 10
permission_index CashbookPermission.delete_entry = 11
permission_index CashbookPermission.approve_delete = 12
permission_index CashbookPermission.view_categories = 13
permission_index CashbookPermission.manage_categories = 14
permission_index CashbookPermission.view_contacts = 15
permission_index CashbookPermission.manage_contacts = 16
permission_index CashbookPermission.view_payment_modes = 17
permission_index CashbookPermission.manage_payment_modes = 18
permission_index CashbookPermission.view_attachments = 19
permission_index CashbookPermission.upload_attachment = 20
permission_index CashbookPermission.delete_attachment = 21
permission_index CashbookPermission.view_obligations = 22
permission_index CashbookPermission.manage_obligations = 23
permission_index CashbookPermission.generate_report = 24
permission_index CashbookPermission.view_audit_log = 25

-- `Object.values(CashbookPermission)`
abbrev pub all_permissions : List CashbookPermission
all_permissions =
    CashbookPermission.view_cashbook ∷ CashbookPermission.update_cashbook
    ∷ CashbookPermission.delete_cashbook ∷ CashbookPermission.manage_settings
    ∷ CashbookPermission.view_members ∷ CashbookPermission.add_member
    ∷ CashbookPermission.remove_member ∷ CashbookPermission.change_member_role
    ∷ CashbookPermission.view_entries ∷ CashbookPermission.create_entry
    ∷ CashbookPermission.update_entry ∷ CashbookPermission.delete_entry
    ∷ CashbookPermission.approve_delete ∷ CashbookPermission.view_categories
    ∷ CashbookPermission.manage_categories ∷ CashbookPermission.view_contacts
    ∷ CashbookPermission.manage_contacts ∷ CashbookPermission.view_payment_modes
    ∷ CashbookPermission.manage_payment_modes ∷ CashbookPermission.view_attachments
    ∷ CashbookPermission.upload_attachment ∷ CashbookPermission.delete_attachment
    ∷ CashbookPermission.view_obligations ∷ CashbookPermission.manage_obligations
    ∷ CashbookPermission.generate_report ∷ CashbookPermission.view_audit_log ∷ []

abbrev pub permission_matrix : CashbookRole → List CashbookPermission
permission_matrix CashbookRole.primary_admin = all_permissions
permission_matrix CashbookRole.admin =
    CashbookPermission.view_cashbook ∷ CashbookPermission.update_cashbook
    ∷ CashbookPermission.manage_settings ∷ CashbookPermission.view_members
    ∷ CashbookPermission.add_member ∷ CashbookPermission.remove_member
    ∷ CashbookPermission.change_member_role ∷ CashbookPermission.view_entries
    ∷ CashbookPermission.create_entry ∷ CashbookPermission.update_entry
    ∷ CashbookPermission.delete_entry ∷ CashbookPermission.approve_delete
    ∷ CashbookPermission.view_categories ∷ CashbookPermission.manage_categories
    ∷ CashbookPermission.view_contacts ∷ CashbookPermission.manage_contacts
    ∷ CashbookPermission.view_payment_modes ∷ CashbookPermission.manage_payment_modes
    ∷ CashbookPermission.view_attachments ∷ CashbookPermission.upload_attachment
    ∷ CashbookPermission.delete_attachment ∷ CashbookPermission.view_obligations
    ∷ CashbookPermission.manage_obligations ∷ CashbookPermission.generate_report
    ∷ CashbookPermission.view_audit_log ∷ []
permission_matrix CashbookRole.book_admin =
    CashbookPermission.view_cashbook ∷ CashbookPermission.update_cashbook
    ∷ CashbookPermission.view_members ∷ CashbookPermission.view_entries
    ∷ CashbookPermission.create_entry ∷ CashbookPermission.update_entry
    ∷ CashbookPermission.delete_entry ∷ CashbookPermission.approve_delete
    ∷ CashbookPermission.view_categories ∷ CashbookPermission.manage_categories
    ∷ CashbookPermission.view_contacts ∷ CashbookPermission.manage_contacts
    ∷ CashbookPermission.view_payment_modes ∷ CashbookPermission.manage_payment_modes
    ∷ CashbookPermission.view_attachments ∷ CashbookPermission.upload_attachment
    ∷ CashbookPermission.delete_attachment ∷ CashbookPermission.view_obligations
    ∷ CashbookPermission.manage_obligations ∷ CashbookPermission.generate_report
    ∷ CashbookPermission.view_audit_log ∷ []
permission_matrix CashbookRole.data_operator =
    CashbookPermission.view_cashbook ∷ CashbookPermission.view_members
    ∷ CashbookPermission.view_entries ∷ CashbookPermission.create_entry
    ∷ CashbookPermission.update_entry ∷ CashbookPermission.view_categories
    ∷ CashbookPermission.view_contacts ∷ CashbookPermission.view_payment_modes
    ∷ CashbookPermission.view_attachments ∷ CashbookPermission.upload_attachment
    ∷ CashbookPermission.view_obligations ∷ CashbookPermission.generate_report ∷ []
permission_matrix CashbookRole.viewer =
    CashbookPermission.view_cashbook ∷ CashbookPermission.view_members
    ∷ CashbookPermission.view_entries ∷ CashbookPermission.view_categories
    ∷ CashbookPermission.view_contacts ∷ CashbookPermission.view_payment_modes
    ∷ CashbookPermission.view_attachments ∷ CashbookPermission.view_obligations
    ∷ CashbookPermission.generate_report ∷ []

unfoldable pub has_permission : CashbookRole → CashbookPermission → Bool
has_permission role permission =
    any (λ p. permission_index p == permission_index permission) (permission_matrix role)
