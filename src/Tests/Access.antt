-- ===== src/Tests/Access.antt =====
-- Permissions of particular roles.
use project_task_cashbook_ba.Base.{
  ◌≡◌, ◌≢◌, refl, ◌==◌, true, false, not, ◌&&◌, ◌||◌, some, none, any, arith,
}
use project_task_cashbook_ba.Access.Cashbook.{CashbookRole, CashbookPermission, has_permission}
use project_task_cashbook_ba.Access.Cashbook.Order.{has_permission_mono}
use project_task_cashbook_ba.Access.Workspace.{
  WorkspaceRole, WorkspacePermission, same, role_index, has_workspace_permission, may_assign,
  finance_roles,
}
use project_task_cashbook_ba.Access.Workspace.Limits.{may_assign_limits, finance_roles_hold}
use project_task_cashbook_ba.Access.Desk.{StaffTag, can_at_ticket_desk}
use project_task_cashbook_ba.Access.Desk.Grants.{works_desk, ticket_desk_staff}

has_permission_mono_example :
    has_permission CashbookRole.admin CashbookPermission.create_entry ≡ true
unfolding has_permission
has_permission_mono_example =
    has_permission_mono CashbookRole.data_operator CashbookRole.admin
      CashbookPermission.create_entry (omega arith) refl

may_assign_limits_example :
    (WorkspaceRole.hr ≢ WorkspaceRole.general_manager)
    × (WorkspaceRole.hr ≢ WorkspaceRole.owner)
    × ((p : WorkspacePermission)
        → WorkspaceRole.hr ≢ WorkspaceRole.developer
        → has_workspace_permission (some WorkspaceRole.hr) p ≡ true
        → has_workspace_permission (some WorkspaceRole.general_manager) p ≡ true)
unfolding may_assign
may_assign_limits_example = may_assign_limits WorkspaceRole.general_manager WorkspaceRole.hr refl

-- An admin may make a developer, who manages API keys, which the admin may not.
assign-developer :
    (may_assign WorkspaceRole.admin WorkspaceRole.developer ≡ true)
    × (has_workspace_permission (some WorkspaceRole.developer) WorkspacePermission.manage_api_keys
        ≡ true)
    × (has_workspace_permission (some WorkspaceRole.admin) WorkspacePermission.manage_api_keys
        ≡ false)
unfolding may_assign has_workspace_permission
assign-developer = (refl, refl, refl)

finance_roles_hold_example :
    has_workspace_permission
      (some WorkspaceRole.general_manager)
      WorkspacePermission.post_manual_journal
    ≡ any (λ r. role_index r == role_index WorkspaceRole.general_manager) finance_roles
      && not (
          role_index WorkspaceRole.general_manager == role_index WorkspaceRole.general_manager
          && same WorkspacePermission.post_manual_journal WorkspacePermission.post_manual_journal)
finance_roles_hold_example =
    finance_roles_hold WorkspaceRole.general_manager WorkspacePermission.post_manual_journal refl

ticket_desk_staff_example :
    (can_at_ticket_desk none (some StaffTag.ticketing) WorkspacePermission.sell_tickets ≡ false)
    × (can_at_ticket_desk
          (some WorkspaceRole.member)
          (some StaffTag.ticketing)
          WorkspacePermission.sell_tickets
        ≡ works_desk WorkspacePermission.sell_tickets)
    × (can_at_ticket_desk
          (some WorkspaceRole.accountant)
          (some StaffTag.ticketing)
          WorkspacePermission.sell_tickets
        ≡ can_at_ticket_desk (some WorkspaceRole.accountant) none WorkspacePermission.sell_tickets
          || works_desk WorkspacePermission.sell_tickets)
    × ((tag : StaffTag)
        → tag ≢ StaffTag.ticketing
        → can_at_ticket_desk
            (some WorkspaceRole.accountant)
            (some tag)
            WorkspacePermission.sell_tickets
          ≡ can_at_ticket_desk
              (some WorkspaceRole.accountant)
              none
              WorkspacePermission.sell_tickets)
ticket_desk_staff_example =
    ticket_desk_staff WorkspaceRole.accountant (some StaffTag.ticketing)
      WorkspacePermission.sell_tickets
