-- ===== src/Access/Workspace.antt =====
-- src/core/types/workspace-permissions.ts: what each role may do in a workspace, and the roles that
-- it may assign.
pub mod Limits
use project_task_cashbook_ba.Base.{
  ℕ, ◌==◌, Bool, true, false, not, ◌||◌, Option, none, some, List, [], ◌∷◌, ◌++◌, any,
  if◌then◌else◌,
}

pub data WorkspaceRole : Type 0 where
  owner admin general_manager accountant sub_accountant project_manager hr : WorkspaceRole
  member developer : WorkspaceRole

pub data WorkspacePermission : Type 0 where
  view_workspace update_workspace delete_workspace view_members manage_members : WorkspacePermission
  manage_sub_accountants import_members create_cashbook access_all_cashbooks view_wallets :
      WorkspacePermission
  view_wallet_balances manage_wallets view_chart_of_accounts manage_chart_of_accounts :
      WorkspacePermission
  view_ledger post_manual_journal close_period view_financial_reports view_inventory :
      WorkspacePermission
  manage_inventory view_invoicing manage_invoicing view_catalog manage_catalog : WorkspacePermission
  manage_reference_data view_audit_log use_projects use_tasks use_time_tracking manage_projects :
      WorkspacePermission
  manage_tasks assign_tasks approve_task_work approve_expense_claim manage_attendance :
      WorkspacePermission
  view_all_attendance approve_leave approve_overtime approve_work_report force_close_session :
      WorkspacePermission
  waive_attendance_flag view_worker_monitoring log_time_on_behalf edit_others_time :
      WorkspacePermission
  view_ticketing sell_tickets void_ticket_sale manage_ticketing reconcile_ticket_shift :
      WorkspacePermission
  manage_memberships view_ticket_analytics manage_api_keys view_integration_docs :
      WorkspacePermission

-- The positions in the enumerations.
abbrev pub role_index : WorkspaceRole → ℕ
role_index WorkspaceRole.owner = 0
role_index WorkspaceRole.admin = 1
role_index WorkspaceRole.general_manager = 2
role_index WorkspaceRole.accountant = 3
role_index WorkspaceRole.sub_accountant = 4
role_index WorkspaceRole.project_manager = 5
role_index WorkspaceRole.hr = 6
role_index WorkspaceRole.member = 7
role_index WorkspaceRole.developer = 8

abbrev pub permission_index : WorkspacePermission → ℕ
permission_index WorkspacePermission.view_workspace = 0
permission_index WorkspacePermission.update_workspace = 1
permission_index WorkspacePermission.delete_workspace = 2
permission_index WorkspacePermission.view_members = 3
permission_index WorkspacePermission.manage_members = 4
permission_index WorkspacePermission.manage_sub_accountants = 5
permission_index WorkspacePermission.import_members = 6
permission_index WorkspacePermission.create_cashbook = 7
permission_index WorkspacePermission.access_all_cashbooks = 8
permission_index WorkspacePermission.view_wallets = 9
permission_index WorkspacePermission.view_wallet_balances = 10
permission_index WorkspacePermission.manage_wallets = 11
permission_index WorkspacePermission.view_chart_of_accounts = 12
permission_index WorkspacePermission.manage_chart_of_accounts = 13
permission_index WorkspacePermission.view_ledger = 14
permission_index WorkspacePermission.post_manual_journal = 15
permission_index WorkspacePermission.close_period = 16
permission_index WorkspacePermission.view_financial_reports = 17
permission_index WorkspacePermission.view_inventory = 18
permission_index WorkspacePermission.manage_inventory = 19
permission_index WorkspacePermission.view_invoicing = 20
permission_index WorkspacePermission.manage_invoicing = 21
permission_index WorkspacePermission.view_catalog = 22
permission_index WorkspacePermission.manage_catalog = 23
permission_index WorkspacePermission.manage_reference_data = 24
permission_index WorkspacePermission.view_audit_log = 25
permission_index WorkspacePermission.use_projects = 26
permission_index WorkspacePermission.use_tasks = 27
permission_index WorkspacePermission.use_time_tracking = 28
permission_index WorkspacePermission.manage_projects = 29
permission_index WorkspacePermission.manage_tasks = 30
permission_index WorkspacePermission.assign_tasks = 31
permission_index WorkspacePermission.approve_task_work = 32
permission_index WorkspacePermission.approve_expense_claim = 33
permission_index WorkspacePermission.manage_attendance = 34
permission_index WorkspacePermission.view_all_attendance = 35
permission_index WorkspacePermission.approve_leave = 36
permission_index WorkspacePermission.approve_overtime = 37
permission_index WorkspacePermission.approve_work_report = 38
permission_index WorkspacePermission.force_close_session = 39
permission_index WorkspacePermission.waive_attendance_flag = 40
permission_index WorkspacePermission.view_worker_monitoring = 41
permission_index WorkspacePermission.log_time_on_behalf = 42
permission_index WorkspacePermission.edit_others_time = 43
permission_index WorkspacePermission.view_ticketing = 44
permission_index WorkspacePermission.sell_tickets = 45
permission_index WorkspacePermission.void_ticket_sale = 46
permission_index WorkspacePermission.manage_ticketing = 47
permission_index WorkspacePermission.reconcile_ticket_shift = 48
permission_index WorkspacePermission.manage_memberships = 49
permission_index WorkspacePermission.view_ticket_analytics = 50
permission_index WorkspacePermission.manage_api_keys = 51
permission_index WorkspacePermission.view_integration_docs = 52

abbrev pub same : WorkspacePermission → WorkspacePermission → Bool
same a b = permission_index a == permission_index b

-- `Object.values(WorkspacePermission)`
abbrev pub all_permissions : List WorkspacePermission
all_permissions =
    WorkspacePermission.view_workspace ∷ WorkspacePermission.update_workspace
    ∷ WorkspacePermission.delete_workspace ∷ WorkspacePermission.view_members
    ∷ WorkspacePermission.manage_members ∷ WorkspacePermission.manage_sub_accountants
    ∷ WorkspacePermission.import_members ∷ WorkspacePermission.create_cashbook
    ∷ WorkspacePermission.access_all_cashbooks ∷ WorkspacePermission.view_wallets
    ∷ WorkspacePermission.view_wallet_balances ∷ WorkspacePermission.manage_wallets
    ∷ WorkspacePermission.view_chart_of_accounts ∷ WorkspacePermission.manage_chart_of_accounts
    ∷ WorkspacePermission.view_ledger ∷ WorkspacePermission.post_manual_journal
    ∷ WorkspacePermission.close_period ∷ WorkspacePermission.view_financial_reports
    ∷ WorkspacePermission.view_inventory ∷ WorkspacePermission.manage_inventory
    ∷ WorkspacePermission.view_invoicing ∷ WorkspacePermission.manage_invoicing
    ∷ WorkspacePermission.view_catalog ∷ WorkspacePermission.manage_catalog
    ∷ WorkspacePermission.manage_reference_data ∷ WorkspacePermission.view_audit_log
    ∷ WorkspacePermission.use_projects ∷ WorkspacePermission.use_tasks
    ∷ WorkspacePermission.use_time_tracking ∷ WorkspacePermission.manage_projects
    ∷ WorkspacePermission.manage_tasks ∷ WorkspacePermission.assign_tasks
    ∷ WorkspacePermission.approve_task_work ∷ WorkspacePermission.approve_expense_claim
    ∷ WorkspacePermission.manage_attendance ∷ WorkspacePermission.view_all_attendance
    ∷ WorkspacePermission.approve_leave ∷ WorkspacePermission.approve_overtime
    ∷ WorkspacePermission.approve_work_report ∷ WorkspacePermission.force_close_session
    ∷ WorkspacePermission.waive_attendance_flag ∷ WorkspacePermission.view_worker_monitoring
    ∷ WorkspacePermission.log_time_on_behalf ∷ WorkspacePermission.edit_others_time
    ∷ WorkspacePermission.view_ticketing ∷ WorkspacePermission.sell_tickets
    ∷ WorkspacePermission.void_ticket_sale ∷ WorkspacePermission.manage_ticketing
    ∷ WorkspacePermission.reconcile_ticket_shift ∷ WorkspacePermission.manage_memberships
    ∷ WorkspacePermission.view_ticket_analytics ∷ WorkspacePermission.manage_api_keys
    ∷ WorkspacePermission.view_integration_docs ∷ []

abbrev pub collaboration : List WorkspacePermission
collaboration =
    WorkspacePermission.view_workspace ∷ WorkspacePermission.view_members
    ∷ WorkspacePermission.use_projects ∷ WorkspacePermission.use_tasks
    ∷ WorkspacePermission.use_time_tracking ∷ WorkspacePermission.view_wallets ∷ []

abbrev pub project_delivery : List WorkspacePermission
project_delivery =
    WorkspacePermission.manage_projects ∷ WorkspacePermission.manage_tasks
    ∷ WorkspacePermission.assign_tasks ∷ WorkspacePermission.approve_task_work
    ∷ WorkspacePermission.approve_expense_claim ∷ WorkspacePermission.view_worker_monitoring
    ∷ WorkspacePermission.log_time_on_behalf ∷ WorkspacePermission.edit_others_time ∷ []

abbrev pub people_ops : List WorkspacePermission
people_ops =
    WorkspacePermission.manage_attendance ∷ WorkspacePermission.view_all_attendance
    ∷ WorkspacePermission.approve_leave ∷ WorkspacePermission.approve_overtime
    ∷ WorkspacePermission.approve_work_report ∷ WorkspacePermission.force_close_session
    ∷ WorkspacePermission.view_worker_monitoring ∷ WorkspacePermission.log_time_on_behalf
    ∷ WorkspacePermission.edit_others_time ∷ []

abbrev pub accounting : List WorkspacePermission
accounting =
    WorkspacePermission.view_wallet_balances ∷ WorkspacePermission.manage_wallets
    ∷ WorkspacePermission.view_chart_of_accounts ∷ WorkspacePermission.view_ledger
    ∷ WorkspacePermission.view_financial_reports ∷ WorkspacePermission.view_inventory
    ∷ WorkspacePermission.manage_inventory ∷ WorkspacePermission.view_invoicing
    ∷ WorkspacePermission.manage_invoicing ∷ WorkspacePermission.view_catalog
    ∷ WorkspacePermission.manage_catalog ∷ WorkspacePermission.manage_reference_data
    ∷ WorkspacePermission.create_cashbook ∷ WorkspacePermission.post_manual_journal ∷ []

abbrev pub ticketing_admin : List WorkspacePermission
ticketing_admin =
    WorkspacePermission.view_ticketing ∷ WorkspacePermission.sell_tickets
    ∷ WorkspacePermission.void_ticket_sale ∷ WorkspacePermission.manage_ticketing
    ∷ WorkspacePermission.reconcile_ticket_shift ∷ WorkspacePermission.manage_memberships
    ∷ WorkspacePermission.view_ticket_analytics ∷ []

-- `ps.filter((p) => p !== q)`
abbrev pub without : WorkspacePermission → List WorkspacePermission → List WorkspacePermission
without q [] = []
without q (p ∷ ps) = let rest = without q ps in if same p q then rest else p ∷ rest

abbrev pub permission_matrix : WorkspaceRole → List WorkspacePermission
permission_matrix WorkspaceRole.owner = all_permissions
permission_matrix WorkspaceRole.admin =
    collaboration
    ++ accounting
    ++ project_delivery
    ++ people_ops
    ++ ticketing_admin
    ++ (WorkspacePermission.update_workspace ∷ WorkspacePermission.manage_members
        ∷ WorkspacePermission.manage_sub_accountants ∷ WorkspacePermission.access_all_cashbooks
        ∷ WorkspacePermission.manage_chart_of_accounts ∷ WorkspacePermission.close_period
        ∷ WorkspacePermission.view_audit_log ∷ WorkspacePermission.waive_attendance_flag ∷ [])
permission_matrix WorkspaceRole.general_manager =
    collaboration
    ++ without WorkspacePermission.post_manual_journal accounting
    ++ project_delivery
    ++ people_ops
    ++ ticketing_admin
    ++ (WorkspacePermission.manage_members ∷ WorkspacePermission.access_all_cashbooks
        ∷ WorkspacePermission.view_audit_log ∷ WorkspacePermission.waive_attendance_flag ∷ [])
permission_matrix WorkspaceRole.project_manager = collaboration ++ project_delivery
permission_matrix WorkspaceRole.hr =
    collaboration ++ people_ops ++ (WorkspacePermission.manage_members ∷ [])
permission_matrix WorkspaceRole.accountant =
    collaboration
    ++ accounting
    ++ (WorkspacePermission.access_all_cashbooks ∷ WorkspacePermission.manage_chart_of_accounts
        ∷ WorkspacePermission.close_period ∷ WorkspacePermission.view_audit_log
        ∷ WorkspacePermission.manage_sub_accountants ∷ WorkspacePermission.view_ticketing
        ∷ WorkspacePermission.view_ticket_analytics ∷ [])
permission_matrix WorkspaceRole.sub_accountant =
    collaboration
    ++ accounting
    ++ (WorkspacePermission.view_ticketing ∷ WorkspacePermission.view_ticket_analytics ∷ [])
permission_matrix WorkspaceRole.member = collaboration
permission_matrix WorkspaceRole.developer =
    collaboration
    ++ (WorkspacePermission.manage_api_keys ∷ WorkspacePermission.view_integration_docs ∷ [])

abbrev pub holds : WorkspaceRole → WorkspacePermission → Bool
holds role permission = any (λ p. same p permission) (permission_matrix role)

unfoldable pub has_workspace_permission : Option WorkspaceRole → WorkspacePermission → Bool
has_workspace_permission none permission = false
has_workspace_permission (some role) permission = holds role permission

abbrev pub assignable_roles : WorkspaceRole → List WorkspaceRole
assignable_roles WorkspaceRole.owner =
    WorkspaceRole.admin ∷ WorkspaceRole.general_manager ∷ WorkspaceRole.accountant
    ∷ WorkspaceRole.sub_accountant ∷ WorkspaceRole.project_manager ∷ WorkspaceRole.hr
    ∷ WorkspaceRole.member ∷ WorkspaceRole.developer ∷ []
assignable_roles WorkspaceRole.admin =
    WorkspaceRole.general_manager ∷ WorkspaceRole.accountant ∷ WorkspaceRole.sub_accountant
    ∷ WorkspaceRole.project_manager ∷ WorkspaceRole.hr ∷ WorkspaceRole.member
    ∷ WorkspaceRole.developer ∷ []
assignable_roles WorkspaceRole.general_manager =
    WorkspaceRole.project_manager ∷ WorkspaceRole.hr ∷ WorkspaceRole.member
    ∷ WorkspaceRole.developer ∷ []
assignable_roles WorkspaceRole.accountant = WorkspaceRole.sub_accountant ∷ WorkspaceRole.member ∷ []
assignable_roles WorkspaceRole.hr = WorkspaceRole.member ∷ []
assignable_roles _ = []

unfoldable pub may_assign : WorkspaceRole → WorkspaceRole → Bool
may_assign actor target =
    any (λ role. role_index role == role_index target) (assignable_roles actor)

abbrev pub finance_roles : List WorkspaceRole
finance_roles =
    WorkspaceRole.owner ∷ WorkspaceRole.admin ∷ WorkspaceRole.general_manager
    ∷ WorkspaceRole.accountant ∷ WorkspaceRole.sub_accountant ∷ []
