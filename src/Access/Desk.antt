-- ===== src/Access/Desk.antt =====
-- src/core/authz/ticketing-access.ts and workspace-access.ts: the caller's role, and who may work
-- the ticket desk.
pub mod Grants
use project_task_cashbook_ba.Base.{
  ℕ, ◌≡◌, refl, ◌==◌, Bool, true, false, not, ◌&&◌, ◌||◌, Option, none, some, List, [], ◌∷◌, ◌++◌,
  any, if◌then◌else◌, arith,
}
use project_task_cashbook_ba.Access.Workspace.{
  WorkspaceRole, WorkspacePermission, same, has_workspace_permission,
}

pub data StaffTag : Type 0 where
  bar restaurant kitchen ticketing maintenance social_media supervisor security other : StaffTag

abbrev pub ticketing_tag_grants : List WorkspacePermission
ticketing_tag_grants =
    WorkspacePermission.view_ticketing ∷ WorkspacePermission.sell_tickets
    ∷ WorkspacePermission.void_ticket_sale ∷ []

abbrev pub ticketing_permissions : List WorkspacePermission
ticketing_permissions =
    WorkspacePermission.view_ticketing ∷ WorkspacePermission.sell_tickets
    ∷ WorkspacePermission.void_ticket_sale ∷ WorkspacePermission.manage_ticketing
    ∷ WorkspacePermission.reconcile_ticket_shift ∷ WorkspacePermission.manage_memberships
    ∷ WorkspacePermission.view_ticket_analytics ∷ []

-- The first loop: the permissions of the list that the role holds.
unfoldable pub held : WorkspaceRole → List WorkspacePermission → List WorkspacePermission
held role [] = []
held role (p ∷ ps) =
    let rest = held role ps in if has_workspace_permission (some role) p then p ∷ rest else rest

abbrev pub is_ticketing : Option StaffTag → Bool
is_ticketing (some StaffTag.ticketing) = true
is_ticketing _ = false

unfoldable pub ticket_desk_capabilities :
    Option WorkspaceRole → Option StaffTag → List WorkspacePermission
unfolding held
ticket_desk_capabilities none tag = []
ticket_desk_capabilities (some role) tag =
    held role ticketing_permissions ++ (if is_ticketing tag then ticketing_tag_grants else [])

unfoldable pub can_at_ticket_desk :
    Option WorkspaceRole → Option StaffTag → WorkspacePermission → Bool
unfolding ticket_desk_capabilities
can_at_ticket_desk role tag permission =
    any (λ p. same p permission) (ticket_desk_capabilities role tag)

-- The row of a workspace, and its members' roles by user.
pub record WorkspaceRow : Type 0 where
  pub owner_id : ℕ
  pub is_active : Bool

unfoldable pub resolve_workspace_role :
    Option WorkspaceRow → (ℕ → Option WorkspaceRole) → ℕ → Option WorkspaceRole
resolve_workspace_role none members user = none
resolve_workspace_role (some workspace) members user =
    if not workspace.is_active
    then none
    else if workspace.owner_id == user
    then some WorkspaceRole.owner
    else members user

unfoldable pub workspace_user_can :
    Option WorkspaceRow → (ℕ → Option WorkspaceRole) → ℕ → WorkspacePermission → Bool
unfolding resolve_workspace_role
workspace_user_can workspace members user permission =
    has_workspace_permission (resolve_workspace_role workspace members user) permission
