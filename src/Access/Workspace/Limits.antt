-- ===== src/Access/Workspace/Limits.antt =====
-- The workspace matrix beside the roles that may be assigned and the finance roles
-- (src/core/types/workspace-permissions.ts).
use project_task_cashbook_ba.Base.{
  ◌≡◌, ◌≢◌, ◌==◌, ==_iff, refl, sym, ap, ◌∙◌, Bool, true, false, not, ◌&&◌, ◌||◌, some, List, [],
  ◌∷◌, arith, any, every, get_elem?, every-get_elem?,
}
use project_task_cashbook_ba.Access.Workspace.{
  WorkspaceRole, WorkspacePermission, all_permissions, permission_index, role_index, same,
  accounting, has_workspace_permission, may_assign, finance_roles,
}

abbrev has : WorkspaceRole → WorkspacePermission → Bool
has role permission = has_workspace_permission (some role) permission

listed : (p : WorkspacePermission) → get_elem? all_permissions (permission_index p) ≡ some p
listed WorkspacePermission.view_workspace = refl
listed _ = refl

everywhere :
    (q : WorkspacePermission → Bool) (p : WorkspacePermission)
    → every q all_permissions ≡ true
    → q p ≡ true
everywhere q p h = every-get_elem? q all_permissions (permission_index p) p h (listed p)

abbrev is_developer : WorkspaceRole → Bool
is_developer WorkspaceRole.developer = true
is_developer _ = false

abbrev no_escalation : WorkspaceRole → WorkspaceRole → WorkspacePermission → Bool
no_escalation actor target p =
    not (may_assign actor target) || (is_developer target || (not (has target p) || has actor p))

no_escalation_table :
    (actor target : WorkspaceRole) → every (no_escalation actor target) all_permissions ≡ true
unfolding may_assign has_workspace_permission
no_escalation_table WorkspaceRole.owner WorkspaceRole.owner = refl
no_escalation_table WorkspaceRole.owner _ = refl
no_escalation_table WorkspaceRole.admin WorkspaceRole.owner = refl
no_escalation_table WorkspaceRole.admin _ = refl
no_escalation_table WorkspaceRole.general_manager WorkspaceRole.owner = refl
no_escalation_table WorkspaceRole.general_manager _ = refl
no_escalation_table WorkspaceRole.accountant WorkspaceRole.owner = refl
no_escalation_table WorkspaceRole.accountant _ = refl
no_escalation_table WorkspaceRole.sub_accountant WorkspaceRole.owner = refl
no_escalation_table WorkspaceRole.sub_accountant _ = refl
no_escalation_table WorkspaceRole.project_manager WorkspaceRole.owner = refl
no_escalation_table WorkspaceRole.project_manager _ = refl
no_escalation_table WorkspaceRole.hr WorkspaceRole.owner = refl
no_escalation_table WorkspaceRole.hr _ = refl
no_escalation_table WorkspaceRole.member WorkspaceRole.owner = refl
no_escalation_table WorkspaceRole.member _ = refl
no_escalation_table WorkspaceRole.developer WorkspaceRole.owner = refl
no_escalation_table WorkspaceRole.developer _ = refl

abbrev below : WorkspaceRole → WorkspaceRole → Bool
below actor target =
    not (may_assign actor target)
    || (not (role_index target == role_index actor) && not (role_index target == 0))

below_table : (actor target : WorkspaceRole) → below actor target ≡ true
unfolding may_assign
below_table WorkspaceRole.owner WorkspaceRole.owner = refl
below_table WorkspaceRole.owner _ = refl
below_table WorkspaceRole.admin WorkspaceRole.owner = refl
below_table WorkspaceRole.admin _ = refl
below_table WorkspaceRole.general_manager WorkspaceRole.owner = refl
below_table WorkspaceRole.general_manager _ = refl
below_table WorkspaceRole.accountant WorkspaceRole.owner = refl
below_table WorkspaceRole.accountant _ = refl
below_table WorkspaceRole.sub_accountant WorkspaceRole.owner = refl
below_table WorkspaceRole.sub_accountant _ = refl
below_table WorkspaceRole.project_manager WorkspaceRole.owner = refl
below_table WorkspaceRole.project_manager _ = refl
below_table WorkspaceRole.hr WorkspaceRole.owner = refl
below_table WorkspaceRole.hr _ = refl
below_table WorkspaceRole.member WorkspaceRole.owner = refl
below_table WorkspaceRole.member _ = refl
below_table WorkspaceRole.developer WorkspaceRole.owner = refl
below_table WorkspaceRole.developer _ = refl

role_index-ne : (a b : WorkspaceRole) → not (role_index a == role_index b) ≡ true → a ≢ b
role_index-ne a b h e =
    let same_index : role_index a ≡ role_index b = ap role_index e in ground arith

is_developer-ne : (r : WorkspaceRole) → r ≢ WorkspaceRole.developer → is_developer r ≡ false
is_developer-ne WorkspaceRole.developer ne = absurd (ne refl)
is_developer-ne _ ne = refl

-- Whoever assigns a role neither holds it nor makes an owner, and, unless it is the role of a
-- developer, holds every permission that it carries.
pub may_assign_limits :
    (actor target : WorkspaceRole)
    → may_assign actor target ≡ true
    → (target ≢ actor)
      × (target ≢ WorkspaceRole.owner)
      × ((p : WorkspacePermission)
          → target ≢ WorkspaceRole.developer
          → has_workspace_permission (some target) p ≡ true
          → has_workspace_permission (some actor) p ≡ true)
may_assign_limits actor target h =
    let ok_below = below_table actor target in
    (
      role_index-ne target actor (ground arith),
      role_index-ne target WorkspaceRole.owner (ground arith),
      λ p not_developer carried.
          let all = everywhere (no_escalation actor target) p (no_escalation_table actor target) in
          let regular = is_developer-ne target not_developer in ground arith,
    )

-- What the general manager lacks of an admin's permissions.
abbrev pub withheld : List WorkspacePermission
withheld =
    WorkspacePermission.update_workspace ∷ WorkspacePermission.manage_chart_of_accounts
    ∷ WorkspacePermission.close_period ∷ WorkspacePermission.post_manual_journal
    ∷ WorkspacePermission.manage_sub_accountants ∷ []

abbrev agree : Bool → Bool → Bool
agree true b = b
agree false b = not b

agree-eq : (a b : Bool) → agree a b ≡ true → a ≡ b
agree-eq a b h = ground arith

pub same-eq : (p q : WorkspacePermission) → same p q ≡ true → p ≡ q
same-eq p q h =
    let e : permission_index p ≡ permission_index q = (==_iff _ _).0 h in
    let one : some p ≡ some q = sym (listed p) ∙ ap (get_elem? all_permissions) e ∙ listed q in cc

abbrev is_finance : WorkspaceRole → Bool
is_finance role = any (λ r. role_index r == role_index role) finance_roles

abbrev is_manager : WorkspaceRole → Bool
is_manager role = role_index role == role_index WorkspaceRole.general_manager

abbrev finance_only : WorkspaceRole → WorkspacePermission → Bool
finance_only role p =
    not (any (same p) accounting)
    || agree (has role p)
        (is_finance role && not (is_manager role && same p WorkspacePermission.post_manual_journal))

finance_table : (role : WorkspaceRole) → every (finance_only role) all_permissions ≡ true
unfolding has_workspace_permission
finance_table WorkspaceRole.owner = refl
finance_table _ = refl

-- Every accounting permission is held by exactly the finance roles, but for posting by hand, which
-- the general manager, a finance role, does not hold.
pub finance_roles_hold :
    (role : WorkspaceRole) (p : WorkspacePermission)
    → any (same p) accounting ≡ true
    → has_workspace_permission (some role) p
      ≡ any (λ r. role_index r == role_index role) finance_roles
        && not (
            role_index role == role_index WorkspaceRole.general_manager
            && same p WorkspacePermission.post_manual_journal)
finance_roles_hold role p h =
    let all = everywhere (finance_only role) p (finance_table role) in agree-eq _ _ (rw h at all)
