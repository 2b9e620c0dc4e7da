-- ===== src/Access/Desk/Grants.antt =====
-- What the ticketing tag adds to a role.
use project_task_cashbook_ba.Base.{
  ◌≡◌, ◌≢◌, refl, sym, ap, ◌∙◌, Bool, true, false, ◌&&◌, ◌||◌, Option, none, some, List, [], ◌∷◌,
  ◌++◌, any, if◌then◌else◌, arith,
}
use project_task_cashbook_ba.Access.Workspace.{
  WorkspaceRole, WorkspacePermission, same, has_workspace_permission,
}
use project_task_cashbook_ba.Access.Desk.{
  StaffTag, ticketing_tag_grants, ticketing_permissions, held, is_ticketing, can_at_ticket_desk,
}

any-append :
    (q : WorkspacePermission → Bool) (xs ys : List WorkspacePermission)
    → any q (xs ++ ys) ≡ any q xs || any q ys
any-append q [] ys = refl
any-append q (x ∷ xs) ys = ground (arith, any-append q xs ys)

any-if :
    (b : Bool) (q : WorkspacePermission → Bool) (xs : List WorkspacePermission)
    → any q (if b then xs else []) ≡ b && any q xs
any-if true q xs = refl
any-if false q xs = refl

-- Seeing the day's sales, selling, and reversing a sale.
abbrev pub works_desk : WorkspacePermission → Bool
works_desk WorkspacePermission.view_ticketing = true
works_desk WorkspacePermission.sell_tickets = true
works_desk WorkspacePermission.void_ticket_sale = true
works_desk _ = false

tag_grants-works_desk :
    (p : WorkspacePermission) → any (λ q. same q p) ticketing_tag_grants ≡ works_desk p
tag_grants-works_desk WorkspacePermission.view_ticketing = refl
tag_grants-works_desk WorkspacePermission.sell_tickets = refl
tag_grants-works_desk WorkspacePermission.void_ticket_sale = refl
tag_grants-works_desk WorkspacePermission.view_workspace = refl
tag_grants-works_desk _ = refl

can_at_ticket_desk-tag :
    (role : WorkspaceRole) (tag : Option StaffTag) (p : WorkspacePermission)
    → can_at_ticket_desk (some role) tag p
      ≡ any (λ q. same q p) (held role ticketing_permissions) || (is_ticketing tag && works_desk p)
unfolding can_at_ticket_desk
can_at_ticket_desk-tag role tag p =
    any-append (λ q. same q p) (held role ticketing_permissions) _
    ∙ ap (λ b. any (λ q. same q p) (held role ticketing_permissions) || b)
        (any-if (is_ticketing tag) (λ q. same q p) ticketing_tag_grants
          ∙ ap (λ b. is_ticketing tag && b) (tag_grants-works_desk p))

can_at_ticket_desk-untagged :
    (role : WorkspaceRole) (tag : Option StaffTag) (p : WorkspacePermission)
    → is_ticketing tag ≡ false
    → can_at_ticket_desk (some role) tag p ≡ can_at_ticket_desk (some role) none p
can_at_ticket_desk-untagged role tag p e =
    can_at_ticket_desk-tag role tag p ∙ rw e refl ∙ sym (can_at_ticket_desk-tag role none p)

or_insert : (a b : Bool) → a || b ≡ (a || false) || b
or_insert true b = refl
or_insert false b = refl

tagged :
    (role : WorkspaceRole) (p : WorkspacePermission)
    → can_at_ticket_desk (some role) (some StaffTag.ticketing) p
      ≡ can_at_ticket_desk (some role) none p || works_desk p
tagged role p =
    can_at_ticket_desk-tag role (some StaffTag.ticketing) p
    ∙ or_insert (any (λ q. same q p) (held role ticketing_permissions)) (works_desk p)
    ∙ ap (λ b. b || works_desk p) (sym (can_at_ticket_desk-tag role none p))

other_tag : (tag : StaffTag) → tag ≢ StaffTag.ticketing → is_ticketing (some tag) ≡ false
other_tag StaffTag.ticketing ne = absurd (ne refl)
other_tag _ ne = refl

member_desk :
    (p : WorkspacePermission)
    → can_at_ticket_desk (some WorkspaceRole.member) (some StaffTag.ticketing) p ≡ works_desk p
unfolding can_at_ticket_desk has_workspace_permission
member_desk WorkspacePermission.view_workspace = refl
member_desk _ = refl

-- At the desk a plain member with the ticketing tag may do exactly this: see the day's sales, sell
-- tickets and reverse a sale. With any role the tag adds these three to what the role may do there
-- without a tag, and no other tag adds anything. Without a role nothing is granted, whatever the
-- tag.
pub ticket_desk_staff :
    (role : WorkspaceRole) (any_tag : Option StaffTag) (p : WorkspacePermission)
    → (can_at_ticket_desk none any_tag p ≡ false)
      × (can_at_ticket_desk (some WorkspaceRole.member) (some StaffTag.ticketing) p ≡ works_desk p)
      × (can_at_ticket_desk (some role) (some StaffTag.ticketing) p
          ≡ can_at_ticket_desk (some role) none p || works_desk p)
      × ((tag : StaffTag)
          → tag ≢ StaffTag.ticketing
          → can_at_ticket_desk (some role) (some tag) p ≡ can_at_ticket_desk (some role) none p)
unfolding can_at_ticket_desk
ticket_desk_staff role any_tag p = (
  refl,
  member_desk p,
  tagged role p,
  λ tag ne. can_at_ticket_desk-untagged role (some tag) p (other_tag tag ne),
)
