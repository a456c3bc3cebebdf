-- ===== src/Rbac/Approval.antt =====
-- Applying with the approval of other users: `allows_apply_if_approved_by` of config_rbac.rs.
use autoschematic.Prelude.{
  ◌≡◌, ◌↔◌, ◌⊎◌, inl, inr, refl, subst, Text, true, ◌&&◌, none, some, List, any, In, any_sound,
  any_complete, ==_iff, ==_refl, ◌==◌, nat_equality, option_equality, list_equality, Option-cases,
  arith,
}
use autoschematic.Prelude.Dict
use autoschematic.Prelude.Dict.{Dict}
use autoschematic.Rbac.{
  User, Grant, apply_if_approved_by, PrefixGrant, Role, role_eq, RbacConfig, is_role,
  approver_has_role, approved_grant, matches_connectors, contains, allows_apply_if_approved_by,
}
use autoschematic.Rbac.Access.{Granted, Holds, roles_for_user_iff, grants_for_prefix_iff}

-- The grant covers the connector: it has no list of connectors, or its list names it.
abbrev pub Covers : PrefixGrant → Text → Type 0
Covers g connector =
    (g.connectors ≡ none) ⊎ ((cs : List Text) × (g.connectors ≡ some cs) × In connector cs)

-- The user holds a role that is equal to the definition which the configuration has under a name.
abbrev pub HoldsNamed : RbacConfig → Text → User → Type 0
HoldsNamed cfg role user =
    (defined : Role) × (held : Role) × (Dict.get role cfg.roles ≡ some defined)
    × Holds cfg.roles user held
    × (role_eq defined held ≡ true)

contains_iff : (cs : List Text) (c : Text) → (contains cs c ≡ true) ↔ In c cs
contains_iff cs c = (
  λ h. let (x, i, q) = any_sound (λ x. x == c) cs h in subst (λ x. In x cs) ((==_iff x c).0 q) i,
  λ i. any_complete (λ x. x == c) cs c i (==_refl c),
)

matches_connectors_iff :
    (g : PrefixGrant) (connector : Text)
    → (matches_connectors g connector ≡ true) ↔ Covers g connector
matches_connectors_iff g connector = elim (Option-cases g.connectors) [
  | inl e ↦ (λ h. inl e, λ c. rw e refl)
  | inr (cs, e) ↦ (
    λ h. inr (cs, e, (contains_iff cs connector).0 (ground arith)),
    λ c. ground (arith, c, (contains_iff cs connector).1),
  )
]

is_role_iff :
    (cfg : RbacConfig) (role : Text) (held : Role)
    → (is_role cfg role held ≡ true) ↔ (
        (defined : Role) × (Dict.get role cfg.roles ≡ some defined) × (role_eq defined held ≡ true))
is_role_iff cfg role held = elim (Option-cases (Dict.get role cfg.roles)) [
  | inl e ↦ (λ h. cc, λ (d, p, q). cc)
  | inr (d, e) ↦ (λ h. (d, e, ground arith), λ (d', p, q). rw (p, is_role) q)
]

approver_has_role_iff :
    (cfg : RbacConfig) (role : Text) (user : User)
    → (approver_has_role cfg role user ≡ true) ↔ HoldsNamed cfg role user
approver_has_role_iff cfg role user = (
  λ h.
      let (held, i, q) = any_sound (is_role cfg role) _ h in
      let (defined, p, same) = (is_role_iff cfg role held).0 q in
      (defined, held, p, (roles_for_user_iff cfg user held).0 i, same),
  λ (defined, held, p, holds, same).
      any_complete (is_role cfg role) _ held ((roles_for_user_iff cfg user held).1 holds)
        ((is_role_iff cfg role held).1 (defined, p, same)),
)

-- Some user who approved holds the role.
abbrev pub IsApproved : RbacConfig → Text → List User → Type 0
IsApproved cfg role approvers = (a : User) × In a approvers × HoldsNamed cfg role a

IsApproved-iff :
    (cfg : RbacConfig) (connector role : Text) (approvers : List User) (g : PrefixGrant)
    → (any (λ a. approver_has_role cfg role a && matches_connectors g connector) approvers ≡ true)
      ↔ (IsApproved cfg role approvers × Covers g connector)
IsApproved-iff cfg connector role approvers g = (
  λ h.
      let (a, i, q) =
        any_sound (λ a. approver_has_role cfg role a && matches_connectors g connector) approvers
          h in
      (
        (a, i, (approver_has_role_iff cfg role a).0 (ground arith)),
        (matches_connectors_iff g connector).0 (ground arith),
      ),
  λ ((a, i, q), c).
      any_complete (λ a. approver_has_role cfg role a && matches_connectors g connector) approvers a
        i
        (ground (
          arith,
          (approver_has_role_iff cfg role a).1 q,
          (matches_connectors_iff g connector).1 c,
        )),
)

approved_grant_iff :
    (cfg : RbacConfig) (connector : Text) (approvers : List User) (g : PrefixGrant)
    → (approved_grant cfg connector approvers g ≡ true) ↔ (
        (role : Text) × (g.grant ≡ apply_if_approved_by role)
        × IsApproved cfg role approvers
        × Covers g connector)
approved_grant_iff cfg connector approvers g = by_grant g.grant refl
  where
    by_grant :
        (v : Grant)
        → g.grant ≡ v
        → (approved_grant cfg connector approvers g ≡ true) ↔ (
            (role : Text) × (g.grant ≡ apply_if_approved_by role)
            × IsApproved cfg role approvers
            × Covers g connector)
    by_grant (apply_if_approved_by role) e = (
      λ h.
          let (a, c) = (IsApproved-iff cfg connector role approvers g).0 (rw e at h) in
          (role, e, a, c),
      λ (r, p, a, c). rw p ((IsApproved-iff cfg connector r approvers g).1 (a, c)),
    )
    by_grant v e = (λ h. cc, λ (r, p, a, c). cc)

-- Applying is allowed on approval exactly where some role that lists the user has, at the prefix, a
-- grant `ApplyIfApprovedBy` of a role, its list of connectors is absent or names the connector, and
-- some user among those who approved holds a role equal to the one defined under that name. The
-- approving user may be the applying user.
pub allows_apply_if_approved_by_iff :
    (cfg : RbacConfig) (user : User) (prefix connector : Text) (approvers : List User)
    → (allows_apply_if_approved_by cfg user prefix connector approvers ≡ true) ↔ (
        (g : PrefixGrant) × (role : Text) × Granted cfg user prefix g
        × (g.grant ≡ apply_if_approved_by role)
        × IsApproved cfg role approvers
        × Covers g connector)
unfolding allows_apply_if_approved_by
allows_apply_if_approved_by_iff cfg user prefix connector approvers = (
  λ h.
      let (g, i, q) = any_sound (approved_grant cfg connector approvers) _ h in
      let (role, e, a, c) = (approved_grant_iff cfg connector approvers g).0 q in
      (g, role, (grants_for_prefix_iff cfg user prefix g).0 i, e, a, c),
  λ (g, role, granted, e, a, c).
      any_complete (approved_grant cfg connector approvers) _ g
        ((grants_for_prefix_iff cfg user prefix g).1 granted)
        ((approved_grant_iff cfg connector approvers g).1 (role, e, a, c)),
)
