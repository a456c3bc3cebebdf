-- ===== src/ChangeSet/Apply/Authorized.antt =====
-- Which plan reports `ChangeSet::apply` may execute.
use autoschematic.Prelude.{
  ℕ, ◌≡◌, ◌⊎◌, inr, subst, true, Option, none, some, List, Text, In, list_equality, nat_equality,
}
use autoschematic.Rbac.{
  RbacConfig, User, github_user, PrefixGrant, apply_if_approved_by, is_apply,
  allows_apply_if_approved_by,
}
use autoschematic.Rbac.Access.{Granted, Names}
use autoschematic.Rbac.Approval.{HoldsNamed, Covers, allows_apply_if_approved_by_iff}
use autoschematic.ConnectorCache.{ConnectorDef}
use autoschematic.Workflow.{PlanReport}
use autoschematic.ChangeSet.{Command, Host, is_selected}
use autoschematic.ChangeSet.Reviews.{Review, approved, get_pr_approvals}
use autoschematic.ChangeSet.Reviews.Latest.{verdict}
use autoschematic.ChangeSet.Reviews.Approvals.{get_pr_approvals_lem}
use autoschematic.ChangeSet.Apply.{path_text}

-- The role-based access control lets the user apply at the prefix with the connector: by a grant
-- `Apply`, or by a grant `ApplyIfApprovedBy` of a role that someone holds whose review that counts is
-- an approval.
abbrev pub IsAuthorized : {C R : Type 0} → Host C R → Command → Text → Text → Type 0
IsAuthorized host cmd prefix connector =
    ((g : PrefixGrant) × Granted cmd.rbac_config cmd.rbac_user prefix g
      × (is_apply g.grant ≡ true)
      × Names g connector)
    ⊎ ((reviews : List Review) × (g : PrefixGrant) × (role login : Text) × (host.list_reviews
          ≡ some reviews)
        × Granted cmd.rbac_config cmd.rbac_user prefix g
        × (g.grant ≡ apply_if_approved_by role)
        × Covers g connector
        × HoldsNamed cmd.rbac_config role (github_user login)
        × ((t : ℕ) × (verdict login reviews ≡ some (t, approved))))

-- A report that may be executed: one of the plan, without an error, with a connector that the filter
-- of the command takes, and authorized.
abbrev pub MayRun : {C R : Type 0} → Host C R → Command → List PlanReport → PlanReport → Type 0
MayRun host cmd plans plan =
    In plan plans
    × (plan.error ≡ none)
    × ((d : ConnectorDef) × (plan.connector_def ≡ some d)
        × (is_selected cmd.connector_filter d.shortname ≡ true)
        × IsAuthorized host cmd (path_text plan.prefix) d.shortname)

-- What is known of the approvals in the loop: they are of the reviews that GitHub answers.
abbrev pub AreOf : {C R : Type 0} → Host C R → List User → Type 0
AreOf host users =
    (reviews : List Review) × (host.list_reviews ≡ some reviews)
    × (users ≡ get_pr_approvals reviews)

abbrev pub IsFetched : {C R : Type 0} → Host C R → Option (List User) → Type 0
IsFetched host none = Unit
IsFetched host (some users) = AreOf host users

-- A user in the list of approvals holds the role.
abbrev ByLogin : RbacConfig → List Review → Text → Type 0
ByLogin cfg reviews role =
    (login : Text) × HoldsNamed cfg role (github_user login)
    × ((t : ℕ) × (verdict login reviews ≡ some (t, approved)))

by_login :
    (cfg : RbacConfig) (reviews : List Review) (role : Text) (a : User)
    → In a (get_pr_approvals reviews)
    → HoldsNamed cfg role a
    → ByLogin cfg reviews role
by_login cfg reviews role (github_user login) i h =
    (login, h, (get_pr_approvals_lem reviews login).0 i)

pub approved-IsAuthorized :
    {C R : Type 0} (host : Host C R) (cmd : Command) (prefix connector : Text) (users : List User)
    → AreOf host users
    → allows_apply_if_approved_by cmd.rbac_config cmd.rbac_user prefix connector users ≡ true
    → IsAuthorized host cmd prefix connector
approved-IsAuthorized host cmd prefix connector users (reviews, e, same) h =
    let (g, role, granted, p, (a, i, holds), c) =
      (allows_apply_if_approved_by_iff cmd.rbac_config cmd.rbac_user prefix connector users).0 h in
    let (login, held, t) =
      by_login cmd.rbac_config reviews role a (subst (λ us. In a us) same i) holds in
    inr (reviews, g, role, login, e, granted, p, c, held, t)
