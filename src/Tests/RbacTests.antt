-- ===== src/Tests/RbacTests.antt =====
-- Tests of autoschematic-core/src/config_rbac.rs.
use autoschematic.Prelude.{
  ◌≡◌, ◌↔◌, refl, inr, true, false, none, some, [], ◌∷◌, Text, list_equality, nat_equality, text,
}
use autoschematic.Prelude.Dict
use autoschematic.Rbac.{
  User, github_user, apply_if_approved_by, apply, PrefixGrant, Role, RbacConfig, roles_for_user,
  grants_for_prefix, allows_read, allows_apply_with_approval, allows_apply_if_approved_by, role_eq,
  at_least_read_only,
}
use autoschematic.Rbac.Access.{Granted, Names, allows_read_iff, allows_read_of_allows_apply}
use autoschematic.Rbac.Approval.{IsApproved, Covers, allows_apply_if_approved_by_iff}

abbrev pub finn : User
finn = github_user (text "finn")

abbrev jake : User
jake = github_user (text "jake")

abbrev developer : Role
developer = record {
  users = finn ∷ [];
  prefixes =
      (
        (text "pp"),
        record {
          grant = apply_if_approved_by (text "approver");
          connectors = some ((text "c1") ∷ []);
        },
      )
      ∷ [];
}

abbrev approver : Role
approver = record { users = jake ∷ []; prefixes = [] }

abbrev pub config : RbacConfig
config = record { roles = ((text "user"), developer) ∷ ((text "approver"), approver) ∷ [] }

approved_by_jake :
    allows_apply_if_approved_by config finn (text "pp") (text "c1") (jake ∷ []) ≡ true
unfolding allows_apply_if_approved_by grants_for_prefix roles_for_user role_eq Dict.get
approved_by_jake = refl

not_by_finn : allows_apply_if_approved_by config finn (text "pp") (text "c1") (finn ∷ []) ≡ false
unfolding allows_apply_if_approved_by grants_for_prefix roles_for_user role_eq Dict.get
not_by_finn = refl

-- Who holds the role approves for himself.
abbrev self_approving : RbacConfig
self_approving = record {
  roles =
      ((text "user"), developer)
      ∷ ((text "approver"), record { users = jake ∷ finn ∷ []; prefixes = [] })
      ∷ [];
}

by_finn_himself :
    allows_apply_if_approved_by self_approving finn (text "pp") (text "c1") (finn ∷ []) ≡ true
unfolding allows_apply_if_approved_by grants_for_prefix roles_for_user role_eq Dict.get
by_finn_himself = refl

allows_apply_if_approved_by_iff_example :
    (allows_apply_if_approved_by self_approving finn (text "pp") (text "c1") (finn ∷ []) ≡ true) ↔ (
      (g : PrefixGrant) × (role : Text) × Granted self_approving finn (text "pp") g
      × (g.grant ≡ apply_if_approved_by role)
      × IsApproved self_approving role (finn ∷ [])
      × Covers g (text "c1"))
allows_apply_if_approved_by_iff_example =
    allows_apply_if_approved_by_iff self_approving finn (text "pp") (text "c1") (finn ∷ [])

allows_read_iff_example : (allows_read config finn (text "pp") (text "c1") ≡ true) ↔ (
    (g : PrefixGrant) × Granted config finn (text "pp") g
    × (at_least_read_only g.grant ≡ true)
    × Names g (text "c1"))
allows_read_iff_example = allows_read_iff config finn (text "pp") (text "c1")

needs_approval : allows_apply_with_approval config finn (text "pp") (text "c1") ≡ true
unfolding allows_apply_with_approval grants_for_prefix roles_for_user Dict.get
needs_approval = refl

allows_read_of_allows_apply_example : allows_read config finn (text "pp") (text "c1") ≡ true
allows_read_of_allows_apply_example =
    allows_read_of_allows_apply config finn (text "pp") (text "c1") (inr needs_approval)

-- With no list of connectors a grant `Apply` does not even allow to read.
abbrev unlisted : RbacConfig
unlisted = record {
  roles =
      (
        (text "admin"),
        record {
          users = jake ∷ [];
          prefixes = ((text "pp"), record { grant = apply; connectors = none }) ∷ [];
        },
      )
      ∷ [];
}

unlisted_is_refused : allows_read unlisted jake (text "pp") (text "c1") ≡ false
unfolding allows_read grants_for_prefix roles_for_user Dict.get
unlisted_is_refused = refl
