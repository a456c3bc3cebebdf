-- ===== src/Rbac/Access.antt =====
-- Who is granted what: the queries of config_rbac.rs against the configuration read as a relation.
use autoschematic.Prelude.{
  ◌≡◌, ◌↔◌, ◌⊎◌, inl, inr, refl, sym, ap, subst, ◌∙◌, Text, Bool, true, ◌&&◌, some, List, [], ◌∷◌,
  any, In, any_sound, any_complete, In-append, In-append_left, In-append_right, ==_iff, ==_refl,
  ◌==◌, list_equality, nat_equality, Bool-cases, Option-cases, arith,
}
use autoschematic.Prelude.Dict
use autoschematic.Prelude.Dict.{Dict}
use autoschematic.Rbac.{
  User, github_user, Grant, apply_if_approved_by, apply, user_eq, PrefixGrant, Role, RbacConfig,
  push_role, roles_of, roles_for_user, grants_in, grants_for_prefix, at_least_read_only, is_apply,
  names_connector, allows_read, allows_apply_without_approval, allows_apply_with_approval,
  is_approval_grant,
}

-- The user holds the role: some entry of the map defines it and lists the user.
abbrev pub Holds : Dict Text Role → User → Role → Type 0
Holds roles user role = (name : Text) × In (name, role) roles × In user role.users

-- Some role of the user has this grant at the prefix.
abbrev pub Granted : RbacConfig → User → Text → PrefixGrant → Type 0
Granted cfg user prefix g =
    (role : Role) × Holds cfg.roles user role × (Dict.get prefix role.prefixes ≡ some g)

-- The grant names the connector in its list.
abbrev pub Names : PrefixGrant → Text → Type 0
Names g connector = (cs : List Text) × (g.connectors ≡ some cs) × In connector cs

pub user_eq_iff : (a b : User) → (user_eq a b ≡ true) ↔ (a ≡ b)
user_eq_iff (github_user a) (github_user b) = ground (arith, ==_iff a b)

push_role_sound :
    (user : User) (role r : Role) (us : List User)
    → In r (push_role user role us)
    → (role ≡ r) × In user us
unfolding push_role
push_role_sound user role r [] i = elim i [ ]
push_role_sound user role r (u ∷ us) i = elim (Bool-cases (user_eq u user)) [
  | inl e ↦ elim (rw e at i) [
    | inl same ↦ (same, inl ((user_eq_iff u user).0 e))
    | inr later ↦ let (s, m) = push_role_sound user role r us later in (s, inr m)
  ]
  | inr e ↦ let (s, m) = push_role_sound user role r us (rw e at i) in (s, inr m)
]

push_role_complete :
    (user : User) (role : Role) (us : List User) → In user us → In role (push_role user role us)
unfolding push_role
push_role_complete user role [] i = elim i [ ]
push_role_complete user role (u ∷ us) (inl e) = rw ((user_eq_iff u user).1 e) (inl refl)
push_role_complete user role (u ∷ us) (inr i) = elim (Bool-cases (user_eq u user)) [
  | inl e ↦ rw e (inr (push_role_complete user role us i))
  | inr e ↦ rw e (push_role_complete user role us i)
]

roles_of_sound :
    (user : User) (rs : Dict Text Role) (r : Role) → In r (roles_of user rs) → Holds rs user r
unfolding roles_of
roles_of_sound user [] r i = elim i [ ]
roles_of_sound user ((name, role) ∷ rs) r i =
    elim (In-append (push_role user role role.users) (roles_of user rs) r i) [
      | inl here ↦
          let (same, m) = push_role_sound user role r role.users here in
          (name, inl (ap (λ x. (name, x)) same), subst (λ x. In user x.users) same m)
      | inr later ↦ let (n, j, m) = roles_of_sound user rs r later in (n, inr j, m)
    ]

roles_of_complete :
    (user : User) (rs : Dict Text Role) (r : Role) → Holds rs user r → In r (roles_of user rs)
unfolding roles_of
roles_of_complete user [] r (n, i, m) = elim i [ ]
roles_of_complete user ((name, role) ∷ rs) r (n, inl e, m) =
    let same : role ≡ r = ap (λ x. x.1) e in
    In-append_left (push_role user role role.users) (roles_of user rs) r (
      subst (λ x. In x (push_role user role role.users)) same
        (push_role_complete user role role.users (subst (λ x. In user x.users) (sym same) m)))
roles_of_complete user ((name, role) ∷ rs) r (n, inr i, m) =
    In-append_right (push_role user role role.users) (roles_of user rs) r
      (roles_of_complete user rs r (n, i, m))

-- `roles_for_user` returns exactly the roles of the configuration that list the user.
pub roles_for_user_iff :
    (cfg : RbacConfig) (user : User) (r : Role)
    → In r (roles_for_user cfg user) ↔ Holds cfg.roles user r
unfolding roles_for_user
roles_for_user_iff cfg user r =
    (roles_of_sound user cfg.roles r, roles_of_complete user cfg.roles r)

grants_in_sound :
    (prefix : Text) (rs : List Role) (g : PrefixGrant)
    → In g (grants_in prefix rs)
    → (r : Role) × In r rs × (Dict.get prefix r.prefixes ≡ some g)
unfolding grants_in
grants_in_sound prefix [] g i = elim i [ ]
grants_in_sound prefix (role ∷ rs) g i = elim (Option-cases (Dict.get prefix role.prefixes)) [
  | inl e ↦ let (r, j, p) = grants_in_sound prefix rs g (rw (e, grants_in) at i) in (r, inr j, p)
  | inr (h, e) ↦ elim (rw (e, grants_in) at i) [
    | inl same ↦ (role, inl refl, e ∙ ap some same)
    | inr later ↦ let (r, j, p) = grants_in_sound prefix rs g later in (r, inr j, p)
  ]
]

grants_in_complete :
    (prefix : Text) (rs : List Role) (g : PrefixGrant) (r : Role)
    → In r rs
    → Dict.get prefix r.prefixes ≡ some g
    → In g (grants_in prefix rs)
unfolding grants_in
grants_in_complete prefix [] g r i p = elim i [ ]
grants_in_complete prefix (role ∷ rs) g r (inl same) p =
    let e : Dict.get prefix role.prefixes ≡ some g =
      ap (λ (x : Role). Dict.get prefix x.prefixes) same ∙ p in
    rw (e, grants_in) (inl refl)
grants_in_complete prefix (role ∷ rs) g r (inr i) p =
    let ih : In g (grants_in prefix rs) = grants_in_complete prefix rs g r i p in
    elim (Option-cases (Dict.get prefix role.prefixes)) [
      | inl e ↦ rw (e, grants_in) ih
      | inr (h, e) ↦ rw (e, grants_in) (inr ih)
    ]

-- `grants_for_prefix` returns exactly the grants that the roles of the user have at the prefix.
pub grants_for_prefix_iff :
    (cfg : RbacConfig) (user : User) (prefix : Text) (g : PrefixGrant)
    → In g (grants_for_prefix cfg user prefix) ↔ Granted cfg user prefix g
unfolding grants_for_prefix
grants_for_prefix_iff cfg user prefix g = (
  λ i.
      let (r, j, p) = grants_in_sound prefix (roles_for_user cfg user) g i in
      (r, (roles_for_user_iff cfg user r).0 j, p),
  λ (r, h, p).
      grants_in_complete prefix (roles_for_user cfg user) g r ((roles_for_user_iff cfg user r).1 h)
        p,
)

names_connector_iff :
    (g : PrefixGrant) (connector : Text) → (names_connector g connector ≡ true) ↔ Names g connector
names_connector_iff g connector = elim (Option-cases g.connectors) [
  | inl e ↦ (λ h. cc, λ (cs, p, i). cc)
  | inr (cs, e) ↦ (
    λ h.
        let (c, i, q) = any_sound (λ x. x == connector) cs (ground arith) in
        (cs, e, subst (λ x. In x cs) ((==_iff c connector).0 q) i),
    λ (ds, p, i). rw p (any_complete (λ x. x == connector) ds connector i (==_refl connector)),
  )
]

-- Each query is this shape: some grant of the user at the prefix passes a test and names the
-- connector.
query_iff :
    (cfg : RbacConfig) (user : User) (prefix connector : Text) (test : PrefixGrant → Bool)
    → (any (λ g. test g && names_connector g connector) (grants_for_prefix cfg user prefix) ≡ true)
      ↔ ((g : PrefixGrant) × Granted cfg user prefix g × (test g ≡ true) × Names g connector)
query_iff cfg user prefix connector test = (
  λ h.
      let (g, i, q) = any_sound (λ g. test g && names_connector g connector) _ h in
      (
        g,
        (grants_for_prefix_iff cfg user prefix g).0 i,
        ground arith,
        (names_connector_iff g connector).0 (ground arith),
      ),
  λ (g, granted, t, n).
      any_complete (λ g. test g && names_connector g connector) _ g
        ((grants_for_prefix_iff cfg user prefix g).1 granted)
        (ground (arith, (names_connector_iff g connector).1 n)),
)

-- Reading is allowed exactly where some role that lists the user has, at that prefix, a grant other
-- than `None` whose list of connectors is present and names the connector.
pub allows_read_iff :
    (cfg : RbacConfig) (user : User) (prefix connector : Text)
    → (allows_read cfg user prefix connector ≡ true) ↔ (
        (g : PrefixGrant) × Granted cfg user prefix g
        × (at_least_read_only g.grant ≡ true)
        × Names g connector)
unfolding allows_read
allows_read_iff cfg user prefix connector =
    query_iff cfg user prefix connector (λ g. at_least_read_only g.grant)

pub allows_apply_without_approval_iff :
    (cfg : RbacConfig) (user : User) (prefix connector : Text)
    → (allows_apply_without_approval cfg user prefix connector ≡ true) ↔ (
        (g : PrefixGrant) × Granted cfg user prefix g
        × (is_apply g.grant ≡ true)
        × Names g connector)
unfolding allows_apply_without_approval
allows_apply_without_approval_iff cfg user prefix connector =
    query_iff cfg user prefix connector (λ g. is_apply g.grant)

pub allows_apply_with_approval_iff :
    (cfg : RbacConfig) (user : User) (prefix connector : Text)
    → (allows_apply_with_approval cfg user prefix connector ≡ true) ↔ (
        (g : PrefixGrant) × Granted cfg user prefix g
        × (is_approval_grant g.grant ≡ true)
        × Names g connector)
unfolding allows_apply_with_approval
allows_apply_with_approval_iff cfg user prefix connector =
    query_iff cfg user prefix connector (λ g. is_approval_grant g.grant)

readable_apply : (g : Grant) → is_apply g ≡ true → at_least_read_only g ≡ true
readable_apply apply h = refl
readable_apply g h = cc

readable_approval : (g : Grant) → is_approval_grant g ≡ true → at_least_read_only g ≡ true
readable_approval (apply_if_approved_by r) h = refl
readable_approval g h = cc

-- A user who may apply at a prefix with a connector, with or without approval, may read there.
pub allows_read_of_allows_apply :
    (cfg : RbacConfig) (user : User) (prefix connector : Text)
    → (allows_apply_without_approval cfg user prefix connector ≡ true)
      ⊎ (allows_apply_with_approval cfg user prefix connector ≡ true)
    → allows_read cfg user prefix connector ≡ true
allows_read_of_allows_apply cfg user prefix connector (inl h) =
    let (g, granted, t, n) = (allows_apply_without_approval_iff cfg user prefix connector).0 h in
    (allows_read_iff cfg user prefix connector).1 (g, granted, readable_apply g.grant t, n)
allows_read_of_allows_apply cfg user prefix connector (inr h) =
    let (g, granted, t, n) = (allows_apply_with_approval_iff cfg user prefix connector).0 h in
    (allows_read_iff cfg user prefix connector).1 (g, granted, readable_approval g.grant t, n)
