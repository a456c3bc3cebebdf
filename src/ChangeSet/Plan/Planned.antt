-- ===== src/ChangeSet/Plan/Planned.antt =====
-- The loops of `ChangeSet::plan`: their reports are of what they look at, and they write no file.
use autoschematic.Prelude.{
  ℕ, suc, ◌+◌, ◌≡◌, inl, inr, refl, sym, subst, Bool, true, false, Option, none, some, List, [],
  ◌∷◌, Text, In, Bool-cases, length, list_equality, nat_equality,
}
use autoschematic.Prelude.Dict.{Dict}
use autoschematic.FilePath.{FilePath, components, strip_prefix}
use autoschematic.Glob.{addr_matches_filter}
use autoschematic.Objects.{Object}
use autoschematic.Outputs.{Json}
use autoschematic.Template.{OutRegex}
use autoschematic.Rbac.{allows_read}
use autoschematic.ConnectorCache.{Config, ConnectorDef, PrefixDef}
use autoschematic.Workflow.{PlanReport}
use autoschematic.ChangeSet.{PlanReportSet, Command, Host, Step, ◌>>=◌, done, is_selected, spawn}
use autoschematic.ChangeSet.Ensures.{Ensures, then-Ensures, done-Ensures, spawn-Ensures}
use autoschematic.ChangeSet.Plan.{Options, Position, under, filtered_objects}
use autoschematic.ChangeSet.Plan.Loops.{
  plan_object, go_round, plan_objects, plan_connectors, plan_prefix, plan_prefixes,
}
use autoschematic.ChangeSet.Plan.Fresh.{reading, IsFresh, FreshAt}
use autoschematic.ChangeSet.Plan.Rounds.{plan_object_at-Fresh}

-- A report of a changed file: the file is below the prefix and the address matches the filter, the
-- connector is one of the prefix, the filters of the command take both, and the user may read there.
abbrev pub IsPlanned : Command → Options → Config → List Object → PlanReport → Type 0
IsPlanned cmd options config objects r =
    (prefix_name : Text) × (prefix : PrefixDef) × (d : ConnectorDef) × (o : Object) × In
      (prefix_name, prefix) config
    × In d prefix.connectors
    × In o objects
    × (strip_prefix o.filename (components prefix_name) ≡ some r.virt_addr)
    × (addr_matches_filter r.virt_addr options.subpath ≡ true)
    × (r.prefix ≡ components prefix_name)
    × (r.connector_def ≡ some d)
    × (is_selected options.prefix_filter prefix_name ≡ true)
    × (is_selected cmd.connector_filter d.shortname ≡ true)
    × (allows_read cmd.rbac_config cmd.rbac_user prefix_name d.shortname ≡ true)

filtered_objects_sound :
    (subpath : FilePath) (prefix_name : Text) (objects : List Object) (o : Object)
    → In o (filtered_objects subpath prefix_name objects)
    → In o objects × (under subpath prefix_name o ≡ true)
unfolding filtered_objects
filtered_objects_sound subpath prefix_name [] o i = elim i [ ]
filtered_objects_sound subpath prefix_name (p ∷ ps) o i =
    elim (Bool-cases (under subpath prefix_name p)) [
      | inl e ↦ elim (rw e at i) [
        | inl same ↦ (inl same, subst (λ x. under subpath prefix_name x ≡ true) same e)
        | inr l ↦ let (j, u) = filtered_objects_sound subpath prefix_name ps o l in (inr j, u)
      ]
      | inr e ↦
          let (j, u) = filtered_objects_sound subpath prefix_name ps o (rw e at i) in (inr j, u)
    ]

module _ {C R : Type 0} (json : Json) (fuel : ℕ) (regex : OutRegex) (from_utf8 : Text → Option Text)
    (host : Host C R) (cmd : Command) (options : Options) (config : Config)
    (objects : List Object) where
  abbrev Planned : PlanReport → Type 0
  Planned = IsPlanned cmd options config objects

  abbrev Fresh : Step C R Position → Type 0
  Fresh m = Ensures reading (FreshAt Planned) m

  done-Fresh : (b : Bool) (set : PlanReportSet) → IsFresh Planned set → Fresh (done (b, set))
  done-Fresh b set h = done-Ensures reading (FreshAt Planned) (b, set) h

  go_round-Fresh :
      (next : PlanReportSet → Step C R Position) (m : Step C R Position)
      → Fresh m
      → ((set : PlanReportSet) → IsFresh Planned set → Fresh (next set))
      → Fresh (m >>= go_round next)
  go_round-Fresh next m h k =
      then-Ensures reading (FreshAt Planned) (FreshAt Planned) m (go_round next) h go
    where
      go : (at : Position) → FreshAt Planned at → Fresh (go_round next at)
      go (true, set) f = done-Fresh true set f
      go (false, set) f = k set f

  plan_object-Fresh :
      (c : C) (i : ℕ) (prefix_name : Text) (prefix : PrefixDef) (d : ConnectorDef) (o : Object)
      (set : PlanReportSet)
      → In (prefix_name, prefix) config
      → In d prefix.connectors
      → In o objects
      → under options.subpath prefix_name o ≡ true
      → is_selected options.prefix_filter prefix_name ≡ true
      → is_selected cmd.connector_filter d.shortname ≡ true
      → allows_read cmd.rbac_config cmd.rbac_user prefix_name d.shortname ≡ true
      → IsFresh Planned set
      → Fresh (plan_object json fuel regex from_utf8 host cmd options c i prefix_name d o set)
  unfolding plan_object
  plan_object-Fresh c i prefix_name prefix d o set ip id' io u sp sc ar h =
      by_addr (strip_prefix o.filename (components prefix_name)) refl
    where
      by_addr :
          (v : Option FilePath)
          → strip_prefix o.filename (components prefix_name) ≡ v
          → Fresh (plan_object json fuel regex from_utf8 host cmd options c i prefix_name d o set)
      by_addr none e = rw (e, plan_object) (done-Fresh false set h)
      by_addr (some v) e =
          rw (e, plan_object)
            (plan_object_at-Fresh json fuel regex from_utf8 host cmd options c i prefix_name d o v
              Planned
              (λ phy_addr ops error. (
                prefix_name,
                prefix,
                d,
                o,
                ip,
                id',
                io,
                e,
                rw (e, under) at u,
                refl,
                refl,
                sp,
                sc,
                ar,
              ))
              set h)

  plan_objects-Fresh :
      (c : C) (i : ℕ) (prefix_name : Text) (prefix : PrefixDef) (d : ConnectorDef)
      (os : List Object) (set : PlanReportSet)
      → In (prefix_name, prefix) config
      → In d prefix.connectors
      → ((o : Object) → In o os → In o objects × (under options.subpath prefix_name o ≡ true))
      → is_selected options.prefix_filter prefix_name ≡ true
      → is_selected cmd.connector_filter d.shortname ≡ true
      → allows_read cmd.rbac_config cmd.rbac_user prefix_name d.shortname ≡ true
      → IsFresh Planned set
      → Fresh (plan_objects json fuel regex from_utf8 host cmd options c i prefix_name d os set)
  unfolding plan_objects
  plan_objects-Fresh c i prefix_name prefix d [] set ip id' sub sp sc ar h = done-Fresh false set h
  plan_objects-Fresh c i prefix_name prefix d (o ∷ os) set ip id' sub sp sc ar h =
      go_round-Fresh (plan_objects json fuel regex from_utf8 host cmd options c i prefix_name d os)
        (plan_object json fuel regex from_utf8 host cmd options c i prefix_name d o set)
        (let (io, u) = sub o (inl refl) in
          plan_object-Fresh c i prefix_name prefix d o set ip id' io u sp sc ar h)
        (λ set' h'.
          plan_objects-Fresh c i prefix_name prefix d os set' ip id' (λ p j. sub p (inr j)) sp sc ar
            h')

  plan_connectors-Fresh :
      (i : ℕ) (prefix_name : Text) (prefix : PrefixDef) (os : List Object) (ds : List ConnectorDef)
      (set : PlanReportSet)
      → In (prefix_name, prefix) config
      → ((d : ConnectorDef) → In d ds → In d prefix.connectors)
      → ((o : Object) → In o os → In o objects × (under options.subpath prefix_name o ≡ true))
      → is_selected options.prefix_filter prefix_name ≡ true
      → IsFresh Planned set
      → Fresh (
          plan_connectors json fuel regex from_utf8 host cmd options i config prefix_name os ds set)
  unfolding plan_connectors
  plan_connectors-Fresh i prefix_name prefix os [] set ip sub ob sp h = done-Fresh false set h
  plan_connectors-Fresh i prefix_name prefix os (d ∷ ds) set ip sub ob sp h =
      by_right (is_selected cmd.connector_filter d.shortname)
        (allows_read cmd.rbac_config cmd.rbac_user prefix_name d.shortname) refl refl
        (λ set' h'.
          plan_connectors-Fresh (suc i) prefix_name prefix os ds set' ip (λ e j. sub e (inr j)) ob
            sp h')
    where
      by_right :
          (a b : Bool)
          → is_selected cmd.connector_filter d.shortname ≡ a
          → allows_read cmd.rbac_config cmd.rbac_user prefix_name d.shortname ≡ b
          → ((set' : PlanReportSet)
              → IsFresh Planned set'
              → Fresh (
                  plan_connectors json fuel regex from_utf8 host cmd options
                    (suc i)
                    config
                    prefix_name
                    os
                    ds
                    set'))
          → Fresh (
              plan_connectors json fuel regex from_utf8 host cmd options i config prefix_name os
                (d ∷ ds)
                set)
      by_right false b e f k = rw (e, plan_connectors) (k set h)
      by_right true false e f k = rw (e, f, plan_connectors) (k set h)
      by_right true true e f k =
          rw (e, f, plan_connectors)
            (then-Ensures reading (λ c. Unit) (FreshAt Planned) (spawn host i config prefix_name d)
              (λ c.
                plan_objects json fuel regex from_utf8 host cmd options c i prefix_name d os set
                >>= go_round (
                    plan_connectors json fuel regex from_utf8 host cmd options (suc i) config
                      prefix_name os ds))
              (spawn-Ensures reading host i config prefix_name d)
              (λ c u.
                go_round-Fresh
                  (plan_connectors json fuel regex from_utf8 host cmd options (suc i) config
                    prefix_name os ds)
                  (plan_objects json fuel regex from_utf8 host cmd options c i prefix_name d os set)
                  (plan_objects-Fresh c i prefix_name prefix d os set ip (sub d (inl refl)) ob sp e
                    f h)
                  k))

  plan_prefix-Fresh :
      (i : ℕ) (prefix_name : Text) (prefix : PrefixDef) (set : PlanReportSet)
      → In (prefix_name, prefix) config
      → IsFresh Planned set
      → Fresh (
          plan_prefix json fuel regex from_utf8 host cmd options i config objects prefix_name prefix
            set)
  unfolding plan_prefix
  plan_prefix-Fresh i prefix_name prefix set ip h =
      by_filter (is_selected options.prefix_filter prefix_name) refl
    where
      by_objects :
          (os : List Object)
          → filtered_objects options.subpath prefix_name objects ≡ os
          → is_selected options.prefix_filter prefix_name ≡ true
          → Fresh (
              plan_prefix json fuel regex from_utf8 host cmd options i config objects prefix_name
                prefix set)
      by_objects [] q e = rw (e, q, plan_prefix) (done-Fresh false set h)
      by_objects (o ∷ os) q e =
          rw (e, q, plan_prefix)
            (plan_connectors-Fresh i prefix_name prefix (o ∷ os) prefix.connectors set ip (λ d j. j)
              (λ p j.
                filtered_objects_sound options.subpath prefix_name objects p
                  (subst (λ xs. In p xs) (sym q) j))
              e h)

      by_filter :
          (b : Bool)
          → is_selected options.prefix_filter prefix_name ≡ b
          → Fresh (
              plan_prefix json fuel regex from_utf8 host cmd options i config objects prefix_name
                prefix set)
      by_filter false e = rw (e, plan_prefix) (done-Fresh false set h)
      by_filter true e = by_objects (filtered_objects options.subpath prefix_name objects) refl e

  pub plan_prefixes-Fresh :
      (i : ℕ) (prefixes : Dict Text PrefixDef) (set : PlanReportSet)
      → ((x : Text × PrefixDef) → In x prefixes → In x config)
      → IsFresh Planned set
      → Fresh
          (plan_prefixes json fuel regex from_utf8 host cmd options i config objects prefixes set)
  unfolding plan_prefixes
  plan_prefixes-Fresh i [] set sub h = done-Fresh false set h
  plan_prefixes-Fresh i ((prefix_name, prefix) ∷ rest) set sub h =
      go_round-Fresh
        (plan_prefixes json fuel regex from_utf8 host cmd options (i + length prefix.connectors)
          config objects rest)
        (plan_prefix json fuel regex from_utf8 host cmd options i config objects prefix_name prefix
          set)
        (plan_prefix-Fresh i prefix_name prefix set (sub (prefix_name, prefix) (inl refl)) h)
        (λ set' h'.
          plan_prefixes-Fresh (i + length prefix.connectors) rest set' (λ x j. sub x (inr j)) h')
