-- ===== src/Tests/ChangesetTests.antt =====
-- Tests of autoschematic-server/src/changeset_cache.rs.
use autoschematic.Prelude.{
  ℕ, ◌≡◌, refl, [], ◌∷◌, String, ok, err, nat_equality, string_equality, pair_equality,
}
use autoschematic.Prelude.Dict
use autoschematic.Changesets.{ChangesetKey, ChangesetCache, get_or_init, from_pull_request}
use autoschematic.Changesets.Fresh.{Outcome, get_or_init_lem}

abbrev key : ChangesetKey
key = (("org", "repo"), 4)

-- A changeset is a number here.
abbrev old : ChangesetCache ℕ
old = (key, (1, "sha1")) ∷ []

get_or_init_lem_example :
    Outcome {C = ℕ} {E = String} (ok 2) key "sha2" old (get_or_init (ok 2) key "sha2" old)
get_or_init_lem_example = get_or_init_lem {C = ℕ} {E = String} key "sha2" old (ok 2)

-- The stale entry is gone although the fetch fails.
drops_stale :
    get_or_init {C = ℕ} {E = String} (err "offline") key "sha2" old
    ≡ (err (from_pull_request "offline"), [])
unfolding get_or_init Dict.get Dict.remove
drops_stale = refl
