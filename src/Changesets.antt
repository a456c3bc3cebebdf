-- ===== src/Changesets.antt =====
-- The cache of changesets: autoschematic-server/src/changeset_cache.rs. `get_or_init` is one step, since
-- it holds the lock. What `ChangeSet::from_pull_request` answers in the call is an argument; the client,
-- the token and the repository only reach that function.
pub mod Fresh
use autoschematic.Prelude.{
  ℕ, Option, none, some, String, Result, ok, err, ◌==◌, nat_equality, string_equality,
  pair_equality, if◌then◌else◌,
}
use autoschematic.Prelude.Dict
use autoschematic.Prelude.Dict.{Dict}

-- owner, repo and pull request
abbrev pub ChangesetKey : Type 0
ChangesetKey = (String × String) × ℕ

abbrev pub HeadSha : Type 0
HeadSha = String

pub data CacheError (E : Type 0) : Type 0 where
  from_pull_request : E → CacheError E
  not_in_cache : CacheError E

abbrev pub ChangesetCache : Type 0 → Type 0
ChangesetCache C = Dict ChangesetKey (C × HeadSha)

module _ {C E : Type 0} where
  -- `cache.get(&key)` after the insert.
  found_after : ChangesetKey → ChangesetCache C → Result (CacheError E) C × ChangesetCache C
  found_after key cache = elim (Dict.get key cache) [
    | none ↦ (err not_in_cache, cache)
    | some (changeset, _) ↦ (ok changeset, cache)
  ]

  fetch_into :
      Result E C
      → ChangesetKey
      → HeadSha
      → ChangesetCache C
      → Result (CacheError E) C × ChangesetCache C
  fetch_into (err e) key head_sha cache = (err (from_pull_request e), cache)
  fetch_into (ok c) key head_sha cache = found_after key (Dict.insert key (c, head_sha) cache)

  -- A stale entry is removed before the new one is fetched.
  unfoldable pub get_or_init :
      Result E C
      → ChangesetKey
      → HeadSha
      → ChangesetCache C
      → Result (CacheError E) C × ChangesetCache C
  unfolding fetch_into found_after
  get_or_init fetched key head_sha cache = elim (Dict.get key cache) [
    | some (changeset, cached_sha) ↦
        if cached_sha == head_sha
        then (ok changeset, cache)
        else fetch_into fetched key head_sha (Dict.remove key cache)
    | none ↦ fetch_into fetched key head_sha cache
  ]
