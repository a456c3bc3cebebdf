-- ===== src/Changesets/Fresh.antt =====
-- A changeset that is returned is one for the head of the pull request.
use autoschematic.Prelude.{
  ◌≡◌, ◌≢◌, inl, inr, refl, ap, ◌∙◌, none, some, Result, ok, err, ◌==◌, ==_iff, nat_equality,
  string_equality, pair_equality, Bool-cases, Option-cases, arith,
}
use autoschematic.Prelude.Dict
use autoschematic.Prelude.Dict.{Dict, get-insert, get-insert_self, get-remove, get-remove_self}
use autoschematic.Changesets.{
  ChangesetKey, HeadSha, CacheError, from_pull_request, ChangesetCache, found_after, fetch_into,
  get_or_init,
}

module _ {C E : Type 0} where
  -- The outcomes of a call: the entry that was cached for this head; a fetched changeset, which is then
  -- cached for this head; or the error of the fetch, and then nothing is cached under the key. Other
  -- keys keep their entries.
  pub data Outcome (fetched : Result E C) (key : ChangesetKey) (head_sha : HeadSha)
      (cache : ChangesetCache C) : Result (CacheError E) C × ChangesetCache C → Type 0 where
    was_cached :
        {c : C}
        → Dict.get key cache ≡ some (c, head_sha)
        → Outcome fetched key head_sha cache (ok c, cache)
    is_fetched :
        {c : C} {cache' : ChangesetCache C}
        → fetched ≡ ok c
        → Dict.get key cache' ≡ some (c, head_sha)
        → ((k : ChangesetKey) → key ≢ k → Dict.get k cache' ≡ Dict.get k cache)
        → Outcome fetched key head_sha cache (ok c, cache')
    has_failed :
        {e : E} {cache' : ChangesetCache C}
        → fetched ≡ err e
        → Dict.get key cache' ≡ none
        → ((k : ChangesetKey) → key ≢ k → Dict.get k cache' ≡ Dict.get k cache)
        → Outcome fetched key head_sha cache (err (from_pull_request e), cache')

  module _ (key : ChangesetKey) (head_sha : HeadSha) (cache : ChangesetCache C) where
    fetch_into-Outcome :
        (fetched : Result E C) (start : ChangesetCache C)
        → Dict.get key start ≡ none
        → ((k : ChangesetKey) → key ≢ k → Dict.get k start ≡ Dict.get k cache)
        → Outcome fetched key head_sha cache (fetch_into fetched key head_sha start)
    unfolding fetch_into found_after
    fetch_into-Outcome (err e) start gone same = has_failed refl gone same
    fetch_into-Outcome (ok c) start gone same =
        let there = get-insert_self key (c, head_sha) start in
        rw (there, found_after)
          (is_fetched refl there (λ k ne.
            ground (arith, get-insert key k (c, head_sha) start, ==_iff key k, ne, same k ne)))

    -- A call returns what was cached for this head, or what was fetched and is now cached for this head,
    -- or the error of the fetch, after which no changeset is cached for the pull request; and it changes
    -- no other entry.
    pub get_or_init_lem :
        (fetched : Result E C)
        → Outcome fetched key head_sha cache (get_or_init fetched key head_sha cache)
    unfolding get_or_init
    get_or_init_lem fetched = elim (Option-cases (Dict.get key cache)) [
      | inl e ↦ rw (e, get_or_init) (fetch_into-Outcome fetched cache e (λ k ne. refl))
      | inr ((c, sha), e) ↦ elim (Bool-cases (sha == head_sha)) [
        | inl same ↦
            let sha_eq = (==_iff sha head_sha).0 same in
            rw (e, get_or_init, same) (was_cached (e ∙ ap (λ x. some (c, x)) sha_eq))
        | inr stale ↦
            rw (e, get_or_init, stale)
              (fetch_into-Outcome fetched (Dict.remove key cache) (get-remove_self key cache)
                (λ k ne. ground (arith, get-remove key k cache, ==_iff key k, ne)))
      ]
    ]
