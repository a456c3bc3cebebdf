-- ===== src/ConnectorCache/Filter.antt =====
-- The cache of filter responses.
use autoschematic.Prelude.{
  ◌≡◌, ◌⊎◌, inl, inr, refl, ap, ◌∙◌, Bool, true, false, Option, none, some, Text, if◌then◌else◌,
  ◌==◌, ==_iff, ==_refl, nat_equality, list_equality, pair_equality, Option-cases, Bool-cases,
  arith,
}
use autoschematic.Prelude.Dict
use autoschematic.Prelude.Dict.{Dict, get-insert, get-remove, get-insert_self}
use autoschematic.FilePath.{FilePath, component_equality}
use autoschematic.ConnectorCache.{
  Key, FilterResponse, World, Cache, Answer, ok, err, CacheError, cached_for, lookup_filter,
  store_filter, filter_cached, clear_filter_cache, init_connector, get_connector,
}

ok_injective :
    (v r : FilterResponse) → ◌≡◌ {A = Answer FilterResponse} (ok v) (ok r) → some v ≡ some r
ok_injective v r p = cc

dropped :
    (b : Bool) (addr : FilePath) (m : Option (Dict FilePath FilterResponse))
    → Dict.get addr (cached_for (if b then none else m))
      ≡ (if b then none else Dict.get addr (cached_for m))
unfolding Dict.get
dropped true addr m = refl
dropped false addr m = refl

module _ {C : Type 0} where
  lookup-store :
      (key key' : Key) (addr addr' : FilePath) (res : FilterResponse) (s : Cache C)
      → lookup_filter key' addr' (store_filter key addr (ok res) s).1 ≡ (
          if key == key'
          then (if addr == addr' then some res else lookup_filter key' addr' s)
          else lookup_filter key' addr' s)
  unfolding lookup_filter store_filter
  lookup-store key key' addr addr' res s =
      let old = cached_for (Dict.get key s.filter_cache) in
      ap (λ o. Dict.get addr' (cached_for o))
        (get-insert key key' (Dict.insert addr res old) s.filter_cache)
      ∙ elim (Bool-cases (key == key')) [
        | inl e ↦ rw (e, ← (==_iff key key').0 e) (get-insert addr addr' res old)
        | inr e ↦ rw e refl
      ]

  lookup-store_self :
      (key : Key) (addr : FilePath) (res : FilterResponse) (s : Cache C)
      → lookup_filter key addr (store_filter key addr (ok res) s).1 ≡ some res
  lookup-store_self key addr res s =
      lookup-store key key addr addr res s ∙ rw (==_refl key, ==_refl addr) refl

  filter_cached_hit :
      (w : World C) (name : Text) (prefix addr : FilePath) (s : Cache C) (r : FilterResponse)
      → lookup_filter (prefix, name) addr s ≡ some r
      → filter_cached w name prefix addr s ≡ (ok r, s)
  unfolding filter_cached
  filter_cached_hit w name prefix addr s r e = rw (e, filter_cached) refl

  filter_cached_miss :
      (w : World C) (name : Text) (prefix addr : FilePath) (s : Cache C) (c : C)
      → lookup_filter (prefix, name) addr s ≡ none
      → get_connector name prefix s ≡ some c
      → filter_cached w name prefix addr s ≡ store_filter (prefix, name) addr (w.filter c addr) s
  unfolding filter_cached get_connector
  filter_cached_miss w name prefix addr s c e f = rw (e, f, filter_cached) refl

  stored_again :
      (w' : World C) (name : Text) (prefix addr : FilePath) (s : Cache C) (r : FilterResponse)
      (a : Answer FilterResponse)
      → (store_filter (prefix, name) addr a s).0 ≡ ok r
      → filter_cached w' name prefix addr (store_filter (prefix, name) addr a s).1
        ≡ (ok r, (store_filter (prefix, name) addr a s).1)
  unfolding store_filter
  stored_again w' name prefix addr s r (err e) p = cc
  stored_again w' name prefix addr s r (ok v) p =
      filter_cached_hit w' name prefix addr (store_filter (prefix, name) addr (ok v) s).1 r
        (lookup-store_self (prefix, name) addr v s ∙ ok_injective v r p)

  -- After a successful answer from a connector that is cached, the same question is answered from the
  -- cache of responses: with the same answer and no change of the state, whatever the connector would
  -- say by then.
  pub filter_cached_again :
      (w w' : World C) (name : Text) (prefix addr : FilePath) (s : Cache C) (r : FilterResponse)
      (c : C)
      → get_connector name prefix s ≡ some c
      → (filter_cached w name prefix addr s).0 ≡ ok r
      → filter_cached w' name prefix addr (filter_cached w name prefix addr s).1
        ≡ (ok r, (filter_cached w name prefix addr s).1)
  filter_cached_again w w' name prefix addr s r c hc h =
      elim (Option-cases (lookup_filter (prefix, name) addr s)) [
        | inl miss ↦
            let e = filter_cached_miss w name prefix addr s c miss hc in
            rw e (stored_again w' name prefix addr s r (w.filter c addr) (rw e at h))
        | inr (v, hit) ↦
            let e = filter_cached_hit w name prefix addr s v hit in
            rw e (filter_cached_hit w' name prefix addr s r (hit ∙ ok_injective v r (rw e at h)))
      ]

  -- What is cached is what a static `filter` says.
  abbrev pub IsCoherent : (Key → FilePath → FilterResponse) → Cache C → Type 0
  IsCoherent static s =
      (key : Key) (addr : FilePath)
      → (lookup_filter key addr s ≡ none) ⊎ (lookup_filter key addr s ≡ some (static key addr))

  store-IsCoherent :
      (static : Key → FilePath → FilterResponse) (key : Key) (addr : FilePath) (s : Cache C)
      → IsCoherent static s
      → IsCoherent static (store_filter key addr (ok (static key addr)) s).1
  store-IsCoherent static key addr s h key' addr' = ground (
    arith,
    lookup-store key key' addr addr' (static key addr) s,
    h key' addr',
    ==_iff key key',
    ==_iff addr addr',
  )

  -- If the responses of the connector at hand are those of a static function, or errors, then so are
  -- the cached ones after the call, if they were before; and an answer other than an error is the
  -- static one if the connector is cached.
  pub filter_cached-IsCoherent :
      (static : Key → FilePath → FilterResponse) (w : World C) (name : Text)
      (prefix addr : FilePath) (s : Cache C) (c : C)
      → get_connector name prefix s ≡ some c
      → (w.filter c addr ≡ ok (static (prefix, name) addr))
        ⊎ ((e : CacheError) × (w.filter c addr ≡ err e))
      → IsCoherent static s
      → IsCoherent static (filter_cached w name prefix addr s).1
        × (((filter_cached w name prefix addr s).0 ≡ ok (static (prefix, name) addr))
            ⊎ ((e : CacheError) × ((filter_cached w name prefix addr s).0 ≡ err e)))
  unfolding store_filter
  filter_cached-IsCoherent static w name prefix addr s c hc answers h =
      elim (h (prefix, name) addr) [
        | inl miss ↦
            let e = filter_cached_miss w name prefix addr s c miss hc in
            rw e (elim answers [
              | inl a ↦ rw a (store-IsCoherent static (prefix, name) addr s h, inl refl)
              | inr (x, a) ↦ rw a (h, inr (x, refl))
            ])
        | inr hit ↦ let e = filter_cached_hit w name prefix addr s _ hit in rw e (h, inl refl)
      ]

  -- `init_connector` drops what is cached for the connector, and nothing else.
  pub lookup_filter-init_connector :
      (w : World C) (name : Text) (prefix : FilePath) (s : Cache C) (key : Key) (addr : FilePath)
      (c : C)
      → get_connector name prefix s ≡ some c
      → lookup_filter key addr (init_connector w name prefix s).1
        ≡ (if (prefix, name) == key then none else lookup_filter key addr s)
  unfolding lookup_filter init_connector get_connector clear_filter_cache
  lookup_filter-init_connector w name prefix s key addr c hc =
      rw (hc, init_connector)
        (ap (λ o. Dict.get addr (cached_for o)) (get-remove (prefix, name) key s.filter_cache)
          ∙ dropped ((prefix, name) == key) addr (Dict.get key s.filter_cache))
