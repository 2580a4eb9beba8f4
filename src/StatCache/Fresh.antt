-- ===== src/StatCache/Fresh.antt =====
-- What `stat_cache_value_get` returns after `stat_cache_value_set` and `stat_cache_delete`.
use fusedav.Prelude.{
  ℕ, ◌-◌, ◌*◌, ◌/◌, ◌%◌, ◌^◌, ◌==◌, ap, if◌then◌else◌, ◌≤◌, ◌≡◌, refl, sym, ◌∙◌, inl, inr, Bool,
  true, false, not, ◌&&◌, Option, none, some, arith, ltb, Bool-cases, Option-cases, ◌⊎◌, ◌+◌,
}
use fusedav.Text.{Text}
use fusedav.LevelDb.{LevelDb, IsLevelDb, lookup}
use fusedav.Structs.{Stat, StatCacheValue, Blob, stat_blob}
use fusedav.StatCache.{
  StatCache, Reply, cache_timeout, path2key, fill_blocks, stat_cache_get_local_generation,
  stat_cache_value_get, check_value, stat_cache_value_set, set_value, fatal_write,
  stat_cache_delete, end_delete,
}

module _ (ldb : LevelDb Blob) (laws : IsLevelDb ldb) (cache : StatCache ldb) (path : Text) where
  pub set-entry :
      (value : StatCacheValue) (now counter_now : ℕ)
      → (stat_cache_value_set ldb cache (some path) value now counter_now).error ≡ none
      → (lookup (path2key path false) (
            ldb.entries (stat_cache_value_set ldb cache (some path) value now counter_now).cache.db)
          ≡ some
              (stat_blob (stat_cache_value_set ldb cache (some path) value now counter_now).result))
        × ((stat_cache_value_set ldb cache (some path) value now counter_now).result.updated ≡ now)
  unfolding stat_cache_value_set set_value fatal_write
  set-entry value now counter_now h =
      let stamped : StatCacheValue = record value {
        updated = now;
        local_generation = (stat_cache_get_local_generation ldb counter_now cache).0;
      } in
      let counted : StatCache ldb = (stat_cache_get_local_generation ldb counter_now cache).1 in
      elim (Bool-cases (ldb.put counted.db (path2key path false) (stat_blob stamped)).1) [
        | inl e ↦ absurd (ground arith)
        | inr e ↦
            rw (e, stat_cache_value_set)
              (laws.put_self counted.db (path2key path false) (stat_blob stamped) e, refl)
      ]

  -- What is read of a value: the blocks are filled in where there are none.
  abbrev pub with_blocks : Stat → Stat
  with_blocks st = record st {
    st_blocks = if st.st_blocks == 0 then (st.st_size + 511) / 512 else st.st_blocks;
  }

  fill_blocks-with_blocks :
      (value : StatCacheValue) → fill_blocks value ≡ record value { st = with_blocks value.st }
  unfolding fill_blocks
  fill_blocks-with_blocks value = elim (Bool-cases (value.st.st_blocks == 0)) [
    | inr filled ↦ rw filled refl
    | inl blank ↦ elim (Bool-cases (ltb 0 value.st.st_size)) [
      | inl long ↦ rw (blank, long) refl
      | inr nothing ↦
          let size : value.st.st_size ≡ 0 = ground (arith, nothing) in
          let blocks : value.st.st_blocks ≡ (value.st.st_size + 511) / 512 =
            ground (arith, blank, size) in
          rw (blank, nothing)
            (ap (λ n. record value { st = record (value.st) { st_blocks = n } }) blocks)
    ]
  ]

  -- A read returns the result of the write, with its blocks filled in.
  pub stat_cache_value_set-read :
      (value : StatCacheValue) (now counter_now later : ℕ) (skip : Bool) (r : Option Blob)
      → (stat_cache_value_set ldb cache (some path) value now counter_now).error ≡ none
      → ldb.get
          (stat_cache_value_set ldb cache (some path) value now counter_now).cache.db
          (path2key path false)
        ≡ some r
      → (skip ≡ true) ⊎ (later ≤ now + 3)
      → stat_cache_value_get ldb
          (stat_cache_value_set ldb cache (some path) value now counter_now).cache
          path
          skip
          later
        ≡ record {
          result = some (
              fill_blocks
                (stat_cache_value_set ldb cache (some path) value now counter_now).result);
          error = none;
          cache = (stat_cache_value_set ldb cache (some path) value now counter_now).cache;
        }
  unfolding stat_cache_value_get check_value
  stat_cache_value_set-read value now counter_now later skip r h reads fresh =
      let written : Reply ldb StatCacheValue =
        stat_cache_value_set ldb cache (some path) value now counter_now in
      let (entry, time) = set-entry value now counter_now h in
      let found : r ≡ some (stat_blob written.result) =
        sym (laws.get_reads written.cache.db (path2key path false) r reads) ∙ entry in
      let young : (not skip && ltb cache_timeout (later - written.result.updated)) ≡ false =
        rw time (ground arith) in
      rw (reads, found, check_value, young) refl

  -- The next generation: the top 40 bits of the first are the time.
  abbrev pub next_generation : ℕ → ℕ
  next_generation counter_now =
      ((if cache.counter == 0 then counter_now * 2 ^ 24 % 2 ^ 64 else cache.counter) + 1) % 2 ^ 64

  abbrev pub stamp : StatCacheValue → ℕ → ℕ → StatCacheValue
  stamp value now counter_now = record value {
    updated = now;
    local_generation = next_generation counter_now;
  }

  pub set-result :
      (value : StatCacheValue) (now counter_now : ℕ)
      → (stat_cache_value_set ldb cache (some path) value now counter_now).error ≡ none
      → (stat_cache_value_set ldb cache (some path) value now counter_now).result
        ≡ stamp value now counter_now
  unfolding stat_cache_value_set set_value fatal_write stat_cache_get_local_generation
  set-result value now counter_now h =
      let counted : StatCache ldb = record cache { counter = next_generation counter_now } in
      elim (Bool-cases
        (ldb.put counted.db (path2key path false) (stat_blob (stamp value now counter_now))).1) [
          | inl e ↦ absurd (ground arith)
          | inr e ↦ rw (e, stat_cache_value_set) refl
        ]

  -- The value that a write stored is what a read returns in the next three seconds, and at any time
  -- if it skips the check of freshness, whatever the parent directory: with the time of
  -- the write and the next generation, and with `st_blocks` filled. Both calls succeed.
  pub stat_cache_value_set-get :
      (value : StatCacheValue) (now counter_now later : ℕ) (skip : Bool) (r : Option Blob)
      → (stat_cache_value_set ldb cache (some path) value now counter_now).error ≡ none
      → ldb.get
          (stat_cache_value_set ldb cache (some path) value now counter_now).cache.db
          (path2key path false)
        ≡ some r
      → (skip ≡ true) ⊎ (later ≤ now + 3)
      → stat_cache_value_get ldb
          (stat_cache_value_set ldb cache (some path) value now counter_now).cache
          path
          skip
          later
        ≡ record {
          result = some (record (stamp value now counter_now) { st = with_blocks value.st });
          error = none;
          cache = (stat_cache_value_set ldb cache (some path) value now counter_now).cache;
        }
  stat_cache_value_set-get value now counter_now later skip r h reads fresh =
      let written : Reply ldb StatCacheValue =
        stat_cache_value_set ldb cache (some path) value now counter_now in
      let read : fill_blocks written.result
          ≡ record (stamp value now counter_now) { st = with_blocks value.st } =
        ap fill_blocks (set-result value now counter_now h)
        ∙ fill_blocks-with_blocks (stamp value now counter_now) in
      stat_cache_value_set-read value now counter_now later skip r h reads fresh
      ∙ ap (λ v. record { result = some v; error = none; cache = written.cache }) read

  -- After a delete that reports no error, no read of the path finds anything: it returns null
  -- without an error, or LevelDB fails to read.
  pub stat_cache_delete-get :
      (skip : Bool) (later : ℕ)
      → (stat_cache_delete ldb cache path).error ≡ none
      → (stat_cache_value_get ldb (stat_cache_delete ldb cache path).cache path skip later).result
        ≡ none
  unfolding stat_cache_delete end_delete stat_cache_value_get check_value
  stat_cache_delete-get skip later h =
      let gone : lookup (path2key path false)
            (ldb.entries (ldb.delete cache.db (path2key path false)).0)
          ≡ none =
        laws.delete_self cache.db (path2key path false) (ground arith) in
      elim (Option-cases
        (ldb.get (ldb.delete cache.db (path2key path false)).0 (path2key path false))) [
          | inl e ↦ rw (e, check_value) refl
          | inr (r, e) ↦
              let found : r ≡ none =
                sym (
                  laws.get_reads (ldb.delete cache.db (path2key path false)).0 (path2key path false)
                    r e)
                ∙ gone in
              rw (e, found, check_value) refl
        ]
