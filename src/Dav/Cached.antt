-- ===== src/Dav/Cached.antt =====
-- What src/fusedav.c answers for a file whose attributes it has just stored.
use fusedav.Prelude.{
  ℕ, ◌+◌, ◌≤◌, ◌≡◌, refl, sym, ap, subst, ◌∙◌, false, Option, none, some, [], ◌∷◌, arith, inl, inr,
  Bool-cases,
}
use fusedav.Text.{Text, slash, str_eq}
use fusedav.LevelDb.{LevelDb, IsLevelDb}
use fusedav.Structs.{Stat, Blob, GError}
use fusedav.StatCache.{path2key}
use mathlib.Core.Option.{some-injective}
use fusedav.FileCache.Put.{SyncCalls, filecache_sync}
use fusedav.Dav.Handles.{RefreshCalls, Handled, Result, handled}
use fusedav.Dav.Writes.{write_filled, write_synced, written, file_too_big, dav_write}
use fusedav.FileCache.{World, FilecacheSdata, OsResult, ok, fails}
use fusedav.FileCache.Io.{LockedCalls, filecache_write}
use fusedav.Dav.{Config, returns, set_in, zero_value, processed_gerror, fill_stat_generic}
use fusedav.Dav.Update.{Server}
use fusedav.Dav.GetStat.{GetStatCalls, get_stat}
use fusedav.Dav.{refused}
use fusedav.Dav.Stored.{stored, after, stored-st, get_stat-stored}
use fusedav.Dav.Generic.{generic_file, fill_blocks-generic, filled-generic}

-- A write that returned stored the attributes of the file.
module _ (ldb : LevelDb Blob) (config : Config) (path : Text) (calls : RefreshCalls) where
  abbrev Stored : Handled ldb → Type 0
  Stored h =
      (w : World ldb) × (s : FilecacheSdata) × (st : Stat) × (h.sdata ≡ some s)
      × (fill_stat_generic 0 false s.fd calls.fill ≡ ok st)
      × ((set_in ldb w (some path) (zero_value st) calls.set).0 ≡ none)
      × (h.world ≡ (set_in ldb w (some path) (zero_value st) calls.set).1)

  write_filled-Stored :
      (bytes n : ℕ) (s : FilecacheSdata) (w : World ldb) (filled : OsResult Stat)
      → fill_stat_generic 0 false s.fd calls.fill ≡ filled
      → (write_filled ldb config bytes path s w calls.set filled).ret ≡ returns n
      → Stored (write_filled ldb config bytes path s w calls.set filled)
  unfolding write_filled
  write_filled-Stored bytes n s w (fails code) e = λ h. absurd (ground arith)
  write_filled-Stored bytes n s w (ok st) e =
      elim (Bool-cases (file_too_big st.st_size config.max_file_size)) [
        | inl big ↦ rw big (λ h. absurd (ground arith))
        | inr small ↦ rw small (go (set_in ldb w (some path) (zero_value st) calls.set).0 refl)
      ]
    where
      go :
          (error : Option GError)
          → (set_in ldb w (some path) (zero_value st) calls.set).0 ≡ error
          → (let r : Handled ldb = elim error [
            | some e ↦
                handled ldb
                  (processed_gerror e)
                  (some s)
                  (set_in ldb w (some path) (zero_value st) calls.set).1
            | none ↦
                handled ldb
                  (returns bytes)
                  (some s)
                  (set_in ldb w (some path) (zero_value st) calls.set).1
          ] in
              r.ret ≡ returns n → Stored r)
      go none f h = (w, s, st, refl, e, f, refl)
      go (some x) f h = absurd (ground arith)

  write_synced-Stored :
      (bytes n : ℕ) (h : Handled ldb) (r : Result ldb)
      → write_synced ldb config bytes path calls r ≡ some h
      → h.ret ≡ returns n
      → Stored h
  unfolding write_synced
  write_synced-Stored bytes n h (wrote_data, some e, sdata, w) f ret =
      absurd (refused (ap (λ x. x.ret) (some-injective _ _ f) ∙ ret))
  write_synced-Stored bytes n h (wrote_data, none, none, w) f ret = absurd (ground arith)
  write_synced-Stored bytes n h (wrote_data, none, some s, w) f ret =
      subst Stored (some-injective _ _ f) (
        write_filled-Stored bytes n s w (fill_stat_generic 0 false s.fd calls.fill) refl
          (ap (λ x. x.ret) (some-injective _ _ f) ∙ ret))

  written-Stored :
      (nodes n : ℕ) (w : World ldb) (sync : SyncCalls) (h : Handled ldb)
      (r : Option ℕ × Option GError × Option FilecacheSdata)
      → written ldb nodes config w (some path) sync calls r ≡ some h
      → h.ret ≡ returns n
      → Stored h
  unfolding written
  written-Stored nodes n w sync h (bytes, some e, sdata) f ret =
      absurd (refused (ap (λ x. x.ret) (some-injective _ _ f) ∙ ret))
  written-Stored nodes n w sync h (none, none, sdata) f ret =
      absurd (refused (ap (λ x. x.ret) (some-injective _ _ f) ∙ ret))
  written-Stored nodes n w sync h (some bytes, none, sdata) f ret =
      write_synced-Stored bytes n h (filecache_sync ldb nodes w (some path) sdata false sync) f ret

module _ (ldb : LevelDb Blob) (laws : IsLevelDb ldb) (server : Server) (config : Config)
    (path : Text) (calls : RefreshCalls) (asked : GetStatCalls) where
  set-generic :
      (w : World ldb) (size : ℕ) (r : Option Blob) (st : Stat)
      → st ≡ generic_file size calls.fill.now
      → str_eq path (slash ∷ []) ≡ false
      → asked.first_now ≤ calls.set.now + 3
      → (set_in ldb w (some path) (zero_value st) calls.set).0 ≡ none
      → ldb.get
          (set_in ldb w (some path) (zero_value st) calls.set).1.cache.db
          (path2key path false)
        ≡ some r
      → get_stat ldb server config (set_in ldb w (some path) (zero_value st) calls.set).1 path asked
        ≡ some (record {
          st = generic_file size calls.fill.now;
          error = none;
          world = (set_in ldb w (some path) (zero_value st) calls.set).1;
        })
  set-generic w size r st e other young error reads =
      let value = zero_value st in
      let filled =
        fill_blocks-generic (stored ldb laws w path value calls.set).result size calls.fill.now
          (stored-st ldb laws w path value calls.set ∙ e) in
      get_stat-stored ldb laws w path value calls.set server config asked r other error reads young
        (rw filled refl)
      ∙ ap
          (λ t.
            some (record { st = t; error = none; world = after ldb laws w path value calls.set }))
          filled

  -- After a write that returned, and for three seconds, the file has the size that the write left
  -- and the time of the write, whatever the servers answer.
  pub dav_write-get_stat :
      (nodes n fd size : ℕ) (w : World ldb) (sdata s : FilecacheSdata) (write : LockedCalls ℕ)
      (sync : SyncCalls) (h : Handled ldb) (r : Option Blob)
      → dav_write ldb nodes config w (some path) (some sdata) write sync calls ≡ some h
      → h.ret ≡ returns n
      → h.sdata ≡ some s
      → s.fd ≡ some fd
      → calls.fill.lseek ≡ ok size
      → str_eq path (slash ∷ []) ≡ false
      → asked.first_now ≤ calls.set.now + 3
      → ldb.get h.world.cache.db (path2key path false) ≡ some r
      → get_stat ldb server config h.world path asked
        ≡ some (record { st = generic_file size calls.fill.now; error = none; world = h.world })
  unfolding dav_write
  dav_write-get_stat nodes n fd size w sdata s write sync h r e ret same open_fd lseek other young
        reads =
      let (u, t, st, left, filled, error, world) =
        written-Stored ldb config path calls nodes n w sync h (filecache_write (some sdata) write) e
          ret in
      let t_fd : t.fd ≡ some fd = ap (λ x. x.fd) (some-injective _ _ (sym left ∙ same)) ∙ open_fd in
      let generic = filled-generic t.fd fd size calls.fill st filled t_fd lseek in
      subst
        (λ v.
          get_stat ldb server config v path asked
          ≡ some (record { st = generic_file size calls.fill.now; error = none; world = v }))
        (sym world)
        (set-generic u size r st generic other young error
          (ap (λ v. ldb.get v.cache.db (path2key path false)) (sym world) ∙ reads))
