-- ===== src/FileCache/Servers.antt =====
-- The loop over the servers when none answers, and what an open makes of it.
use fusedav.Prelude.{
  ℕ, zero, suc, ◌≤◌, ◌≡◌, refl, sym, ap, false, ◌∙◌, Bool, true, false, ◌||◌, Option, none, some,
  [], ◌∷◌, arith, leb,
}
use fusedav.Text.{Text}
use fusedav.LevelDb.{LevelDb}
use fusedav.Structs.{Blob, g_error, curl}
use fusedav.FileCache.{World, FilecacheSdata, empty_sdata, OpenFlags, ok, e_fc_curlerr}
use fusedav.FileCache.Entry.{filecache_pdata_get, new_cache_file}
use fusedav.FileCache.Fetch.{
  Attempt, Fetch, FetchCalls, is_local, get_fresh_fd, fetch_loop, fetch_once, is_bad, perform, send,
  ask_server, take_response, first_fetch, discard,
}
use fusedav.FileCache.Open.{
  OpenCalls, RoundCalls, Round, filecache_open, open_loop, open_end, cached_pdata, is_curl,
  needs_create,
}

-- A request that reaches no server, or one that answers with an error of its own.
pub data Fails (a : Attempt) : Type 0 where
  no_curl : (fd : ℕ) → a.session ≡ true → a.file.mkstemp ≡ ok fd → a.performed ≡ none → Fails a
  server_error :
      (fd code : ℕ)
      → a.session ≡ true
      → a.file.mkstemp ≡ ok fd
      → a.performed ≡ some code
      → 500 ≤ code
      → Fails a

module _ (ldb : LevelDb Blob) where
  discard-keeps :
      (fd : Option ℕ) (filename : Text) (w : World ldb)
      → ((discard ldb fd filename w).cache ≡ w.cache)
        × ((discard ldb fd filename w).saint ≡ w.saint)
  unfolding discard
  discard-keeps none [] w = (refl, refl)
  discard-keeps none (c ∷ s) w = (refl, refl)
  discard-keeps (some fd) [] w = (refl, refl)
  discard-keeps (some fd) (c ∷ s) w = (refl, refl)

  fetch_once-Fails :
      (s : Fetch ldb) (a : Attempt)
      → Fails a
      → ((fetch_once ldb s a).1 ≡ none)
        × (is_bad (fetch_once ldb s a).0.res_ok (fetch_once ldb s a).0.response_code ≡ true)
        × ((fetch_once ldb s a).0.world.cache ≡ s.world.cache)
  unfolding fetch_once send perform is_bad new_cache_file
  fetch_once-Fails s a (no_curl fd session file performed) =
      rw (session, file, performed, fetch_once, send, perform, is_bad)
        (refl, refl, (discard-keeps s.response_fd s.response_filename s.world).0)
  fetch_once-Fails s a (server_error fd code session file performed h) =
      let bad : leb 500 code ≡ true = ground arith in
      rw (session, file, performed, bad, fetch_once, send, perform, is_bad)
        (refl, refl, (discard-keeps s.response_fd s.response_filename s.world).0)

module _ (ldb : LevelDb Blob) (attempts : ℕ → Attempt) where
  -- As long as no server answers, the loop goes on, and ends with a bad response and no error.
  fetch_loop-Fails :
      (nodes idx : ℕ) (s : Fetch ldb)
      → ((i : ℕ) → Fails (attempts i))
      → is_bad s.res_ok s.response_code ≡ true
      → ((fetch_loop ldb attempts nodes idx s).1 ≡ none)
        × (is_bad
              (fetch_loop ldb attempts nodes idx s).0.res_ok
              (fetch_loop ldb attempts nodes idx s).0.response_code
            ≡ true)
        × ((fetch_loop ldb attempts nodes idx s).0.world.cache ≡ s.world.cache)
  unfolding fetch_loop
  fetch_loop-Fails zero idx s all bad = (refl, bad, refl)
  fetch_loop-Fails (suc nodes) idx s all bad =
      let (quiet, still, same) = fetch_once-Fails ldb s (attempts idx) (all idx) in
      let (quiet', bad', same') =
        fetch_loop-Fails nodes (suc idx) (fetch_once ldb s (attempts idx)).0 all still in
      rw (bad, quiet, fetch_loop) (quiet', bad', same' ∙ same)

module _ (ldb : LevelDb Blob) (path : Text) where
  fetch_once-refused :
      (w : World ldb) (attempt : Attempt)
      → attempt.session ≡ false
      → fetch_once ldb (first_fetch ldb w) attempt ≡ (first_fetch ldb w, g_error curl e_fc_curlerr)
  unfolding fetch_once discard
  fetch_once-refused w attempt session = rw session refl

  fetch_loop-refused :
      (nodes : ℕ) (w : World ldb) (attempts : ℕ → Attempt)
      → (attempts 0).session ≡ false
      → fetch_loop ldb attempts (suc nodes) 0 (first_fetch ldb w)
        ≡ (first_fetch ldb w, g_error curl e_fc_curlerr)
  unfolding fetch_loop is_bad
  fetch_loop-refused nodes w attempts session =
      ap (λ r. elim r.1 [ some e ↦ (r.0, some e) | none ↦ fetch_loop ldb attempts nodes 1 r.0 ])
        (fetch_once-refused w (attempts 0) session)

  refused_servers :
      (nodes : ℕ) (w : World ldb) (sdata : FilecacheSdata) (fetch : FetchCalls)
      → (fetch.attempts 0).session ≡ false
      → w.saint ≡ true
      → ask_server ldb nodes w path sdata none fetch
        ≡ record { sdata = sdata; pdata = none; error = g_error curl e_fc_curlerr; world = w }
  unfolding ask_server fetch_loop take_response is_bad discard
  refused_servers zero w sdata fetch session saint = rw (sym saint, fetch_loop, take_response) refl
  refused_servers (suc nodes) w sdata fetch session saint =
      ap
        (λ r. elim r.1 [
          | some e ↦ record {
            sdata = sdata;
            pdata = none;
            error = some e;
            world = discard ldb r.0.response_fd r.0.response_filename r.0.world;
          }
          | none ↦ take_response ldb r.0 path sdata none fetch
        ])
        (fetch_loop-refused nodes w fetch.attempts session)

module _ (ldb : LevelDb Blob) (nodes : ℕ) (path : Text) (flags : OpenFlags) where
  -- Without an entry, and with no server that answers, there is an error of curl and no descriptor.
  down_fd :
      (w : World ldb) (sdata : FilecacheSdata) (use_local : Bool) (fetch : FetchCalls)
      → ((i : ℕ) → Fails (fetch.attempts i))
      → (w' : World ldb) × (w'.cache ≡ w.cache)
        × (w'.saint ≡ true)
        × (get_fresh_fd ldb nodes w path sdata none flags use_local fetch
            ≡ record { sdata = sdata; pdata = none; error = g_error curl e_fc_curlerr; world = w' })
  unfolding get_fresh_fd is_local ask_server take_response
  down_fd w sdata use_local fetch all =
      let s : Fetch ldb = (fetch_loop ldb fetch.attempts nodes 0 (first_fetch ldb w)).0 in
      let (quiet, bad, same) =
        fetch_loop-Fails ldb fetch.attempts nodes 0 (first_fetch ldb w) all
          (unfold is_bad in refl) in
      let set : World ldb = record (s.world) { saint = true } in
      let (cache, saint) = discard-keeps ldb s.response_fd s.response_filename set in
      (
        discard ldb s.response_fd s.response_filename set,
        cache ∙ same,
        saint,
        rw (quiet, ask_server, bad, take_response) refl,
      )

  -- Without a session there is an error of curl, too.
  refused_fd :
      (w : World ldb) (sdata : FilecacheSdata) (use_local : Bool) (fetch : FetchCalls)
      → (fetch.attempts 0).session ≡ false
      → w.saint ≡ true
      → get_fresh_fd ldb nodes w path sdata none flags use_local fetch
        ≡ record { sdata = sdata; pdata = none; error = g_error curl e_fc_curlerr; world = w }
  unfolding get_fresh_fd is_local
  refused_fd w sdata use_local fetch session saint =
      refused_servers ldb path nodes w sdata fetch session saint

  abbrev round : Bool → World ldb → Round ldb
  round use_local w = record {
    sdata = empty_sdata;
    pdata = none;
    use_local_copy = use_local;
    world = w;
  }

  down_round :
      (rounds : ℕ → RoundCalls) (retries idx : ℕ) (use_local : Bool) (w w' : World ldb)
      → flags.o_creat ≡ false
      → flags.o_trunc ≡ false
      → filecache_pdata_get ldb w.cache path ≡ (none, none)
      → get_fresh_fd ldb nodes w path empty_sdata none flags use_local (rounds idx).fetch ≡ record {
        sdata = empty_sdata;
        pdata = none;
        error = g_error curl e_fc_curlerr;
        world = w';
      }
      → open_loop ldb nodes rounds (suc retries) idx path flags true (round use_local w)
        ≡ open_loop ldb nodes rounds retries (suc idx) path flags true (round true w')
  unfolding open_loop is_curl
  down_round rounds retries idx use_local w w' creat trunc got e =
      let cached : cached_pdata ldb nodes (round use_local w) path ≡ none =
        unfold cached_pdata in rw (got, cached_pdata) refl in
      let needs : needs_create ldb nodes flags none ≡ false =
        unfold needs_create in rw (creat, trunc) refl in
      rw (cached, needs, e) (rw (cached, e) refl)

  -- With grace, a path that has no entry, and no server that answers in the first round, saint mode
  -- begins. If there is no session in the second round, as saint mode has it, the file is open
  -- without an error, on the descriptor 0 that `calloc` left in the session data.
  pub filecache_open-down :
      (w : World ldb) (calls : OpenCalls)
      → filecache_pdata_get ldb w.cache path ≡ (none, none)
      → flags.o_creat ≡ false
      → flags.o_trunc ≡ false
      → calls.calloc ≡ ok tt
      → ((i : ℕ) → Fails ((calls.rounds 0).fetch.attempts i))
      → ((calls.rounds 1).fetch.attempts 0).session ≡ false
      → ((filecache_open ldb nodes w path flags true calls).error ≡ none)
        × ((filecache_open ldb nodes w path flags true calls).world.saint ≡ true)
        × ((filecache_open ldb nodes w path flags true calls).handle
            ≡ some record empty_sdata {
              fd = some 0;
              readable = flags.o_rdwr;
              writable = flags.o_wronly || flags.o_rdwr;
            })
  unfolding filecache_open
  filecache_open-down w calls got creat trunc calloc all refused =
      let (w1, cache1, saint1, e1) =
        down_fd w empty_sdata calls.saint_mode (calls.rounds 0).fetch all in
      let e2 = refused_fd w1 empty_sdata true (calls.rounds 1).fetch refused saint1 in
      let got1 : filecache_pdata_get ldb w1.cache path ≡ (none, none) = rw cache1 got in
      let opened : open_loop ldb nodes calls.rounds 2 0 path flags true (round calls.saint_mode w)
          ≡ open_end ldb nodes flags empty_sdata w1 =
        down_round calls.rounds 1 0 calls.saint_mode w w1 creat trunc got e1
        ∙ down_round calls.rounds 0 1 true w1 w1 creat trunc got1 e2
        ∙ (unfold open_loop in refl) in
      rw (calloc, filecache_open, opened) (unfold open_end in (refl, saint1, refl))
