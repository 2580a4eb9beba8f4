-- ===== src/FileCache/Tests/Renaming.antt =====
-- Runs of the calls on entries of the file cache, and of the capture of an etag.
use fusedav.Prelude.{◌≡◌, refl, true, false, some, none, [], ◌∷◌, ◌++◌, arith}
use fusedav.Text.{codes, str_eq, str_lt}
use fusedav.Text.Decimal.{is_space}
use fusedav.LevelDb.{lookup}
use fusedav.LevelDb.Memory.{memory, insert, memory-IsLevelDb}
use fusedav.Structs.{Blob}
use fusedav.FileCache.Entry.{filecache_pdata_get, filecache_pdata_set, capture_etag}
use fusedav.FileCache.Remove.{filecache_delete, filecache_pdata_move}
use fusedav.FileCache.Etag.{IsBlank, capture_etag-value, capture_etag-blank}
use fusedav.FileCache.Move.{Moved, filecache_pdata_move-moves}
use fusedav.FileCache.Tests.{cached, world}

visible : is_space b'"' ≡ false
unfolding is_space
visible = refl

capture_etag-value_example :
    capture_etag (codes "ETag: " ++ b'"' ∷ codes "x\"" ++ 10 ∷ []) (codes "old")
    ≡ (b'"' ∷ codes "x\"", true)
capture_etag-value_example =
    capture_etag-value b'"' (codes "x\"") 10 (codes "old") visible (omega arith)

line_end : IsBlank (32 ∷ 13 ∷ 10 ∷ [])
unfolding is_space
line_end = (refl, (refl, (refl, tt)))

capture_etag-blank_example :
    (capture_etag (codes "ETag:" ++ 32 ∷ 13 ∷ 10 ∷ []) (codes "old")).1 ≡ false
capture_etag-blank_example = capture_etag-blank (32 ∷ 13 ∷ 10 ∷ []) (codes "old") line_end

cached_found : filecache_pdata_get (memory Blob) world.cache (codes "/a") ≡ (some cached, none)
unfolding memory filecache_pdata_get lookup str_eq
cached_found = refl

different : str_eq (codes "/a") (codes "/b") ≡ false
unfolding str_eq
different = refl

moved : (filecache_pdata_move (memory Blob) world (codes "/a") (codes "/b")).0 ≡ none
unfolding memory insert filecache_pdata_move filecache_pdata_get filecache_pdata_set
    filecache_delete lookup str_eq str_lt
moved = refl

filecache_pdata_move-moves_example :
    Moved
      (memory Blob)
      (memory-IsLevelDb Blob)
      world
      (codes "/a")
      (codes "/b")
      cached
      (filecache_pdata_move (memory Blob) world (codes "/a") (codes "/b")).1
filecache_pdata_move-moves_example =
    filecache_pdata_move-moves (memory Blob) (memory-IsLevelDb Blob) world (codes "/a") (codes "/b")
      cached cached_found different moved
