-- ===== src/FileCache/Io.antt =====
-- The calls of src/filecache.c on an open file: read, write, truncate, close. `sdata` is `none`
-- where the handle is null.
use fusedav.Prelude.{ℕ, Bool, true, false, Option, none, some, ◌==◌, if◌then◌else◌}
use fusedav.Structs.{GError, g_error, system, filecache, ebadf}
use fusedav.FileCache.{FilecacheSdata, OsResult, ok, fails, e_fc_sdatanull, first_error}

-- What pread, pwrite and the others return: -1 is `none`.
end_read : OsResult ℕ → Option ℕ × Option GError
end_read (ok bytes_read) = (some bytes_read, none)
end_read (fails errno) = (some 0, g_error system errno)

-- The result of `pread` on the descriptor is the second argument.
unfoldable pub filecache_read : Option FilecacheSdata → OsResult ℕ → Option ℕ × Option GError
unfolding end_read
filecache_read none pread = (none, g_error filecache e_fc_sdatanull)
filecache_read (some sdata) pread = end_read pread

-- The first error stays.
unfoldable pub set_error : FilecacheSdata → ℕ → FilecacheSdata
set_error sdata error_code =
    if sdata.error_code == 0 then record sdata { error_code = error_code } else sdata

-- What the calls of one write or truncation return.
pub record LockedCalls (A : Type 0) : Type 0 where
  pub lock : OsResult (Unit {0})
  pub call : OsResult A
  pub unlock : OsResult (Unit {0})

abbrev pub errno_error : {A : Type 0} → OsResult A → Option GError
errno_error (ok a) = none
errno_error (fails errno) = g_error system errno

-- The return value (`none` for -1), the error, and `sdata` afterwards.
unfoldable pub end_write :
    FilecacheSdata → OsResult ℕ → OsResult (Unit {0}) → Option ℕ × Option GError × FilecacheSdata
unfolding first_error set_error
end_write sdata (ok bytes_written) unlock =
    (some bytes_written, errno_error unlock, record sdata { modified = true })
end_write sdata (fails errno) unlock =
    (none, first_error (g_error system errno) (errno_error unlock), set_error sdata errno)

unfoldable pub locked_write :
    FilecacheSdata → LockedCalls ℕ → Option ℕ × Option GError × FilecacheSdata
unfolding end_write
locked_write sdata calls = elim calls.lock [
  | fails errno ↦ (none, g_error system errno, sdata)
  | ok u ↦ end_write sdata calls.call calls.unlock
]

unfoldable pub filecache_write :
    Option FilecacheSdata → LockedCalls ℕ → Option ℕ × Option GError × Option FilecacheSdata
unfolding locked_write
filecache_write none calls = (none, g_error filecache e_fc_sdatanull, none)
filecache_write (some sdata) calls =
    if sdata.writable
    then (let (bytes, error, after) = locked_write sdata calls in (bytes, error, some after))
    else (none, g_error system ebadf, some sdata)

-- An error is set only where the caller passes a place for it.
abbrev pub report : Bool → Option GError → Option GError
report gerr e = if gerr then e else none

-- `gerr` says whether the caller passes a place for an error. The tests `if (!gerr)` and
-- `if (gerr)` behind the truncation are on that place, not on an error in it.
unfoldable pub end_truncate :
    FilecacheSdata
    → Bool
    → OsResult (Unit {0})
    → OsResult (Unit {0})
    → Option GError × FilecacheSdata
end_truncate sdata gerr truncated (fails errno) = (report gerr (errno_error truncated), sdata)
end_truncate sdata true truncated (ok u) = (errno_error truncated, sdata)
end_truncate sdata false truncated (ok u) = (none, record sdata { modified = true })

unfoldable pub locked_truncate :
    FilecacheSdata → Bool → LockedCalls (Unit {0}) → Option GError × FilecacheSdata
unfolding end_truncate
locked_truncate sdata gerr calls = elim calls.lock [
  | fails errno ↦ (report gerr (g_error system errno), sdata)
  | ok u ↦ end_truncate sdata gerr calls.call calls.unlock
]

unfoldable pub filecache_truncate :
    Option FilecacheSdata → Bool → LockedCalls (Unit {0}) → Option GError × Option FilecacheSdata
unfolding locked_truncate
filecache_truncate none gerr calls = (report gerr (g_error filecache e_fc_sdatanull), none)
filecache_truncate (some sdata) gerr calls =
    let (error, after) = locked_truncate sdata gerr calls in (error, some after)

close_fd : Option ℕ → OsResult (Unit {0}) → Option GError
close_fd none close = g_error system ebadf
close_fd (some fd) close = errno_error close

-- `sdata` is freed.
unfoldable pub filecache_close : Option FilecacheSdata → OsResult (Unit {0}) → Option GError
unfolding close_fd
filecache_close none close = g_error filecache e_fc_sdatanull
filecache_close (some sdata) close = close_fd sdata.fd close
