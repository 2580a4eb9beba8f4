-- ===== src/StatCache/Key.antt =====
-- `path2key` and `key2path`.
pub mod Shape
use fusedav.Prelude.{
  ℕ, ◌+◌, ◌-◌, Bool, true, false, ◌&&◌, Option, none, some, [], ◌∷◌, ◌++◌, ◌==◌, if◌then◌else◌,
}
use fusedav.Text.{Text, slash}
use fusedav.Text.Decimal.{utoa}

-- The local variables of the loop over the path.
record Scan : Type 0 where
  depth : ℕ
  pos : ℕ
  slash_found : Bool
  last_slash_pos : ℕ

scan_char : ℕ → Scan → Scan
scan_char c s =
    if c == slash
    then record s {
      depth = s.depth + 1;
      last_slash_pos = s.pos;
      slash_found = true;
      pos = s.pos + 1;
    }
    else record s { pos = s.pos + 1 }

scan_path : Text → Scan → Scan
unfolding scan_char
scan_path [] s = s
scan_path (c ∷ path) s = scan_path path (scan_char c s)

scan_start : Bool → Scan
scan_start prefix = record {
  depth = if prefix then 1 else 0;
  pos = 0;
  slash_found = false;
  last_slash_pos = 0;
}

format_key : Text → Bool → Scan → Text
format_key path prefix s =
    if prefix && (s.slash_found && (s.last_slash_pos == s.pos - 1))
    then utoa (s.depth - 1) ++ path
    else if prefix
    then utoa s.depth ++ path ++ slash ∷ []
    else utoa s.depth ++ path

-- The decimal depth of the path, and the path: with `prefix`, what the keys of its children begin
-- with.
unfoldable pub path2key : Text → Bool → Text
unfolding scan_path scan_start format_key
path2key path prefix = format_key path prefix (scan_path path (scan_start prefix))

-- From the first slash on.
unfoldable pub key2path : Text → Option Text
key2path [] = none
key2path (c ∷ key) = if c == slash then some (c ∷ key) else key2path key
