-- ===== src/StatCache/Tests.antt =====
-- Runs of the attribute cache on a database in memory.
mod Aging
use fusedav.Prelude.{
  ℕ, ◌≡◌, ◌↔◌, refl, subst, inl, inr, Bool-cases, true, false, Option, none, some, [], ◌∷◌, ◌++◌,
  arith,
}
use fusedav.Text.{Text, codes, slash, str_lt, str_eq, str_eq_sound}
use fusedav.Text.Decimal.{utoa}
use fusedav.LevelDb.{Entries, IsSorted, lookup}
use fusedav.LevelDb.Memory.{memory, memory-IsLevelDb}
use fusedav.Structs.{Stat, StatCacheValue, Blob, stat_blob}
use fusedav.Path.{path_parent}
use fusedav.Path.Parent.{IsName, directory_path}
use fusedav.StatCache.{
  StatCache, path2key, key2path, fill_blocks, stat_cache_value_get, stat_cache_value_set,
  stat_cache_delete,
}
use fusedav.StatCache.Key.Shape.{
  IsAbsolute, ends_in_slash, key2path-path2key, path2key-children_only,
}
use fusedav.StatCache.Children.{stat_cache_enumerate}
use fusedav.StatCache.Children.Exact.{contains, is_some, KeysOfPaths, stat_cache_enumerate-exact}
use fusedav.StatCache.Fresh.{stat_cache_value_set-get, stat_cache_delete-get}
use fusedav.StatCache.Prune.{BloomEnv, stat_cache_prune, is_directory}
use fusedav.StatCache.Prune.Rooted.{IsRooted, base, under, HasRootedParent, WellKeyed}
use fusedav.StatCache.Prune.Survives.{stat_cache_prune-keeps}

abbrev stat_of : ℕ → Stat
stat_of mode = record {
  st_mode = mode;
  st_nlink = 1;
  st_size = 1000;
  st_blksize = 4096;
  st_blocks = 0;
  st_atime = 0;
  st_mtime = 0;
  st_ctime = 0;
}

abbrev value_of : ℕ → StatCacheValue
value_of mode = record {
  st = stat_of mode;
  local_generation = 1;
  updated = 100;
  prepopulated = false;
  remote_generation = [];
}

-- `/a` is a directory with the file `b`; the directory of `/x/y` is not there.
abbrev items : Entries Blob
items =
    (codes "1/a", stat_blob (value_of 16877))
    ∷ (codes "2/a/b", stat_blob (value_of 33188))
    ∷ (codes "2/x/y", stat_blob (value_of 33188))
    ∷ []

pub items-IsSorted : IsSorted items
unfolding str_lt
items-IsSorted = ((refl, (refl, tt)), ((refl, tt), (tt, tt)))

abbrev pub two_levels : StatCache (memory Blob)
unfolding memory
two_levels = record {
  db = record { items = items; sorted = items-IsSorted; broken = false };
  counter = 0;
  terminated = false;
}

items-WellKeyed : WellKeyed ((memory Blob).entries two_levels.db)
unfolding memory path2key utoa
items-WellKeyed = (
  inl (codes "/a", refl, refl),
  (inl (codes "/a/b", refl, refl), (inl (codes "/x/y", refl, refl), tt)),
)

base_IsRooted : IsRooted ((memory Blob).entries two_levels.db) (codes "/")
base_IsRooted = base (codes "/") refl

a_IsRooted : IsRooted ((memory Blob).entries two_levels.db) (codes "/a")
unfolding memory path_parent path2key utoa lookup is_directory str_eq
a_IsRooted =
    under (codes "/a") (codes "/") (stat_blob (value_of 16877)) refl (omega arith) refl
      base_IsRooted refl refl

b-HasRootedParent : HasRootedParent ((memory Blob).entries two_levels.db) (codes "/a/b")
unfolding path_parent
b-HasRootedParent = inr (codes "/a", refl, a_IsRooted)

abbrev some_hash : BloomEnv
some_hash = record {
  adler32 = λ salt key. 70000;
  salt = 7;
  options_alloc = true;
  bitfield_alloc = true;
}

stat_cache_prune-keeps_example :
    (c : StatCache (memory Blob)) × (stat_cache_prune (memory Blob) some_hash two_levels ≡ some c)
    × (lookup (path2key (codes "/a/b") false) ((memory Blob).entries c.db)
        ≡ lookup (path2key (codes "/a/b") false) ((memory Blob).entries two_levels.db))
stat_cache_prune-keeps_example =
    stat_cache_prune-keeps (memory Blob) (memory-IsLevelDb Blob) (codes "/a/b") refl (omega arith)
      some_hash two_levels items-WellKeyed b-HasRootedParent

key2path-path2key_example : key2path (path2key (codes "/a/b") false) ≡ some (codes "/a/b")
key2path-path2key_example = key2path-path2key (codes "/a/b") refl

a_inner : ends_in_slash (codes "/a") ≡ false
a_inner = refl

b_key : path2key (codes "/a/b") false ≡ path2key (directory_path (codes "/a")) true ++ codes "b"
unfolding path2key utoa
b_key = refl

path2key-children_only_example :
    (codes "/a/b" ≡ codes "/a" ++ slash ∷ codes "b") × IsName (codes "b")
path2key-children_only_example =
    path2key-children_only (codes "/a") (codes "/a/b") (codes "b") a_inner refl refl b_key

pub a_keys : KeysOfPaths (memory Blob) two_levels (codes "/a")
unfolding memory path2key utoa lookup str_eq
a_keys name h = elim (Bool-cases (str_eq (codes "b") name)) [
  | inl same ↦
      let e : codes "b" ≡ name = str_eq_sound (codes "b") name same in
      subst
        (λ n.
          (path : Text) × IsAbsolute path × (path2key path false ≡ path2key (codes "/a") true ++ n))
        e (codes "/a/b", refl, refl)
  | inr other ↦ absurd (ground (arith, other))
]

stat_cache_enumerate-exact_example :
    (contains (codes "b") (stat_cache_enumerate (memory Blob) two_levels (codes "/a") true 100).0
      ≡ true)
    ↔ (IsName (codes "b")
        × (is_some (lookup (path2key (codes "/a/b") false) ((memory Blob).entries two_levels.db))
            ≡ true))
stat_cache_enumerate-exact_example =
    stat_cache_enumerate-exact (memory Blob) (memory-IsLevelDb Blob) two_levels (codes "/a")
      (codes "b") 100 a_inner refl a_keys

set_runs :
    (stat_cache_value_set
      (memory Blob)
      two_levels
      (some (codes "/a/c"))
      (value_of 33188)
      103
      103).error
    ≡ none
unfolding memory stat_cache_value_set
set_runs = refl

-- The cache after a write.
abbrev written : StatCache (memory Blob)
written =
    (stat_cache_value_set (memory Blob) two_levels (some (codes "/a/c")) (value_of 33188) 103
      103).cache

abbrev read_back : Option Blob
read_back = lookup (path2key (codes "/a/c") false) ((memory Blob).entries written.db)

get_runs : (memory Blob).get written.db (path2key (codes "/a/c") false) ≡ some read_back
unfolding memory stat_cache_value_set
get_runs = refl

stat_cache_value_set-get_example :
    stat_cache_value_get (memory Blob) written (codes "/a/c") false 106 ≡ record {
      result = some record (value_of 33188) {
        updated = 103;
        local_generation = 1728053249;
        st = record (stat_of 33188) { st_blocks = 2 };
      };
      error = none;
      cache = written;
    }
unfolding memory two_levels
stat_cache_value_set-get_example =
    stat_cache_value_set-get (memory Blob) (memory-IsLevelDb Blob) two_levels (codes "/a/c")
      (value_of 33188) 103 103 106 false read_back set_runs get_runs (inr (omega arith))

delete_runs : (stat_cache_delete (memory Blob) two_levels (codes "/a/b")).error ≡ none
unfolding memory stat_cache_delete
delete_runs = refl

stat_cache_delete-get_example :
    (stat_cache_value_get
      (memory Blob)
      (stat_cache_delete (memory Blob) two_levels (codes "/a/b")).cache
      (codes "/a/b")
      true
      100).result
    ≡ none
stat_cache_delete-get_example =
    stat_cache_delete-get (memory Blob) (memory-IsLevelDb Blob) two_levels (codes "/a/b") true 100
      delete_runs
