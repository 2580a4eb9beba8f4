-- ===== src/LevelDb.antt =====
-- LevelDB, a library that the program links: a parameter of the model. The record has the calls
-- that fusedav makes; `IsLevelDb` has what LevelDB documents of them.
pub mod Sorted
pub mod Memory
use fusedav.Prelude.{ℕ, ◌≡◌, Bool, true, false, Option, none, some, List, [], ◌∷◌, if◌then◌else◌}
use fusedav.Text.{Text, str_eq, str_lt, starts_with}

abbrev pub Entries : Type 0 → Type 0
Entries V = List (Text × V)

-- The value that an iterator over the entries would come to at a key.
unfoldable pub lookup : {V : Type 0} → Text → Entries V → Option V
lookup k [] = none
lookup k ((j, v) ∷ es) = if str_eq j k then some v else lookup k es

pub record LevelDb (V : Type 0) : Type 1 where
  pub Db : Type 0
  -- `none` if the call sets `errptr`; inside, `none` for a key that is not there
  pub get : Db → Text → Option (Option V)
  -- the database afterwards, and whether the call sets `errptr`
  pub put : Db → Text → V → Db × Bool
  pub delete : Db → Text → Db × Bool
  -- the snapshot that a new iterator walks through, from its first entry to its last
  pub entries : Db → Entries V

-- The entries come in strictly increasing order of their keys.
abbrev pub AllAbove : {V : Type 0} → Text → Entries V → Type 0
AllAbove k [] = Unit
AllAbove k ((j, v) ∷ es) = (str_lt k j ≡ true) × AllAbove k es

abbrev pub IsSorted : {V : Type 0} → Entries V → Type 0
IsSorted [] = Unit
IsSorted ((k, v) ∷ es) = AllAbove k es × IsSorted es

pub record IsLevelDb {V : Type 0} (ldb : LevelDb V) : Type 0 where
  pub entries_sorted : (db : ldb.Db) → IsSorted (ldb.entries db)
  -- a read that succeeds agrees with iteration
  pub get_reads :
      (db : ldb.Db) (k : Text) (r : Option V)
      → ldb.get db k ≡ some r
      → lookup k (ldb.entries db) ≡ r
  -- a write that succeeds is seen by later reads; no write touches another key
  pub put_self :
      (db : ldb.Db) (k : Text) (v : V)
      → (ldb.put db k v).1 ≡ false
      → lookup k (ldb.entries (ldb.put db k v).0) ≡ some v
  pub put_other :
      (db : ldb.Db) (k : Text) (v : V) (j : Text)
      → str_eq k j ≡ false
      → lookup j (ldb.entries (ldb.put db k v).0) ≡ lookup j (ldb.entries db)
  pub delete_self :
      (db : ldb.Db) (k : Text)
      → (ldb.delete db k).1 ≡ false
      → lookup k (ldb.entries (ldb.delete db k).0) ≡ none
  pub delete_other :
      (db : ldb.Db) (k j : Text)
      → str_eq k j ≡ false
      → lookup j (ldb.entries (ldb.delete db k).0) ≡ lookup j (ldb.entries db)

-- `leveldb_iter_seek`: the first entry whose key is not below the target.
unfoldable pub seek : {V : Type 0} → Text → Entries V → Entries V
seek target [] = []
seek target ((k, v) ∷ es) = if str_lt k target then seek target es else (k, v) ∷ es
