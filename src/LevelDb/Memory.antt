-- ===== src/LevelDb/Memory.antt =====
-- A database in memory that keeps what `IsLevelDb` asks for; when it is broken every call fails.
use fusedav.Prelude.{
  ◌≡◌, refl, Bool, true, false, Option, none, some, [], ◌∷◌, arith, if◌then◌else◌,
}
use fusedav.Text.{Text, str_eq, str_lt, str_eq_iff}
use fusedav.Text.Order.{str_lt_connected}
use fusedav.LevelDb.Sorted.{AllAbove-trans, lookup-AllAbove}
use fusedav.LevelDb.{Entries, lookup, LevelDb, AllAbove, IsSorted, IsLevelDb}

module _ {V : Type 0} where
  unfoldable pub insert : Text → V → Entries V → Entries V
  insert k v [] = (k, v) ∷ []
  insert k v ((j, w) ∷ es) =
      if str_lt k j
      then (k, v) ∷ (j, w) ∷ es
      else if str_lt j k
      then (j, w) ∷ insert k v es
      else (k, v) ∷ es

  pub erase : Text → Entries V → Entries V
  erase k [] = []
  erase k ((j, w) ∷ es) = if str_eq j k then es else (j, w) ∷ erase k es

  AllAbove-insert :
      (i k : Text) (v : V) (es : Entries V)
      → str_lt i k ≡ true
      → AllAbove i es
      → AllAbove i (insert k v es)
  unfolding insert
  AllAbove-insert i k v [] l h = (l, tt)
  AllAbove-insert i k v ((j, w) ∷ es) l h = ground (arith, AllAbove-insert i k v es)

  pub insert-IsSorted : (k : Text) (v : V) (es : Entries V) → IsSorted es → IsSorted (insert k v es)
  unfolding insert
  insert-IsSorted k v [] h = (tt, tt)
  insert-IsSorted k v ((j, w) ∷ es) h = ground (
    arith,
    insert-IsSorted k v es h.1,
    AllAbove-trans k j es,
    AllAbove-insert j k v es,
    str_lt_connected k j,
  )

  AllAbove-erase : (i k : Text) (es : Entries V) → AllAbove i es → AllAbove i (erase k es)
  unfolding erase
  AllAbove-erase i k [] h = tt
  AllAbove-erase i k ((j, w) ∷ es) h = ground (arith, AllAbove-erase i k es)

  pub erase-IsSorted : (k : Text) (es : Entries V) → IsSorted es → IsSorted (erase k es)
  unfolding erase
  erase-IsSorted k [] h = tt
  erase-IsSorted k ((j, w) ∷ es) h = ground (arith, erase-IsSorted k es h.1, AllAbove-erase j k es)

  lookup-insert :
      (k j : Text) (v : V) (es : Entries V)
      → IsSorted es
      → lookup j (insert k v es) ≡ (if str_eq k j then some v else lookup j es)
  unfolding insert lookup
  lookup-insert k j v [] h = refl
  lookup-insert k j v ((i, w) ∷ es) h =
      ground
        (arith, lookup-insert k j v es h.1, str_eq_iff k j, str_eq_iff i j, str_lt_connected k i)

  lookup-erase_self : (k : Text) (es : Entries V) → IsSorted es → lookup k (erase k es) ≡ none
  unfolding erase lookup
  lookup-erase_self k [] h = refl
  lookup-erase_self k ((j, w) ∷ es) h =
      ground (arith, lookup-erase_self k es h.1, str_eq_iff j k, lookup-AllAbove k es)

  lookup-erase_ne :
      (k j : Text) (es : Entries V) → str_eq k j ≡ false → lookup j (erase k es) ≡ lookup j es
  unfolding erase lookup
  lookup-erase_ne k j [] h = refl
  lookup-erase_ne k j ((i, w) ∷ es) h =
      ground (arith, lookup-erase_ne k j es h, str_eq_iff i k, str_eq_iff i j, str_eq_iff k j)

pub record Memory (V : Type 0) : Type 0 where
  pub items : Entries V
  pub sorted : IsSorted items
  pub broken : Bool

module _ {V : Type 0} where
  memory_get : Memory V → Text → Option (Option V)
  memory_get db k = if db.broken then none else some (lookup k db.items)

  memory_put : Memory V → Text → V → Memory V × Bool
  unfolding insert
  memory_put db k v = if db.broken then (db, true) else (
    record {
      items = insert k v db.items;
      sorted = insert-IsSorted k v db.items db.sorted;
      broken = false;
    },
    false,
  )

  memory_delete : Memory V → Text → Memory V × Bool
  unfolding erase
  memory_delete db k = if db.broken then (db, true) else (
    record {
      items = erase k db.items;
      sorted = erase-IsSorted k db.items db.sorted;
      broken = false;
    },
    false,
  )

unfoldable pub memory : (V : Type 0) → LevelDb V
unfolding memory_get memory_put memory_delete
memory V = record {
  Db = Memory V;
  get = memory_get;
  put = memory_put;
  delete = memory_delete;
  entries = λ db. db.items;
}

module _ {V : Type 0} (db : Memory V) (k : Text) where
  get_reads : (r : Option V) → memory_get db k ≡ some r → lookup k db.items ≡ r
  unfolding memory_get
  get_reads r h = ground arith

  put_self : (v : V) → (memory_put db k v).1 ≡ false → lookup k (memory_put db k v).0.items ≡ some v
  unfolding memory_put
  put_self v h = ground (arith, lookup-insert k k v db.items db.sorted, str_eq_iff k k)

  put_other :
      (v : V) (j : Text)
      → str_eq k j ≡ false
      → lookup j (memory_put db k v).0.items ≡ lookup j db.items
  unfolding memory_put
  put_other v j h = ground (arith, lookup-insert k j v db.items db.sorted)

  delete_self : (memory_delete db k).1 ≡ false → lookup k (memory_delete db k).0.items ≡ none
  unfolding memory_delete
  delete_self h = ground (arith, lookup-erase_self k db.items db.sorted)

  delete_other :
      (j : Text) → str_eq k j ≡ false → lookup j (memory_delete db k).0.items ≡ lookup j db.items
  unfolding memory_delete
  delete_other j h = ground (arith, lookup-erase_ne k j db.items)

pub memory-IsLevelDb : (V : Type 0) → IsLevelDb (memory V)
unfolding memory
memory-IsLevelDb V = record {
  entries_sorted = λ db. db.sorted;
  get_reads = get_reads;
  put_self = put_self;
  put_other = put_other;
  delete_self = delete_self;
  delete_other = delete_other;
}
