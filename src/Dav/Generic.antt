-- ===== src/Dav/Generic.antt =====
-- The attributes that `fill_stat_generic` of src/fusedav.c gives a file.
use fusedav.Prelude.{
  ℕ, ◌+◌, ◌/◌, ◌≡◌, ◌≢◌, sym, ltb, ap, ◌∙◌, Bool, true, false, ◌&&◌, Option, none, some, ◌==◌,
  arith, inl, inr, Bool-cases,
}
use fusedav.Structs.{Stat, StatCacheValue}
use fusedav.StatCache.{fill_blocks}
use mathlib.Core.Bool.{true≢false}
use fusedav.FileCache.{OsResult, ok, fails}
use fusedav.Props.{s_ifreg}
use fusedav.Dav.{FillCalls, fill_stat_generic}

-- What the attributes of a file of a size are.
abbrev pub generic_file : ℕ → ℕ → Stat
generic_file size now = record {
  st_mode = s_ifreg;
  st_nlink = 1;
  st_size = size;
  st_blksize = 4096;
  st_blocks = (size + 511) / 512;
  st_atime = now;
  st_mtime = now;
  st_ctime = now;
}

abbrev value_of : {A : Type 0} → A → OsResult A → A
value_of d (ok a) = a
value_of d (fails code) = d

ok-injective : {A : Type 0} {a b : A} → ok a ≡ ok b → a ≡ b
ok-injective {a = a} e = ap (value_of a) e

abbrev is_ok : {A : Type 0} → OsResult A → Bool
is_ok (ok a) = true
is_ok (fails code) = false

ok≢fails : {A : Type 0} {a : A} {code : ℕ} → ok a ≢ fails code
ok≢fails e = true≢false (ap is_ok e)

abbrev with_blocks : Stat → Stat
with_blocks st = record st { st_blocks = (st.st_size + 511) / 512 }

pub fill_blocks-generic :
    (v : StatCacheValue) (size now : ℕ)
    → v.st ≡ generic_file size now
    → (fill_blocks v).st ≡ generic_file size now
unfolding fill_blocks
fill_blocks-generic v size now e = elim (Bool-cases (v.st.st_blocks == 0 && ltb 0 v.st.st_size)) [
  | inl t ↦ rw t (ap with_blocks e)
  | inr t ↦ rw t e
]

pub filled-generic :
    (fd : Option ℕ) (i size : ℕ) (fill : FillCalls) (st : Stat)
    → fill_stat_generic 0 false fd fill ≡ ok st
    → fd ≡ some i
    → fill.lseek ≡ ok size
    → st ≡ generic_file size fill.now
unfolding fill_stat_generic
filled-generic none i size fill st e f l = absurd (ground arith)
filled-generic (some j) i size fill st e f l = go fill.lseek e l
  where
    go :
        (lseek : OsResult ℕ)
        → fill_stat_generic 0 false (some j) (record fill { lseek = lseek }) ≡ ok st
        → lseek ≡ ok size
        → st ≡ generic_file size fill.now
    go (fails code) e l = absurd (ok≢fails (sym e))
    go (ok n) e l = sym (ok-injective e) ∙ ap (λ k. generic_file k fill.now) (ok-injective l)
