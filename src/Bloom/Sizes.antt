-- ===== src/Bloom/Sizes.antt =====
-- Which filters `bloomfilter_init` makes, and for which of them an access stays in the bit field.
use fusedav.Prelude.{
  ℕ, ◌⊎◌, inl, inr, ◌*◌, ◌/◌, ◌%◌, ◌^◌, ◌≤◌, ◌<◌, ◌≡◌, ◌≢◌, refl, subst, leb, Bool, true, false,
  none, some, arith, get_or, replicate, length-replicate,
}
use fusedav.Text.{Text}
use fusedav.Bloom.{
  HashFunction, Bloomfilter, InitError, options_alloc_failed, bitfield_alloc_failed, created,
  failed, bloomfilter_init, stored_maxkeys, bloomfilter_add, add_chunks, byte_bit_location,
}
use fusedav.Bloom.Member.{IsWellFormed}

get_or-replicate_zero : (n i : ℕ) → get_or {A = ℕ} (replicate n 0) i 0 ≡ 0
get_or-replicate_zero ℕ.zero i = refl
get_or-replicate_zero (ℕ.suc n) ℕ.zero = refl
get_or-replicate_zero (ℕ.suc n) (ℕ.suc i) = get_or-replicate_zero n i

-- The filter that `stat_cache_prune` asks for, with the default number of keys and the default
-- hash, is made whatever the hash, and it is well-formed.
pub bloomfilter_init-default :
    (adler32 : HashFunction) (bits salt : ℕ)
    → (options : Bloomfilter) × (bloomfilter_init adler32 0 none bits salt true true
        ≡ created options)
      × IsWellFormed options
unfolding bloomfilter_init
bloomfilter_init-default adler32 bits salt = (
  record {
    bitfield = replicate 8192 0;
    maxkeys = 22755;
    salt = salt;
    bits_in_chunk = 16;
    num_chunks = 2;
    bits_in_hash_return = 32;
    filtersize = 8192;
    hashfcn = adler32;
  },
  refl,
  record {
    size = length-replicate {A = ℕ} 8192 0;
    bytes = λ i. rw (get_or-replicate_zero 8192 i) (omega arith);
  },
)

-- A caller's own hash is never accepted: `bits_in_hash_return` is checked, but not stored, so
-- `calculate_sizes` sees a hash of no bits.
pub bloomfilter_init-custom_fails :
    (adler32 hash : HashFunction) (maxkeys bits salt : ℕ) (a b : Bool) (options : Bloomfilter)
    → bloomfilter_init adler32 maxkeys (some hash) bits salt a b ≢ created options
unfolding bloomfilter_init
bloomfilter_init-custom_fails adler32 hash maxkeys bits salt a b options = ground arith

-- The filter for few keys.
abbrev small_filter : HashFunction → ℕ → ℕ → Bloomfilter
small_filter adler32 maxkeys salt = record {
  bitfield = replicate 32 0;
  maxkeys = maxkeys;
  salt = salt;
  bits_in_chunk = 8;
  num_chunks = 2;
  bits_in_hash_return = 32;
  filtersize = 32;
  hashfcn = adler32;
}

bloomfilter_init-small :
    (adler32 : HashFunction) (maxkeys bits salt : ℕ)
    → 0 < maxkeys
    → maxkeys ≤ 88
    → bloomfilter_init adler32 maxkeys none bits salt true true
      ≡ created (small_filter adler32 maxkeys salt)
unfolding bloomfilter_init
bloomfilter_init-small adler32 maxkeys bits salt pos small =
    let stored : stored_maxkeys maxkeys ≡ maxkeys = ground arith in
    let fits : leb (maxkeys * 144 / 100 * 2) 255 ≡ true = ground arith in simp (stored, fits)

-- For one to eighty-eight keys the bit field has 32 bytes, but a byte's number is still taken
-- from sixteen bits: adding a key whose hash has one of the upper eight of them set is an access
-- out of bounds.
pub bloomfilter_add-small_fails :
    (adler32 : HashFunction) (maxkeys bits salt : ℕ) (options : Bloomfilter) (key : Text)
    → 0 < maxkeys
    → maxkeys ≤ 88
    → bloomfilter_init adler32 maxkeys none bits salt true true ≡ created options
    → 256 ≤ adler32 salt key % 2 ^ 16
    → bloomfilter_add options key ≡ none
bloomfilter_add-small_fails adler32 maxkeys bits salt options key pos small made high =
    let same : small_filter adler32 maxkeys salt ≡ options =
      cc (bloomfilter_init-small adler32 maxkeys bits salt pos small) in
    subst (λ o. bloomfilter_add o key ≡ none) same
      (unfold bloomfilter_add add_chunks byte_bit_location in ground arith)

-- With the default sizes only an allocation can fail.
pub bloomfilter_init-cases :
    (adler32 : HashFunction) (bits salt : ℕ) (a b : Bool)
    → ((e : InitError) × (bloomfilter_init adler32 0 none bits salt a b ≡ failed e))
      ⊎ ((options : Bloomfilter) × (bloomfilter_init adler32 0 none bits salt a b ≡ created options)
          × IsWellFormed options)
bloomfilter_init-cases adler32 bits salt false b =
    inl (options_alloc_failed, unfold bloomfilter_init in refl)
bloomfilter_init-cases adler32 bits salt true false =
    inl (bitfield_alloc_failed, unfold bloomfilter_init in refl)
bloomfilter_init-cases adler32 bits salt true true =
    inr (bloomfilter_init-default adler32 bits salt)
