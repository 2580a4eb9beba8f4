-- ===== src/Bloom/Tests.antt =====
-- Runs of the Bloom filter of src/bloom-filter.c.
use fusedav.Prelude.{◌≡◌, ◌≢◌, refl, true, none, some, replicate, arith}
use fusedav.Text.{codes}
use fusedav.Bloom.{Bloomfilter, HashFunction, bloomfilter_init, bloomfilter_add, created}
use fusedav.Bloom.Member.{Added, bloomfilter_add-Added}
use fusedav.Bloom.Sizes.{
  bloomfilter_init-default, bloomfilter_init-custom_fails, bloomfilter_add-small_fails,
}

abbrev some_hash : HashFunction
some_hash = λ salt key. 70000

abbrev big_hash : HashFunction
big_hash = λ salt key. 300

bloomfilter_add-Added_example :
    (options' : Bloomfilter) × (bloomfilter_add
        (bloomfilter_init-default some_hash 0 7).0
        (codes "/a")
      ≡ some options')
    × Added (bloomfilter_init-default some_hash 0 7).0 (codes "/a") options'
bloomfilter_add-Added_example =
    bloomfilter_add-Added (bloomfilter_init-default some_hash 0 7).0 (codes "/a")
      (bloomfilter_init-default some_hash 0 7).2

abbrev small_filter : Bloomfilter
small_filter = record {
  bitfield = replicate 32 0;
  maxkeys = 50;
  salt = 7;
  bits_in_chunk = 8;
  num_chunks = 2;
  bits_in_hash_return = 32;
  filtersize = 32;
  hashfcn = big_hash;
}

small_runs : bloomfilter_init big_hash 50 none 0 7 true true ≡ created small_filter
unfolding bloomfilter_init
small_runs = refl

bloomfilter_add-small_fails_example : bloomfilter_add small_filter (codes "/a") ≡ none
bloomfilter_add-small_fails_example =
    bloomfilter_add-small_fails big_hash 50 0 7 small_filter (codes "/a") (omega arith)
      (omega arith) small_runs (omega arith)

bloomfilter_init-custom_fails_example :
    bloomfilter_init some_hash 0 (some big_hash) 32 7 true true ≢ created small_filter
bloomfilter_init-custom_fails_example =
    bloomfilter_init-custom_fails some_hash big_hash 0 32 7 true true small_filter
