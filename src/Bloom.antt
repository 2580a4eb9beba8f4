-- ===== src/Bloom.antt =====
-- src/bloom-filter.c. The hash of zlib, `adler32`, is an argument of `bloomfilter_init`. An access
-- outside of the bit field, which C leaves undefined, is `none`.
pub mod Bits
pub mod Member
pub mod Sizes
mod Tests
use Prim.Native.Nat.{bit_and, bit_or}
use fusedav.Prelude.{
  ℕ, zero, suc, ◌+◌, ◌*◌, ◌/◌, ◌%◌, ◌^◌, Bool, true, false, ◌&&◌, Option, none, some, List, ltb,
  leb, ◌==◌, if◌then◌else◌, length, get_or, set, replicate,
}
use fusedav.Text.{Text}

abbrev pub HashFunction : Type 0
HashFunction = ℕ → Text → ℕ

-- `struct bloomfilter_options_t`
pub record Bloomfilter : Type 0 where
  pub bitfield : List ℕ
  pub maxkeys : ℕ
  pub salt : ℕ
  pub bits_in_chunk : ℕ
  pub num_chunks : ℕ
  pub bits_in_hash_return : ℕ
  pub filtersize : ℕ
  pub hashfcn : HashFunction

abbrev pub uchar_max : ℕ
uchar_max = 255

abbrev pub ushrt_max : ℕ
ushrt_max = 65535

abbrev pub uint_max : ℕ
uint_max = 4294967295

-- `maxkeys * 1.44`, cut to an integer: exact for an `unsigned int`.
unfoldable pub calculate_sizes : Bloomfilter → Option Bloomfilter
calculate_sizes options =
    let wanted = options.maxkeys * 144 / 100 in
    if leb (wanted * 2) uchar_max && leb 16 options.bits_in_hash_return
    then some (record options { bits_in_chunk = 8; num_chunks = 2; filtersize = uchar_max / 8 + 1 })
    else if leb (wanted * 2) ushrt_max && leb 32 options.bits_in_hash_return
    then some
        (record options { bits_in_chunk = 16; num_chunks = 2; filtersize = ushrt_max / 8 + 1 })
    else if leb (wanted * 2) uint_max && leb 64 options.bits_in_hash_return
    then some (record options { bits_in_chunk = 32; num_chunks = 2; filtersize = uint_max / 8 + 1 })
    else none

-- What `errptr` tells of a failure.
pub data InitError : Type 0 where
  options_alloc_failed no_bits_in_hash_return maxkeys_too_large bitfield_alloc_failed : InitError

pub data InitResult : Type 0 where
  created : Bloomfilter → InitResult
  failed : InitError → InitResult

-- The bit field is allocated last, all zero.
unfoldable pub alloc_bitfield : Bool → Option Bloomfilter → InitResult
alloc_bitfield bitfield_alloc none = failed maxkeys_too_large
alloc_bitfield bitfield_alloc (some options) =
    if bitfield_alloc
    then created (record options { bitfield = replicate options.filtersize 0 })
    else failed bitfield_alloc_failed

-- `calloc` of the options: every field is zero. The hash function stands in the record from the
-- start, since C's null pointer is never called.
abbrev pub zeroed : HashFunction → Bloomfilter
zeroed hash = record {
  bitfield = List.[];
  maxkeys = 0;
  salt = 0;
  bits_in_chunk = 0;
  num_chunks = 0;
  bits_in_hash_return = 0;
  filtersize = 0;
  hashfcn = hash;
}

abbrev pub default_maxkeys : ℕ
default_maxkeys = 22755

-- `maxkeys` is stored in an `unsigned int`.
abbrev pub stored_maxkeys : ℕ → ℕ
stored_maxkeys maxkeys = if maxkeys == 0 then default_maxkeys else maxkeys % 2 ^ 32

unfoldable pub init_custom : HashFunction → ℕ → ℕ → ℕ → Bool → InitResult
unfolding calculate_sizes alloc_bitfield
init_custom hash maxkeys bits_in_hash_return salt bitfield_alloc =
    if bits_in_hash_return == 0
    then failed no_bits_in_hash_return
    else alloc_bitfield bitfield_alloc
        (calculate_sizes (record (zeroed hash) { maxkeys = stored_maxkeys maxkeys; salt = salt }))

unfoldable pub init_default : HashFunction → ℕ → ℕ → Bool → InitResult
unfolding calculate_sizes alloc_bitfield
init_default adler32 maxkeys salt bitfield_alloc = alloc_bitfield bitfield_alloc (
    calculate_sizes (record (zeroed adler32) {
      maxkeys = stored_maxkeys maxkeys;
      salt = salt;
      bits_in_hash_return = 32;
    }))

-- `salt` is the reading of the clock in `set_salt`; the two Booleans say whether `calloc` succeeds.
unfoldable pub bloomfilter_init :
    HashFunction → ℕ → Option HashFunction → ℕ → ℕ → Bool → Bool → InitResult
unfolding init_custom init_default
bloomfilter_init adler32 maxkeys none bits_in_hash_return salt options_alloc bitfield_alloc =
    if options_alloc
    then init_default adler32 maxkeys salt bitfield_alloc
    else failed options_alloc_failed
bloomfilter_init adler32 maxkeys (some hash) bits_in_hash_return salt options_alloc bitfield_alloc =
    if options_alloc
    then init_custom hash maxkeys bits_in_hash_return salt bitfield_alloc
    else failed options_alloc_failed

-- `values_t`
pub record Values : Type 0 where
  pub bitvalue : ℕ
  pub bytevalue : ℕ
  pub hashvalue : ℕ

-- The low sixteen bits name a byte and a bit in it, whatever the width of a chunk.
unfoldable pub byte_bit_location : ℕ → ℕ → Values
byte_bit_location startvalue bits_in_chunk =
    let hashvalue = startvalue % 2 ^ 16 in
    record {
      bitvalue = 2 ^ (hashvalue % 8);
      bytevalue = hashvalue / 8;
      hashvalue = startvalue / 2 ^ bits_in_chunk;
    }

-- `bitfield[byte] |= bit`
unfoldable pub set_bit : Bloomfilter → Values → Bloomfilter
set_bit options v = record options {
  bitfield =
      set options.bitfield v.bytevalue (bit_or (get_or options.bitfield v.bytevalue 0) v.bitvalue);
}

unfoldable pub add_chunks : ℕ → ℕ → Bloomfilter → Option Bloomfilter
unfolding set_bit
add_chunks zero hashvalue options = some options
add_chunks (suc n) hashvalue options =
    let v = byte_bit_location hashvalue options.bits_in_chunk in
    let rest = add_chunks n v.hashvalue (set_bit options v) in
    if ltb v.bytevalue (length options.bitfield) then rest else none

unfoldable pub bloomfilter_add : Bloomfilter → Text → Option Bloomfilter
bloomfilter_add options key =
    add_chunks options.num_chunks (options.hashfcn options.salt key) options

unfoldable pub exists_chunks : ℕ → ℕ → Bloomfilter → Option Bool
exists_chunks zero hashvalue options = some true
exists_chunks (suc n) hashvalue options =
    let v = byte_bit_location hashvalue options.bits_in_chunk in
    let rest = exists_chunks n v.hashvalue options in
    if ltb v.bytevalue (length options.bitfield)
    then if bit_and (get_or options.bitfield v.bytevalue 0) v.bitvalue == 0
      then some false
      else rest
    else none

unfoldable pub bloomfilter_exists : Bloomfilter → Text → Option Bool
bloomfilter_exists options key =
    exists_chunks options.num_chunks (options.hashfcn options.salt key) options
