-- ===== src/Bloom/Member.antt =====
-- Proofs about the keys of the filter of src/bloom-filter.c: adding and looking up.
use Prim.Native.Nat.{bit_and, bit_or}
use fusedav.Prelude.{
  ℕ, zero, suc, ◌/◌, ◌%◌, ◌^◌, ◌<◌, ◌≡◌, refl, ◌∙◌, subst, Bool, true, false, some, List, arith,
  inl, inr, ltb, ◌==◌, length, get_or, set, length-set, get_or-set_self, get_or-set_ne, Bool-cases,
  if◌then◌else◌, lt→ltb,
}
use fusedav.Text.{Text}
use fusedav.Bloom.{
  Bloomfilter, byte_bit_location, set_bit, add_chunks, bloomfilter_add, exists_chunks,
  bloomfilter_exists,
}
use fusedav.Bloom.Bits.{bit_or-lt, bit_or_sets, bit_or_keeps}

-- The bit field holds 8192 bytes, as many as sixteen bits can name.
pub record IsWellFormed (options : Bloomfilter) : Type 0 where
  pub size : length options.bitfield ≡ 8192
  pub bytes : (i : ℕ) → get_or options.bitfield i 0 < 256

abbrev bit_clear : List ℕ → ℕ → ℕ → Bool
bit_clear bits i k = bit_and (get_or bits i 0) (2 ^ k) == 0

abbrev with_bit : List ℕ → ℕ → ℕ → List ℕ
with_bit bits i k = set bits i (bit_or (get_or bits i 0) (2 ^ k))

module _ (bits : List ℕ) (j m : ℕ) (bytes : (i : ℕ) → get_or bits i 0 < 256)
    (inside : j < length bits) (eight : m < 8) where
  get_or-with_bit :
      (i : ℕ)
      → get_or (with_bit bits j m) i 0
        ≡ (if j == i then bit_or (get_or bits j 0) (2 ^ m) else get_or bits i 0)
  get_or-with_bit i = elim (Bool-cases (j == i)) [
    | inl same ↦ rw same (
        let e : j ≡ i = ground arith in
        subst (λ n. get_or (with_bit bits j m) n 0 ≡ bit_or (get_or bits j 0) (2 ^ m)) e
          (get_or-set_self bits j _ 0 inside))
    | inr other ↦ rw other (get_or-set_ne bits j i _ 0 (ground arith))
  ]

  with_bit_bytes : (i : ℕ) → get_or (with_bit bits j m) i 0 < 256
  with_bit_bytes i =
      rw (get_or-with_bit i)
        (ground (arith, bytes i, bit_or-lt (get_or bits j 0) m (bytes j) eight))

  with_bit_self : bit_clear (with_bit bits j m) j m ≡ false
  with_bit_self =
      rw (get_or-set_self bits j (bit_or (get_or bits j 0) (2 ^ m)) 0 inside)
        (bit_or_sets (get_or bits j 0) m (bytes j) eight)

  with_bit_keeps :
      (i k : ℕ) → k < 8 → bit_clear bits i k ≡ false → bit_clear (with_bit bits j m) i k ≡ false
  with_bit_keeps i k hk h =
      rw (get_or-with_bit i) (ground (arith, bit_or_keeps (get_or bits j 0) m k (bytes j) eight hk))

-- A byte's number has at most thirteen bits, a bit's three.
location_bounds : (h b : ℕ) → ((byte_bit_location h b).bytevalue < 8192) × (h % 2 ^ 16 % 8 < 8)
unfolding byte_bit_location
location_bounds h b = omega arith

set_bit-IsWellFormed :
    (options : Bloomfilter) (h b : ℕ)
    → IsWellFormed options
    → IsWellFormed (set_bit options (byte_bit_location h b))
unfolding set_bit byte_bit_location
set_bit-IsWellFormed options h b wf = record {
  size = length-set options.bitfield _ _ ∙ wf.size;
  bytes =
      with_bit_bytes options.bitfield (h % 2 ^ 16 / 8) (h % 2 ^ 16 % 8) wf.bytes
        (omega (arith, wf.size)) (omega arith);
}

-- Setting a bit loses no key.
exists_chunks-set_bit :
    (n h g b : ℕ) (options : Bloomfilter)
    → IsWellFormed options
    → exists_chunks n h options ≡ some true
    → exists_chunks n h (set_bit options (byte_bit_location g b)) ≡ some true
unfolding exists_chunks set_bit byte_bit_location
exists_chunks-set_bit zero h g b options wf e = refl
exists_chunks-set_bit (suc n) h g b options wf e = ground (
  arith,
  wf.size,
  length-set options.bitfield (g % 2 ^ 16 / 8)
      (bit_or (get_or options.bitfield (g % 2 ^ 16 / 8) 0) (2 ^ (g % 2 ^ 16 % 8))),
  with_bit_keeps options.bitfield (g % 2 ^ 16 / 8) (g % 2 ^ 16 % 8) wf.bytes
      (omega (arith, wf.size)) (omega arith) (h % 2 ^ 16 / 8) (h % 2 ^ 16 % 8) (omega arith),
  exists_chunks-set_bit n (h / 2 ^ options.bits_in_chunk) g b options wf,
)

-- After its bit is set, one chunk is found.
exists_chunks-set_bit_self :
    (h : ℕ) (options : Bloomfilter)
    → IsWellFormed options
    → exists_chunks 1 h (set_bit options (byte_bit_location h options.bits_in_chunk)) ≡ some true
unfolding exists_chunks set_bit byte_bit_location
exists_chunks-set_bit_self h options wf = ground (
  arith,
  wf.size,
  length-set options.bitfield (h % 2 ^ 16 / 8)
      (bit_or (get_or options.bitfield (h % 2 ^ 16 / 8) 0) (2 ^ (h % 2 ^ 16 % 8))),
  with_bit_self options.bitfield (h % 2 ^ 16 / 8) (h % 2 ^ 16 % 8) wf.bytes (omega (arith, wf.size))
      (omega arith),
)

-- A hash is found when its first chunk and the others are.
exists_chunks-suc :
    (n h : ℕ) (options : Bloomfilter)
    → exists_chunks 1 h options ≡ some true
    → exists_chunks n (h / 2 ^ options.bits_in_chunk) options ≡ some true
    → exists_chunks (suc n) h options ≡ some true
unfolding exists_chunks byte_bit_location
exists_chunks-suc n h options one rest = ground arith

-- What adding a hash in `n` chunks does to a filter.
pub record Adds (n h : ℕ) (options options' : Bloomfilter) : Type 0 where
  pub wf : IsWellFormed options'
  pub finds : exists_chunks n h options' ≡ some true
  pub keeps :
      (m g : ℕ) → exists_chunks m g options ≡ some true → exists_chunks m g options' ≡ some true
  pub salt : options'.salt ≡ options.salt
  pub hashfcn : options'.hashfcn ≡ options.hashfcn
  pub num_chunks : options'.num_chunks ≡ options.num_chunks
  pub bits_in_chunk : options'.bits_in_chunk ≡ options.bits_in_chunk

add_chunks-suc :
    (n h : ℕ) (options : Bloomfilter)
    → IsWellFormed options
    → add_chunks (suc n) h options
      ≡ add_chunks n
          (h / 2 ^ options.bits_in_chunk)
          (set_bit options (byte_bit_location h options.bits_in_chunk))
unfolding add_chunks byte_bit_location
add_chunks-suc n h options wf = ground (arith, wf.size)

add_chunks-Adds :
    (n h : ℕ) (options : Bloomfilter)
    → IsWellFormed options
    → (options' : Bloomfilter) × (add_chunks n h options ≡ some options')
      × Adds n h options options'
add_chunks-Adds zero h options wf = (
  options,
  unfold add_chunks in refl,
  record {
    wf = wf;
    finds = unfold exists_chunks in refl;
    keeps = λ m g e. e;
    salt = refl;
    hashfcn = refl;
    num_chunks = refl;
    bits_in_chunk = refl;
  },
)
add_chunks-Adds (suc n) h options wf =
    let marked : Bloomfilter = set_bit options (byte_bit_location h options.bits_in_chunk) in
    let marked_wf = set_bit-IsWellFormed options h options.bits_in_chunk wf in
    let (options', e, adds) = add_chunks-Adds n (h / 2 ^ options.bits_in_chunk) marked marked_wf in
    let bits : options'.bits_in_chunk ≡ options.bits_in_chunk =
      adds.bits_in_chunk ∙ (unfold set_bit in refl) in
    (
      options',
      add_chunks-suc n h options wf ∙ e,
      record {
        wf = adds.wf;
        finds =
            exists_chunks-suc n h options'
              (adds.keeps 1 h (exists_chunks-set_bit_self h options wf)) (simp bits adds.finds);
        keeps = λ m g p.
            adds.keeps m g (exists_chunks-set_bit m g h options.bits_in_chunk options wf p);
        salt = adds.salt ∙ (unfold set_bit in refl);
        hashfcn = adds.hashfcn ∙ (unfold set_bit in refl);
        num_chunks = adds.num_chunks ∙ (unfold set_bit in refl);
        bits_in_chunk = bits;
      },
    )

-- What `bloomfilter_add` does: it stays in bounds, and from then on the filter holds the key and
-- every key that it held before.
pub record Added (options : Bloomfilter) (key : Text) (options' : Bloomfilter) : Type 0 where
  pub wf : IsWellFormed options'
  pub holds : bloomfilter_exists options' key ≡ some true
  pub keeps :
      (other : Text)
      → bloomfilter_exists options other ≡ some true
      → bloomfilter_exists options' other ≡ some true

-- Adding a key to a well-formed filter touches only the bit field, keeps the filter well-formed,
-- and afterwards the key and all keys found before are found.
pub bloomfilter_add-Added :
    (options : Bloomfilter) (key : Text)
    → IsWellFormed options
    → (options' : Bloomfilter) × (bloomfilter_add options key ≡ some options')
      × Added options key options'
unfolding bloomfilter_add bloomfilter_exists
bloomfilter_add-Added options key wf =
    let (options', e, adds) =
      add_chunks-Adds options.num_chunks (options.hashfcn options.salt key) options wf in
    (
      options',
      e,
      record {
        wf = adds.wf;
        holds = rw (adds.num_chunks, adds.hashfcn, adds.salt) adds.finds;
        keeps = λ other h. rw (adds.num_chunks, adds.hashfcn, adds.salt) (adds.keeps _ _ h);
      },
    )

-- A lookup in a well-formed filter stays in bounds.
exists_chunks-defined :
    (n h : ℕ) (options : Bloomfilter)
    → IsWellFormed options
    → (b : Bool) × (exists_chunks n h options ≡ some b)
unfolding exists_chunks byte_bit_location
exists_chunks-defined zero h options wf = (true, refl)
exists_chunks-defined (suc n) h options wf =
    let (b, e) = exists_chunks-defined n (h / 2 ^ options.bits_in_chunk) options wf in
    let inside : ltb (h % 2 ^ 16 / 8) (length options.bitfield) ≡ true =
      lt→ltb _ _ (omega (arith, wf.size)) in
    elim (Bool-cases (bit_clear options.bitfield (h % 2 ^ 16 / 8) (h % 2 ^ 16 % 8))) [
      | inl clear ↦ (false, rw (inside, clear))
      | inr hit ↦ (b, rw (inside, hit) e)
    ]

pub bloomfilter_exists-defined :
    (options : Bloomfilter) (key : Text)
    → IsWellFormed options
    → (b : Bool) × (bloomfilter_exists options key ≡ some b)
unfolding bloomfilter_exists
bloomfilter_exists-defined options key wf = exists_chunks-defined _ _ options wf
