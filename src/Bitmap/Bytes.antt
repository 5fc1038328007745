-- ===== src/Bitmap/Bytes.antt =====
-- Bits of one byte, and bitmap_set: what it changes and what it leaves.
use enix.Base.{
  ℕ, ◌-◌, ◌/◌, ◌%◌, ◌<◌, ◌≡◌, refl, Bool, true, false, not, ◌&&◌, ◌||◌, bit_and, bit_or, arith,
  ℕ_discrete, done, ltb, ◌==◌, if◌then◌else◌, for_all_lt, for_all_lt_lem,
}
use enix.Bitmap.{Bitmap, mask, bit_test, IsValid, bitmap_scan_test, bitmap_set, set_byte, write_bit}

-- Equality of Booleans, for the tables.
abbrev same : Bool → Bool → Bool
same true b = b
same false b = not b

same→eq : (a b : Bool) → same a b ≡ true → a ≡ b
same→eq true true h = refl
same→eq false false h = refl
same→eq true false h = ground arith
same→eq false true h = ground arith

-- A table over bytes and two bit numbers.
table : (ℕ → ℕ → ℕ → Bool) → Bool
table p = for_all_lt (λ x. for_all_lt (λ j. for_all_lt (λ k. p x j k) 8) 8) 256

table_sound :
    (p : ℕ → ℕ → ℕ → Bool) (x j k : ℕ) → table p ≡ true → x < 256 → j < 8 → k < 8 → p x j k ≡ true
unfolding table
table_sound p x j k t hx hj hk =
    for_all_lt_lem _ 8 k hk (for_all_lt_lem _ 8 j hj (for_all_lt_lem _ 256 x hx t))

or_table : table (λ x j k. same (bit_test (bit_or x (mask j)) k) ((j == k) || bit_test x k)) ≡ true
unfolding table for_all_lt bit_test
or_table = refl

and_table :
    table (λ x j k. same (bit_test (bit_and x (255 - mask j)) k) (not (j == k) && bit_test x k))
    ≡ true
unfolding table for_all_lt bit_test
and_table = refl

byte_table :
    table (λ x j k. ltb (bit_or x (mask j)) 256 && ltb (bit_and x (255 - mask j)) 256) ≡ true
unfolding table for_all_lt
byte_table = refl

bit_test-or :
    (x j k : ℕ)
    → x < 256
    → j < 8
    → k < 8
    → bit_test (bit_or x (mask j)) k ≡ ((j == k) || bit_test x k)
bit_test-or x j k hx hj hk = same→eq _ _ (table_sound _ x j k or_table hx hj hk)

bit_test-and :
    (x j k : ℕ)
    → x < 256
    → j < 8
    → k < 8
    → bit_test (bit_and x (255 - mask j)) k ≡ (not (j == k) && bit_test x k)
bit_test-and x j k hx hj hk = same→eq _ _ (table_sound _ x j k and_table hx hj hk)

byte_bounds :
    (x j : ℕ) → x < 256 → j < 8 → (bit_or x (mask j) < 256) × (bit_and x (255 - mask j) < 256)
byte_bounds x j hx hj = ground (arith, table_sound _ x j 0 byte_table hx hj)

-- The abstract view of a write: one bit of the sequence changes.
abbrev pub put : (ℕ → Bool) → ℕ → Bool → ℕ → Bool
put f i v k = if i == k then v else f k

set_byte_test :
    (x j value k : ℕ)
    → x < 256
    → j < 8
    → k < 8
    → value < 2
    → bit_test (set_byte x j value) k ≡ (if j == k then value == 1 else bit_test x k)
unfolding set_byte
set_byte_test x j value k hx hj hk hv =
    ground (arith, bit_test-or x j k hx hj hk, bit_test-and x j k hx hj hk)

set_byte_bound : (x j value : ℕ) → x < 256 → j < 8 → set_byte x j value < 256
unfolding set_byte
set_byte_bound x j value hx hj = ground (arith, byte_bounds x j hx hj)

write_bit-IsValid : (b : Bitmap) (i value : ℕ) → IsValid b → IsValid (write_bit b i value)
unfolding write_bit
write_bit-IsValid b i value v = record {
  bytes = λ k. ground (
    arith,
    v.bytes k,
    set_byte_bound (b.bits (i / 8)) (i % 8) value (v.bytes (i / 8)) (omega arith),
  );
  small = v.small;
}

-- Equal byte numbers and equal bit numbers make equal indices.
same_index : (i k : ℕ) → i / 8 ≡ k / 8 → (i % 8 == k % 8) ≡ (i == k)
same_index i k h = ground arith

write_bit_test :
    (b : Bitmap) (i value k : ℕ)
    → IsValid b
    → value < 2
    → bitmap_scan_test (write_bit b i value) k ≡ put (bitmap_scan_test b) i (value == 1) k
unfolding write_bit bitmap_scan_test
write_bit_test b i value k v h = elim (ℕ_discrete (i / 8) (k / 8)) [
  | yes e ↦ ground (
    arith,
    same_index i k e,
    set_byte_test (b.bits (k / 8)) (i % 8) value (k % 8) (v.bytes (k / 8)) (omega arith)
        (omega arith) h,
  )
  | no ne ↦ ground arith
]

-- bitmap_set with the value 0 or 1 runs to its end and writes the one bit: every test afterwards
-- reads the new value at that index, and the old value elsewhere. It keeps the length and the
-- invariant.
pub bitmap_set_lem :
    (b : Bitmap) (i value : ℕ)
    → IsValid b
    → value < 2
    → (bitmap_set b i value ≡ done (write_bit b i value))
      × IsValid (write_bit b i value)
      × ((write_bit b i value).btmp_bytes_len ≡ b.btmp_bytes_len)
      × ((k : ℕ)
          → bitmap_scan_test (write_bit b i value) k ≡ put (bitmap_scan_test b) i (value == 1) k)
unfolding bitmap_set write_bit
bitmap_set_lem b i value v h =
    (ground arith, write_bit-IsValid b i value v, refl, λ k. write_bit_test b i value k v h)
