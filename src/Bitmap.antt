-- ===== src/Bitmap.antt =====
-- lib/bitmap.c and lib/bitmap.h: a bitmap over bytes, and the search for a run of free bits.
--
-- `bits` is the memory from the pointer `btmp->bits` on, a byte at each offset, also past the end
-- of the bitmap: the C code has no check there, and the search reads one byte too far.
pub mod Bytes
pub mod Loops
pub mod Search
pub mod OneBit
use enix.Base.{
  ℕ, zero, suc, ◌+◌, ◌-◌, ◌*◌, ◌/◌, ◌%◌, ◌^◌, ◌≤◌, ◌<◌, ◌≡◌, Bool, true, false, not, ◌&&◌, Option,
  none, some, bit_and, bit_or, ltb, ◌==◌, if◌then◌else◌, add32, sub32, update, Run, done, ◌>>=◌,
  ◌>>◌, assert,
}

-- struct bitmap
pub record Bitmap : Type 0 where
  pub btmp_bytes_len : ℕ
  pub bits : ℕ → ℕ

-- BITMAP_MASK << n
abbrev pub mask : ℕ → ℕ
mask n = 2 ^ n

-- Is the bit set in the byte? What C reads off `byte & (BITMAP_MASK << n)`.
unfoldable pub bit_test : ℕ → ℕ → Bool
bit_test byte n = not (bit_and byte (mask n) == 0)

unfoldable pub bitmap_init : Bitmap → Bitmap
bitmap_init b = record b { bits = λ i. if ltb i b.btmp_bytes_len then 0 else b.bits i }

unfoldable pub bitmap_scan_test : Bitmap → ℕ → Bool
bitmap_scan_test b bit_idx = bit_test (b.bits (bit_idx / 8)) (bit_idx % 8)

-- The first loop: `fuel` bounds its rounds. C reads the byte before it compares the index.
unfoldable pub scan_bytes : ℕ → Bitmap → ℕ → ℕ
scan_bytes zero b idx_byte = idx_byte
scan_bytes (suc fuel) b idx_byte =
    let rest = scan_bytes fuel b (idx_byte + 1) in
    if (b.bits idx_byte == 0xFF) && ltb idx_byte b.btmp_bytes_len then rest else idx_byte

-- The second loop. The cast to uint8_t makes the mask 0 from the ninth bit on, which ends it.
unfoldable pub scan_bits : ℕ → ℕ → ℕ → ℕ
scan_bits zero byte idx_bit = idx_bit
scan_bits (suc fuel) byte idx_bit =
    let rest = scan_bits fuel byte (idx_bit + 1) in
    if not (bit_and (mask idx_bit % 256) byte == 0) then rest else idx_bit

-- The third loop, `while (bit_left-- > 0)`: it counts the free bits in a row.
unfoldable pub scan_run : Bitmap → ℕ → ℕ → ℕ → ℕ → Option ℕ
scan_run b cnt zero next_bit count = none
scan_run b cnt (suc bit_left) next_bit count =
    let count' = if not (bitmap_scan_test b next_bit) then add32 count 1 else 0 in
    let rest = scan_run b cnt bit_left (add32 next_bit 1) count' in
    if count' == cnt then some (add32 (sub32 next_bit cnt) 1) else rest

-- `none` is the result -1. The branch for a full bitmap stands below the ASSERT of its opposite.
unfoldable pub bitmap_scan : Bitmap → ℕ → Run (Option ℕ)
bitmap_scan b cnt =
    let len = b.btmp_bytes_len in
    let idx_byte = scan_bytes (len + 1) b 0 in
    let bit_idx_start = idx_byte * 8 + scan_bits 9 (b.bits idx_byte) 0 in
    let bit_left = sub32 (len * 8) bit_idx_start in
    do
      assert (ltb idx_byte len)
      done (
          if idx_byte == len
          then none
          else (if cnt == 1
              then some bit_idx_start
              else scan_run b cnt bit_left (bit_idx_start + 1) 1))

-- The new byte. Of `~(BITMAP_MASK << bit_odd)` the byte keeps the low eight bits.
unfoldable pub set_byte : ℕ → ℕ → ℕ → ℕ
set_byte old bit_odd value =
    if value == 0 then bit_and old (255 - mask bit_odd) else bit_or old (mask bit_odd)

unfoldable pub write_bit : Bitmap → ℕ → ℕ → Bitmap
write_bit b bit_idx value =
    let byte_idx = bit_idx / 8 in
    record b { bits = update b.bits byte_idx (set_byte (b.bits byte_idx) (bit_idx % 8) value) }

unfoldable pub bitmap_set : Bitmap → ℕ → ℕ → Run Bitmap
unfolding write_bit set_byte
bitmap_set b bit_idx value = do assert (ltb value 2); done (write_bit b bit_idx value)

-- Every cell holds a byte, and bit indices stay clear of the sign bit of `int`.
pub record IsValid (b : Bitmap) : Type 0 where
  pub bytes : (i : ℕ) → b.bits i < 256
  pub small : b.btmp_bytes_len ≤ 2 ^ 28 - 1

-- The `cnt` bits from `i` on are 0.
abbrev pub Free : Bitmap → ℕ → ℕ → Type 0
Free b i cnt = (j : ℕ) → j < cnt → bitmap_scan_test b (i + j) ≡ false

-- The result is the first run of `cnt` free bits below `limit`, or there is none.
abbrev pub FirstFit : Bitmap → ℕ → ℕ → Option ℕ → Type 0
FirstFit b cnt limit none = (s : ℕ) → s + cnt ≤ limit → ¬ Free b s cnt
FirstFit b cnt limit (some i) =
    Free b i cnt × (i + cnt ≤ limit) × ((s : ℕ) → s < i → ¬ Free b s cnt)
