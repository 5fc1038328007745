-- ===== src/Virtual/Pages.antt =====
-- Virtual pages are taken and given back.
use enix.Base.{
  ℕ, zero, suc, ◌+◌, ◌-◌, ◌*◌, ◌/◌, ◌%◌, ◌≡◌, ◌<◌, refl, ◌∙◌, ap, sym, Bool, true, false, ◌&&◌,
  some, arith, ltb, leb, ◌==◌, if◌then◌else◌, add32, sub32, u32_mod, done, Bool-cases, inl, inr,
}
use enix.Bitmap.{Bitmap, bitmap_scan, bitmap_scan_test, write_bit, IsValid, Free}
use enix.Bitmap.Bytes.{bitmap_set_lem}
use enix.Memory.{PoolFlags, pg_size}
use enix.Virtual.{VirtualAddr, set_pages, below_stack, take_pages, vaddr_get, vaddr_remove}

-- Is `p` one of the `n` numbers from `i` on?
abbrev pub in_run : ℕ → ℕ → ℕ → Bool
in_run i n p = leb i p && ltb p (i + n)

pub set_pages_lem :
    (n i value : ℕ) (b : Bitmap)
    → IsValid b
    → value < 2
    → i + n < u32_mod
    → (b' : Bitmap) × (set_pages n i value b ≡ done b')
      × IsValid b'
      × ((p : ℕ)
          → bitmap_scan_test b' p ≡ (if in_run i n p then value == 1 else bitmap_scan_test b p))
unfolding set_pages
set_pages_lem zero i value b v h k = (b, refl, v, λ p. ground arith)
set_pages_lem (suc n) i value b v h k =
    let w = bitmap_set_lem b i value v h in
    let e : add32 i 1 ≡ i + 1 = omega arith in
    let (b', run, v', bits) =
      set_pages_lem n (i + 1) value (write_bit b i value) w.1 h (omega arith) in
    (
      b',
      rw (w.0, set_pages) (ap (λ x. set_pages n x value (write_bit b i value)) e ∙ run),
      v',
      λ p. ground (arith, bits p, w.3 p),
    )

-- Where bitmap_scan finds a run of free pages whose addresses fit into 32 bits, and below the stack
-- for the user, vaddr_get returns the address of its first page and takes just these pages; then
-- vaddr_remove of as many pages from that address on leaves every page as it was.
pub vaddr_get-vaddr_remove :
    (pf : PoolFlags) (pg_cnt i : ℕ) (v : VirtualAddr)
    → IsValid v.vaddr_bitmap
    → bitmap_scan v.vaddr_bitmap pg_cnt ≡ done (some i)
    → Free v.vaddr_bitmap i pg_cnt
    → v.vaddr_start + (i + pg_cnt) * pg_size < u32_mod
    → below_stack pf (v.vaddr_start + i * pg_size) ≡ true
    → (v1 : VirtualAddr) × (vaddr_get pf pg_cnt v ≡ done (v.vaddr_start + i * pg_size, v1))
      × ((p : ℕ)
          → bitmap_scan_test v1.vaddr_bitmap p
            ≡ (if in_run i pg_cnt p then true else bitmap_scan_test v.vaddr_bitmap p))
      × (v2 : VirtualAddr) × (vaddr_remove (v.vaddr_start + i * pg_size) pg_cnt v1 ≡ done v2)
      × ((p : ℕ) → bitmap_scan_test v2.vaddr_bitmap p ≡ bitmap_scan_test v.vaddr_bitmap p)
unfolding vaddr_get take_pages vaddr_remove
vaddr_get-vaddr_remove pf pg_cnt i v valid found free room low =
    let (b1, run1, valid1, bits1) =
      set_pages_lem pg_cnt i 1 v.vaddr_bitmap valid (omega arith) (omega (arith, room)) in
    let (b2, run2, valid2, bits2) =
      set_pages_lem pg_cnt i 0 b1 valid1 (omega arith) (omega (arith, room)) in
    let addr : add32 v.vaddr_start (i * pg_size % u32_mod) ≡ v.vaddr_start + i * pg_size =
      omega (arith, room) in
    let back : sub32 (v.vaddr_start + i * pg_size) v.vaddr_start / pg_size ≡ i =
      omega (arith, room) in
    (
      record v { vaddr_bitmap = b1 },
      rw (found, vaddr_get, run1, addr, low) refl,
      bits1,
      record v { vaddr_bitmap = b2 },
      rw (back, run2) refl,
      λ p. elim (Bool-cases (in_run i pg_cnt p)) [
        | inl t ↦
            let e : i + (p - i) ≡ p = ground (arith, t) in
            let was : bitmap_scan_test v.vaddr_bitmap p ≡ false =
              rw (sym e) (free (p - i) (ground (arith, t))) in
            bits2 p ∙ rw t (sym was)
        | inr f ↦ bits2 p ∙ rw f (bits1 p ∙ rw f refl)
      ],
    )
