-- ===== src/Examples/Sysinfo/Usage.antt =====
-- The shares that get_memory_info and get_disk_usage print
-- (examples/tool_call_demo/ea_tool_sysinfo.cpp).
use native.Mathlib.Nat.{div-le_of_le-mul, mul-le-mul_left, mod-eq_of_lt, div-zero}
use embed_agent.Base.{
  ℕ, zero, suc, ◌+◌, ◌-◌, ◌*◌, ◌/◌, ◌%◌, ◌^◌, ◌≡◌, ◌≤◌, ◌<◌, refl, ap, sym, ◌∙◌, ℤ, pos, negsuc,
  arith, sub_ℤ, difference, leb, Bool-cases, inl, inr,
}
use embed_agent.Examples.Sysinfo.{
  MemInfo, used_kb, memory_percent, percent_of, at_least_zero, DiskStats, block_size, disk_use,
  disk_percent,
}

percent_le : (u t : ℕ) → u ≤ suc t → (u * 100) / suc t ≤ 100
percent_le u t h = div-le_of_le-mul (suc t) (omega arith)

percent_of-le : (u t : ℕ) → u ≤ t → (p : ℕ) × (percent_of (pos u) (pos t) ≡ pos p) × (p ≤ 100)
percent_of-le u zero h = (0, refl, omega arith)
percent_of-le u (suc t) h = ((u * 100) / suc t, refl, percent_le u t h)

abbrev IsBelow : ℤ → ℕ → Type 0
IsBelow (pos n) d = n ≤ d
IsBelow (negsuc n) d = Unit

sub_ℤ-IsBelow : (z : ℤ) (k d : ℕ) → IsBelow z d → IsBelow (sub_ℤ z (pos k)) d
sub_ℤ-IsBelow (negsuc n) k d h = tt
sub_ℤ-IsBelow (pos n) k d h = elim (Bool-cases (leb k n)) [
  | inl e ↦ rw e (less n k d h)
  | inr e ↦ rw e tt
]
  where
    less : (n k d : ℕ) → n ≤ d → n - k ≤ d
    less n k d h = omega arith

at_least_zero-IsBelow :
    (z : ℤ) (d : ℕ) → IsBelow z d → (u : ℕ) × (at_least_zero z (pos d) ≡ pos u) × (u ≤ d)
at_least_zero-IsBelow (pos n) d h = (n, refl, h)
at_least_zero-IsBelow (negsuc n) d h = (d, refl, omega arith)

difference-le : (t f : ℕ) → f ≤ t → difference t f ≡ pos (t - f)
difference-le t f h = ground (arith, h)

used_between :
    (t f b c : ℕ)
    → f ≤ t
    → (u : ℕ) × (at_least_zero
          (sub_ℤ (sub_ℤ (sub_ℤ (pos t) (pos f)) (pos b)) (pos c))
          (sub_ℤ (pos t) (pos f))
        ≡ pos u)
      × (u ≤ t - f)
used_between t f b c h =
    let d = t - f in
    rw (difference-le t f h) (
      at_least_zero-IsBelow (sub_ℤ (sub_ℤ (pos d) (pos b)) (pos c)) d
        (sub_ℤ-IsBelow (sub_ℤ (pos d) (pos b)) c d (sub_ℤ-IsBelow (pos d) b d (omega arith))))

used_kb-between :
    (m : MemInfo) (t f b c : ℕ)
    → m.total_kb ≡ pos t
    → m.free_kb ≡ pos f
    → m.buffers_kb ≡ pos b
    → m.cached_kb ≡ pos c
    → f ≤ t
    → (u : ℕ) × (used_kb m ≡ pos u) × (u ≤ t - f)
unfolding used_kb
used_kb-between m t f b c ht hf hb hc h = simp (ht, hf, hb, hc) (used_between t f b c h)

memory_percent-percent_of :
    (m : MemInfo) (u t : ℕ)
    → used_kb m ≡ pos u
    → m.total_kb ≡ pos t
    → memory_percent m ≡ percent_of (pos u) (pos t)
unfolding memory_percent
memory_percent-percent_of m u t hu ht =
    ap (λ (z : ℤ). percent_of z m.total_kb) hu ∙ ap (percent_of (pos u)) ht

-- Where the free memory is at most the total, what get_memory_info calls used is between 0 and
-- their difference, whatever the buffers and the cache are, and the share of it between 0 and 100.
memory_percent-bounds :
    (m : MemInfo) (t f b c : ℕ)
    → m.total_kb ≡ pos t
    → m.free_kb ≡ pos f
    → m.buffers_kb ≡ pos b
    → m.cached_kb ≡ pos c
    → f ≤ t
    → (u p : ℕ) × (used_kb m ≡ pos u) × (u ≤ t - f) × (memory_percent m ≡ pos p) × (p ≤ 100)
memory_percent-bounds m t f b c ht hf hb hc h =
    let used = used_kb-between m t f b c ht hf hb hc h in
    let share = percent_of-le used.0 t (omega (arith, used.2)) in
    (
      used.0,
      share.0,
      used.1,
      used.2,
      memory_percent-percent_of m used.0 t used.1 ht ∙ share.1,
      share.2,
    )

disk_percent_small :
    (used total : ℕ) → used * 100 < 2 ^ 64 → disk_percent used total ≡ (used * 100) / total
disk_percent_small used zero h = sym (div-zero (used * 100))
disk_percent_small used (suc t) h = ap (λ (n : ℕ). n / suc t) (mod-eq_of_lt h)

-- For a file system of less than 2^64 / 100 bytes, with at most as many free blocks as blocks,
-- get_disk_usage computes the bytes with no wrap-around, the used and the free ones together are the
-- total, and the percentage is the share of the used bytes, at most 100.
pub disk_use-exact :
    (d : DiskStats)
    → d.bfree ≤ d.blocks
    → block_size d * d.blocks * 100 < 2 ^ 64
    → ((disk_use d).total_bytes ≡ block_size d * d.blocks)
      × ((disk_use d).free_bytes ≡ block_size d * d.bfree)
      × ((disk_use d).used_bytes + (disk_use d).free_bytes ≡ (disk_use d).total_bytes)
      × ((disk_use d).used_percent ≡ ((disk_use d).used_bytes * 100) / (disk_use d).total_bytes)
      × ((disk_use d).used_percent ≤ 100)
unfolding disk_use
disk_use-exact d free small =
    let b = block_size d in
    let below = mul-le-mul_left b free in computed (b * d.blocks) (b * d.bfree) below small
  where
    computed :
        (t f : ℕ)
        → f ≤ t
        → t * 100 < 2 ^ 64
        → (t % 2 ^ 64 ≡ t)
          × (f % 2 ^ 64 ≡ f)
          × ((t % 2 ^ 64 + 2 ^ 64 - f % 2 ^ 64) % 2 ^ 64 + f % 2 ^ 64 ≡ t % 2 ^ 64)
          × (disk_percent ((t % 2 ^ 64 + 2 ^ 64 - f % 2 ^ 64) % 2 ^ 64) (t % 2 ^ 64)
              ≡ (((t % 2 ^ 64 + 2 ^ 64 - f % 2 ^ 64) % 2 ^ 64) * 100) / (t % 2 ^ 64))
          × (disk_percent ((t % 2 ^ 64 + 2 ^ 64 - f % 2 ^ 64) % 2 ^ 64) (t % 2 ^ 64) ≤ 100)
    computed t f h small =
        let u = (t % 2 ^ 64 + 2 ^ 64 - f % 2 ^ 64) % 2 ^ 64 in
        let less : u * 100 < 2 ^ 64 = omega arith in
        let part : u ≤ t % 2 ^ 64 = omega arith in
        let share = disk_percent_small u (t % 2 ^ 64) less in
        (
          omega arith,
          omega arith,
          omega arith,
          share,
          rw share (div-le_of_le-mul (t % 2 ^ 64) (omega arith)),
        )
