-- ===== src/Kernel/Carving.antt =====
-- The regions that a buffer is carved into.
use native.Mathlib.Nat.{div-mul-le_self, lt-div-mul-add, mod-eq_of_lt, add-mod_right, mul-mod_left}
use cyros.Common.{
  ℕ, ◌+◌, ◌-◌, ◌*◌, ◌/◌, ◌%◌, ◌^◌, ◌≤◌, ◌<◌, ◌≡◌, ap, ◌∙◌, Option, none, some, arith, ltb, leb,
  Bool-cases, inl, inr,
}
use cyros.Kernel.StackLayout.{
  StackLayout, align_down, wrapped, align_up, carve, tcb_start, tls_start, stack_layout,
}

align_down-le : (v a : ℕ) → align_down v a ≤ v
unfolding align_down
align_down-le v a = div-mul-le_self v a

lt-align_down : (v a : ℕ) → 0 < a → v < align_down v a + a
unfolding align_down
lt-align_down v a pos = lt-div-mul-add pos

align_down-mod : (v a : ℕ) → align_down v a % a ≡ 0
unfolding align_down
align_down-mod v a = mul-mod_left (v / a) a

wrapped_small : (width v : ℕ) → v < 2 ^ width → wrapped width v ≡ v
unfolding wrapped
wrapped_small width v h = mod-eq_of_lt h

-- A difference that does not go below zero does not wrap.
wrapped_difference :
    (width v x : ℕ) → v < 2 ^ width → x ≤ v → wrapped width (v + 2 ^ width - x) ≡ v - x
unfolding wrapped
wrapped_difference width v x h le =
    let regrouped : v + 2 ^ width - x ≡ v - x + 2 ^ width = omega arith in
    ap (λ (n : ℕ). n % 2 ^ width) regrouped
    ∙ add-mod_right (v - x) (2 ^ width)
    ∙ mod-eq_of_lt (omega arith)

-- A buffer in the address space that does not begin so low that carving it would wrap.
pub record Addressable (width tcb_size tcb_align max_align base size tls_bytes : ℕ) : Type 0 where
  pub aligned : (0 < tcb_align) × (0 < max_align)
  pub ends : base + size < 2 ^ width
  pub high : tcb_size + tcb_align + tls_bytes + 2 * max_align ≤ base + size

-- The stack, the storage and the control block in this order, one behind the other, aligned and
-- inside the buffer; or a buffer too small to hold them.
abbrev pub Carved :
    (tcb_size tcb_align max_align base size tls_bytes : ℕ) → Option StackLayout → Type 0
Carved tcb_size tcb_align max_align base size tls_bytes none =
    size ≤ 64 + tcb_size + (tcb_align - 1) + tls_bytes + 2 * (max_align - 1)
Carved tcb_size tcb_align max_align base size tls_bytes (some l) =
    (64 < l.stack_length)
    × (base + l.stack_length ≡ l.tls_base)
    × (l.tls_base % max_align ≡ 0)
    × (l.tls_base + l.tls_length ≡ l.tcb)
    × (tls_bytes ≤ l.tls_length)
    × (l.tcb % tcb_align ≡ 0)
    × (l.tcb + tcb_size ≤ base + size)

module _ (width tcb_size tcb_align max_align : ℕ) where
  tcb_start_lem :
      (base size tls_bytes : ℕ)
      → Addressable width tcb_size tcb_align max_align base size tls_bytes
      → tcb_start width tcb_size tcb_align max_align base size
        ≡ align_down (base + size - tcb_size) tcb_align
  unfolding tcb_start
  tcb_start_lem base size tls_bytes a =
      ap (λ (n : ℕ). align_down n tcb_align)
        (ap (λ (n : ℕ). wrapped width (n + 2 ^ width - tcb_size))
            (wrapped_small width (base + size) a.ends)
          ∙ wrapped_difference width (base + size) tcb_size a.ends (let h = a.high in omega arith))

  tls_start_lem :
      (tcb tls_bytes : ℕ)
      → tcb < 2 ^ width
      → 0 < max_align
      → tls_bytes + max_align ≤ tcb
      → tls_start width tcb_size tcb_align max_align tcb tls_bytes
        ≡ align_down (tcb - align_down (tls_bytes + (max_align - 1)) max_align) max_align
  unfolding tls_start align_up
  tls_start_lem tcb tls_bytes inside pos room =
      ap (λ (n : ℕ). align_down n max_align)
        (ap (λ (n : ℕ). wrapped width (tcb + 2 ^ width - align_down n max_align))
            (wrapped_small width (tls_bytes + (max_align - 1)) (omega arith))
          ∙ wrapped_difference width tcb (align_down (tls_bytes + (max_align - 1)) max_align) inside
              (omega (arith, align_down-le (tls_bytes + (max_align - 1)) max_align)))

  carve-Carved :
      (base size tls_bytes tcb tls_base : ℕ)
      → tls_base % max_align ≡ 0
      → tcb % tcb_align ≡ 0
      → tls_base + tls_bytes ≤ tcb
      → tcb + tcb_size ≤ base + size
      → base + size ≤ tls_base + tcb_size + (tcb_align - 1) + tls_bytes + 2 * (max_align - 1)
      → Carved tcb_size tcb_align max_align base size tls_bytes (carve base tcb tls_base)
  unfolding carve
  carve-Carved base size tls_bytes tcb tls_base ma ta room inside near =
      elim (Bool-cases (ltb tls_base base)) [
        | inl low ↦ rw low ground arith
        | inr fits ↦ elim (Bool-cases (leb (tls_base - base) 64)) [
          | inl short ↦ rw (fits, short) ground arith
          | inr long ↦
              rw (fits, long) (ground arith, ground arith, ma, omega arith, omega arith, ta, inside)
        ]
      ]

  -- A buffer in the address space that does not begin so low that the carving wraps: what comes
  -- out is a stack of more than 64 bytes from the buffer's start, then the storage, at least as
  -- long as asked and aligned, then the control block, aligned, each where the one before ends or
  -- above it and all inside the buffer; and a buffer is refused only where it is at most 64 bytes
  -- longer than its two regions and what their alignment can cost.
  pub stack_layout-Carved :
      (base size tls_bytes : ℕ)
      → Addressable width tcb_size tcb_align max_align base size tls_bytes
      → Carved tcb_size tcb_align max_align base size tls_bytes
          (stack_layout width tcb_size tcb_align max_align base size tls_bytes)
  unfolding stack_layout
  stack_layout-Carved base size tls_bytes a =
      let tcb = align_down (base + size - tcb_size) tcb_align in
      let storage = align_down (tls_bytes + (max_align - 1)) max_align in
      let high = a.high in
      let ends = a.ends in
      let (pos_t, pos_m) = a.aligned in
      let tcb_le : tcb ≤ base + size - tcb_size =
        align_down-le (base + size - tcb_size) tcb_align in
      let lt_tcb : base + size - tcb_size < tcb + tcb_align =
        lt-align_down (base + size - tcb_size) tcb_align pos_t in
      let storage_le : storage ≤ tls_bytes + (max_align - 1) =
        align_down-le (tls_bytes + (max_align - 1)) max_align in
      let lt_storage : tls_bytes + (max_align - 1) < storage + max_align =
        lt-align_down (tls_bytes + (max_align - 1)) max_align pos_m in
      let base_le : align_down (tcb - storage) max_align ≤ tcb - storage =
        align_down-le (tcb - storage) max_align in
      let lt_base : tcb - storage < align_down (tcb - storage) max_align + max_align =
        lt-align_down (tcb - storage) max_align pos_m in
      rw
        (
          tcb_start_lem base size tls_bytes a,
          tls_start_lem tcb tls_bytes (omega arith) pos_m (omega arith),
        )
        (carve-Carved base size tls_bytes tcb (align_down (tcb - storage) max_align)
          (align_down-mod (tcb - storage) max_align)
          (align_down-mod (base + size - tcb_size) tcb_align) (omega arith) (omega arith)
          (omega arith))
