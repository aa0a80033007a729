-- ===== src/Kernel/StackLayout.antt =====
-- stack_layout (src/kernel/threading_subsystem.cpp) and the alignment it uses (src/kernel/align.hpp):
-- a thread's buffer carved into its control block, its thread-local storage and its stack.
use cyros.Common.{ℕ, ◌+◌, ◌-◌, ◌*◌, ◌/◌, ◌%◌, ◌^◌, Option, none, some, ltb, leb, if◌then◌else◌}

-- The regions as their first addresses and their lengths; the stack begins with the buffer.
pub record StackLayout : Type 0 where
  pub tcb : ℕ
  pub tls_base : ℕ
  pub tls_length : ℕ
  pub stack_length : ℕ

-- The mask with the complement of a - 1 clears the remainder, as `a` is a power of two.
unfoldable pub align_down : (v a : ℕ) → ℕ
align_down v a = v / a * a

-- Addresses have `width` bits; what is past the top of the address space wraps.
unfoldable pub wrapped : (width v : ℕ) → ℕ
wrapped width v = v % 2 ^ width

unfoldable pub align_up : (width v a : ℕ) → ℕ
unfolding align_down wrapped
align_up width v a = align_down (wrapped width (v + (a - 1))) a

-- The checks: room for storage and control block, and a stack of more than 64 bytes.
unfoldable pub carve : (base tcb tls_base : ℕ) → Option StackLayout
carve base tcb tls_base =
    if ltb tls_base base
    then none
    else if leb (tls_base - base) 64
    then none
    else some (record {
      tcb = tcb;
      tls_base = tls_base;
      tls_length = tcb - tls_base;
      stack_length = tls_base - base;
    })

-- The size and the alignment of the control block, and the alignment of max_align_t, are the
-- compiler's.
module _ (width tcb_size tcb_align max_align : ℕ) where
  unfoldable pub tcb_start : (base size : ℕ) → ℕ
  unfolding align_down wrapped
  tcb_start base size =
      align_down (wrapped width (wrapped width (base + size) + 2 ^ width - tcb_size)) tcb_align

  unfoldable pub tls_start : (tcb tls_bytes : ℕ) → ℕ
  unfolding align_down align_up wrapped
  tls_start tcb tls_bytes =
      align_down (wrapped width (tcb + 2 ^ width - align_up width tls_bytes max_align)) max_align

  unfoldable pub stack_layout : (base size tls_bytes : ℕ) → Option StackLayout
  unfolding carve tcb_start tls_start
  stack_layout base size tls_bytes =
      let tcb = tcb_start base size in carve base tcb (tls_start tcb tls_bytes)
