-- ===== src/Misc.antt =====
-- WasiMiscExt (src/wamr_ext_lib/WasiMiscExt.cpp): the app's aligned_alloc.
use wamr_ext.Prelude.{ℕ, ◌%◌, ◌≡◌, refl}

-- AlignedAlloc: `module_malloc` is wasm_runtime_module_malloc for a size, which is all that is passed on.
unfoldable pub aligned_alloc : (ℕ → ℕ) → ℕ → ℕ → ℕ
aligned_alloc module_malloc align size = module_malloc size

-- The address is aligned as asked for only where the app's malloc happens to align it so.
aligned_alloc_as_malloc :
    (module_malloc : ℕ → ℕ) (align size : ℕ)
    → (aligned_alloc module_malloc align size % align ≡ 0) ≡ (module_malloc size % align ≡ 0)
unfolding aligned_alloc
aligned_alloc_as_malloc module_malloc align size = refl
