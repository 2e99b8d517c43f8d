-- ===== src/Vm.antt =====
-- What the program calls of the WAMR runtime on an app's linear memory. WAMR is not part of the
-- repository, so these functions are a parameter: a pointer is a number, null is `none`, and
-- `size_mod` is 2 ^ w for the width w of the runtime's size parameters, which `size_t` is cut to.
use wamr_ext.Prelude.{ℕ, ◌%◌, ◌^◌, Bool, Option}
use wamr_ext.Errno.{Errno}

pub record Vm : Type 0 where
  pub addr_app_to_native : ℕ → Option ℕ
  pub validate_app_addr : ℕ → ℕ → Bool
  pub validate_app_str_addr : ℕ → Bool
  pub validate_native_addr : ℕ → ℕ → Bool
  pub size_mod : ℕ

-- An int32_t that a handler returns to the app: 0 or a code UVWASI_*, or, where the source writes
-- the host's macro of that name, a number of the host.
pub data Ret : Type 0 where
  uvwasi : Errno → Ret
  host : Errno → Ret

-- A value cut to uint32_t.
abbrev pub u32 : ℕ → ℕ
u32 n = n % 2 ^ 32
