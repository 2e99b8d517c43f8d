-- ===== src/Sysctl.antt =====
-- WamrExtSysctl (src/wamr_ext_lib/WasiWamrExt.cpp): numbers about the host and the instance, by names. What
-- the host and the runtime's allocator answer is the parameter `SysHost`.
pub mod Laws
use wamr_ext.Prelude.{
  Bool, List, Option, if◌then◌else◌, ltb, none, not, some, ℕ, ◌%◌, ◌*◌, ◌==◌, ◌^◌,
}
use wamr_ext.Prelude.Text.{Text, bytes, text_eq}
use wamr_ext.Errno.{efault, einval, erange}
use wamr_ext.Exec.{Result, done, raise}
use wamr_ext.Instance.{MemoryInstance}
use wamr_ext.Socket.Bytes.{copy_over, to_le}

-- `alloc_info` is total_free_size of a heap, where mem_allocator_get_alloc_info gives it.
pub record SysHost : Type 0 where
  pub current_thread_id : ℕ
  pub process_id : ℕ
  pub hardware_concurrency : ℕ
  pub memory : MemoryInstance
  pub alloc_info : ℕ → Option ℕ

-- The app's buffer and *bufLen.
abbrev pub Buffer : Type 0
Buffer = List ℕ × ℕ

-- The body of each branch: sizeof of the variable and its value.
unfoldable pub give : ℕ → ℕ → Buffer → Result Buffer
unfolding to_le copy_over
give size value (buf, buf_len) =
    if ltb buf_len size then raise erange else done (copy_over size (to_le size value) buf, size)

abbrev pub or_zero : Option ℕ → ℕ
or_zero none = 0
or_zero (some n) = n

unfoldable pub avail_mem : SysHost → ℕ
avail_mem h = elim h.memory.heap_handle [ none ↦ 0 | some heap ↦ or_zero (h.alloc_info heap) ]

-- WamrExtSysctl; `valid` is that the buffer is the app's.
unfoldable pub wamr_ext_sysctl : SysHost → Text → (valid : Bool) → Buffer → Result Buffer
unfolding give avail_mem text_eq
wamr_ext_sysctl h name valid buf =
    if buf.1 == 0
    then raise erange
    else if not valid
    then raise efault
    else if text_eq name (bytes "sysinfo.tid")
    then give 4 (h.current_thread_id % 2 ^ 32) buf
    else if text_eq name (bytes "sysinfo.pid")
    then give 4 (h.process_id % 2 ^ 32) buf
    else if text_eq name (bytes "sysinfo.cpu_count")
    then give 4 (h.hardware_concurrency % 2 ^ 32) buf
    else if text_eq name (bytes "sysinfo.vm_mem_total")
    then give 8 ((h.memory.num_bytes_per_page * h.memory.max_page_count) % 2 ^ 64) buf
    else if text_eq name (bytes "sysinfo.vm_mem_avail")
    then give 8 (avail_mem h % 2 ^ 64) buf
    else raise einval
