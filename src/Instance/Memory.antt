-- ===== src/Instance/Memory.antt =====
-- The part of wamr_ext_instance_start (src/wamr_ext_api/wamr_ext_api.cpp) that enlarges the memory
-- of a new instance to the configured limit. Numbers of type uint32_t wrap; an address is a number.
use wamr_ext.Instance.{MemoryInstance}
use wamr_ext.Vm.{u32}
use wamr_ext.Prelude.{
  ℕ, ◌+◌, ◌-◌, ◌*◌, ◌%◌, ◌^◌, ◌≤◌, ◌<◌, ◌≡◌, refl, Bool, true, false, Option, none, some, arith,
  ltb, if◌then◌else◌, ◌⊎◌, inl, inr, Option-cases, Bool-cases,
}

-- a - b on uint32_t.
abbrev pub sub_u32 : ℕ → ℕ → ℕ
sub_u32 a b = (a % 2 ^ 32 + 2 ^ 32 - b % 2 ^ 32) % 2 ^ 32

-- pMemory->max_page_count * pMemory->num_bytes_per_page, which are uint32_t.
abbrev pub total_bytes : MemoryInstance → ℕ
total_bytes m = u32 (m.max_page_count * m.num_bytes_per_page)

-- The fields that are set once the new block `p` is there.
unfoldable pub laid_out : ℕ → ℕ → ℕ → ℕ → Option ℕ → MemoryInstance → MemoryInstance
laid_out limit heap_offset heap_size p handle m = record m {
  num_bytes_per_page = limit;
  memory_data = p;
  memory_data_size = limit;
  memory_data_end = p + limit;
  heap_data = p + heap_offset;
  heap_data_end = p + heap_offset + heap_size;
  heap_handle = handle;
  bound_check_1byte = sub_u32 limit 1;
  bound_check_2bytes = sub_u32 limit 2;
  bound_check_4bytes = sub_u32 limit 4;
  bound_check_8bytes = sub_u32 limit 8;
  bound_check_16bytes = sub_u32 limit 16;
}

-- The block under `if (pInst->config.maxMemory > …)`; `realloc` answers wasm_runtime_realloc. The
-- flag is false where the allocation fails.
unfoldable pub enlarge : ℕ → (ℕ → ℕ → Option ℕ) → MemoryInstance → Bool × MemoryInstance
unfolding laid_out
enlarge limit realloc m =
    if ltb (total_bytes m) limit
    then (let heap_offset = u32 (m.heap_data - m.memory_data) in
        let heap_size = u32 (m.heap_data_end - m.heap_data + sub_u32 limit (total_bytes m)) in
        elim (realloc m.memory_data limit) [
          | none ↦ (false, record m { num_bytes_per_page = limit; heap_handle = none })
          | some p ↦ (true, laid_out limit heap_offset heap_size p m.heap_handle m)
        ])
    else (true, m)

-- One page, as large as the memory; the heap lies in it and ends where it ends, and the bound checks
-- stop every access at the memory's end.
pub record IsLaidOut (m : MemoryInstance) : Type 0 where
  pub one_page : m.max_page_count ≡ 1
  pub page_size : m.num_bytes_per_page ≡ m.memory_data_size
  pub size_fits : m.memory_data_size < 2 ^ 32
  pub at_least_16 : 16 ≤ m.memory_data_size
  pub ends : m.memory_data_end ≡ m.memory_data + m.memory_data_size
  pub heap_starts : m.memory_data ≤ m.heap_data
  pub heap_ordered : m.heap_data ≤ m.heap_data_end
  pub heap_ends : m.heap_data_end ≡ m.memory_data_end
  pub check_1 : m.bound_check_1byte + 1 ≡ m.memory_data_size
  pub check_2 : m.bound_check_2bytes + 2 ≡ m.memory_data_size
  pub check_4 : m.bound_check_4bytes + 4 ≡ m.memory_data_size
  pub check_8 : m.bound_check_8bytes + 8 ≡ m.memory_data_size
  pub check_16 : m.bound_check_16bytes + 16 ≡ m.memory_data_size

laid_out-IsLaidOut :
    (limit p : ℕ) (h : Option ℕ) (m : MemoryInstance)
    → IsLaidOut m
    → limit < 2 ^ 32
    → m.memory_data_size < limit
    → IsLaidOut (
        laid_out limit
          (u32 (m.heap_data - m.memory_data))
          (u32 (m.heap_data_end - m.heap_data + sub_u32 limit m.memory_data_size))
          p
          h
          m)
unfolding laid_out
laid_out-IsLaidOut limit p h m l f g = omega arith

total_bytes-eq_size : (m : MemoryInstance) → IsLaidOut m → total_bytes m ≡ m.memory_data_size
total_bytes-eq_size m l = rw (l.one_page, l.page_size) (omega (arith, l.size_fits))

-- What `enlarge` leaves, for either answer of the allocator.
abbrev pub Enlarged : ℕ → (ℕ → ℕ → Option ℕ) → MemoryInstance → Bool × MemoryInstance → Type 0
Enlarged limit realloc m r =
    ((r.0 ≡ true)
      × IsLaidOut r.1
      × (limit ≤ r.1.memory_data_size)
      × (r.1.heap_data + m.memory_data ≡ m.heap_data + r.1.memory_data))
    ⊎ ((r.0 ≡ false)
        × (realloc m.memory_data limit ≡ none)
        × (r.1.memory_data ≡ m.memory_data)
        × (r.1.heap_handle ≡ none))

-- Enlarging a memory that is laid out, to a limit that fits uint32_t, gives one that is laid out and
-- has at least the limit's bytes, with the heap's start at its old offset; or the allocator failed,
-- the data is where it was, and the memory is left without a heap.
pub enlarge-Enlarged :
    (limit : ℕ) (realloc : ℕ → ℕ → Option ℕ) (m : MemoryInstance)
    → IsLaidOut m
    → limit < 2 ^ 32
    → Enlarged limit realloc m (enlarge limit realloc m)
unfolding enlarge
enlarge-Enlarged limit realloc m l f =
    let t = total_bytes-eq_size m l in
    elim (Bool-cases (ltb (total_bytes m) limit)) [
      | inr enough ↦ rw (enough, enlarge) (inl (refl, l, ground (arith, t), omega arith))
      | inl more ↦ elim (Option-cases (realloc m.memory_data limit)) [
        | inl none_left ↦ rw (more, none_left, enlarge) (inr (refl, refl, refl, refl))
        | inr (p, e) ↦
            rw (more, e, enlarge)
              (inl (
                refl,
                rw t (laid_out-IsLaidOut limit p m.heap_handle m l f (ground (arith, t))),
                unfold laid_out in omega arith,
                unfold laid_out in omega arith,
              ))
      ]
    ]
