-- ===== src/Pthread/Handles.antt =====
-- The search for a handle id in WasiThreadSpawn (src/wamr_ext_lib/WasiPthreadExt.cpp): m_curHandleId++
-- until the map has no entry of that id. The counter is a uint32_t and wraps.
use wamr_ext.Pthread.{PthreadManager, ThreadInfo, erase, find, find-erase, get_thread_info}
use wamr_ext.Prelude.{
  ℕ, Bool, List, Option, [], arith, false, is_some, length, none, refl, some, suc, true, zero, ◌%◌,
  ◌+◌, ◌<◌, ◌^◌, ◌∷◌, ◌≡◌, Bool-cases, ap, inl, inr, sym, ◌==◌, ◌≤◌,
}

-- The loop, on fuel: the id found, and the counter after it.
unfoldable pub find_free : ℕ → (ℕ → Bool) → ℕ → Option (ℕ × ℕ)
find_free zero used cur = none
find_free (suc f) used cur = elim (used cur) [
  | true ↦ find_free f used ((cur + 1) % 2 ^ 32)
  | false ↦ some (cur, (cur + 1) % 2 ^ 32)
]

abbrev pub used_in : List (ℕ × ThreadInfo) → ℕ → Bool
used_in m id = is_some (find id m)

-- The loop with a round for each entry of the map and one more.
unfoldable pub next_handle : PthreadManager → Option (ℕ × ℕ)
unfolding find_free find
next_handle m = find_free (suc (length m.thread_map)) (used_in m.thread_map) m.cur_handle_id

-- The ids that `f` rounds from `cur` look at.
abbrev Agree : ℕ → (ℕ → Bool) → (ℕ → Bool) → ℕ → Type 0
Agree f used used' cur = (k : ℕ) → k < f → used ((cur + k) % 2 ^ 32) ≡ used' ((cur + k) % 2 ^ 32)

later :
    (f : ℕ) (used used' : ℕ → Bool) (cur : ℕ)
    → Agree (suc f) used used' cur
    → Agree f used used' ((cur + 1) % 2 ^ 32)
later f used used' cur a k h =
    let e : ((cur + 1) % 2 ^ 32 + k) % 2 ^ 32 ≡ (cur + suc k) % 2 ^ 32 = omega arith in
    rw e (a (suc k) (omega arith))

differs :
    (cur k : ℕ) → cur < 2 ^ 32 → suc k < 2 ^ 32 → (cur == ((cur + 1) % 2 ^ 32 + k) % 2 ^ 32) ≡ false
differs cur k l h = ground arith

unused_none : (o : Option ThreadInfo) → is_some o ≡ false → o ≡ none
unused_none none h = refl
unused_none (some t) h = absurd (cc h)

find_free-Agree :
    (f : ℕ) (used used' : ℕ → Bool) (cur : ℕ)
    → cur < 2 ^ 32
    → Agree f used used' cur
    → find_free f used cur ≡ find_free f used' cur
unfolding find_free
find_free-Agree zero used used' cur h a = refl
find_free-Agree (suc f) used used' cur h a =
    let same : (cur + 0) % 2 ^ 32 ≡ cur = omega arith in
    let here : used cur ≡ used' cur = rw same at (a 0 (omega arith)) in
    let rest =
      find_free-Agree f used used' ((cur + 1) % 2 ^ 32) (omega arith) (later f used used' cur a) in
    ground (arith, here, rest)

length-erase-le : (id : ℕ) (m : List (ℕ × ThreadInfo)) → length (erase id m) ≤ length m
unfolding erase
length-erase-le id [] = omega arith
length-erase-le id ((k, t) ∷ m) = ground (arith, length-erase-le id m)

length-erase :
    (id : ℕ) (m : List (ℕ × ThreadInfo)) → used_in m id ≡ true → length (erase id m) < length m
unfolding find erase
length-erase id [] h = absurd (cc h)
length-erase id ((k, t) ∷ m) h = ground (arith, length-erase-le id m, length-erase id m)

unused_later :
    (m : List (ℕ × ThreadInfo)) (f cur : ℕ)
    → suc f ≤ 2 ^ 32
    → cur < 2 ^ 32
    → Agree f (used_in m) (used_in (erase cur m)) ((cur + 1) % 2 ^ 32)
unused_later m f cur h l k kf =
    let x = ((cur + 1) % 2 ^ 32 + k) % 2 ^ 32 in
    let other : (cur == x) ≡ false = differs cur k l (omega arith) in
    sym (ap is_some (rw other at (find-erase cur x m)))

-- With more rounds than entries, and no more than there are ids, the loop finds an id.
find_free-total :
    (f : ℕ) (m : List (ℕ × ThreadInfo)) (cur : ℕ)
    → length m < f
    → f ≤ 2 ^ 32
    → cur < 2 ^ 32
    → is_some (find_free f (used_in m) cur) ≡ true
unfolding find_free
find_free-total zero m cur h l c = absurd (omega arith)
find_free-total (suc f) m cur h l c = elim (Bool-cases (used_in m cur)) [
  | inr free ↦ rw (free, find_free) refl
  | inl taken ↦
      rw (taken, find_free)
        (rw
          (find_free-Agree f (used_in m) (used_in (erase cur m)) ((cur + 1) % 2 ^ 32) (omega arith)
            (unused_later m f cur l c))
          (find_free-total f (erase cur m) ((cur + 1) % 2 ^ 32)
            (omega (arith, length-erase cur m taken)) (omega arith) (omega arith)))
]

find_free-unused :
    (f : ℕ) (used : ℕ → Bool) (cur : ℕ) (id next : ℕ)
    → cur < 2 ^ 32
    → find_free f used cur ≡ some (id, next)
    → (used id ≡ false) × (id < 2 ^ 32) × (next < 2 ^ 32)
unfolding find_free
find_free-unused zero used cur id next c e = absurd (cc e)
find_free-unused (suc f) used cur id next c e =
    ground (arith, find_free-unused f used ((cur + 1) % 2 ^ 32) id next)

-- With fewer threads than there are ids the search for a handle id ends, after at most one round more
-- than there are threads, with an id of uint32_t that no thread has.
pub next_handle-fresh :
    (m : PthreadManager)
    → length m.thread_map < 2 ^ 32
    → m.cur_handle_id < 2 ^ 32
    → (id : ℕ) × (next : ℕ) × (next_handle m ≡ some (id, next))
      × (get_thread_info m id ≡ none)
      × (id < 2 ^ 32)
      × (next < 2 ^ 32)
unfolding next_handle get_thread_info
next_handle-fresh m h c = go (next_handle m) refl
  where
    go :
        (o : Option (ℕ × ℕ))
        → next_handle m ≡ o
        → (id : ℕ) × (next : ℕ) × (next_handle m ≡ some (id, next))
          × (get_thread_info m id ≡ none)
          × (id < 2 ^ 32)
          × (next < 2 ^ 32)
    go none e =
        let t =
          find_free-total (suc (length m.thread_map)) m.thread_map m.cur_handle_id (omega arith) h
            c in
        absurd (cc (e, t))
    go (some (id, next)) e =
        let (unused, small, wrapped) =
          find_free-unused (suc (length m.thread_map)) (used_in m.thread_map) m.cur_handle_id id
            next c e in
        (id, next, e, unused_none (find id m.thread_map) unused, small, wrapped)
