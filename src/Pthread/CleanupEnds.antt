-- ===== src/Pthread/CleanupEnds.antt =====
-- The clean-up loop of an instance's threads (Pthread/Cleanup) ends, and what it leaves.
use wamr_ext.Prelude.{
  Bool, Bool-cases, List, Option, [], arith, false, if◌then◌else◌, inl, inr, length, none, refl,
  some, suc, ℕ, ◌==◌, ◌||◌, ◌∙◌, ◌∷◌, ◌≡◌, ◌≢◌, ◌⊎◌, true,
}
use wamr_ext.Pthread.Cleanup.{
  all_thread_info, join_all, arrive, first_of, rest_of, cleanup, cleanup_app_thread_info,
}
use wamr_ext.Pthread.{
  PthreadManager, ThreadInfo, find, erase, put, get_thread_info, main_thread_id, find-erase,
  find-put,
}

-- Every entry stands under its thread's id.
abbrev pub IsKeyed : List (ℕ × ThreadInfo) → Type 0
IsKeyed [] = Unit {0}
IsKeyed ((k, t) ∷ m) = (t.handle_id ≡ k) × IsKeyed m

-- New threads do not get the main thread's id.
abbrev pub NotMain : List ThreadInfo → Type 0
NotMain [] = Unit {0}
NotMain (t ∷ ts) = (t.handle_id ≢ main_thread_id) × NotMain ts

abbrev pub NoneMain : List (List ThreadInfo) → Type 0
NoneMain [] = Unit {0}
NoneMain (a ∷ rounds) = NotMain a × NoneMain rounds

erase-IsKeyed : (id : ℕ) (m : List (ℕ × ThreadInfo)) → IsKeyed m → IsKeyed (erase id m)
unfolding erase
erase-IsKeyed id [] h = tt
erase-IsKeyed id ((k, t) ∷ m) h = elim (Bool-cases (k == id)) [
  | inl e ↦ rw (e, erase) (erase-IsKeyed id m h.1)
  | inr e ↦ rw (e, erase) (h.0, erase-IsKeyed id m h.1)
]

-- What is left where all of the joins return.
erase_all : List ThreadInfo → List (ℕ × ThreadInfo) → List (ℕ × ThreadInfo)
erase_all [] m = m
erase_all (t ∷ ts) m = erase_all ts (erase t.handle_id m)

join_all-erase_all :
    (joins : ThreadInfo → Bool) (ts : List ThreadInfo) (m : List (ℕ × ThreadInfo))
    → ((t : ThreadInfo) → joins t ≡ true)
    → join_all joins ts m ≡ some (erase_all ts m)
unfolding join_all erase_all
join_all-erase_all joins [] m all = refl
join_all-erase_all joins (t ∷ ts) m all =
    rw (all t, join_all) (join_all-erase_all joins ts (erase t.handle_id m) all)

erase_all-IsKeyed :
    (ts : List ThreadInfo) (m : List (ℕ × ThreadInfo)) → IsKeyed m → IsKeyed (erase_all ts m)
unfolding erase_all
erase_all-IsKeyed [] m h = h
erase_all-IsKeyed (t ∷ ts) m h =
    erase_all-IsKeyed ts (erase t.handle_id m) (erase-IsKeyed t.handle_id m h)

arrive-IsKeyed :
    (ts : List ThreadInfo) (m : List (ℕ × ThreadInfo)) → IsKeyed m → IsKeyed (arrive ts m)
unfolding arrive
arrive-IsKeyed [] m h = h
arrive-IsKeyed (t ∷ ts) m h = arrive-IsKeyed ts _ (refl, erase-IsKeyed t.handle_id m h)

elem_id : ℕ → List ThreadInfo → Bool
elem_id k [] = false
elem_id k (t ∷ ts) = (t.handle_id == k) || elem_id k ts

find-erase_all :
    (k : ℕ) (ts : List ThreadInfo) (m : List (ℕ × ThreadInfo))
    → find k (erase_all ts m) ≡ (if elem_id k ts then none else find k m)
unfolding erase_all elem_id
find-erase_all k [] m = refl
find-erase_all k (t ∷ ts) m =
    ground (arith, find-erase_all k ts (erase t.handle_id m), find-erase t.handle_id k m)

-- Of the ids other than the main thread's all that are in use are collected.
collected :
    (k : ℕ) (m : List (ℕ × ThreadInfo))
    → IsKeyed m
    → k ≢ main_thread_id
    → elem_id k (all_thread_info m) ≡ false
    → find k m ≡ none
unfolding elem_id all_thread_info find
collected k [] h n e = refl
collected k ((j, t) ∷ m) h n e = ground (arith, collected k m h.1 n, h.0)

not_collected_main :
    (m : List (ℕ × ThreadInfo)) → elem_id main_thread_id (all_thread_info m) ≡ false
unfolding elem_id all_thread_info
not_collected_main [] = refl
not_collected_main ((j, t) ∷ m) = ground (arith, not_collected_main m)

find_main-arrive :
    (ts : List ThreadInfo) (m : List (ℕ × ThreadInfo))
    → NotMain ts
    → find main_thread_id (arrive ts m) ≡ find main_thread_id m
unfolding arrive
find_main-arrive [] m h = refl
find_main-arrive (t ∷ ts) m h = ground (
  arith,
  find_main-arrive ts (put t.handle_id t m) h.1,
  find-put t.handle_id main_thread_id t m,
  h.0,
)

-- With no id in use but the main thread's nothing is collected.
nothing_collected :
    (m : List (ℕ × ThreadInfo))
    → IsKeyed m
    → ((k : ℕ) → k ≢ main_thread_id → find k m ≡ none)
    → all_thread_info m ≡ []
unfolding all_thread_info find
nothing_collected [] h n = refl
nothing_collected ((j, t) ∷ m) h n = elim (Bool-cases (t.handle_id == main_thread_id)) [
  | inl e ↦ rw (e, all_thread_info) (nothing_collected m h.1 (λ k q. ground (arith, n k q)))
  | inr e ↦
      let other : j ≢ main_thread_id = λ q. ground (arith, h.0) in
      let gone = n j other in ground arith
]

-- A round without arrivals is the last one.
joined_all :
    (m : List (ℕ × ThreadInfo)) → IsKeyed m → all_thread_info (erase_all (all_thread_info m) m) ≡ []
joined_all m h =
    nothing_collected (erase_all (all_thread_info m) m) (erase_all-IsKeyed (all_thread_info m) m h)
      (λ k n.
        find-erase_all k (all_thread_info m) m ∙ elim (Bool-cases (elem_id k (all_thread_info m))) [
          | inl e ↦ rw e refl
          | inr e ↦ rw e (collected k m h n e)
        ])

-- What the loop leaves: nothing but the main thread's entry, if there was one.
abbrev pub IsClean : List (ℕ × ThreadInfo) → Option (List (ℕ × ThreadInfo)) → Type 0
IsClean m none = ⊥
IsClean m (some left) =
    (all_thread_info left ≡ []) × (find main_thread_id left ≡ find main_thread_id m)

module _ (joins : ThreadInfo → Bool) (all : (t : ThreadInfo) → joins t ≡ true) where
  cleanup-done :
      (f : ℕ) (arrivals : List (List ThreadInfo)) (m : List (ℕ × ThreadInfo))
      → all_thread_info m ≡ []
      → IsClean m (cleanup joins (suc f) arrivals m)
  unfolding cleanup
  cleanup-done f arrivals m e = rw (e, cleanup) (e, refl)

  abbrev Round : ℕ → List (List ThreadInfo) → List (ℕ × ThreadInfo) → Type 0
  Round f arrivals m =
      cleanup joins (suc f) arrivals m
      ≡ cleanup joins f (rest_of arrivals)
          (arrive (first_of arrivals) (erase_all (all_thread_info m) m))

  cleanup_round :
      (f : ℕ) (arrivals : List (List ThreadInfo)) (m : List (ℕ × ThreadInfo))
      → (all_thread_info m ≡ []) ⊎ Round f arrivals m
  unfolding cleanup
  cleanup_round f arrivals m = go (all_thread_info m) refl
    where
      go :
          (ts : List ThreadInfo)
          → all_thread_info m ≡ ts
          → (all_thread_info m ≡ []) ⊎ Round f arrivals m
      go [] e = inl e
      go (t ∷ ts) e = inr (rw (e, cleanup, join_all-erase_all joins (t ∷ ts) m all) refl)

erase_all-main :
    (m : List (ℕ × ThreadInfo))
    → find main_thread_id (erase_all (all_thread_info m) m) ≡ find main_thread_id m
erase_all-main m =
    find-erase_all main_thread_id (all_thread_info m) m ∙ rw (not_collected_main m) refl

IsClean-of :
    (m m' : List (ℕ × ThreadInfo)) (o : Option (List (ℕ × ThreadInfo)))
    → find main_thread_id m' ≡ find main_thread_id m
    → IsClean m' o
    → IsClean m o
IsClean-of m m' none e c = c
IsClean-of m m' (some left) e c = (c.0, c.1 ∙ e)

module _ (joins : ThreadInfo → Bool) (all : (t : ThreadInfo) → joins t ≡ true) where
  cleanup-IsClean :
      (arrivals : List (List ThreadInfo)) (m : List (ℕ × ThreadInfo))
      → IsKeyed m
      → NoneMain arrivals
      → IsClean m (cleanup joins (suc (suc (length arrivals))) arrivals m)
  unfolding cleanup
  cleanup-IsClean [] m h n = elim (cleanup_round joins all 1 [] m) [
    | inl e ↦ cleanup-done joins all 1 [] m e
    | inr q ↦ rw q (
        IsClean-of m (erase_all (all_thread_info m) m) _ (erase_all-main m)
          (cleanup-done joins all 0 [] (erase_all (all_thread_info m) m) (joined_all m h)))
  ]
  cleanup-IsClean (a ∷ arrivals) m h n =
      let m' = arrive a (erase_all (all_thread_info m) m) in
      let keyed : IsKeyed m' = arrive-IsKeyed a _ (erase_all-IsKeyed (all_thread_info m) m h) in
      elim (cleanup_round joins all (suc (suc (length arrivals))) (a ∷ arrivals) m) [
        | inl e ↦ cleanup-done joins all (suc (suc (length arrivals))) (a ∷ arrivals) m e
        | inr q ↦ rw q (
            IsClean-of m m' _
              (find_main-arrive a (erase_all (all_thread_info m) m) n.0 ∙ erase_all-main m)
              (cleanup-IsClean arrivals m' keyed n.1))
      ]

-- Let every entry of the map stand under its thread's id, let threads be spawned, under other ids than
-- the main thread's, in finitely many rounds only, and let every call of DoHostThreadJoin return. Then
-- the loop of the clean-up ends, after at most two rounds more than those, with no entry left but the
-- main thread's, which is what it was.
pub cleanup_ends :
    (joins : ThreadInfo → Bool) (arrivals : List (List ThreadInfo)) (m : PthreadManager)
    → ((t : ThreadInfo) → joins t ≡ true)
    → IsKeyed m.thread_map
    → NoneMain arrivals
    → (left : PthreadManager) × (cleanup_app_thread_info joins arrivals m ≡ some left)
      × (all_thread_info left.thread_map ≡ [])
      × (get_thread_info left main_thread_id ≡ get_thread_info m main_thread_id)
unfolding cleanup_app_thread_info get_thread_info
cleanup_ends joins arrivals m all h n =
    let ran = cleanup joins (suc (suc (length arrivals))) arrivals m.thread_map in
    go ran refl (cleanup-IsClean joins all arrivals m.thread_map h n)
  where
    go :
        (o : Option (List (ℕ × ThreadInfo)))
        → cleanup joins (suc (suc (length arrivals))) arrivals m.thread_map ≡ o
        → IsClean m.thread_map o
        → (left : PthreadManager) × (cleanup_app_thread_info joins arrivals m ≡ some left)
          × (all_thread_info left.thread_map ≡ [])
          × (get_thread_info left main_thread_id ≡ get_thread_info m main_thread_id)
    go none e c = absurd c
    go (some left) e c =
        (record m { thread_map = left }, rw (e, cleanup_app_thread_info) refl, c.0, c.1)

-- A join that does not return keeps the clean-up from ending.
join_hangs :
    (joins : ThreadInfo → Bool) (t : ThreadInfo) (ts : List ThreadInfo)
    (arrivals : List (List ThreadInfo)) (m : PthreadManager)
    → all_thread_info m.thread_map ≡ t ∷ ts
    → joins t ≡ false
    → cleanup_app_thread_info joins arrivals m ≡ none
unfolding cleanup_app_thread_info cleanup join_all
join_hangs joins t ts arrivals m e waits =
    rw (e, cleanup_app_thread_info, cleanup, waits, join_all) refl
