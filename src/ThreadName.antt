-- ===== src/ThreadName.antt =====
-- The name of a thread: Utility::SetCurrentThreadName and GetCurrentThreadName (src/base/Utility.cpp)
-- on Linux. `buffer` is the string in g_currentThreadName of the thread, `os_name` the name that the
-- system keeps for it.
use wamr_ext.Prelude.{
  ℕ, zero, suc, [], ◌∷◌, ◌≡◌, ◌≤◌, is_empty, length, if◌then◌else◌, ap, arith, false, refl, ◌-◌,
}
use wamr_ext.Prelude.Text.{Text}

pub record ThreadName : Type 0 where
  pub buffer : Text
  pub os_name : Text

-- snprintf(buf, n + 1, "%s", text): the first n bytes, and the terminator.
unfoldable pub truncated : ℕ → Text → Text
truncated zero t = []
truncated (suc n) [] = []
truncated (suc n) (c ∷ t) = c ∷ truncated n t

-- sizeof(g_currentThreadName)
abbrev pub name_size : ℕ
name_size = 64

-- SetCurrentThreadName: `set_name` is what the system keeps of a name that prctl is given.
unfoldable pub set_current_thread_name : (Text → Text) → Text → ThreadName → ThreadName
unfolding truncated
set_current_thread_name set_name name s = record {
  buffer = truncated (name_size - 1) name;
  os_name = set_name name;
}

-- PthreadSetName (src/wamr_ext_lib/WasiPthreadExt.cpp): the app's call; it returns 0.
unfoldable pub pthread_set_name : (Text → Text) → Text → ThreadName → ℕ × ThreadName
unfolding set_current_thread_name
pthread_set_name set_name name s = (0, set_current_thread_name set_name name s)

-- GetCurrentThreadName: prctl writes the system's name into the empty buffer.
unfoldable pub get_current_thread_name : ThreadName → Text × ThreadName
get_current_thread_name s =
    if is_empty s.buffer then (s.os_name, record s { buffer = s.os_name }) else (s.buffer, s)

truncated-length : (n : ℕ) (t : Text) → length (truncated n t) ≤ n
unfolding truncated
truncated-length zero t = omega arith
truncated-length (suc n) [] = omega arith
truncated-length (suc n) (c ∷ t) = omega (arith, truncated-length n t)

truncated_whole : (n : ℕ) (t : Text) → length t ≤ n → truncated n t ≡ t
unfolding truncated
truncated_whole zero [] h = refl
truncated_whole zero (c ∷ t) h = absurd (omega arith)
truncated_whole (suc n) [] h = refl
truncated_whole (suc n) (c ∷ t) h = ap (λ r. c ∷ r) (truncated_whole n t (omega arith))

get-set :
    (set_name : Text → Text) (name : Text) (s : ThreadName)
    → is_empty name ≡ false
    → get_current_thread_name (set_current_thread_name set_name name s)
      ≡ (truncated 63 name, set_current_thread_name set_name name s)
unfolding get_current_thread_name set_current_thread_name truncated
get-set set_name [] s e = absurd (ground arith)
get-set set_name (c ∷ name) s e = refl

-- A thread that has set a name that is not empty reads back at most 63 bytes of it, the whole of a name
-- of at most 63, and a second reading gives the same.
pub thread_name_reads_back :
    (set_name : Text → Text) (name : Text) (s : ThreadName)
    → is_empty name ≡ false
    → let (read, t) = get_current_thread_name (set_current_thread_name set_name name s) in
      (length read ≤ 63)
      × (length name ≤ 63 → read ≡ name)
      × (get_current_thread_name t ≡ (read, t))
thread_name_reads_back set_name name s e =
    let g = get-set set_name name s e in rw g (truncated-length 63 name, truncated_whole 63 name, g)
