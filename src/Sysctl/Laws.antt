-- ===== src/Sysctl/Laws.antt =====
-- What WamrExtSysctl (src/wamr_ext_lib/WasiWamrExt.cpp) writes.
use wamr_ext.Prelude.{
  Bool-cases, List, Option, [], arith, if◌then◌else◌, inl, inr, length, ltb, none, refl, some, ℕ,
  ◌%◌, ◌*◌, ◌++◌, ◌<◌, ◌^◌, ◌∷◌, ◌≡◌, ◌≤◌, Bool, Option-cases, false, sym, true, ◌==◌, ◌∙◌, All,
}
use wamr_ext.Prelude.Text.{Text, bytes, text_eq}
use wamr_ext.Errno.{erange, efault, einval}
use wamr_ext.Exec.{done, raise, Result}
use wamr_ext.Socket.Address.{drop}
use wamr_ext.Socket.Bytes.{copy_over, copy_over_all, length-to_le, of_le, of_le-to_le, to_le}
use wamr_ext.Sysctl.{Buffer, SysHost, avail_mem, give, wamr_ext_sysctl}

-- The names, each with the size and the value of its number.
abbrev pub Numbers : Type 0
Numbers = List (Text × (ℕ × ℕ))

unfoldable pub numbers : SysHost → Numbers
numbers h =
    (bytes "sysinfo.tid", (4, h.current_thread_id % 2 ^ 32))
    ∷ (bytes "sysinfo.pid", (4, h.process_id % 2 ^ 32))
    ∷ (bytes "sysinfo.cpu_count", (4, h.hardware_concurrency % 2 ^ 32))
    ∷ (
      bytes "sysinfo.vm_mem_total",
      (8, (h.memory.num_bytes_per_page * h.memory.max_page_count) % 2 ^ 64),
    )
    ∷ (bytes "sysinfo.vm_mem_avail", (8, avail_mem h % 2 ^ 64))
    ∷ []

-- The first entry with a name.
unfoldable pub number_named : Text → Numbers → Option (ℕ × ℕ)
number_named name [] = none
number_named name ((n, v) ∷ rest) = if text_eq name n then some v else number_named name rest

give-done :
    (size value : ℕ) (buf : Buffer) (out : Buffer)
    → give size value buf ≡ done out
    → length buf.0 ≡ buf.1
    → value < 256 ^ size
    → (out.1 ≡ size)
      × (size ≤ buf.1)
      × (out.0 ≡ to_le size value ++ drop size buf.0)
      × (of_le size out.0 ≡ value)
unfolding give
give-done size value (buf, n) out e l v = elim (Bool-cases (ltb n size)) [
  | inl short ↦ let no : raise erange ≡ done out = rw (short, give) at e in absurd (cc no)
  | inr fits ↦
      let made : done (copy_over size (to_le size value) buf, size) ≡ done out =
        rw (fits, give) at e in
      let pair : out ≡ (copy_over size (to_le size value) buf, size) = cc made in
      let room : size ≤ n = ground (arith, fits) in
      let len = length-to_le size value in
      let all = copy_over_all (to_le size value) buf (omega (arith, len, l, room)) in
      let same : copy_over size (to_le size value) buf ≡ to_le size value ++ drop size buf =
        rw len at all in
      rw pair (refl, room, same, rw same (of_le-to_le size value (drop size buf) v))
]

unfoldable answer : Option (ℕ × ℕ) → Buffer → Result Buffer
answer none buf = raise einval
answer (some v) buf = give v.0 v.1 buf

-- Five tests one after another find what the table has.
unfoldable first_of : (a b c d e : Bool) (u v x y z : ℕ × ℕ) → Option (ℕ × ℕ)
first_of a b c d e u v x y z =
    if a
    then some u
    else if b
    then some v
    else if c
    then some x
    else if d
    then some y
    else if e
    then some z
    else none

answer-first_of :
    (a b c d e : Bool) (u v x y z : ℕ × ℕ) (buf : Buffer)
    → (if a
        then give u.0 u.1 buf
        else if b
        then give v.0 v.1 buf
        else if c
        then give x.0 x.1 buf
        else if d
        then give y.0 y.1 buf
        else if e
        then give z.0 z.1 buf
        else raise einval)
      ≡ answer (first_of a b c d e u v x y z) buf
unfolding answer first_of
answer-first_of true b c d e u v x y z buf = refl
answer-first_of false true c d e u v x y z buf = refl
answer-first_of false false true d e u v x y z buf = refl
answer-first_of false false false true e u v x y z buf = refl
answer-first_of false false false false true u v x y z buf = refl
answer-first_of false false false false false u v x y z buf = refl

-- A call with a buffer of the app answers by the table.
sysctl_answers :
    (h : SysHost) (name : Text) (buf : Buffer)
    → (buf.1 == 0) ≡ false
    → wamr_ext_sysctl h name true buf ≡ answer (number_named name (numbers h)) buf
unfolding wamr_ext_sysctl numbers number_named first_of
sysctl_answers h name buf n = rw n (
    answer-first_of (text_eq name (bytes "sysinfo.tid")) (text_eq name (bytes "sysinfo.pid"))
      (text_eq name (bytes "sysinfo.cpu_count")) (text_eq name (bytes "sysinfo.vm_mem_total"))
      (text_eq name (bytes "sysinfo.vm_mem_avail")) _ _ _ _ _ buf)

abbrev Fits : Option (ℕ × ℕ) → Type 0
Fits none = Unit {0}
Fits (some v) = v.1 < 256 ^ v.0

found-Fits :
    (name : Text) (table : Numbers)
    → All (λ (e : Text × (ℕ × ℕ)). e.1.1 < 256 ^ e.1.0) table
    → Fits (number_named name table)
unfolding number_named
found-Fits name [] a = tt
found-Fits name ((n, v) ∷ rest) a = elim (Bool-cases (text_eq name n)) [
  | inl same ↦ rw same a.0
  | inr other_name ↦ rw other_name (found-Fits name rest a.1)
]

number_named-Fits : (h : SysHost) (name : Text) → Fits (number_named name (numbers h))
unfolding numbers
number_named-Fits h name =
    found-Fits name (numbers h)
      (omega arith, (omega arith, (omega arith, (omega arith, (omega arith, tt)))))

-- Let the buffer be as long as *bufLen says, and let none of the values be missing bytes. When a call of
-- WamrExtSysctl returns 0, the name is one of five, the size of its number is at most the length that the
-- app gave and is the new one, the first bytes of the buffer are the number's and read back as it, and
-- the bytes behind these are as before.
pub sysctl_reads_back :
    (h : SysHost) (name : Text) (valid : Bool) (buf out : Buffer)
    → length buf.0 ≡ buf.1
    → wamr_ext_sysctl h name valid buf ≡ done out
    → (value : ℕ) × (number_named name (numbers h) ≡ some (out.1, value))
      × (out.1 ≤ buf.1)
      × (out.0 ≡ to_le out.1 value ++ drop out.1 buf.0)
      × (of_le out.1 out.0 ≡ value)
unfolding wamr_ext_sysctl answer
sysctl_reads_back h name valid buf out l e = elim (Bool-cases (buf.1 == 0)) [
  | inl empty ↦
      let bad : raise erange ≡ done out = rw (empty, wamr_ext_sysctl) at e in absurd (cc bad)
  | inr some_room ↦ elim (Bool-cases valid) [
    | inl ok ↦
        let called : wamr_ext_sysctl h name true buf ≡ done out = rw ok at e in
        let answered : answer (number_named name (numbers h)) buf ≡ done out =
          sym (sysctl_answers h name buf some_room) ∙ called in
        elim (Option-cases (number_named name (numbers h))) [
          | inl unknown ↦
              let bad : raise einval ≡ done out = rw (unknown, answer) at answered in
              absurd (cc bad)
          | inr (v, known) ↦
              let given : give v.0 v.1 buf ≡ done out = rw (known, answer) at answered in
              let small : v.1 < 256 ^ v.0 = rw known at (number_named-Fits h name) in
              let (size, room, wrote, back) = give-done v.0 v.1 buf out given l small in
              (v.1, rw size known, rw size room, rw size wrote, rw size back)
        ]
    | inr not_app ↦
        let bad : raise efault ≡ done out = rw (some_room, not_app, wamr_ext_sysctl) at e in
        absurd (cc bad)
  ]
]
