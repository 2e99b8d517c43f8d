-- ===== src/TempDir.antt =====
-- src/base/FSUtility.cpp, GetTempDir, on a POSIX host.
use wamr_ext.Prelude.{
  Bool, false, not, Option, none, some, List, [], ◌∷◌, is_empty, if◌then◌else◌, Bool-cases, inl,
  inr, refl, ◌≡◌,
}
use wamr_ext.Prelude.Text.{Text, bytes}

-- tmpdir && tmpdir[0]
abbrev pub is_set : Option Text → Bool
is_set none = false
is_set (some t) = not (is_empty t)

abbrev pub temp_dir_vars : List Text
temp_dir_vars = bytes "TMPDIR" ∷ bytes "TMP" ∷ bytes "TEMP" ∷ bytes "TEMPDIR" ∷ []

-- The loop: it stops at the first variable that is set and not empty, and keeps the last one read.
unfoldable pub search_vars : (Text → Option Text) → List Text → Option Text → Option Text
search_vars getenv [] tmpdir = tmpdir
search_vars getenv (v ∷ vs) tmpdir =
    let rest = search_vars getenv vs (getenv v) in if is_set (getenv v) then getenv v else rest

abbrev or_default : Option Text → Text → Text
or_default none d = d
or_default (some t) d = if is_empty t then d else t

-- `android` stands for the macro __ANDROID__.
unfoldable pub get_temp_dir : Bool → (Text → Option Text) → Text
unfolding search_vars
get_temp_dir android getenv =
    or_default (search_vars getenv temp_dir_vars (some []))
      (if android then bytes "/data/local/tmp" else bytes "/tmp")

-- The first of the variables that is set to a text that is not empty.
unfoldable pub first_set : (Text → Option Text) → List Text → Option Text
first_set getenv [] = none
first_set getenv (v ∷ vs) =
    let rest = first_set getenv vs in if is_set (getenv v) then getenv v else rest

search_vars-first_set :
    (getenv : Text → Option Text) (vs : List Text) (cur : Option Text) (d : Text)
    → is_set cur ≡ false
    → or_default (search_vars getenv vs cur) d ≡ or_default (first_set getenv vs) d
unfolding search_vars first_set
search_vars-first_set getenv [] none d h = refl
search_vars-first_set getenv [] (some []) d h = refl
search_vars-first_set getenv [] (some (x ∷ t)) d h = absurd (cc h)
search_vars-first_set getenv (v ∷ vs) cur d h = elim (Bool-cases (is_set (getenv v))) [
  | inl found ↦ rw (found, search_vars, first_set) refl
  | inr not_set ↦
      rw (not_set, search_vars, first_set) (search_vars-first_set getenv vs (getenv v) d not_set)
]

-- The directory is the value of the first of TMPDIR, TMP, TEMP and TEMPDIR that is set and not
-- empty, and the platform's default where there is none.
pub get_temp_dir-first_set :
    (android : Bool) (getenv : Text → Option Text)
    → get_temp_dir android getenv
      ≡ or_default
          (first_set getenv temp_dir_vars)
          (if android then bytes "/data/local/tmp" else bytes "/tmp")
unfolding get_temp_dir
get_temp_dir-first_set android getenv = search_vars-first_set getenv temp_dir_vars (some []) _ refl
