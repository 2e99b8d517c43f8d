-- ===== src/Instance/Loop.antt =====
-- LoopCheckInstanceRoutine (src/wamr_ext_api/wamr_ext_api.cpp): the timer task that reports exceptions
-- and takes destroyed instances off gAllInstanceList. Here no other call runs between its steps; see
-- Instance/Interleave for those.
use wamr_ext.Prelude.Int.{negsuc, ℤ}
use wamr_ext.Prelude.{
  Bool, List, Option, [], arith, false, if◌then◌else◌, is_empty, map, none, not, refl, some, true,
  ℕ, ◌∷◌, ◌≡◌, Bool-cases, inl, inr,
}
use wamr_ext.Config.{ExceptionCb}
use wamr_ext.Instance.{Instance, State}
use wamr_ext.Prelude.Text.{Text}

-- exceptionCB.func(…, &exceptionInfo, exceptionCB.user_data): the function, the error's code and text.
pub record Callback : Type 0 where
  pub func : ℕ
  pub user_data : ℕ
  pub error_code : ℤ
  pub error_str : Text

-- exceptionStr && exceptionStr[0]
abbrev pub has_text : Option Text → Bool
has_text none = false
has_text (some t) = not (is_empty t)

abbrev pub text_or_empty : Option Text → Text
text_or_empty none = []
text_or_empty (some t) = t

abbrev pub callback_of : ExceptionCb → Text → Option Callback
callback_of cb t = elim cb.func [
  | none ↦ none
  | some f ↦
      some (record { func = f; user_data = cb.user_data; error_code = negsuc 0; error_str = t })
]

-- The case STATE_STARTED: the new state of the instance, and what is called.
unfoldable pub check_started : Option Text → Instance → Instance × Option Callback
check_started exception i =
    if has_text exception
    then (
      record i { state = State.ended },
      callback_of i.config.exception_cb (text_or_empty exception),
    )
    else (i, none)

-- The switch: the instance, what is called, and bInstDestroyed.
unfoldable pub check_instance : Option Text → Instance → Instance × Option Callback × Bool
unfolding check_started
check_instance exception i = elim i.state [
  | State.started ↦ let (j, cb) = check_started exception i in (j, cb, false)
  | State.destroyed ↦ (i, none, true)
  | _ ↦ (i, none, false)
]

abbrev pub add_call : Option Callback → List Callback → List Callback
add_call none cbs = cbs
add_call (some cb) cbs = cb ∷ cbs

-- The walk over the list; `exception` answers wasm_runtime_get_exception.
unfoldable pub loop_check_instances :
    (Instance → Option Text) → List Instance → List Instance × List Callback
unfolding check_instance
loop_check_instances exception [] = ([], [])
loop_check_instances exception (i ∷ is) =
    let (j, cb, erase) = check_instance (exception i) i in
    let (js, cbs) = loop_check_instances exception is in
    (if erase then js else j ∷ js, add_call cb cbs)

-- The specification: the destroyed instances go, and a started one with an exception has ended.
pub is_destroyed : Instance → Bool
is_destroyed i = elim i.state [ State.destroyed ↦ true | _ ↦ false ]

pub raised : (Instance → Option Text) → Instance → Bool
raised exception i = elim i.state [ State.started ↦ has_text (exception i) | _ ↦ false ]

pub kept : List Instance → List Instance
kept [] = []
kept (i ∷ is) = if is_destroyed i then kept is else i ∷ kept is

pub ended_if_raised : (Instance → Option Text) → Instance → Instance
ended_if_raised exception i = if raised exception i then record i { state = State.ended } else i

pub reports : (Instance → Option Text) → List Instance → List Callback
reports exception [] = []
reports exception (i ∷ is) =
    let rest = reports exception is in
    if raised exception i
    then add_call (callback_of i.config.exception_cb (text_or_empty (exception i))) rest
    else rest

-- One round takes exactly the DESTROYED instances off the list, keeps the order of the others, moves
-- exactly the STARTED ones whose runtime instance holds an exception to ENDED, and calls the
-- callbacks of those, one call for each that has one, with code -1 and the exception's text.
pub loop_check_instances_lem :
    (exception : Instance → Option Text) (is : List Instance)
    → loop_check_instances exception is
      ≡ (map (ended_if_raised exception) (kept is), reports exception is)
unfolding loop_check_instances kept is_destroyed raised ended_if_raised reports
loop_check_instances_lem exception [] = refl
loop_check_instances_lem exception (i ∷ is) = ground (arith, loop_check_instances_lem exception is)

not_raised_twice :
    (exception : Instance → Option Text) (i : Instance)
    → raised exception (ended_if_raised exception i) ≡ false
unfolding ended_if_raised
not_raised_twice exception i = elim (Bool-cases (raised exception i)) [
  | inl r ↦ rw (r, ended_if_raised) (unfold raised in refl)
  | inr q ↦ rw (q, ended_if_raised) q
]

reports-ended :
    (exception : Instance → Option Text) (is : List Instance)
    → reports exception (map (ended_if_raised exception) is) ≡ []
unfolding reports
reports-ended exception [] = refl
reports-ended exception (i ∷ is) =
    rw (not_raised_twice exception i, reports) (reports-ended exception is)

-- What one round leaves raises nothing in the next, whatever texts the runtime still holds: no
-- callback is called twice for one exception.
pub reports_once :
    (exception : Instance → Option Text) (is : List Instance)
    → (loop_check_instances exception (loop_check_instances exception is).0).1 ≡ []
reports_once exception is = rw (loop_check_instances_lem exception is) (
    rw (loop_check_instances_lem exception (map (ended_if_raised exception) (kept is)))
      (reports-ended exception (kept is)))
