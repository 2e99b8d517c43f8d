-- ===== src/Tests/Interleave.antt =====
-- A run of Instance/Interleave: an instance is started and a call begins to tear it down.
use wamr_ext.Prelude.{refl, true, ◌≡◌}
use wamr_ext.Tests.Instance.{good_answers, small_config}
use wamr_ext.Instance.{new_instance}
use wamr_ext.Prelude.Runs.{Inevitably}
use wamr_ext.Instance.Freeing.{IsGone, destroyed_goes}
use wamr_ext.Instance.Memory.{enlarge}
use wamr_ext.Instance.Start.{start_body, may_start}
use wamr_ext.Instance.Destroy.{begin_destroy, end_destroy, is_destroying}
use wamr_ext.Instance.Interleave.{
  Shared, Step, Reach, Inv, created, Reach-created-Inv, freed_while_locked, Holder,
}

abbrev begun : Shared
begun = record (created small_config) { holder = Holder.starting }

abbrev up : Shared
up = record begun { holder = Holder.nobody; inst = (start_body good_answers begun.inst).1 }

abbrev down : Shared
down = record up { holder = Holder.tearing_down; inst = (begin_destroy up.inst).1 }

to_up : Reach (created small_config) up
unfolding created new_instance may_start
to_up =
    Reach.next (Reach.next Reach.here (Step.start_begins refl refl refl refl))
      (Step.start_ends good_answers refl refl)

up_to_down : Step up down
unfolding created new_instance begin_destroy is_destroying start_body enlarge
up_to_down = Step.destroy_begins true refl refl refl refl

to_down : Reach (created small_config) down
to_down = Reach.next to_up up_to_down

Reach-created-Inv_example : Inv down
Reach-created-Inv_example = Reach-created-Inv small_config to_down

freed_while_locked_example :
    (t : Shared) × Reach down t × (t.freed ≡ true) × (t.holder ≡ Holder.leaving)
freed_while_locked_example = freed_while_locked small_config to_down refl

abbrev destroyed : Shared
destroyed = record down { holder = Holder.leaving; inst = end_destroy down.inst }

to_destroyed : Reach (created small_config) destroyed
to_destroyed = Reach.next to_down (Step.destroy_ends refl refl)

destroyed_goes_example : Inevitably Step IsGone destroyed
unfolding created end_destroy
destroyed_goes_example = destroyed_goes small_config to_destroyed refl refl
