-- ===== src/Tests/Runtime.antt =====
-- The wait group of core/src/runtime/waitgroup.rs.
use rzmq.Base.{◌≡◌, refl, some, [], ◌++◌}
use rzmq.Runtime.WaitGroup.{
  WaitGroup, outside, listening, act, count_down, notify, look, listen, run,
}
use rzmq.Runtime.WaitGroup.Wakeups.{Lost, late, missed_notification}

abbrev one_task : WaitGroup
one_task = record { count = 1; notifying = 0; waiter = outside }

abbrev asleep : WaitGroup
asleep = record { count = 0; notifying = 0; waiter = listening }

run-late : run (late ++ []) one_task ≡ some asleep
unfolding run act count_down notify look listen
run-late = refl

missed_notification_example : (run late one_task ≡ some asleep) × Lost asleep
missed_notification_example = missed_notification one_task asleep [] refl refl refl tt run-late
