-- ===== src/Runtime/WaitGroup.antt =====
-- core/src/runtime/waitgroup.rs: a counter of running tasks, and one task that waits for it to be 0.
-- An action is one atomic access to the counter or to the notifier. The notifier is tokio's `Notify`:
-- `notify_waiters` wakes who listens at that moment, and leaves nothing behind for later ones.
pub mod Wakeups
use rzmq.Base.{
  ℕ, zero, suc, ◌+◌, ◌%◌, ◌^◌, Bool, true, false, Option, none, some, List, [], ◌∷◌, ◌==◌,
  if◌then◌else◌,
}

-- Where the waiting task stands: before `wait`, between its look at the counter and `notified`, in
-- `notified`, woken, or behind `wait`.
pub data Waiter : Type 0 where
  outside checked listening woken returned : Waiter

pub record WaitGroup : Type 0 where
  pub count : ℕ
  -- The calls of `done` that took the counter to 0 and have not notified yet.
  pub notifying : ℕ
  pub waiter : Waiter

abbrev pub new_group : WaitGroup
new_group = record { count = 0; notifying = 0; waiter = outside }

abbrev pub usize_mod : ℕ
usize_mod = 2 ^ 64

unfoldable pub add : ℕ → WaitGroup → WaitGroup
add delta g = if delta == 0 then g else record g { count = (g.count + delta) % usize_mod }

-- `fetch_sub` in `done`. At a counter of 0 it panics, with the counter restored.
unfoldable pub count_down : ℕ → WaitGroup → Option WaitGroup
count_down zero g = none
count_down (suc zero) g = some (record g { count = 0; notifying = suc g.notifying })
count_down (suc (suc n)) g = some (record g { count = suc n })

abbrev pub wake : Waiter → Waiter
wake listening = woken
wake w = w

-- `notify_waiters` in `done`.
unfoldable pub notify : ℕ → WaitGroup → Option WaitGroup
notify zero g = none
notify (suc n) g = some (record g { notifying = n; waiter = wake g.waiter })

-- A look of `wait` at the counter: the first, or one after a notification.
abbrev pub looked : WaitGroup → WaitGroup
looked g = record g { waiter = if g.count == 0 then returned else checked }

unfoldable pub look : Waiter → WaitGroup → Option WaitGroup
look outside g = some (looked g)
look woken g = some (looked g)
look _ g = none

unfoldable pub listen : Waiter → WaitGroup → Option WaitGroup
listen checked g = some (record g { waiter = listening })
listen _ g = none

pub data Action : Type 0 where
  adds : ℕ → Action
  counts_down notifies looks listens : Action

-- `none`: the action cannot happen.
unfoldable pub act : Action → WaitGroup → Option WaitGroup
act (adds delta) g = some (add delta g)
act counts_down g = count_down g.count g
act notifies g = notify g.notifying g
act looks g = look g.waiter g
act listens g = listen g.waiter g

unfoldable pub run : List Action → WaitGroup → Option WaitGroup
run [] g = some g
run (a ∷ actions) g = elim (act a g) [ none ↦ none | some g' ↦ run actions g' ]
