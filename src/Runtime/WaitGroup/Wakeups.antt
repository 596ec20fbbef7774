-- ===== src/Runtime/WaitGroup/Wakeups.antt =====
-- Waiting in core/src/runtime/waitgroup.rs, whatever the order of the tasks' actions.
use rzmq.Base.{
  ◌≡◌, ◌≢◌, refl, sym, ◌∙◌, some, List, [], ◌∷◌, ◌++◌, All, arith, Option-cases, inl, inr,
}
use rzmq.Runtime.WaitGroup.{
  outside, listening, returned, WaitGroup, add, count_down, notify, look, listen, Action, adds,
  counts_down, notifies, looks, listens, act, run,
}

-- `wait` returns by a look at the counter, at a moment when the counter is 0, and changes nothing else.
pub wait_returns_at_zero :
    (a : Action) (g h : WaitGroup)
    → act a g ≡ some h
    → g.waiter ≢ returned
    → h.waiter ≡ returned
    → (a ≡ looks) × (g.count ≡ 0) × (h.count ≡ 0)
unfolding act add count_down notify look listen
wait_returns_at_zero (adds delta) g h e n r = ground arith
wait_returns_at_zero counts_down g h e n r = ground arith
wait_returns_at_zero notifies g h e n r = ground arith
wait_returns_at_zero looks g h e n r = ground arith
wait_returns_at_zero listens g h e n r = ground arith

-- The task listens, with nothing left that would wake it.
abbrev pub Lost : WaitGroup → Type 0
Lost g = (g.count ≡ 0) × (g.notifying ≡ 0) × (g.waiter ≡ listening)

abbrev pub NoAdds : Action → Type 0
NoAdds (adds delta) = ⊥
NoAdds _ = Unit {0}

act-Lost : (a : Action) (g h : WaitGroup) → NoAdds a → Lost g → act a g ≡ some h → Lost h
unfolding act add count_down notify look listen
act-Lost (adds delta) g h n l e = absurd n
act-Lost counts_down g h n l e = ground arith
act-Lost notifies g h n l e = ground arith
act-Lost looks g h n l e = ground arith
act-Lost listens g h n l e = ground arith

run-Lost :
    (actions : List Action) (g h : WaitGroup)
    → All NoAdds actions
    → Lost g
    → run actions g ≡ some h
    → Lost h
unfolding run
run-Lost [] g h n l e = ground arith
run-Lost (a ∷ actions) g h n l e = elim (Option-cases (act a g)) [
  | inl e' ↦ ground arith
  | inr (g', e') ↦ run-Lost actions g' h n.1 (act-Lost a g g' n.0 l e') (ground arith)
]

-- The actions of a `wait` that looks at the counter just before the last task is done, and listens
-- just after that task has notified.
abbrev pub late : List Action
late = looks ∷ counts_down ∷ notifies ∷ listens ∷ []

late-Lost :
    (g : WaitGroup)
    → g.count ≡ 1
    → g.notifying ≡ 0
    → g.waiter ≡ outside
    → run late g ≡ some (record { count = 0; notifying = 0; waiter = listening })
unfolding run act count_down notify look listen
late-Lost g c n w = ground arith

run-append :
    (actions later : List Action) (g g' : WaitGroup)
    → run actions g ≡ some g'
    → run (actions ++ later) g ≡ run later g'
unfolding run
run-append [] later g g' e = ground arith
run-append (a ∷ actions) later g g' e = elim (Option-cases (act a g)) [
  | inl n ↦ ground arith
  | inr (h, n) ↦ ground (arith, run-append actions later h g')
]

-- One task runs and another begins to wait: the running one can be done between the waiting one's look
-- at the counter and its `notified`, and then no further actions wake the waiting one, unless tasks
-- are added: the counter stays 0, and `wait` does not return.
pub missed_notification :
    (g h : WaitGroup) (later : List Action)
    → g.count ≡ 1
    → g.notifying ≡ 0
    → g.waiter ≡ outside
    → All NoAdds later
    → run (late ++ later) g ≡ some h
    → (run late g ≡ some (record { count = 0; notifying = 0; waiter = listening })) × Lost h
missed_notification g h later c n w a e =
    let g' : WaitGroup = record { count = 0; notifying = 0; waiter = listening } in
    (
      late-Lost g c n w,
      run-Lost later g' h a (refl, refl, refl)
          (sym (run-append late later g g' (late-Lost g c n w)) ∙ e),
    )
