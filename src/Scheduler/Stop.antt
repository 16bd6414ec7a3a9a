-- ===== src/Scheduler/Stop.antt =====
-- Nothing is dispatched once the scheduler stops: apps/agent/src/task-scheduler.ts.
use gram_coding_agent.Base.{
  String, ◌≡◌, refl, sym, ap, subst, ◌∙◌, true, ◌&&◌, ◌||◌, List, [], ◌∷◌, ◌++◌, none, some,
  Bool-cases, inl, inr,
}
use gram_coding_agent.Scheduler.{
  TaskScheduler, RunnableTaskSnapshot, Answers, visit, visit_all, Listing, is_empty, stop, finish,
  settle, settled, tick, start, fulfilled, rejected, Step, starts, ticks, stops, fulfils, rejects,
  Steps, none_yet, then_step,
}
use gram_coding_agent.Scheduler.Laws.{dispatches, fail_task-keeps}

-- the second state stops too, and no task was run in between
abbrev pub IsQuiet : TaskScheduler → TaskScheduler → Type 0
IsQuiet s t = (t.stopping ≡ true) × (dispatches t.calls ≡ dispatches s.calls)

settle-IsQuiet : (s t : TaskScheduler) → IsQuiet s t → IsQuiet s (settle t)
settle-IsQuiet s t h = elim (Bool-cases (t.stopping && is_empty t.in_flight)) [
  | inl e ↦ rw e h
  | inr e ↦ rw e h
]

finish-IsQuiet : (id : String) (s t : TaskScheduler) → IsQuiet s t → IsQuiet s (finish id t)
unfolding finish
finish-IsQuiet id s t h = settle-IsQuiet s _ h

tick-stopped : (l : Listing) (s : TaskScheduler) → s.stopping ≡ true → tick l s ≡ s
unfolding tick
tick-stopped none s h = refl
tick-stopped (some l) s h = rw h refl

start-stopped : (l : Listing) (s : TaskScheduler) → s.stopping ≡ true → start l s ≡ s
unfolding start
start-stopped l s h = elim (Bool-cases s.started) [ inl e ↦ rw e refl | inr e ↦ rw (e, h) refl ]

step-IsQuiet : (s t : TaskScheduler) → s.stopping ≡ true → Step s t → IsQuiet s t
unfolding stop fulfilled rejected
step-IsQuiet s _ h (starts l) = rw (start-stopped l s h) (h, refl)
step-IsQuiet s _ h (ticks l) = rw (tick-stopped l s h) (h, refl)
step-IsQuiet s _ h stops = (refl, refl)
step-IsQuiet s _ h (fulfils id m) = finish-IsQuiet id s (settled id s) (h, refl)
step-IsQuiet s _ h (rejects id f m) =
    fail_task-keeps (λ t. IsQuiet s (finish id t)) id f (settled id s)
      (λ calls e. finish-IsQuiet id s (record (settled id s) { calls = calls }) (h, e))

Steps-IsQuiet : (s t : TaskScheduler) → s.stopping ≡ true → Steps s t → IsQuiet s t
Steps-IsQuiet s _ h none_yet = (h, refl)
Steps-IsQuiet s _ h (then_step {t = t} {u = u} steps k) =
    let (going, same) = Steps-IsQuiet s t h steps in
    let (going', same') = step-IsQuiet t u going k in (going', same' ∙ same)

visit_all-closed :
    (m : List (RunnableTaskSnapshot × Answers)) (s : TaskScheduler)
    → (s.stopping || s.stopped) ≡ true
    → visit_all m s ≡ s
unfolding visit_all
visit_all-closed [] s h = refl
visit_all-closed ((candidate, a) ∷ m) s h = rw h refl

visit_all-append :
    (l m : List (RunnableTaskSnapshot × Answers)) (s : TaskScheduler)
    → visit_all (l ++ m) s ≡ visit_all m (visit_all l s)
unfolding visit_all
visit_all-append [] m s = refl
visit_all-append ((candidate, a) ∷ l) m s = elim (Bool-cases (s.stopping || s.stopped)) [
  | inl e ↦ rw e (sym (visit_all-closed m s e))
  | inr e ↦ rw e (visit_all-append l m (visit candidate a s))
]

tick-visits :
    (l : List (RunnableTaskSnapshot × Answers)) (s : TaskScheduler)
    → tick (some l) s ≡ visit_all l s
unfolding tick
tick-visits l s = elim (Bool-cases (s.stopping || s.stopped)) [
  | inl e ↦ rw e (sym (visit_all-closed l s e))
  | inr e ↦ rw e refl
]

-- the candidates after the one at which the scheduler began to stop change nothing
tick-rest :
    (l m : List (RunnableTaskSnapshot × Answers)) (s : TaskScheduler)
    → (tick (some l) s).stopping ≡ true
    → tick (some (l ++ m)) s ≡ tick (some l) s
tick-rest l m s h =
    tick-visits (l ++ m) s
    ∙ visit_all-append l m s
    ∙ ap (visit_all m) (sym (tick-visits l s))
    ∙ visit_all-closed m (tick (some l) s) (rw h refl)

-- Where the scheduler is stopping once a tick has gone through the candidates `l`, then in a tick
-- whose listing goes on with any further candidates, and in whatever happens after it, no task is
-- run after those that were run for `l`, and the scheduler goes on stopping. With no candidates this
-- speaks of all that happens from a state that is stopping.
pub stopping-IsQuiet :
    (l m : List (RunnableTaskSnapshot × Answers)) (s t : TaskScheduler)
    → (tick (some l) s).stopping ≡ true
    → Steps (tick (some (l ++ m)) s) t
    → IsQuiet (tick (some l) s) t
stopping-IsQuiet l m s t h steps =
    Steps-IsQuiet (tick (some l) s) t h (subst (λ u. Steps u t) (tick-rest l m s h) steps)
