-- ===== src/Scheduler/Agreement.antt =====
-- How the drain of the scheduler, its flags and its set agree: apps/agent/src/task-scheduler.ts.
use mathlib.Core.Bool.{false≢true}
use gram_coding_agent.Base.{
  String, ◌≡◌, refl, sym, ◌∙◌, Bool, true, false, ◌&&◌, List, [], ◌∷◌, arith, and-true, string_eq,
}
use gram_coding_agent.Task.Status.{status_eq}
use gram_coding_agent.Scheduler.{
  Drain, no_drain, draining, drained, is_empty, drain_of, stopped_by, resolved,
}

-- `drain`, the flags and the set agree
abbrev pub DrainAgrees : Drain → Bool → Bool → List String → Type 0
DrainAgrees no_drain stopping stopped l = (stopping ≡ false) × (stopped ≡ false)
DrainAgrees draining stopping stopped l =
    (stopping ≡ true) × ((stopped ≡ false) × (is_empty l ≡ false))
DrainAgrees drained stopping stopped l =
    (stopping ≡ true) × ((stopped ≡ true) × (is_empty l ≡ true))

pub drain_of-agrees :
    (d : Drain) (stopping stopped : Bool) (l : List String)
    → DrainAgrees d stopping stopped l
    → DrainAgrees (drain_of d l) true (stopped_by d l stopped) l
drain_of-agrees no_drain stopping stopped [] (e, k) = (refl, (refl, refl))
drain_of-agrees no_drain stopping stopped (x ∷ l) (e, k) = (refl, (k, refl))
drain_of-agrees draining stopping stopped l (e, (k, m)) = (refl, (k, m))
drain_of-agrees drained stopping stopped l (e, (k, m)) = (refl, (k, m))

-- the flags and the drain after the set lost a task
pub settled-agrees :
    (d : Drain) (stopping stopped : Bool) (l m : List String)
    → (is_empty l ≡ true → is_empty m ≡ true)
    → DrainAgrees d stopping stopped l
    → (stopping && is_empty m) ≡ true
    → DrainAgrees (resolved d) stopping true m
settled-agrees no_drain stopping stopped l m f (e, k) h = ground arith
settled-agrees draining stopping stopped l m f (e, (k, n)) h =
    (e, (refl, (and-true stopping (is_empty m) h).1))
settled-agrees drained stopping stopped l m f (e, (k, n)) h = (e, (refl, f n))

pub unsettled-agrees :
    (d : Drain) (stopping stopped : Bool) (l m : List String)
    → (is_empty l ≡ true → is_empty m ≡ true)
    → DrainAgrees d stopping stopped l
    → (stopping && is_empty m) ≡ false
    → DrainAgrees d stopping stopped m
unsettled-agrees no_drain stopping stopped l m f (e, k) h = (e, k)
unsettled-agrees draining stopping stopped l m f (e, (k, n)) h = ground arith
unsettled-agrees drained stopping stopped l m f (e, (k, n)) h = (e, (k, f n))

pub open-agrees :
    (d : Drain) (stopping stopped : Bool) (l m : List String)
    → stopping ≡ false
    → DrainAgrees d stopping stopped l
    → DrainAgrees d stopping stopped m
open-agrees no_drain stopping stopped l m h agrees = agrees
open-agrees draining stopping stopped l m h (e, _) = absurd (false≢true (sym h ∙ e))
open-agrees drained stopping stopped l m h (e, _) = absurd (false≢true (sym h ∙ e))
