-- ===== src/Task/Store/Runnable.antt =====
-- `TaskRepository.listRunnable`: which tasks the scheduler sees, and in which order.
use mathlib.Core.List.Memᴰ.{head, tail}
use mathlib.Core.List.{map-append, Memᴰ}
use mathlib.Core.Bool.{false≢true}
use gram_coding_agent.Base.{
  sym, subst, ◌⊎◌, All-mono, ◌<◌, ℕ, ◌≤◌, ◌≡◌, ◌≢◌, refl, Bool, true, false, ◌&&◌, ◌||◌, List, [],
  ◌∷◌, ◌++◌, map, if◌then◌else◌, ◌==◌, string_eq, nat_eq, leb, ltb, not, arith, All, All-take, take,
  length, length-take, Bool-cases, inl, inr, Result, ok, err, ap, ap₂, ◌∙◌, and-true,
}
use gram_coding_agent.Table.{select_where}
use gram_coding_agent.Table.Order.{
  order_by, IsOrdered, All-order_by, order_by_ordered, IsOrdered-append, IsOrdered-take,
  order_by-IsOrdered, Memᴰ-order_by, Memᴰ-take,
}
use gram_coding_agent.Task.Status.{TaskStatus, queued, waiting_repo_lock, status_eq}
use gram_coding_agent.Task.Database.{Database, TaskRow}
use gram_coding_agent.Task.Store.{TaskError, invalid_limit}
use gram_coding_agent.Task.Store.Local.{max_safe_integer}

-- ORDER BY priority ASC, seq ASC
unfoldable pub more_urgent : TaskRow → TaskRow → Bool
more_urgent a b = ltb a.priority b.priority || (a.priority == b.priority && leb a.seq b.seq)

-- a selected row with its `statusOrder`
pub record Candidate : Type 0 where
  pub status_order : ℕ
  pub row : TaskRow

-- ORDER BY statusOrder, priority ASC, seq ASC
unfoldable pub earlier : Candidate → Candidate → Bool
unfolding more_urgent
earlier a b =
    ltb a.status_order b.status_order
    || (a.status_order == b.status_order && more_urgent a.row b.row)

abbrev is_runnable : TaskStatus → TaskRow → Bool
is_runnable s r = r.status == s && not (r.task_type == "LOCAL_COMMAND")

-- one of the two subqueries: WHERE … ORDER BY priority, seq LIMIT ?
unfoldable pub runnable : TaskStatus → ℕ → Database → List TaskRow
unfolding more_urgent
runnable s limit db = take limit (order_by more_urgent (select_where (is_runnable s) db.tasks))

abbrev candidates : ℕ → List TaskRow → List Candidate
candidates n t = map (λ r. record { status_order = n; row = r }) t

unfoldable pub list_runnable : ℕ → Database → Result TaskError (List TaskRow)
unfolding runnable earlier
list_runnable limit db =
    if not (leb 1 limit && leb limit max_safe_integer)
    then err invalid_limit
    else ok (
        map (λ c. c.row)
          (order_by earlier (
            candidates 0 (runnable waiting_repo_lock limit db)
            ++ candidates 1 (runnable queued limit db))))

more_urgent_total : (a b : TaskRow) → more_urgent a b ≡ false → more_urgent b a ≡ true
unfolding more_urgent
more_urgent_total a b h = ground arith

more_urgent_trans :
    (a b c : TaskRow) → more_urgent a b ≡ true → more_urgent b c ≡ true → more_urgent a c ≡ true
unfolding more_urgent
more_urgent_trans a b c h k = ground arith

runnable-IsOrdered :
    (s : TaskStatus) (limit : ℕ) (db : Database) → IsOrdered more_urgent (runnable s limit db)
unfolding runnable
runnable-IsOrdered s limit db =
    IsOrdered-take more_urgent limit (order_by more_urgent (select_where (is_runnable s) db.tasks))
      (order_by-IsOrdered more_urgent more_urgent_total more_urgent_trans
        (select_where (is_runnable s) db.tasks))

All-candidates :
    (n : ℕ) (r : TaskRow) (t : List TaskRow)
    → All (λ y. more_urgent r y ≡ true) t
    → All (λ c. earlier (record { status_order = n; row = r }) c ≡ true) (candidates n t)
unfolding earlier
All-candidates n r [] h = tt
All-candidates n r (y ∷ t) (p, h) = (ground arith, All-candidates n r t h)

candidates-IsOrdered :
    (n : ℕ) (t : List TaskRow) → IsOrdered more_urgent t → IsOrdered earlier (candidates n t)
candidates-IsOrdered n [] h = tt
candidates-IsOrdered n (r ∷ t) (p, h) = (All-candidates n r t p, candidates-IsOrdered n t h)

waiting_first :
    (t u : List TaskRow)
    → All (λ c. All (λ d. earlier c d ≡ true) (candidates 1 u)) (candidates 0 t)
waiting_first [] u = tt
waiting_first (r ∷ t) u = (go u, waiting_first t u)
  where
    go :
        (u : List TaskRow)
        → All (λ d. earlier (record { status_order = 0; row = r }) d ≡ true) (candidates 1 u)
    go [] = tt
    go (y ∷ u) = (unfold earlier in refl, go u)

rows-candidates : (n : ℕ) (t : List TaskRow) → map (λ (c : Candidate). c.row) (candidates n t) ≡ t
rows-candidates n [] = refl
rows-candidates n (r ∷ t) = ap (λ l. r ∷ l) (rows-candidates n t)

-- a task that the scheduler may run, in the given status
abbrev pub IsEligible : TaskStatus → TaskRow → Type 0
IsEligible s r = (r.status ≡ s) × (r.task_type ≢ "LOCAL_COMMAND")

-- the lower number of priority first, and for the same priority the lower sequence number
abbrev pub IsAhead : TaskRow → TaskRow → Type 0
IsAhead a b = (a.priority < b.priority) ⊎ ((a.priority ≡ b.priority) × (a.seq ≤ b.seq))

abbrev pub StandsInOrder : List TaskRow → Type 0
StandsInOrder [] = Unit
StandsInOrder (r ∷ l) = All (IsAhead r) l × StandsInOrder l

-- The first tasks of a status, at most `limit` of them: all are stored and eligible, they stand in
-- order, and a stored task that is not eligible or not listed is so for a reason.
abbrev pub IsListing : TaskStatus → ℕ → Database → List TaskRow → Type 0
IsListing s limit db l =
    All (λ r. Memᴰ r db.tasks × IsEligible s r) l
    × StandsInOrder l
    × (length l ≤ limit)
    × All (λ r. (¬ (IsEligible s r)) ⊎ Memᴰ r l ⊎ ((length l ≡ limit) × All (λ y. IsAhead y r) l))
        db.tasks

more_urgent-IsAhead : (a b : TaskRow) → more_urgent a b ≡ true → IsAhead a b
unfolding more_urgent
more_urgent-IsAhead a b h = elim (Bool-cases (ltb a.priority b.priority)) [
  | inl e ↦ inl (ground arith)
  | inr e ↦ inr (ground arith)
]

IsOrdered-StandsInOrder : (l : List TaskRow) → IsOrdered more_urgent l → StandsInOrder l
IsOrdered-StandsInOrder [] h = tt
IsOrdered-StandsInOrder (r ∷ l) (p, h) = (
  All-mono (λ y. more_urgent r y ≡ true) (IsAhead r) (more_urgent-IsAhead r) l p,
  IsOrdered-StandsInOrder l h,
)

is_runnable-IsEligible : (s : TaskStatus) (r : TaskRow) → is_runnable s r ≡ true → IsEligible s r
is_runnable-IsEligible s r h =
    let (status, kind) = and-true (r.status == s) (not (r.task_type == "LOCAL_COMMAND")) h in
    (
      (status_eq.beq_iff r.status s).0 status,
      λ e. absurd_local ((string_eq.beq_iff r.task_type "LOCAL_COMMAND").1 e) kind,
    )
  where
    absurd_local : {b : Bool} → b ≡ true → not b ≡ true → ⊥
    absurd_local h k = ground arith

not-IsEligible : (s : TaskStatus) (r : TaskRow) → is_runnable s r ≡ false → ¬ (IsEligible s r)
not-IsEligible s r h (status, kind) = elim (Bool-cases (r.task_type == "LOCAL_COMMAND")) [
  | inl e ↦ kind ((string_eq.beq_iff r.task_type "LOCAL_COMMAND").0 e)
  | inr e ↦
      let same = (status_eq.beq_iff r.status s).1 status in
      absurd (false≢true (sym h ∙ (rw (same, e) refl)))
]

All-Memᴰ : {A : Type 0} (P : A → Type 0) (l : List A) → ((x : A) → Memᴰ x l → P x) → All P l
All-Memᴰ P [] f = tt
All-Memᴰ P (x ∷ l) f = (f x (head refl), All-Memᴰ P l (λ y m. f y (tail m)))

selected_sound :
    (s : TaskStatus) (tasks : List TaskRow) (r : TaskRow)
    → Memᴰ r (select_where (is_runnable s) tasks)
    → Memᴰ r tasks × IsEligible s r
selected_sound s [] r m = elim m [ ]
selected_sound s (x ∷ tasks) r m = elim (Bool-cases (is_runnable s x)) [
  | inl e ↦ kept (λ n. selected_sound s tasks r n) e (rw e at m)
  | inr e ↦ let (n, k) = selected_sound s tasks r (rw e at m) in (tail n, k)
]
  where
    kept :
        (Memᴰ r (select_where (is_runnable s) tasks) → Memᴰ r tasks × IsEligible s r)
        → is_runnable s x ≡ true
        → Memᴰ r (x ∷ select_where (is_runnable s) tasks)
        → Memᴰ r (x ∷ tasks) × IsEligible s r
    kept later e (head same) =
        (head same, subst (IsEligible s) (sym same) (is_runnable-IsEligible s x e))
    kept later e (tail n) = let (k, own) = later n in (tail k, own)

selected_complete :
    (s : TaskStatus) (tasks : List TaskRow) (r : TaskRow)
    → Memᴰ r tasks
    → is_runnable s r ≡ true
    → Memᴰ r (select_where (is_runnable s) tasks)
selected_complete s [] r m h = elim m [ ]
selected_complete s (x ∷ tasks) r (head same) h =
    let own : is_runnable s x ≡ true = subst (λ a. is_runnable s a ≡ true) same h in
    rw own (head same)
selected_complete s (x ∷ tasks) r (tail m) h = elim (Bool-cases (is_runnable s x)) [
  | inl e ↦ rw e (tail (selected_complete s tasks r m h))
  | inr e ↦ rw e (selected_complete s tasks r m h)
]

runnable-IsListing :
    (s : TaskStatus) (limit : ℕ) (db : Database) → IsListing s limit db (runnable s limit db)
unfolding runnable
runnable-IsListing s limit db =
    let selected = select_where (is_runnable s) db.tasks in
    let ordered = order_by-IsOrdered more_urgent more_urgent_total more_urgent_trans selected in
    let sound : All (λ r. Memᴰ r db.tasks × IsEligible s r) selected =
      All-Memᴰ (λ r. Memᴰ r db.tasks × IsEligible s r) selected (selected_sound s db.tasks) in
    (
      All-take (λ r. Memᴰ r db.tasks × IsEligible s r) limit (order_by more_urgent selected)
          (All-order_by more_urgent (λ r. Memᴰ r db.tasks × IsEligible s r) selected sound),
      IsOrdered-StandsInOrder (runnable s limit db) (runnable-IsOrdered s limit db),
      length-take limit (order_by more_urgent selected),
      All-Memᴰ _ db.tasks (λ r m. elim (Bool-cases (is_runnable s r)) [
        | inr e ↦ inl (not-IsEligible s r e)
        | inl e ↦
            inr
              (elim (Memᴰ-take more_urgent limit r (order_by more_urgent selected) ordered
                (Memᴰ-order_by more_urgent r selected (selected_complete s db.tasks r m e))) [
                  | inl early ↦ inl early
                  | inr (full, before) ↦ inr (
                    full,
                    All-mono (λ y. more_urgent y r ≡ true) (λ y. IsAhead y r)
                        (λ y. more_urgent-IsAhead y r) (runnable s limit db) before,
                  )
                ])
      ]),
    )

-- For a limit that is a positive safe integer, the listing is that of the waiting tasks followed by
-- that of the queued ones, each of at most `limit` tasks. Each holds only stored tasks of its status,
-- no local command, by ascending priority and then by ascending number; a task of the status that it
-- does not hold is a local command, or it stands behind `limit` tasks that are listed.
pub list_runnable_order :
    (limit : ℕ) (db : Database)
    → 1 ≤ limit
    → limit ≤ max_safe_integer
    → (waits queue : List TaskRow) × (list_runnable limit db ≡ ok (waits ++ queue))
      × IsListing waiting_repo_lock limit db waits
      × IsListing queued limit db queue
unfolding list_runnable
list_runnable_order limit db low high =
    let w = runnable waiting_repo_lock limit db in
    let q = runnable queued limit db in
    let sorted = order_by_ordered earlier (candidates 0 w ++ candidates 1 q) (
      IsOrdered-append earlier (candidates 0 w) (candidates 1 q)
        (candidates-IsOrdered 0 w (runnable-IsOrdered waiting_repo_lock limit db))
        (candidates-IsOrdered 1 q (runnable-IsOrdered queued limit db)) (waiting_first w q)) in
    let valid : (leb 1 limit && leb limit max_safe_integer) ≡ true = ground arith in
    (
      w,
      q,
      rw (valid, sorted)
          (ap ok
            (map-append _ _ _ ∙ ap₂ (λ a b. a ++ b) (rows-candidates 0 w) (rows-candidates 1 q))),
      runnable-IsListing waiting_repo_lock limit db,
      runnable-IsListing queued limit db,
    )
