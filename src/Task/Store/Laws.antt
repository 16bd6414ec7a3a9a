-- ===== src/Task/Store/Laws.antt =====
-- What the methods of `TaskRepository` do to the task table.
use mathlib.Core.Option
use gram_coding_agent.Base.{
  ℕ, ◌+◌, ◌≤◌, ◌<◌, ◌≡◌, refl, sym, subst, ap, String, Bool, true, false, ◌||◌, List, [], ◌∷◌, ◌++◌,
  Option, none, some, if◌then◌else◌, ◌==◌, ==-refl, string_eq, nat_eq, arith, and-true, All,
  All-append, All-mono, ok, err, Bool-cases, inl, inr, any, ◌⊎◌, All-mono, Option-cases, Result,
}
use gram_coding_agent.Table.{
  find_where, update_where, count_where, update_where_none, count_where-append, find_where-some,
}
use gram_coding_agent.Table.Unique.{
  find_where-update, count_where_key, find_where_of_any, count_where_of_any, find_where-append,
}
use gram_coding_agent.Task.Status.{TaskStatus, queued, can_transition_task_status, status_eq}
use gram_coding_agent.Task.Database.{Database, TaskRow}
use gram_coding_agent.Task.Store.{
  TaskError, concurrent_transition, CreateStoredTaskInput, has_id, get, has_status, set_status,
  settle, transition, guarded_transition, create, create_body, new_row,
}

abbrev HasSeqBelow : Option ℕ → List TaskRow → Type 0
HasSeqBelow none t = Unit
HasSeqBelow (some n) t = All (λ r. r.seq < n) t

abbrev has_seq : ℕ → TaskRow → Bool
has_seq n r = r.seq == n

-- The constraints of the table: the id is a key, and every number drawn lies below the next one.
pub record IsWellFormed (db : Database) : Type 0 where
  pub ids : (id : String) → count_where (has_id id) db.tasks ≤ 1
  pub seqs : (n : ℕ) → count_where (has_seq n) db.tasks ≤ 1
  pub below : HasSeqBelow db.task_sequence db.tasks

has_status-has_id :
    (id : String) (s : TaskStatus) (r : TaskRow) → has_status id s r ≡ true → has_id id r ≡ true
has_status-has_id id s r h = (and-true _ _ h).0

-- the database after a compare-and-set of one status
abbrev pub moved : String → TaskStatus → TaskStatus → ℕ → Database → Database
moved id from to now db = record db {
  tasks = update_where (has_status id from) (set_status to now) db.tasks;
}

-- In a well-formed database, a transition of a stored task is a compare-and-set: where the stored
-- status is the expected one, it is set; otherwise the transition throws and leaves the database
-- as it was.
pub transition_lem :
    (id : String) (from to : TaskStatus) (now : ℕ) (db : Database) (r : TaskRow)
    → IsWellFormed db
    → get id db ≡ some r
    → transition id from to now db ≡ (
        if r.status == from
        then (ok tt, moved id from to now db)
        else (err (concurrent_transition id from to), db))
unfolding get transition
transition_lem id from to now db r wf e =
    let key =
      count_where_key (has_id id) (has_status id from) (has_status-has_id id from) db.tasks r
        (wf.ids id) e in
    let same = (string_eq.beq_iff r.id id).1 in
    ground (
      arith,
      key,
      update_where_none (has_status id from) (set_status to now) db.tasks,
      find_where-some (has_id id) db.tasks r e,
    )

pub has_id-get :
    (id : String) (db : Database) (r : TaskRow) → get id db ≡ some r → (r.id == id) ≡ true
unfolding get
has_id-get id db r e = find_where-some (has_id id) db.tasks r e

abbrev pub applied : String → TaskStatus → TaskStatus → ℕ → TaskRow → TaskRow
applied id from to now r = if has_status id from r then set_status to now r else r

pub get-transition :
    (j id : String) (from to : TaskStatus) (now : ℕ) (db : Database)
    → get j (transition id from to now db).1 ≡ Option.map (applied id from to now) (get j db)
unfolding get transition
get-transition j id from to now db =
    let found =
      find_where-update (has_id j) (has_status id from) (set_status to now) (λ r _. refl)
        db.tasks in
    elim (Bool-cases (count_where (has_status id from) db.tasks == 1)) [
      | inl e ↦ rw e found
      | inr e ↦ rw e found
    ]

-- Whatever the guarded machine is asked, each stored task keeps its status or makes one allowed
-- transition, and only the named task moves.
pub guarded_transition_allowed :
    (j id : String) (from to : TaskStatus) (now : ℕ) (db : Database) (r : TaskRow)
    → get j db ≡ some r
    → (r' : TaskRow) × (get j (guarded_transition id from to now db).1 ≡ some r')
      × ((r' ≡ r) ⊎ ((r.id ≡ id) × (can_transition_task_status r.status r'.status ≡ true)))
unfolding guarded_transition
guarded_transition_allowed j id from to now db r e =
    elim (Bool-cases (can_transition_task_status from to)) [
      | inr no_edge ↦ (r, rw no_edge e, inl refl)
      | inl edge ↦ elim (Bool-cases (has_status id from r)) [
        | inr away ↦
            (r, rw edge (rw (get-transition j id from to now db, e) (ap some (rw away))), inl refl)
        | inl hit ↦
            let (same, at_from) = and-true _ _ hit in
            (
              set_status to now r,
              rw edge (rw (get-transition j id from to now db, e) (ap some (rw hit))),
              inr (
                (string_eq.beq_iff r.id id).0 same,
                rw ((status_eq.beq_iff r.status from).0 at_from) edge,
              ),
            )
      ]
    ]

pub settle_err :
    {S E A : Type 0} (s : S) (p : Result E A × S) (e : E) (s' : S)
    → settle s p ≡ (err e, s')
    → s' ≡ s
settle_err s (ok a, t) e s' h = ground arith
settle_err s (err d, t) e s' h = ground arith

module _ (value : CreateStoredTaskInput) (id : String) (now : ℕ) (db : Database) where
  -- A creation that throws leaves nothing behind, not even the number that it drew.
  pub create_atomic :
      (e : TaskError) (db' : Database) → create value id now db ≡ (err e, db') → db' ≡ db
  unfolding create
  create_atomic e db' h = settle_err db (create_body value id now db) e db' h

  abbrev clashes : ℕ → Bool
  clashes n = any (λ x. x.id == id || x.seq == n) db.tasks

  own :
      (n : ℕ) → find_where (has_id id) (new_row value id n now ∷ []) ≡ some (new_row value id n now)
  own n = rw (==-refl id)

  found :
      (n : ℕ)
      → find_where (has_id id) (db.tasks ++ new_row value id n now ∷ [])
        ≡ elim (find_where (has_id id) db.tasks) [
          | none ↦ some (new_row value id n now)
          | some x ↦ some x
        ]
  found n =
      ground (arith, find_where-append (has_id id) db.tasks (new_row value id n now ∷ []), own n)

  absent : (n : ℕ) → clashes n ≡ false → find_where (has_id id) db.tasks ≡ none
  absent n h =
      find_where_of_any (has_id id) (λ x. x.id == id || x.seq == n) (λ x e. rw e) db.tasks h

  pub create_stored :
      (r : TaskRow) (db' : Database)
      → create value id now db ≡ (ok r, db')
      → (n : ℕ) × (db.task_sequence ≡ some n)
        × (db' ≡ record db {
          task_sequence = some (n + 1);
          tasks = db.tasks ++ new_row value id n now ∷ [];
        })
        × (clashes n ≡ false)
        × (r ≡ new_row value id n now)
  unfolding create
  create_stored r db' h = elim (Option-cases db.task_sequence) [
    | inl missing ↦ ground arith
    | inr (n, drawn) ↦ elim (Bool-cases (clashes n)) [
      | inl clash ↦ ground arith
      | inr fresh ↦ (
        n,
        drawn,
        ground (arith, found n, absent n fresh),
        fresh,
        ground (arith, found n, absent n fresh),
      )
    ]
  ]

  below_next :
      (n : ℕ) (t : List TaskRow)
      → HasSeqBelow (some n) t
      → HasSeqBelow (some (n + 1)) (t ++ new_row value id n now ∷ [])
  below_next n t h =
      All-append (λ r. r.seq < _) t _
        (All-mono (λ r. r.seq < _) (λ r. r.seq < _) (λ r k. omega arith) t h) (omega arith, tt)

  one_id :
      (n : ℕ) (i : String)
      → clashes n ≡ false
      → count_where (has_id i) db.tasks ≤ 1
      → count_where (has_id i) (db.tasks ++ new_row value id n now ∷ []) ≤ 1
  one_id n i fresh h = ground (
    arith,
    count_where-append (has_id i) db.tasks (new_row value id n now ∷ []),
    λ (e : id ≡ i).
        count_where_of_any (has_id i) (λ x. x.id == id || x.seq == n) (λ x q. rw (e, q)) db.tasks
          fresh,
    string_eq.beq_iff id i,
  )

  one_seq :
      (n m : ℕ)
      → clashes n ≡ false
      → count_where (has_seq m) db.tasks ≤ 1
      → count_where (has_seq m) (db.tasks ++ new_row value id n now ∷ []) ≤ 1
  one_seq n m fresh h =
      let grown = count_where-append (has_seq m) db.tasks (new_row value id n now ∷ []) in
      elim (Bool-cases (n == m)) [
        | inl e ↦
            let none_yet =
              count_where_of_any (has_seq m) (λ x. x.id == id || x.seq == n) (λ x q. ground arith)
                db.tasks fresh in
            rw grown (rw (none_yet, e) (omega arith))
        | inr e ↦ rw grown (rw e (omega arith))
      ]

  grown_IsWellFormed :
      (n : ℕ)
      → db.task_sequence ≡ some n
      → clashes n ≡ false
      → IsWellFormed db
      → IsWellFormed (record db {
        task_sequence = some (n + 1);
        tasks = db.tasks ++ new_row value id n now ∷ [];
      })
  grown_IsWellFormed n drawn fresh wf = record {
    ids = λ i. one_id n i fresh (wf.ids i);
    seqs = λ m. one_seq n m fresh (wf.seqs m);
    below = below_next n db.tasks (subst (λ s. HasSeqBelow s db.tasks) drawn wf.below);
  }

  -- A creation that succeeds keeps the constraints of the table, draws the next number, and stores a
  -- queued task under its id, which no task had.
  pub create-IsWellFormed :
      (r : TaskRow) (db' : Database)
      → IsWellFormed db
      → create value id now db ≡ (ok r, db')
      → IsWellFormed db'
        × (db.task_sequence ≡ some r.seq)
        × (db'.task_sequence ≡ some (r.seq + 1))
        × (get id db ≡ none)
        × (get id db' ≡ some r)
        × (r.status ≡ queued)
  unfolding get
  create-IsWellFormed r db' wf h =
      let (n, drawn, after, fresh, row) = create_stored r db' h in
      (
        subst IsWellFormed (sym after) (grown_IsWellFormed n drawn fresh wf),
        ground arith,
        ground arith,
        absent n fresh,
        ground (arith, found n, absent n fresh),
        ground arith,
      )
