-- ===== src/Table/Unique.antt =====
-- Rows found by a condition that at most one row meets, such as a primary key.
use mathlib.Core.Option
use gram_coding_agent.Base.{
  ◌≤◌, ◌≡◌, refl, Bool, true, false, List, [], ◌∷◌, ◌++◌, none, some, if◌then◌else◌, arith,
  Bool-cases, Option-cases, inl, inr, any,
}
use gram_coding_agent.Table.{
  find_where, update_where, count_where, count_where_mono, count_where-delete, delete_where,
  select_where, update_where_none, latest_where,
}

module _ {A : Type 0} where
  pub find_where-update :
      (q p : A → Bool) (f : A → A)
      → ((r : A) → p r ≡ true → q (f r) ≡ q r)
      → (t : List A)
      → find_where q (update_where p f t)
        ≡ Option.map (λ r. if p r then f r else r) (find_where q t)
  find_where-update q p f h [] = refl
  find_where-update q p f h (r ∷ t) = ground (arith, h r, find_where-update q p f h t)

  -- a condition that implies the key's condition is met by the row of the key, or by none
  pub count_where_key :
      (q p : A → Bool)
      → ((r : A) → p r ≡ true → q r ≡ true)
      → (t : List A) (r : A) → count_where q t ≤ 1
      → find_where q t ≡ some r
      → count_where p t ≡ (if p r then 1 else 0)
  count_where_key q p h [] r one e = ground arith
  count_where_key q p h (x ∷ t) r one e = elim (Bool-cases (q x)) [
    | inl here ↦ ground (arith, count_where_mono p q h t)
    | inr away ↦ ground (arith, h x, count_where_key q p h t r)
  ]

  pub count_where_absent :
      (q p : A → Bool)
      → ((r : A) → p r ≡ true → q r ≡ true)
      → (t : List A) → find_where q t ≡ none
      → count_where p t ≡ 0
  count_where_absent q p h [] e = refl
  count_where_absent q p h (x ∷ t) e = ground (arith, h x, count_where_absent q p h t)

  pub find_where-append :
      (q : A → Bool) (t u : List A)
      → find_where q (t ++ u) ≡ elim (find_where q t) [ none ↦ find_where q u | some r ↦ some r ]
  find_where-append q [] u = refl
  find_where-append q (r ∷ t) u = ground (arith, find_where-append q t u)

  pub find_where_of_count :
      (q : A → Bool) (t : List A) → count_where q t ≡ 0 → find_where q t ≡ none
  find_where_of_count q [] h = refl
  find_where_of_count q (x ∷ t) h = ground (arith, find_where_of_count q t)

  -- a row that the statement leaves alone is found as before
  pub find_where-delete :
      (q p : A → Bool)
      → ((r : A) → q r ≡ true → p r ≡ false)
      → (t : List A) → find_where q (delete_where p t) ≡ find_where q t
  find_where-delete q p h [] = refl
  find_where-delete q p h (r ∷ t) = ground (arith, h r, find_where-delete q p h t)

  pub count_where-any : (q : A → Bool) (t : List A) → any q t ≡ false → count_where q t ≡ 0
  count_where-any q [] h = refl
  count_where-any q (x ∷ t) h = ground (arith, count_where-any q t)

  pub find_where_of_any :
      (q p : A → Bool)
      → ((r : A) → q r ≡ true → p r ≡ true)
      → (t : List A) → any p t ≡ false
      → find_where q t ≡ none
  find_where_of_any q p h [] e = refl
  find_where_of_any q p h (x ∷ t) e = ground (arith, h x, find_where_of_any q p h t)

  pub count_where_of_any :
      (q p : A → Bool)
      → ((r : A) → q r ≡ true → p r ≡ true)
      → (t : List A) → any p t ≡ false
      → count_where q t ≡ 0
  count_where_of_any q p h [] e = refl
  count_where_of_any q p h (x ∷ t) e = ground (arith, h x, count_where_of_any q p h t)

  -- the row of a key, after a deletion that can touch no other row of the key
  pub find_where-delete_key :
      (q p : A → Bool)
      → ((r : A) → p r ≡ true → q r ≡ true)
      → (t : List A) (r : A) → count_where q t ≤ 1
      → find_where q t ≡ some r
      → find_where q (delete_where p t) ≡ (if p r then none else some r)
  find_where-delete_key q p h [] r one e = ground arith
  find_where-delete_key q p h (x ∷ t) r one e = elim (Bool-cases (q x)) [
    | inl here ↦ elim (Bool-cases (p x)) [
      | inl gone ↦
          let later =
            find_where_of_count q (delete_where p t) (ground (arith, count_where-delete p q t)) in
          ground (arith, later)
      | inr kept ↦ ground arith
    ]
    | inr away ↦ ground (arith, h x, find_where-delete_key q p h t r)
  ]

  -- deleting the only row that passes, just inserted, gives the old table back
  pub delete_where-insert :
      (q : A → Bool) (t : List A) (x : A)
      → any q t ≡ false
      → q x ≡ true
      → delete_where q (t ++ x ∷ []) ≡ t
  delete_where-insert q [] x h e = rw e
  delete_where-insert q (y ∷ t) x h e = ground (arith, delete_where-insert q t x)

  pub any-delete_where : (q : A → Bool) (t : List A) → any q (delete_where q t) ≡ false
  any-delete_where q [] = refl
  any-delete_where q (y ∷ t) = ground (arith, any-delete_where q t)

  pub any_of_find : (q : A → Bool) (t : List A) (r : A) → find_where q t ≡ some r → any q t ≡ true
  any_of_find q [] r h = ground arith
  any_of_find q (x ∷ t) r h = ground (arith, any_of_find q t r)

  pub count_where_found :
      (q p : A → Bool) (t : List A) (x : A)
      → find_where p t ≡ some x
      → q x ≡ true
      → 1 ≤ count_where q t
  count_where_found q p [] x e h = ground arith
  count_where_found q p (y ∷ t) x e h = elim (Bool-cases (p y)) [
    | inl here ↦ ground arith
    | inr away ↦ ground (arith, count_where_found q p t x)
  ]

  -- the row that one key finds is the one that another key finds, if it meets both
  pub find_where_unique :
      (q p : A → Bool) (t : List A) (x : A)
      → count_where q t ≤ 1
      → find_where p t ≡ some x
      → q x ≡ true
      → find_where q t ≡ some x
  find_where_unique q p [] x one e h = ground arith
  find_where_unique q p (y ∷ t) x one e h = elim (Bool-cases (p y)) [
    | inl here ↦ ground arith
    | inr away ↦ ground (arith, count_where_found q p t x, find_where_unique q p t x)
  ]

  pub count_where_latest :
      (q p : A → Bool) (t : List A) (x : A)
      → latest_where p t ≡ some x
      → q x ≡ true
      → 1 ≤ count_where q t
  count_where_latest q p [] x e h = ground arith
  count_where_latest q p (y ∷ t) x e h = elim (Option-cases (latest_where p t)) [
    | inl free ↦ ground arith
    | inr (z, found) ↦ ground (arith, count_where_latest q p t x)
  ]

  pub latest_where_unique :
      (q p : A → Bool) (t : List A) (x : A)
      → count_where q t ≤ 1
      → latest_where p t ≡ some x
      → q x ≡ true
      → find_where q t ≡ some x
  latest_where_unique q p [] x one e h = ground arith
  latest_where_unique q p (y ∷ t) x one e h = elim (Option-cases (latest_where p t)) [
    | inl free ↦ ground arith
    | inr (z, found) ↦ ground (arith, count_where_latest q p t x, latest_where_unique q p t x)
  ]

  -- a row that a selection finds does not meet a condition that no row meets
  pub count_where_zero :
      (q p : A → Bool) (t : List A) (x : A)
      → count_where q t ≡ 0
      → latest_where p t ≡ some x
      → q x ≡ false
  count_where_zero q p t x zero_rows found = elim (Bool-cases (q x)) [
    | inl e ↦ ground (arith, count_where_latest q p t x found e)
    | inr e ↦ e
  ]

  -- an update of the one row of a key leaves a selection without that row alone
  pub select_where-update :
      (q p key : A → Bool) (f : A → A)
      → ((r : A) → p r ≡ true → key r ≡ true)
      → ((r : A) → q (f r) ≡ q r)
      → (t : List A) (r : A) → count_where key t ≤ 1
      → find_where key t ≡ some r
      → q r ≡ false
      → select_where q (update_where p f t) ≡ select_where q t
  select_where-update q p key f h k [] r one e away = refl
  select_where-update q p key f h k (x ∷ t) r one e away = elim (Bool-cases (key x)) [
    | inl here ↦
        let none_left : count_where p t ≡ 0 = ground (arith, count_where_mono p key h t) in
        ground (arith, k x, update_where_none p f t none_left)
    | inr there ↦ ground (arith, h x, select_where-update q p key f h k t r)
  ]

  pub latest_where-update :
      (q p : A → Bool) (f : A → A)
      → ((r : A) → p r ≡ true → q (f r) ≡ q r)
      → (t : List A)
      → latest_where q (update_where p f t)
        ≡ Option.map (λ r. if p r then f r else r) (latest_where q t)
  latest_where-update q p f h [] = refl
  latest_where-update q p f h (r ∷ t) = ground (arith, h r, latest_where-update q p f h t)
