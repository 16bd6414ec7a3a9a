-- ===== src/Table.antt =====
-- A table of the database as the list of its rows, oldest first, and the statements that the
-- repositories run on it.
pub mod Unique
pub mod Order
use gram_coding_agent.Base.{
  ℕ, suc, ◌+◌, ◌≤◌, ◌≡◌, refl, Bool, true, List, [], ◌∷◌, ◌++◌, Option, none, some, if◌then◌else◌,
  arith, All, Bool-cases, inl, inr,
}

module _ {A : Type 0} where
  -- SELECT * … WHERE p
  abbrev pub select_where : (A → Bool) → List A → List A
  select_where p [] = []
  select_where p (r ∷ t) = let rest = select_where p t in if p r then r ∷ rest else rest

  -- SELECT … WHERE p, the first row
  abbrev pub find_where : (A → Bool) → List A → Option A
  find_where p [] = none
  find_where p (r ∷ t) = if p r then some r else find_where p t

  -- SELECT … WHERE p ORDER BY id DESC LIMIT 1, ids being given in order of insertion
  abbrev pub latest_where : (A → Bool) → List A → Option A
  latest_where p [] = none
  latest_where p (r ∷ t) = elim (latest_where p t) [
    | some r' ↦ some r'
    | none ↦ if p r then some r else none
  ]

  -- UPDATE … SET f WHERE p
  abbrev pub update_where : (A → Bool) → (A → A) → List A → List A
  update_where p f [] = []
  update_where p f (r ∷ t) = (if p r then f r else r) ∷ update_where p f t

  -- DELETE … WHERE p
  abbrev pub delete_where : (A → Bool) → List A → List A
  delete_where p [] = []
  delete_where p (r ∷ t) = let rest = delete_where p t in if p r then rest else r ∷ rest

  -- the number of rows that a statement with the condition p touches (`changes`)
  abbrev pub count_where : (A → Bool) → List A → ℕ
  count_where p [] = 0
  count_where p (r ∷ t) = let rest = count_where p t in if p r then suc rest else rest

  pub count_where-append :
      (p : A → Bool) (t u : List A) → count_where p (t ++ u) ≡ count_where p t + count_where p u
  count_where-append p [] u = omega arith
  count_where-append p (r ∷ t) u = ground (arith, count_where-append p t u)

  -- if the update leaves each row's verdict under q alone, it leaves the count alone
  pub count_where-update :
      (q p : A → Bool) (f : A → A)
      → ((r : A) → p r ≡ true → q (f r) ≡ q r)
      → (t : List A) → count_where q (update_where p f t) ≡ count_where q t
  count_where-update q p f h [] = refl
  count_where-update q p f h (r ∷ t) = ground (arith, h r, count_where-update q p f h t)

  -- if the update lets no row pass q that did not, the count does not grow
  pub count_where-update_le :
      (q p : A → Bool) (f : A → A)
      → ((r : A) → p r ≡ true → q (f r) ≡ true → q r ≡ true)
      → (t : List A) → count_where q (update_where p f t) ≤ count_where q t
  count_where-update_le q p f h [] = omega arith
  count_where-update_le q p f h (r ∷ t) = ground (arith, h r, count_where-update_le q p f h t)

  pub count_where_mono :
      (p q : A → Bool)
      → ((r : A) → p r ≡ true → q r ≡ true)
      → (t : List A) → count_where p t ≤ count_where q t
  count_where_mono p q h [] = omega arith
  count_where_mono p q h (r ∷ t) = ground (arith, h r, count_where_mono p q h t)

  pub count_where-delete :
      (p q : A → Bool) (t : List A) → count_where q (delete_where p t) ≤ count_where q t
  count_where-delete p q [] = omega arith
  count_where-delete p q (r ∷ t) = ground (arith, count_where-delete p q t)

  -- a statement that touches no row changes nothing
  pub update_where_none :
      (p : A → Bool) (f : A → A) (t : List A) → count_where p t ≡ 0 → update_where p f t ≡ t
  update_where_none p f [] h = refl
  update_where_none p f (r ∷ t) h = ground (arith, update_where_none p f t)

  pub find_where-none : (p : A → Bool) (t : List A) → find_where p t ≡ none → count_where p t ≡ 0
  find_where-none p [] h = refl
  find_where-none p (r ∷ t) h = ground (arith, find_where-none p t)

  pub latest_where-none :
      (p : A → Bool) (t : List A) → latest_where p t ≡ none → count_where p t ≡ 0
  latest_where-none p [] h = refl
  latest_where-none p (r ∷ t) h = ground (arith, latest_where-none p t)

  pub find_where-some : (p : A → Bool) (t : List A) (r : A) → find_where p t ≡ some r → p r ≡ true
  find_where-some p [] r h = ground arith
  find_where-some p (x ∷ t) r h = ground (arith, find_where-some p t r)

  pub latest_where-some :
      (p : A → Bool) (t : List A) (r : A) → latest_where p t ≡ some r → p r ≡ true
  latest_where-some p [] r h = ground arith
  latest_where-some p (x ∷ t) r h = ground (arith, latest_where-some p t r)

  pub All-update_where {κ} :
      (P : A → Type κ) (p : A → Bool) (f : A → A)
      → ((r : A) → P r → p r ≡ true → P (f r))
      → (t : List A) → All P t
      → All P (update_where p f t)
  All-update_where P p f keep [] h = tt
  All-update_where P p f keep (r ∷ t) (here, h) = elim (Bool-cases (p r)) [
    | inl e ↦ rw e (keep r here e, All-update_where P p f keep t h)
    | inr e ↦ rw e (here, All-update_where P p f keep t h)
  ]

  pub select_where-append :
      (p : A → Bool) (t u : List A) → select_where p (t ++ u) ≡ select_where p t ++ select_where p u
  select_where-append p [] u = refl
  select_where-append p (r ∷ t) u = ground (arith, select_where-append p t u)

  pub All-select_where {κ} :
      (P : A → Type κ) (p : A → Bool) (t : List A) → All P t → All P (select_where p t)
  All-select_where P p [] h = tt
  All-select_where P p (r ∷ t) (here, h) = elim (Bool-cases (p r)) [
    | inl e ↦ rw e (here, All-select_where P p t h)
    | inr e ↦ rw e (All-select_where P p t h)
  ]

  pub delete_where_none : (p : A → Bool) (t : List A) → count_where p t ≡ 0 → delete_where p t ≡ t
  delete_where_none p [] h = refl
  delete_where_none p (r ∷ t) h = ground (arith, delete_where_none p t)
