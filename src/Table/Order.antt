-- ===== src/Table/Order.antt =====
-- ORDER BY: the rows of a selection, sorted by a Boolean order.
use mathlib.Core.List.Memᴰ.{head, tail}
use mathlib.Core.List.{Memᴰ}
use gram_coding_agent.Base.{
  ap, sym, subst, ◌⊎◌, length, ℕ, zero, suc, ◌≡◌, refl, Bool, true, false, List, [], ◌∷◌, ◌++◌,
  if◌then◌else◌, Bool-cases, inl, inr, All, All-append, All-mono, take, All-take,
}

module _ {A : Type 0} (le : A → A → Bool) where
  abbrev pub insert_row : A → List A → List A
  insert_row x [] = x ∷ []
  insert_row x (y ∷ t) = if le x y then x ∷ y ∷ t else y ∷ insert_row x t

  abbrev pub order_by : List A → List A
  order_by [] = []
  order_by (x ∷ t) = insert_row x (order_by t)

  abbrev pub IsOrdered : List A → Type 0
  IsOrdered [] = Unit
  IsOrdered (x ∷ t) = All (λ y. le x y ≡ true) t × IsOrdered t

  pub All-insert_row :
      (P : A → Type 0) (x : A) (t : List A) → P x → All P t → All P (insert_row x t)
  All-insert_row P x [] p h = (p, tt)
  All-insert_row P x (y ∷ t) p (q, h) = elim (Bool-cases (le x y)) [
    | inl e ↦ rw e (p, (q, h))
    | inr e ↦ rw e (q, All-insert_row P x t p h)
  ]

  pub All-order_by : (P : A → Type 0) (t : List A) → All P t → All P (order_by t)
  All-order_by P [] h = tt
  All-order_by P (x ∷ t) (p, h) = All-insert_row P x (order_by t) p (All-order_by P t h)

  -- rows that stand in order already are left as they are
  pub order_by_ordered : (t : List A) → IsOrdered t → order_by t ≡ t
  order_by_ordered [] h = refl
  order_by_ordered (x ∷ []) h = refl
  order_by_ordered (x ∷ y ∷ t) ((e, _), h) = rw (order_by_ordered (y ∷ t) h) (rw e)

  pub IsOrdered-append :
      (t u : List A)
      → IsOrdered t
      → IsOrdered u
      → All (λ x. All (λ y. le x y ≡ true) u) t
      → IsOrdered (t ++ u)
  IsOrdered-append [] u h k c = k
  IsOrdered-append (x ∷ t) u (p, h) k (q, c) =
      (All-append (λ y. le x y ≡ true) t u p q, IsOrdered-append t u h k c)

  pub IsOrdered-take : (n : ℕ) (t : List A) → IsOrdered t → IsOrdered (take n t)
  IsOrdered-take n t h = go n t h
    where
      go : (n : ℕ) (t : List A) → IsOrdered t → IsOrdered (take n t)
      go zero t h = tt
      go (suc n) [] h = tt
      go (suc n) (x ∷ t) (p, h) = (All-take (λ y. le x y ≡ true) n t p, go n t h)

  module _ (total : (a b : A) → le a b ≡ false → le b a ≡ true)
      (trans : (a b c : A) → le a b ≡ true → le b c ≡ true → le a c ≡ true) where
    insert_row-IsOrdered : (x : A) (t : List A) → IsOrdered t → IsOrdered (insert_row x t)
    insert_row-IsOrdered x [] h = (tt, tt)
    insert_row-IsOrdered x (y ∷ t) (p, h) = elim (Bool-cases (le x y)) [
      | inl e ↦ rw e (
        (e, All-mono (λ z. le y z ≡ true) (λ z. le x z ≡ true) (λ z q. trans x y z e q) t p),
        (p, h),
      )
      | inr e ↦
          rw e (All-insert_row (λ z. le y z ≡ true) x t (total x y e) p, insert_row-IsOrdered x t h)
    ]

    pub order_by-IsOrdered : (t : List A) → IsOrdered (order_by t)
    order_by-IsOrdered [] = tt
    order_by-IsOrdered (x ∷ t) = insert_row-IsOrdered x (order_by t) (order_by-IsOrdered t)

module _ {A : Type 0} (le : A → A → Bool) where
  insert_row-new : (x y : A) (t : List A) → x ≡ y → Memᴰ x (insert_row le y t)
  insert_row-new x y [] e = head e
  insert_row-new x y (z ∷ t) e = elim (Bool-cases (le y z)) [
    | inl k ↦ rw k (head e)
    | inr k ↦ rw k (tail (insert_row-new x y t e))
  ]

  insert_row-old : (x y : A) (t : List A) → Memᴰ x t → Memᴰ x (insert_row le y t)
  insert_row-old x y [] m = elim m [ ]
  insert_row-old x y (z ∷ t) (head e) = elim (Bool-cases (le y z)) [
    | inl k ↦ rw k (tail (head e))
    | inr k ↦ rw k (head e)
  ]
  insert_row-old x y (z ∷ t) (tail m) = elim (Bool-cases (le y z)) [
    | inl k ↦ rw k (tail (tail m))
    | inr k ↦ rw k (tail (insert_row-old x y t m))
  ]

  -- sorting keeps every row
  pub Memᴰ-order_by : (x : A) (t : List A) → Memᴰ x t → Memᴰ x (order_by le t)
  Memᴰ-order_by x [] m = elim m [ ]
  Memᴰ-order_by x (y ∷ t) (head e) = insert_row-new x y (order_by le t) e
  Memᴰ-order_by x (y ∷ t) (tail m) = insert_row-old x y (order_by le t) (Memᴰ-order_by x t m)

  -- A row of an ordered list is among the first n, or these are n rows that all stand before it.
  pub Memᴰ-take :
      (n : ℕ) (x : A) (t : List A)
      → IsOrdered le t
      → Memᴰ x t
      → Memᴰ x (take n t) ⊎ ((length (take n t) ≡ n) × All (λ y. le y x ≡ true) (take n t))
  Memᴰ-take n x t h m = go n t h m
    where
      at_head : (y : A) (t : List A) → All (λ z. le y z ≡ true) t → Memᴰ x t → le y x ≡ true
      at_head y [] h m = elim m [ ]
      at_head y (z ∷ t) (p, h) (head e) = subst (λ a. le y a ≡ true) (sym e) p
      at_head y (z ∷ t) (p, h) (tail m) = at_head y t h m

      go :
          (n : ℕ) (t : List A)
          → IsOrdered le t
          → Memᴰ x t
          → Memᴰ x (take n t) ⊎ ((length (take n t) ≡ n) × All (λ y. le y x ≡ true) (take n t))
      go zero t h m = inr (refl, tt)
      go (suc n) [] h m = elim m [ ]
      go (suc n) (y ∷ t) h (head e) = inl (head e)
      go (suc n) (y ∷ t) (p, h) (tail m) = elim (go n t h m) [
        | inl early ↦ inl (tail early)
        | inr (full, before) ↦ inr (ap suc full, (at_head y t p m, before))
      ]
