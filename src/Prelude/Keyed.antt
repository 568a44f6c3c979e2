-- ===== src/Prelude/Keyed.antt =====
-- Rows with a key that no two of them share: looking up, counting and selecting.
use Prim.Native.Nat.{ℕ, zero, suc, ◌+◌, ◌≤◌}
use mathlib.Core.Path.{◌≡◌, refl, sym}
use mathlib.Core.Logic.{inl, inr}
use mathlib.Core.Bool.{Bool, true, false, ◌&&◌, ◌||◌}
use mathlib.Core.Option.{none, some}
use mathlib.Core.List.{List, [], ◌∷◌}
use native.Mathlib.Omega.{arith}
use chronos_job_scheduler.Prelude.Tests.{if◌then◌else◌, ◌==◌, Bool-cases, ==→eq, ==_self}
use chronos_job_scheduler.Prelude.Lists.{length, take, drop, All, includes, Distinct}
use chronos_job_scheduler.Prelude.Sorting.{insert_row, order_by}
use chronos_job_scheduler.Prelude.Tables.{
  or_false, select, count_where, find_unique, keys, update_where,
}

module _ {ℓ} {A : Type ℓ} where
  pub All-map {κ μ} :
      (P : A → Type κ) (Q : A → Type μ) (xs : List A) → ((x : A) → P x → Q x) → All P xs → All Q xs
  All-map P Q [] h a = tt
  All-map P Q (x ∷ xs) h a = (h x a.0, All-map P Q xs h a.1)

  pub All-both {κ μ} :
      (P : A → Type κ) (Q : A → Type μ) (xs : List A)
      → All P xs
      → All Q xs
      → All (λ x. P x × Q x) xs
  All-both P Q [] a b = tt
  All-both P Q (x ∷ xs) a b = ((a.0, b.0), All-both P Q xs a.1 b.1)

  pub All-select {κ} :
      (P : A → Type κ) (p : A → Bool) (xs : List A)
      → All P xs
      → All (λ x. P x × (p x ≡ true)) (select p xs)
  All-select P p [] a = tt
  All-select P p (x ∷ xs) a = elim (Bool-cases (p x)) [
    | inl e ↦ rw e ((a.0, e), All-select P p xs a.1)
    | inr e ↦ rw e (All-select P p xs a.1)
  ]

  pub count_where-take :
      (p : A → Bool) (n : ℕ) (xs : List A) → count_where p (take n xs) ≤ count_where p xs
  count_where-take p zero xs = omega arith
  count_where-take p (suc n) [] = omega arith
  count_where-take p (suc n) (x ∷ xs) = omega (arith, count_where-take p n xs)

  pub count_where-select :
      (p q : A → Bool) (xs : List A) → count_where q (select p xs) ≤ count_where q xs
  count_where-select p q [] = omega arith
  count_where-select p q (x ∷ xs) = ground (arith, count_where-select p q xs)

  pub count_where-or :
      (p q : A → Bool) (xs : List A)
      → ((x : A) → (p x && q x) ≡ false)
      → count_where (λ x. p x || q x) xs ≡ count_where p xs + count_where q xs
  count_where-or p q [] h = refl
  count_where-or p q (x ∷ xs) h = ground (arith, h x, count_where-or p q xs h)

  pub count_where-none : (xs : List A) → count_where (λ x. false) xs ≡ 0
  count_where-none [] = refl
  count_where-none (x ∷ xs) = omega (arith, count_where-none xs)

  -- Rows that an update moves into a class are counted there once more.
  pub count_where-update :
      (p q : A → Bool) (f : A → A) (xs : List A)
      → All (λ x. p x ≡ true → (q x ≡ false) × (q (f x) ≡ true)) xs
      → count_where q (update_where p f xs) ≡ count_where q xs + count_where p xs
  count_where-update p q f [] h = refl
  count_where-update p q f (x ∷ xs) h = elim (Bool-cases (p x)) [
    | inl e ↦ rw (e, (h.0 e).0, (h.0 e).1) (omega (arith, count_where-update p q f xs h.1))
    | inr e ↦ rw e (omega (arith, count_where-update p q f xs h.1))
  ]

module _ {ℓ} {A : Type ℓ} (key : A → ℕ) where
  pub find_unique-fresh :
      (k : ℕ) (xs : List A) → includes k (keys key xs) ≡ false → find_unique key k xs ≡ none
  find_unique-fresh k [] h = refl
  find_unique-fresh k (x ∷ xs) h = ground (arith, find_unique-fresh k xs)

  pub includes-found :
      (k : ℕ) (xs : List A) {x : A}
      → find_unique key k xs ≡ some x
      → includes k (keys key xs) ≡ true
  includes-found k [] h = cc
  includes-found k (y ∷ xs) {x} h = ground (arith, includes-found k xs {x = x})

  pub includes-select :
      (p : A → Bool) (k : ℕ) (xs : List A) {x : A}
      → find_unique key k xs ≡ some x
      → p x ≡ true
      → includes k (keys key (select p xs)) ≡ true
  includes-select p k [] h px = cc
  includes-select p k (y ∷ xs) {x} h px = ground (arith, includes-select p k xs {x = x})

  includes-insert_row :
      (before : A → A → Bool) (k : ℕ) (x : A) (xs : List A)
      → includes k (keys key (insert_row before x xs)) ≡ (k == key x || includes k (keys key xs))
  includes-insert_row before k x [] = refl
  includes-insert_row before k x (y ∷ xs) = ground (arith, includes-insert_row before k x xs)

  pub includes-order_by :
      (before : A → A → Bool) (k : ℕ) (xs : List A)
      → includes k (keys key (order_by before xs)) ≡ includes k (keys key xs)
  includes-order_by before k [] = refl
  includes-order_by before k (x ∷ xs) =
      ground
        (arith, includes-insert_row before k x (order_by before xs), includes-order_by before k xs)

  pub includes-take-drop :
      (k n : ℕ) (xs : List A)
      → includes k (keys key xs)
        ≡ (includes k (keys key (take n xs)) || includes k (keys key (drop n xs)))
  includes-take-drop k zero xs = refl
  includes-take-drop k (suc n) [] = refl
  includes-take-drop k (suc n) (x ∷ xs) = ground (arith, includes-take-drop k n xs)

  pub find_unique-key : (k : ℕ) (xs : List A) {x : A} → find_unique key k xs ≡ some x → key x ≡ k
  find_unique-key k [] h = cc
  find_unique-key k (y ∷ xs) {x} h = ground (arith, find_unique-key k xs {x = x})

  -- Every row is the one found under its key.
  pub All-find_unique :
      (xs : List A) → Distinct (keys key xs) → All (λ x. find_unique key (key x) xs ≡ some x) xs
  All-find_unique [] d = tt
  All-find_unique (x ∷ xs) d = (
    rw (==_self (key x)),
    All-map _ _ xs
        (λ y e. elim (Bool-cases (key x == key y)) [
          | inl same ↦ ground (arith, find_unique-fresh (key x) xs d.0)
          | inr other ↦ rw other e
        ])
        (All-find_unique xs d.1),
  )

  -- A key that occurs belongs to a row, with whatever holds of all rows.
  pub includes-All {κ} :
      (P : A → Type κ) (k : ℕ) (xs : List A)
      → All P xs
      → includes k (keys key xs) ≡ true
      → (x : A) × (key x ≡ k) × P x
  includes-All P k [] a h = cc
  includes-All P k (x ∷ xs) a h = elim (Bool-cases (k == key x)) [
    | inl e ↦ (x, sym (==→eq k (key x) e), a.0)
    | inr e ↦ includes-All P k xs a.1 (ground arith)
  ]

  pub count_where-key_zero :
      (k : ℕ) (xs : List A)
      → includes k (keys key xs) ≡ false
      → count_where (λ x. key x == k) xs ≡ 0
  count_where-key_zero k [] h = refl
  count_where-key_zero k (x ∷ xs) h = ground (arith, count_where-key_zero k xs)

  pub count_where-key_one :
      (k : ℕ) (xs : List A)
      → Distinct (keys key xs)
      → includes k (keys key xs) ≡ true
      → count_where (λ x. key x == k) xs ≡ 1
  count_where-key_one k [] d h = cc
  count_where-key_one k (x ∷ xs) d h = elim (Bool-cases (k == key x)) [
    | inl e ↦ ground (arith, count_where-key_zero (key x) xs d.0)
    | inr e ↦ ground (arith, count_where-key_one k xs d.1)
  ]

  pub count_where-key_le :
      (k : ℕ) (xs : List A) → Distinct (keys key xs) → count_where (λ x. key x == k) xs ≤ 1
  count_where-key_le k xs d = elim (Bool-cases (includes k (keys key xs))) [
    | inl e ↦ omega (arith, count_where-key_one k xs d e)
    | inr e ↦ omega (arith, count_where-key_zero k xs e)
  ]

  pub count_where-includes_pos :
      (k : ℕ) (xs : List A) → includes k (keys key xs) ≡ true → 1 ≤ count_where (λ x. key x == k) xs
  count_where-includes_pos k [] h = cc
  count_where-includes_pos k (x ∷ xs) h = ground (arith, count_where-includes_pos k xs)

  pub Distinct-of_counts :
      (xs : List A) → ((k : ℕ) → count_where (λ x. key x == k) xs ≤ 1) → Distinct (keys key xs)
  Distinct-of_counts [] h = tt
  Distinct-of_counts (x ∷ xs) h = (
    elim (Bool-cases (includes (key x) (keys key xs))) [
      | inl e ↦ ground (arith, h (key x), count_where-includes_pos (key x) xs e)
      | inr e ↦ e
    ],
    Distinct-of_counts xs (λ k. omega (arith, h k)),
  )

  -- Keys drawn from a table of distinct keys select as many rows as there are keys.
  pub count_where-includes :
      (ks : List ℕ) (xs : List A)
      → Distinct (keys key xs)
      → Distinct ks
      → All (λ k. includes k (keys key xs) ≡ true) ks
      → count_where (λ x. includes (key x) ks) xs ≡ length ks
  count_where-includes [] xs d e a = count_where-none xs
  count_where-includes (k ∷ ks) xs d e a = omega (
    arith,
    count_where-or (λ x. key x == k) (λ x. includes (key x) ks) xs (λ x. ground (arith, e.0)),
    count_where-key_one k xs d a.0,
    count_where-includes ks xs d e.1 a.1,
  )

  -- Among the rows that a condition selects, a key stands once if the row found under it meets the
  -- condition, else not at all.
  pub count_where-key_select :
      (p : A → Bool) (k : ℕ) (xs : List A)
      → Distinct (keys key xs)
      → count_where (λ x. key x == k) (select p xs)
        ≡ (if or_false p (find_unique key k xs) then 1 else 0)
  count_where-key_select p k [] d = refl
  count_where-key_select p k (x ∷ xs) d = elim (Bool-cases (k == key x)) [
    | inl e ↦ ground (
      arith,
      ==→eq k (key x) e,
      find_unique-fresh (key x) xs d.0,
      count_where-key_select p (key x) xs d.1,
    )
    | inr e ↦ ground (arith, count_where-key_select p k xs d.1)
  ]

-- What holds of each number that a list includes holds all along it.
pub All-of_includes {κ} :
    (P : ℕ → Type κ) (ks : List ℕ) → ((k : ℕ) → includes k ks ≡ true → P k) → All P ks
All-of_includes P [] h = tt
All-of_includes P (k ∷ ks) h =
    (h k (rw (==_self k) refl), All-of_includes P ks (λ j e. h j (ground arith)))
