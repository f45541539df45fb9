-- ===== src/Daemon/Store/Query.antt =====
-- crates/daemon/src/db.rs: the forms of SQL statement that the store uses, over a table as the
-- list of its rows.
use agent_workspace.Prelude.{
  ◌≡◌, refl, Bool, false, ◌&&◌, ◌||◌, Option, none, some, List, [], ◌∷◌, arith, if◌then◌else◌,
  map_option,
}

module _ {ℓ} {A : Type ℓ} where
  -- `SELECT ... WHERE`
  abbrev pub select : (A → Bool) → List A → List A
  select p [] = []
  select p (x ∷ xs) = if p x then x ∷ select p xs else select p xs

  -- `EXISTS (SELECT 1 ... WHERE)`
  abbrev pub exists : (A → Bool) → List A → Bool
  exists p [] = false
  exists p (x ∷ xs) = p x || exists p xs

  -- The first row, for a key that is unique.
  abbrev pub first : (A → Bool) → List A → Option A
  first p [] = none
  first p (x ∷ xs) = let rest = first p xs in if p x then some x else rest

  -- `UPDATE ... SET ... WHERE`
  abbrev pub update : (A → Bool) → (A → A) → List A → List A
  update p f [] = []
  update p f (x ∷ xs) = (if p x then f x else x) ∷ update p f xs

  abbrev insert_ordered : (A → A → Bool) → A → List A → List A
  insert_ordered before x [] = x ∷ []
  insert_ordered before x (y ∷ ys) =
      let rest = insert_ordered before x ys in if before y x then y ∷ rest else x ∷ y ∷ ys

  -- `ORDER BY`, rows of one rank in the order of the table.
  abbrev pub order_by : (A → A → Bool) → List A → List A
  order_by before [] = []
  order_by before (x ∷ xs) = insert_ordered before x (order_by before xs)

  -- `ORDER BY ... LIMIT 1`
  abbrev pub top : (A → A → Bool) → List A → Option A
  top before xs = elim (order_by before xs) [ [] ↦ none | x ∷ ys ↦ some x ]

  pub first-update :
      (p : A → Bool) (f : A → A) (xs : List A)
      → ((x : A) → p (f x) ≡ p x)
      → first p (update p f xs) ≡ map_option f (first p xs)
  first-update p f [] same = refl
  first-update p f (x ∷ xs) same = ground (arith, same x, first-update p f xs same)

  exists-insert_ordered :
      (p : A → Bool) (before : A → A → Bool) (x : A) (xs : List A)
      → exists p (insert_ordered before x xs) ≡ (p x || exists p xs)
  exists-insert_ordered p before x [] = refl
  exists-insert_ordered p before x (y ∷ ys) = ground (arith, exists-insert_ordered p before x ys)

  pub exists-order_by :
      (p : A → Bool) (before : A → A → Bool) (xs : List A)
      → exists p (order_by before xs) ≡ exists p xs
  exists-order_by p before [] = refl
  exists-order_by p before (x ∷ xs) =
      ground
        (arith, exists-order_by p before xs, exists-insert_ordered p before x (order_by before xs))

  pub exists-select :
      (p q : A → Bool) (xs : List A) → exists p (select q xs) ≡ exists (λ x. q x && p x) xs
  exists-select p q [] = refl
  exists-select p q (x ∷ xs) = ground (arith, exists-select p q xs)

  -- Rows of another key are not touched.
  pub first-update_other :
      (p q : A → Bool) (f : A → A) (xs : List A)
      → ((x : A) → p (f x) ≡ p x)
      → ((x : A) → (p x && q x) ≡ false)
      → first p (update q f xs) ≡ first p xs
  first-update_other p q f [] same apart = refl
  first-update_other p q f (x ∷ xs) same apart =
      ground (arith, same x, apart x, first-update_other p q f xs same apart)
