-- ===== src/Repo/Table.antt =====
-- A table as the list of its rows, with a primary key that is a text.
use mathlib.Core.Option
use spotted_network.Base.{
  ℕ, String, ◌≡◌, refl, Bool, Option, none, some, List, [], ◌∷◌, ◌++◌, arith, str_eq, eq_iff, leb,
  if◌then◌else◌,
}

module _ {R : Type 0} (key : R → String) where
  -- `SELECT … WHERE key = $1`
  unfoldable pub find : String → List R → Option R
  find k [] = none
  find k (r ∷ rows) = if str_eq (key r) k then some r else find k rows

  -- `UPDATE … WHERE key = $1`
  unfoldable pub update : String → (R → R) → List R → List R
  update k f [] = []
  update k f (r ∷ rows) = (if str_eq (key r) k then f r else r) ∷ update k f rows

  -- `DELETE … WHERE key = $1`
  unfoldable pub delete : String → List R → List R
  delete k [] = []
  delete k (r ∷ rows) = let rest = delete k rows in if str_eq (key r) k then rest else r ∷ rest

  -- An update that keeps the key changes what is found under it, and nothing else.
  pub find-update :
      (k j : String) (f : R → R) (rows : List R)
      → ((r : R) → key (f r) ≡ key r)
      → find j (update k f rows) ≡ (if str_eq k j then Option.map f (find j rows) else find j rows)
  unfolding find update
  find-update k j f [] h = ground arith
  find-update k j f (r ∷ rows) h = ground (
    arith,
    find-update k j f rows h,
    h r,
    eq_iff (key r) k,
    eq_iff (key r) j,
    eq_iff (key (f r)) j,
    eq_iff k j,
  )

  pub find-delete :
      (k j : String) (rows : List R)
      → find j (delete k rows) ≡ (if str_eq k j then none else find j rows)
  unfolding find delete
  find-delete k j [] = ground arith
  find-delete k j (r ∷ rows) =
      ground (arith, find-delete k j rows, eq_iff (key r) k, eq_iff (key r) j, eq_iff k j)

  pub find-insert :
      (j : String) (new : R) (rows : List R)
      → find (key new) rows ≡ none
      → find j (rows ++ new ∷ []) ≡ (if str_eq (key new) j then some new else find j rows)
  unfolding find
  find-insert j new [] h = refl
  find-insert j new (r ∷ rows) h = ground (
    arith,
    find-insert j new rows,
    eq_iff (key r) j,
    eq_iff (key r) (key new),
    eq_iff (key new) j,
  )

  -- What is found has the key that was asked for.
  pub key-find : (k : String) (rows : List R) {r : R} → find k rows ≡ some r → key r ≡ k
  unfolding find
  key-find k [] h = cc
  key-find k (r ∷ rows) {r = r'} h = ground (arith, key-find k rows {r = r'}, eq_iff (key r) k)

  -- Every row that the test accepts, in the table's order.
  unfoldable pub select : (R → Bool) → List R → List R
  select p [] = []
  select p (r ∷ rows) = let rest = select p rows in if p r then r ∷ rest else rest

-- `ORDER BY` a number, ascending; rows that compare equal keep their order.
module _ {R : Type 0} (field : R → ℕ) where
  insert_by : R → List R → List R
  insert_by x [] = x ∷ []
  insert_by x (y ∷ l) = if leb (field x) (field y) then x ∷ y ∷ l else y ∷ insert_by x l

  unfoldable pub order_by : List R → List R
  unfolding insert_by
  order_by [] = []
  order_by (x ∷ l) = insert_by x (order_by l)
