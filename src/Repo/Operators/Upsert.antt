-- ===== src/Repo/Operators/Upsert.antt =====
-- What is found in the table of operators after a write.
use spotted_network.Base.{
  ℕ, String, ◌≡◌, refl, Option, none, some, inl, inr, arith, str_eq, eq_iff, Option-cases,
  if◌then◌else◌,
}
use spotted_network.Repo.Table.{find-update, find-insert}
use spotted_network.Repo.Operators.{
  Operator, Operators, UpsertOperatorParams, operator_key, get_operator_by_address, new_operator,
  overwritten, upsert_operator,
}

abbrev pub upserted : UpsertOperatorParams → ℕ → Option Operator → Operator
upserted p now none = new_operator p now
upserted p now (some o) = overwritten p now o

-- After an upsert, the row of the address has every value of the request and, if it was there, its
-- old creation time. That row is what the query returns, and every other address has the row it had.
pub upsert_operator_lem :
    (p : UpsertOperatorParams) (now : ℕ) (rows : Operators)
    → ((upsert_operator p now rows).0
        ≡ some (upserted p now (get_operator_by_address p.address rows)))
      × ((address : String)
          → get_operator_by_address address (upsert_operator p now rows).1 ≡ (
              if str_eq p.address address
              then some (upserted p now (get_operator_by_address p.address rows))
              else get_operator_by_address address rows))
unfolding upsert_operator
upsert_operator_lem p now rows = elim (Option-cases (get_operator_by_address p.address rows)) [
  | inl new ↦
      let all =
        λ (address : String). find-insert operator_key address (new_operator p now) rows new in
      (ground (arith, all p.address, eq_iff p.address p.address), λ a. ground (arith, all a))
  | inr (o, there) ↦
      let all = λ (address : String).
        find-update operator_key p.address address (overwritten p now) rows (λ r. refl) in
      (
        ground (arith, all p.address, eq_iff p.address p.address),
        λ a. ground (arith, all a, eq_iff p.address a),
      )
]
