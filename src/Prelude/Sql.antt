-- ===== src/Prelude/Sql.antt =====
-- The statements of SQL that the repositories send, over a table that is a list of its rows in
-- the order in which a scan meets them.
pub mod Order
pub mod Pairs
use Prim.Native.Nat.{ℕ, suc, ◌≤◌, ◌+◌}
use mathlib.Core.Path.{◌≡◌, refl, ap}
use mathlib.Core.Bool.{Bool, true, false, ◌&&◌}
use mathlib.Core.Logic.{◌⊎◌, inl, inr}
use mathlib.Core.List.{List, [], ◌∷◌, ◌++◌, map}
use mathlib.Core.Option.{Option, none, some}
use native.Mathlib.Omega.{arith}
use enterprise_work_order_ai.Prelude.Tests.{if◌then◌else◌, Bool-cases}
use enterprise_work_order_ai.Prelude.Lists.{keep_if, All, any, length}

module _ {ℓ} {R : Type ℓ} where
  -- `UPDATE … SET f WHERE p`
  unfoldable pub update_where : (R → Bool) → (R → R) → List R → List R
  update_where p f [] = []
  update_where p f (r ∷ rows) = (if p r then f r else r) ∷ update_where p f rows

  -- The `RETURNING` of the same statement: the changed rows.
  unfoldable pub returning : (R → Bool) → (R → R) → List R → List R
  returning p f rows = map f (keep_if p rows)

  -- The first row of a `SELECT … WHERE p`.
  unfoldable pub first_where : (R → Bool) → List R → Option R
  first_where p [] = none
  first_where p (r ∷ rows) = let rest = first_where p rows in if p r then some r else rest

  -- `ORDER BY` by insertion, where `before a b` is the order that the columns give.
  unfoldable pub insert_by : (R → R → Bool) → R → List R → List R
  insert_by before r [] = r ∷ []
  insert_by before r (q ∷ rows) =
      let rest = insert_by before r rows in if before q r then q ∷ rest else r ∷ q ∷ rows

  unfoldable pub order_by : (R → R → Bool) → List R → List R
  unfolding insert_by
  order_by before [] = []
  order_by before (r ∷ rows) = insert_by before r (order_by before rows)

module _ {ℓ} {R : Type ℓ} (p : R → Bool) (f : R → R) where
  pub length-update_where : (rows : List R) → length (update_where p f rows) ≡ length rows
  unfolding update_where
  length-update_where [] = refl
  length-update_where (r ∷ rows) = ap suc (length-update_where rows)

  -- What holds of each row, and of each row that the statement changes, holds after it.
  pub All-update_where {κ} :
      (P : R → Type κ)
      → ((r : R) → P r → p r ≡ true → P (f r))
      → (rows : List R) → All P rows
      → All P (update_where p f rows)
  unfolding update_where
  All-update_where P keeps [] h = tt
  All-update_where P keeps (r ∷ rows) h = (
    elim (Bool-cases (p r)) [ inl e ↦ rw e (keeps r h.0 e) | inr e ↦ rw e h.0 ],
    All-update_where P keeps rows h.1,
  )

  -- Rows that a filter shows and that the statement neither takes nor makes are left as they were.
  pub keep_if-update_where :
      (q : R → Bool)
      → ((r : R) → p r ≡ true → (q r ≡ false) × (q (f r) ≡ false))
      → (rows : List R) → keep_if q (update_where p f rows) ≡ keep_if q rows
  unfolding update_where
  keep_if-update_where q apart [] = refl
  keep_if-update_where q apart (r ∷ rows) =
      ground (arith, apart r, keep_if-update_where q apart rows)
