-- ===== src/Prelude/Sql/Order.antt =====
-- `ORDER BY … LIMIT`: the rows that are taken are those that come first.
use enterprise_work_order_ai.Prelude.{
  ℕ, zero, suc, ◌≡◌, refl, ap, ◌⊎◌, inl, inr, Bool, true, false, List, [], ◌∷◌, All, All-weaken,
  take, length, if◌then◌else◌, Bool-cases,
}
use enterprise_work_order_ai.Prelude.Sql.{insert_by, order_by}

module _ {ℓ} {R : Type ℓ} (before : R → R → Bool) where
  abbrev pub AllBefore : R → List R → Type 0
  AllBefore r = All (λ q. before r q ≡ true)

  abbrev pub IsSorted : List R → Type 0
  IsSorted [] = Unit
  IsSorted (r ∷ rows) = AllBefore r rows × IsSorted rows

  module _ {κ} (P : R → Type κ) where
    All-insert_by : (r : R) (rows : List R) → P r → All P rows → All P (insert_by before r rows)
    unfolding insert_by
    All-insert_by r [] p h = (p, tt)
    All-insert_by r (q ∷ rows) p h = elim (Bool-cases (before q r)) [
      | inl e ↦ rw e (h.0, All-insert_by r rows p h.1)
      | inr e ↦ rw e (p, h)
    ]

    All-of_insert_by : (r : R) (rows : List R) → All P (insert_by before r rows) → P r × All P rows
    unfolding insert_by
    All-of_insert_by r [] h = h
    All-of_insert_by r (q ∷ rows) h = split (before q r) (All-of_insert_by r rows) h
      where
        split :
            (b : Bool)
            → (All P (insert_by before r rows) → P r × All P rows)
            → All P (if b then q ∷ insert_by before r rows else r ∷ q ∷ rows)
            → P r × All P (q ∷ rows)
        split true ih k = let (p, rest) = ih k.1 in (p, (k.0, rest))
        split false ih k = (k.0, k.1)

    pub All-order_by : (rows : List R) → All P rows → All P (order_by before rows)
    unfolding order_by
    All-order_by [] h = tt
    All-order_by (r ∷ rows) h = All-insert_by r (order_by before rows) h.0 (All-order_by rows h.1)

    pub All-of_order_by : (rows : List R) → All P (order_by before rows) → All P rows
    unfolding order_by
    All-of_order_by [] h = tt
    All-of_order_by (r ∷ rows) h =
        let (p, rest) = All-of_insert_by r (order_by before rows) h in
        (p, All-of_order_by rows rest)

  module _ (total : (a b : R) → before a b ≡ false → before b a ≡ true)
      (trans : (a b c : R) → before a b ≡ true → before b c ≡ true → before a c ≡ true) where
    insert_by-IsSorted :
        (r : R) (rows : List R) → IsSorted rows → IsSorted (insert_by before r rows)
    unfolding insert_by
    insert_by-IsSorted r [] s = (tt, tt)
    insert_by-IsSorted r (q ∷ rows) s = elim (Bool-cases (before q r)) [
      | inl e ↦
          rw e (All-insert_by (λ x. before q x ≡ true) r rows e s.0, insert_by-IsSorted r rows s.1)
      | inr e ↦
          let first : before r q ≡ true = total q r e in
          rw e ((first, All-weaken _ _ rows (λ x h. trans r q x first h) s.0), s)
    ]

    pub order_by-IsSorted : (rows : List R) → IsSorted (order_by before rows)
    unfolding order_by
    order_by-IsSorted [] = tt
    order_by-IsSorted (r ∷ rows) =
        insert_by-IsSorted r (order_by before rows) (order_by-IsSorted rows)

  -- The row comes after each of those that are taken.
  abbrev pub AllAfter : List R → R → Type 0
  AllAfter taken r = All (λ c. before c r ≡ true) taken

  module _ (Q : R → Type 0) where
    -- The row is among the taken ones, or they are as many as `n` and it comes after each of them.
    abbrev pub TakenOrAfter : ℕ → List R → R → Type 0
    TakenOrAfter n taken r = Q r ⊎ ((length taken ≡ n) × AllAfter taken r)

    after_first :
        (n : ℕ) (x : R) (taken rows : List R)
        → AllBefore x rows
        → All (TakenOrAfter n taken) rows
        → All (TakenOrAfter (suc n) (x ∷ taken)) rows
    after_first n x taken [] b h = tt
    after_first n x taken (r ∷ rows) b h = (
      elim (h.0) [ inl q ↦ inl q | inr a ↦ inr (ap suc a.0, (b.0, a.1)) ],
      after_first n x taken rows b.1 h.1,
    )

    after_none : (rows : List R) → All (TakenOrAfter 0 []) rows
    after_none [] = tt
    after_none (r ∷ rows) = (inr (refl, tt), after_none rows)

    -- In a sorted list each row is among the first `n`, or there are `n` and it comes after them.
    pub All-take_or_after :
        (n : ℕ) (rows : List R)
        → All Q (take n rows)
        → IsSorted rows
        → All (TakenOrAfter n (take n rows)) rows
    All-take_or_after zero rows h s = after_none rows
    All-take_or_after (suc n) [] h s = tt
    All-take_or_after (suc n) (x ∷ rows) h s =
        (inl h.0, after_first n x (take n rows) rows s.0 (All-take_or_after n rows h.1 s.1))
