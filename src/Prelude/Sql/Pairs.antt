-- ===== src/Prelude/Sql/Pairs.antt =====
-- What holds between any two rows of a table, and of all its rows, through a statement.
use enterprise_work_order_ai.Prelude.{
  ◌≡◌, refl, ap, ◌⊎◌, inl, inr, Bool, true, false, List, [], ◌∷◌, ◌++◌, map, arith, any, All,
  Bool-cases, if◌then◌else◌,
}
use enterprise_work_order_ai.Prelude.Sql.{update_where}

abbrev pub changed {ℓ} : {R : Type ℓ} → (R → Bool) → (R → R) → R → R
changed p f r = if p r then f r else r

module _ {ℓ} {R : Type ℓ} where
  abbrev pub Pairwise {κ} : (R → R → Type κ) → List R → Type κ
  Pairwise P [] = Unit
  Pairwise P (r ∷ rows) = All (P r) rows × Pairwise P rows

  All-map {κ μ ν} :
      (K : R → Type κ) (P : R → Type μ) (Q : R → Type ν) (g : R → R)
      → ((r : R) → K r → P r → Q (g r))
      → (rows : List R) → All K rows
      → All P rows
      → All Q (map g rows)
  All-map K P Q g h [] k p = tt
  All-map K P Q g h (r ∷ rows) k p = (h r k.0 p.0, All-map K P Q g h rows k.1 p.1)

  pub Pairwise-map {κ μ ν} :
      (K : R → Type κ) (P : R → R → Type μ) (Q : R → R → Type ν) (g : R → R)
      → ((a b : R) → K a → K b → P a b → Q (g a) (g b))
      → (rows : List R) → All K rows
      → Pairwise P rows
      → Pairwise Q (map g rows)
  Pairwise-map K P Q g h [] k p = tt
  Pairwise-map K P Q g h (r ∷ rows) k p = (
    All-map K (P r) (Q (g r)) g (λ b kb. h r b k.0 kb) rows k.1 p.0,
    Pairwise-map K P Q g h rows k.1 p.1,
  )

  pub Pairwise-append {κ} :
      (P : R → R → Type κ) (rows : List R) (new : R)
      → Pairwise P rows
      → All (λ r. P r new) rows
      → Pairwise P (rows ++ new ∷ [])
  Pairwise-append P [] new p h = (tt, tt)
  Pairwise-append P (r ∷ rows) new p h = (last rows p.0 h.0, Pairwise-append P rows new p.1 h.1)
    where
      last : (rest : List R) → All (P r) rest → P r new → All (P r) (rest ++ new ∷ [])
      last [] a b = (b, tt)
      last (q ∷ rest) a b = (a.0, last rest a.1 b)

  pub update_where-map :
      (p : R → Bool) (f : R → R) (rows : List R) → update_where p f rows ≡ map (changed p f) rows
  unfolding update_where
  update_where-map p f [] = refl
  update_where-map p f (r ∷ rows) = ap (◌∷◌ (changed p f r)) (update_where-map p f rows)

  pub update_where_twice-map :
      (p q : R → Bool) (f g : R → R) (rows : List R)
      → update_where p f (update_where q g rows) ≡ map (λ r. changed p f (changed q g r)) rows
  unfolding update_where
  update_where_twice-map p q f g [] = refl
  update_where_twice-map p q f g (r ∷ rows) =
      ap (◌∷◌ (changed p f (changed q g r))) (update_where_twice-map p q f g rows)

  pub All-of_none :
      (q : R → Bool) (rows : List R) → any q rows ≡ false → All (λ r. q r ≡ false) rows
  All-of_none q [] h = tt
  All-of_none q (r ∷ rows) h = (ground (arith, h), All-of_none q rows (ground (arith, h)))

  -- A test that no row passes is passed by none after a statement that makes no row pass it.
  pub any-update_where :
      (q p : R → Bool) (f : R → R)
      → ((r : R) → p r ≡ true → q r ≡ false → q (f r) ≡ false)
      → (rows : List R) → any q rows ≡ false
      → any q (update_where p f rows) ≡ false
  unfolding update_where
  any-update_where q p f h [] e = refl
  any-update_where q p f h (r ∷ rows) e =
      let rest : any q rows ≡ false = ground (arith, e) in
      let first : q r ≡ false = ground (arith, e) in
      let tail = any-update_where q p f h rows rest in
      elim (Bool-cases (p r)) [
        | inl c ↦ rw c (rw (h r c first) tail)
        | inr c ↦ rw c (rw first tail)
      ]

  pub any-append :
      (q : R → Bool) (rows : List R) (new : R)
      → any q rows ≡ false
      → q new ≡ false
      → any q (rows ++ new ∷ []) ≡ false
  any-append q [] new e h = rw h refl
  any-append q (r ∷ rows) new e h = ground (arith, e, any-append q rows new)

  -- Any two rows are related in one order or the other, or are one row.
  abbrev pub Related {κ} : (R → R → Type κ) → R → R → Type (ℓ ⊔ κ)
  Related P a b = P a b ⊎ (P b a ⊎ (a ≡ b))

  pub Pairwise-Related {κ} :
      (P : R → R → Type κ) (rows : List R)
      → Pairwise P rows
      → All (λ a. All (Related P a) rows) rows
  Pairwise-Related P [] h = tt
  Pairwise-Related P (r ∷ rows) h =
      ((inr (inr refl), first rows h.0), others rows h.0 (Pairwise-Related P rows h.1))
    where
      first : (rest : List R) → All (P r) rest → All (Related P r) rest
      first [] k = tt
      first (q ∷ rest) k = (inl k.0, first rest k.1)

      others :
          (rest : List R)
          → All (P r) rest
          → All (λ a. All (Related P a) rows) rest
          → All (λ a. All (Related P a) (r ∷ rows)) rest
      others [] k m = tt
      others (q ∷ rest) k m = ((inr (inl k.0), m.0), others rest k.1 m.1)

  pub any-map {κ} :
      (K : R → Type κ) (q q' : R → Bool) (g : R → R)
      → ((r : R) → K r → q r ≡ true → q' (g r) ≡ true)
      → (rows : List R) → All K rows
      → any q rows ≡ true
      → any q' (map g rows) ≡ true
  any-map K q q' g h [] k e = cc
  any-map K q q' g h (r ∷ rows) k e = elim (Bool-cases (q r)) [
    | inl c ↦ rw (h r k.0 c) refl
    | inr c ↦
        let rest : any q rows ≡ true = ground (arith, c, e) in
        let tail = any-map K q q' g h rows k.1 rest in ground (arith, tail)
  ]

  pub any-append_left :
      (q : R → Bool) (rows more : List R) → any q rows ≡ true → any q (rows ++ more) ≡ true
  any-append_left q [] more h = cc
  any-append_left q (r ∷ rows) more h = ground (arith, h, any-append_left q rows more)

  pub any-append_last :
      (q : R → Bool) (rows : List R) (new : R) → q new ≡ true → any q (rows ++ new ∷ []) ≡ true
  any-append_last q [] new h = rw h refl
  any-append_last q (r ∷ rows) new h = ground (arith, any-append_last q rows new h)
