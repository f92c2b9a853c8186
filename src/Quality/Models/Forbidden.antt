-- ===== src/Quality/Models/Forbidden.antt =====
-- No sensitive key hides at any depth of an event.
use enterprise_work_order_ai.Prelude.{◌≡◌, refl, ◌↔◌, true, arith, Bool-cases, inl, inr}
use enterprise_work_order_ai.Prelude.Text.{Str}
use enterprise_work_order_ai.Quality.Models.{
  Json, Items, Fields, null, bool, int, other_number, str, list, dict, nil, item, end, field,
  is_forbidden_key, contains_forbidden_key, any_forbidden, fields_forbidden,
}

-- A key stands somewhere in a document: of a `dict` in it, however deep.
mutual
  pub data HasKey (k : Str) : Json → Type 0 where
    in_list : {xs : Items} → InItems k xs → HasKey k (list xs)
    in_dict : {fs : Fields} → InFields k fs → HasKey k (dict fs)

  pub data InItems (k : Str) : Items → Type 0 where
    first : {v : Json} {rest : Items} → HasKey k v → InItems k (item v rest)
    later : {v : Json} {rest : Items} → InItems k rest → InItems k (item v rest)

  pub data InFields (k : Str) : Fields → Type 0 where
    here : {j : Str} {v : Json} {rest : Fields} → j ≡ k → InFields k (field j v rest)
    below : {j : Str} {v : Json} {rest : Fields} → HasKey k v → InFields k (field j v rest)
    beside : {j : Str} {v : Json} {rest : Fields} → InFields k rest → InFields k (field j v rest)

module _ (lower : Str → Str) where
  mutual
    unfolding contains_forbidden_key

    found_key :
        (v : Json)
        → contains_forbidden_key lower v ≡ true
        → (k : Str) × (is_forbidden_key lower k ≡ true) × HasKey k v
    found_key (list xs) h = let (k, bad, m) = found_item xs h in (k, bad, in_list m)
    found_key (dict fs) h = let (k, bad, m) = found_field fs h in (k, bad, in_dict m)
    found_key null h = cc
    found_key (bool b) h = cc
    found_key (int n) h = cc
    found_key (other_number n) h = cc
    found_key (str s) h = cc

    found_item :
        (xs : Items)
        → any_forbidden lower xs ≡ true
        → (k : Str) × (is_forbidden_key lower k ≡ true) × InItems k xs
    found_item nil h = cc
    found_item (item v rest) h = elim (Bool-cases (contains_forbidden_key lower v)) [
      | inl e ↦ let (k, bad, m) = found_key v e in (k, bad, first m)
      | inr e ↦ let (k, bad, m) = found_item rest (ground arith) in (k, bad, later m)
    ]

    found_field :
        (fs : Fields)
        → fields_forbidden lower fs ≡ true
        → (k : Str) × (is_forbidden_key lower k ≡ true) × InFields k fs
    found_field end h = cc
    found_field (field j v rest) h = elim (Bool-cases (is_forbidden_key lower j)) [
      | inl e ↦ (j, e, here refl)
      | inr d ↦ elim (Bool-cases (contains_forbidden_key lower v)) [
        | inl e ↦ let (k, bad, m) = found_key v e in (k, bad, below m)
        | inr e ↦ let (k, bad, m) = found_field rest (ground arith) in (k, bad, beside m)
      ]
    ]

  mutual
    unfolding contains_forbidden_key

    seen_key :
        {k : Str} {v : Json}
        → is_forbidden_key lower k ≡ true
        → HasKey k v
        → contains_forbidden_key lower v ≡ true
    seen_key bad (in_list m) = seen_item bad m
    seen_key bad (in_dict m) = seen_field bad m

    seen_item :
        {k : Str} {xs : Items}
        → is_forbidden_key lower k ≡ true
        → InItems k xs
        → any_forbidden lower xs ≡ true
    seen_item bad (first m) = ground (arith, seen_key bad m)
    seen_item bad (later m) = ground (arith, seen_item bad m)

    seen_field :
        {k : Str} {fs : Fields}
        → is_forbidden_key lower k ≡ true
        → InFields k fs
        → fields_forbidden lower fs ≡ true
    seen_field bad (here e) = rw (e, bad)
    seen_field bad (below m) = ground (arith, seen_key bad m)
    seen_field bad (beside m) = ground (arith, seen_field bad m)

  -- The scan of a document answers true exactly when a forbidden key stands in some `dict` of it,
  -- at any depth, in lists too.
  pub contains_forbidden_key-HasKey_iff :
      (v : Json)
      → (contains_forbidden_key lower v ≡ true)
        ↔ ((k : Str) × (is_forbidden_key lower k ≡ true) × HasKey k v)
  contains_forbidden_key-HasKey_iff v = (found_key v, λ (k, bad, m). seen_key bad m)
