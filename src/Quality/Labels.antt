-- ===== src/Quality/Labels.antt =====
-- The closed sets of texts that the quality records share
-- (rules.py, schema.py and models.py in apps/ai-service/app/quality).
use enterprise_work_order_ai.Prelude.{ℕ, ◌^◌, Bool, true, false}

-- `FindingLabel`, `ModelLabel` and `QualityVerdict` are the same four texts.
pub data Label : Type 0 where
  pass fail uncertain skip : Label

pub data Severity : Type 0 where
  low medium high : Severity

pub data FindingSource : Type 0 where
  rule model : FindingSource

abbrev pub label_eq : Label → Label → Bool
label_eq pass pass = true
label_eq fail fail = true
label_eq uncertain uncertain = true
label_eq skip skip = true
label_eq _ _ = false

abbrev pub is_rule : FindingSource → Bool
is_rule rule = true
is_rule model = false

-- A finite float of [0, 1] is a multiple of 2⁻¹⁰⁷⁴; a confidence is the count of those.
unfoldable pub one : ℕ
one = 2 ^ 1074
