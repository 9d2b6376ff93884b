-- ===== src/Base/Range.antt =====
-- `for k, v := range m` over a map visits every entry once, in an order that Go leaves open and that
-- differs from one loop to the next.
use mathlib.Core.List.{Permᴰ}
use fqdn_egress_operator.Base.{ℕ, List}

-- The order that the runtime chooses, for each loop of the source (named by a number).
pub record RangeOrder : Type 1 where
  pub range : ℕ → {A : Type 0} → List A → List A
  pub range-perm : (loop : ℕ) {A : Type 0} (xs : List A) → Permᴰ (range loop xs) xs
