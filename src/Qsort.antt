-- ===== src/Qsort.antt =====
-- `qsort` of the C library, which cache.c calls: a parameter of the model. All that is asked of it
-- is that it only rearranges the elements. No order is asked of the result: the comparison functions
-- of cache.c answer 1 or 0 and never a negative number, so they are not the ones that C wants.
pub mod Order
use mathlib.Core.List.{Permᴰ}
use atophttpd.Prelude.{List, ℤ, pos, ◌≤ℤ◌, ◌<ℤ◌, ◌↔◌}

pub record Qsort : Type 1 where
  pub sort : {A : Type 0} → (A → A → ℤ) → List A → List A
  pub sort_perm : {A : Type 0} (cmp : A → A → ℤ) (xs : List A) → Permᴰ (sort cmp xs) xs
