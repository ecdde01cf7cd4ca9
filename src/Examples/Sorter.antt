-- ===== src/Examples/Sorter.antt =====
-- An insertion sort meets what is asked of `qsort`.
use mathlib.Core.List.{Permᴰ}
use mathlib.Core.List.Permᴰ
use atophttpd.Prelude.{refl, inl, inr, List, [], ◌∷◌, ℤ, pos, leb_ℤ, if◌then◌else◌, Bool-cases}
use atophttpd.Qsort.{Qsort}

module _ {A : Type 0} (cmp : A → A → ℤ) where
  unfoldable pub insert : A → List A → List A
  insert x [] = x ∷ []
  insert x (y ∷ ys) = if leb_ℤ (pos 1) (cmp x y) then y ∷ insert x ys else x ∷ y ∷ ys

  unfoldable pub insertion_sort : List A → List A
  unfolding insert
  insertion_sort [] = []
  insertion_sort (x ∷ xs) = insert x (insertion_sort xs)

  insert-perm : (x : A) (xs : List A) → Permᴰ (insert x xs) (x ∷ xs)
  unfolding insert
  insert-perm x [] = Permᴰ.refl _
  insert-perm x (y ∷ ys) = elim (Bool-cases (leb_ℤ (pos 1) (cmp x y))) [
    | inl t ↦
        rw (t, insert) (Permᴰ.trans (Permᴰ.cons refl (insert-perm x ys)) (Permᴰ.swap refl refl))
    | inr t ↦ rw (t, insert) (Permᴰ.refl _)
  ]

  pub insertion_sort-perm : (xs : List A) → Permᴰ (insertion_sort xs) xs
  unfolding insertion_sort
  insertion_sort-perm [] = Permᴰ.nil
  insertion_sort-perm (x ∷ xs) =
      Permᴰ.trans (insert-perm x (insertion_sort xs)) (Permᴰ.cons refl (insertion_sort-perm xs))

abbrev pub sorter : Qsort
sorter = record {
  sort = λ cmp xs. insertion_sort cmp xs;
  sort_perm = λ cmp xs. insertion_sort-perm cmp xs;
}
