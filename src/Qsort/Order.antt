-- ===== src/Qsort/Order.antt =====
-- Lists in ascending order of a key, and what a rearrangement keeps.
use mathlib.Core.List.{Permᴰ}
use atophttpd.Prelude.{
  ℕ, zero, suc, ◌≤◌, ◌≡◌, refl, sym, ap, ◌∙◌, subst, List, [], ◌∷◌, ◌++◌, some, ℤ, ◌≤ℤ◌, arith,
  length, get_elem?, last?, All, All-append, All-get, All-last,
}

module _ {A : Type 0} where
  -- Every element's key is at most those after it.
  abbrev pub Ordered : (A → ℤ) → List A → Type 0
  Ordered key [] = Unit
  Ordered key (x ∷ xs) = All (λ y. key x ≤ℤ key y) xs × Ordered key xs

  pub All-perm : (P : A → Type 0) {xs ys : List A} → Permᴰ xs ys → All P ys → All P xs
  All-perm P Permᴰ.nil h = h
  All-perm P (Permᴰ.cons e p) h = (subst P (sym e) h.0, All-perm P p h.1)
  All-perm P (Permᴰ.swap e f) h = (subst P (sym e) h.1.0, (subst P (sym f) h.0, h.1.1))
  All-perm P (Permᴰ.trans p q) h = All-perm P p (All-perm P q h)

  pub length-perm : {xs ys : List A} → Permᴰ xs ys → length xs ≡ length ys
  length-perm Permᴰ.nil = refl
  length-perm (Permᴰ.cons e p) = ap suc (length-perm p)
  length-perm (Permᴰ.swap e f) = refl
  length-perm (Permᴰ.trans p q) = length-perm p ∙ length-perm q

  pub Ordered-append :
      (key : A → ℤ) (xs : List A) (x : A)
      → Ordered key xs
      → All (λ y. key y ≤ℤ key x) xs
      → Ordered key (xs ++ x ∷ [])
  Ordered-append key [] x o h = (tt, tt)
  Ordered-append key (y ∷ ys) x o h =
      (All-append _ ys (x ∷ []) o.0 (h.0, tt), Ordered-append key ys x o.1 h.1)

  pub Ordered-get :
      (key : A → ℤ) (xs : List A) (i j : ℕ) {x y : A}
      → Ordered key xs
      → i ≤ j
      → get_elem? xs i ≡ some x
      → get_elem? xs j ≡ some y
      → key x ≤ℤ key y
  Ordered-get key [] i j o h p q = absurd (cc p)
  Ordered-get key (z ∷ zs) zero zero {x} {y} o h p q = ground arith
  Ordered-get key (z ∷ zs) zero (suc j) {x} {y} o h p q = ground (arith, All-get _ zs j o.0 q)
  Ordered-get key (z ∷ zs) (suc i) zero o h p q = absurd (omega arith)
  Ordered-get key (z ∷ zs) (suc i) (suc j) o h p q = Ordered-get key zs i j o.1 (omega arith) p q

  -- The last key is the greatest.
  pub Ordered-last :
      (key : A → ℤ) (xs : List A) {x : A}
      → Ordered key xs
      → last? xs ≡ some x
      → All (λ y. key y ≤ℤ key x) xs
  Ordered-last key [] o h = tt
  Ordered-last key (y ∷ []) {x} o h = (ground arith, tt)
  Ordered-last key (y ∷ z ∷ zs) {x} o h =
      (All-last _ (z ∷ zs) o.0 h, Ordered-last key (z ∷ zs) o.1 h)

  -- Before an element of an ordered list there is no greater key.
  pub Ordered-before :
      (key : A → ℤ) (xs : List A) (x : A) (ys : List A)
      → Ordered key (xs ++ x ∷ ys)
      → All (λ y. key y ≤ℤ key x) xs
  Ordered-before key [] x ys o = tt
  Ordered-before key (z ∷ zs) x ys o = (All-at zs o.0, Ordered-before key zs x ys o.1)
    where
      All-at : (ws : List A) → All (λ y. key z ≤ℤ key y) (ws ++ x ∷ ys) → key z ≤ℤ key x
      All-at [] h = h.0
      All-at (w ∷ ws) h = All-at ws h.1
