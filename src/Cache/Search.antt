-- ===== src/Cache/Search.antt =====
-- The binary search of `cache_get`: it stays in the array, ends, and finds the record to show.
use atophttpd.Prelude.{
  ℕ, zero, suc, ◌+◌, ◌-◌, ◌/◌, ◌≤◌, ◌<◌, ◌≡◌, inl, inr, refl, true, false, List, some, ℤ, ◌≤ℤ◌,
  ◌<ℤ◌, ltb_ℤ, eqb_ℤ, eqb_ℤ→eq, ltb_ℤ→lt, arith, ltb, ltb→lt, ltb→le, subst, length, get_elem?,
  get_elem?-lt, get_elem?_total, Bool-cases, done, Returns, int_limit, int_add_lem,
}
use atophttpd.Qsort.Order.{Ordered, Ordered-get}
use atophttpd.Cache.{CacheElem, midpoint, search, elem_off}

-- `off` belongs to a record at or after the time, with no other record between the two.
pub record IsNext (elems : List CacheElem) (time : ℤ) (off : ℕ) : Type 0 where
  pub index : ℕ
  pub elem : CacheElem
  pub stored : get_elem? elems index ≡ some elem
  pub at_off : elem.off ≡ off
  pub not_before : time ≤ℤ elem.time
  pub none_between :
      (j : ℕ) (e : CacheElem) → get_elem? elems j ≡ some e → e.time <ℤ elem.time → e.time <ℤ time

pub midpoint_lem : (l r : ℕ) → l + r < int_limit → midpoint l r ≡ done ((l + r) / 2)
unfolding midpoint
midpoint_lem l r h = rw (int_add_lem l r h)

-- What the loop knows: all before `left` is earlier than the time, all from `right` on is later.
record Inv (elems : List CacheElem) (time : ℤ) (left right : ℕ) : Type 0 where
  ordered : left ≤ right
  inside : right ≤ length elems
  below : (j : ℕ) (e : CacheElem) → get_elem? elems j ≡ some e → j < left → e.time <ℤ time
  above : (j : ℕ) (e : CacheElem) → get_elem? elems j ≡ some e → right ≤ j → time <ℤ e.time

module _ (elems : List CacheElem) (time : ℤ) (sorted : Ordered (λ e. e.time) elems)
    (small : length elems + length elems ≤ int_limit) (last : CacheElem)
    (stored_last : get_elem? elems (length elems - 1) ≡ some last)
    (covered : time ≤ℤ last.time) where
  hit-IsNext :
      (m : ℕ) (e : CacheElem) → get_elem? elems m ≡ some e → time ≡ e.time → IsNext elems time e.off
  hit-IsNext m e p h = record {
    index = m;
    elem = e;
    stored = p;
    at_off = refl;
    not_before = rw h (omega arith);
    none_between = λ j d q before. rw h before;
  }

  left-lt-length : (l : ℕ) → Inv elems time l l → l < length elems
  left-lt-length l inv = elim (Bool-cases (ltb l (length elems))) [
    | inl h ↦ ground arith
    | inr h ↦ absurd (
        omega (
          arith,
          inv.below (length elems - 1) last stored_last
              (ground (arith, get_elem?-lt elems _ stored_last)),
        ))
  ]

  exit-IsNext :
      (l : ℕ) → Inv elems time l l → Returns (elem_off (get_elem? elems l)) (IsNext elems time)
  exit-IsNext l inv =
      let (e, p) = get_elem?_total elems l (left-lt-length l inv) in
      rw p record {
        index = l;
        elem = e;
        stored = p;
        at_off = refl;
        not_before = omega (arith, inv.above l e p (omega arith));
        none_between = λ j d q before. elim (Bool-cases (ltb j l)) [
          | inl h ↦ inv.below j d q (ground arith)
          | inr h ↦
              absurd (omega (arith, Ordered-get (λ x. x.time) elems l j sorted (ground arith) p q))
        ];
      }

  upper-Inv :
      (l r m : ℕ) (e : CacheElem)
      → Inv elems time l r
      → get_elem? elems m ≡ some e
      → m < r
      → e.time <ℤ time
      → Inv elems time (m + 1) r
  upper-Inv l r m e inv p lt before = record {
    ordered = omega arith;
    inside = inv.inside;
    below = λ j d q h. omega (arith, Ordered-get (λ x. x.time) elems j m sorted (omega arith) q p);
    above = inv.above;
  }

  lower-Inv :
      (l r m : ℕ) (e : CacheElem)
      → Inv elems time l r
      → get_elem? elems m ≡ some e
      → l ≤ m
      → m < r
      → time <ℤ e.time
      → Inv elems time l m
  lower-Inv l r m e inv p ge lt after = record {
    ordered = omega arith;
    inside = omega (arith, inv.inside);
    below = inv.below;
    above = λ j d q h. omega (arith, Ordered-get (λ x. x.time) elems m j sorted (omega arith) p q);
  }

  -- One round of the loop, once its middle record is read.
  round-IsNext :
      (fuel l r m : ℕ) (e : CacheElem)
      → get_elem? elems m ≡ some e
      → (time <ℤ e.time → Returns (search elems time fuel l m) (IsNext elems time))
      → (e.time <ℤ time → Returns (search elems time fuel (m + 1) r) (IsNext elems time))
      → Returns
          (elim (eqb_ℤ time e.time) [
            | true ↦ done e.off
            | false ↦ elim (ltb_ℤ time e.time) [
              | true ↦ search elems time fuel l m
              | false ↦ search elems time fuel (m + 1) r
            ]
          ])
          (IsNext elems time)
  round-IsNext fuel l r m e p left right = elim (Bool-cases (eqb_ℤ time e.time)) [
    | inl same ↦ rw same (hit-IsNext m e p (eqb_ℤ→eq time e.time same))
    | inr other ↦ elim (Bool-cases (ltb_ℤ time e.time)) [
      | inl h ↦ rw (other, h) (left (ltb_ℤ→lt time e.time h))
      | inr h ↦ rw (other, h) (right (ground arith))
    ]
  ]

  search-IsNext :
      (fuel l r : ℕ)
      → r - l < fuel
      → Inv elems time l r
      → Returns (search elems time fuel l r) (IsNext elems time)
  unfolding search
  search-IsNext zero l r f inv = absurd (omega arith)
  search-IsNext (suc fuel) l r f inv = elim (Bool-cases (ltb l r)) [
    | inr stop ↦
        let e : r ≡ l = omega (arith, inv.ordered, ltb→le l r stop) in
        rw (stop, search) (exit-IsNext l (subst (Inv elems time l) e inv))
    | inl go ↦
        let lt : l < r = ltb→lt l r go in
        let (e, p) = get_elem?_total elems ((l + r) / 2) (omega (arith, inv.inside)) in
        rw (go, search, midpoint_lem l r (omega (arith, inv.inside)), p)
          (round-IsNext fuel l r ((l + r) / 2) e p
            (λ h.
              search-IsNext fuel l ((l + r) / 2) (omega arith)
                (lower-Inv l r _ e inv p (omega arith) (omega arith) h))
            (λ h.
              search-IsNext fuel ((l + r) / 2 + 1) r (omega arith)
                (upper-Inv l r _ e inv p (omega arith) h)))
  ]

  -- From the whole array, with more fuel than there are records.
  pub search-IsNext_whole :
      Returns (search elems time (suc (length elems)) 0 (length elems)) (IsNext elems time)
  search-IsNext_whole = search-IsNext (suc (length elems)) 0 (length elems) (omega arith) (record {
    ordered = omega arith;
    inside = omega arith;
    below = λ j e p h. absurd (omega arith);
    above = λ j e p h. absurd (omega (arith, get_elem?-lt elems j p));
  })
