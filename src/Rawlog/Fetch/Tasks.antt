-- ===== src/Rawlog/Fetch/Tasks.antt =====
-- What the loop of `rawlog_get_devtstat` makes of the tasks.
use atophttpd.Prelude.{
  ℕ, suc, ◌+◌, ◌≤◌, ◌≡◌, inl, inr, refl, ap, ◌∙◌, Bool, true, not, ◌&&◌, List, [], ◌∷◌, ◌++◌,
  append-nil, append_assoc, ltb, if◌then◌else◌, length, length-append, done, arith, Bool-cases,
}
use atophttpd.Rawlog.Fetch.{Format, Lists, add_task, build_devtstat}

-- The positions, counted from a first one, of the elements that pass a test.
abbrev pub positions {ℓ} : {A : Type ℓ} → (A → Bool) → ℕ → List A → List ℕ
positions p i [] = []
positions p i (x ∷ xs) = if p x then i ∷ positions p (suc i) xs else positions p (suc i) xs

module _ (fmt : Format) where
  abbrev pub is_active : fmt.Tstat → Bool
  is_active t = not (fmt.wasinactive t)

  abbrev pub is_active_proc : fmt.Tstat → Bool
  is_active_proc t = fmt.isproc t && is_active t

  module _ (totproc nactproc : ℕ) where
    -- The lists that are left over from the loop, behind those that stand already.
    abbrev appended : List ℕ → List ℕ → ℕ → Lists → Lists
    appended procs actives k (procall, procactive, n) =
        (procall ++ procs, procactive ++ actives, n + k)

    length-snoc : (xs : List ℕ) (i : ℕ) → length (xs ++ i ∷ []) ≡ suc (length xs)
    length-snoc xs i = omega (arith, length-append xs (i ∷ []))

    appended-snoc :
        (i : ℕ) (procall procactive : List ℕ) (n : ℕ) (ps actives : List ℕ) (k : ℕ)
        → done (appended ps actives k (procall ++ i ∷ [], procactive ++ i ∷ [], suc n))
          ≡ done (appended (i ∷ ps) (i ∷ actives) (suc k) (procall, procactive, n))
    appended-snoc i procall procactive n ps actives k =
        let e : suc n + k ≡ n + suc k = omega arith in
        rw (append_assoc procall (i ∷ []) ps, append_assoc procactive (i ∷ []) actives, e) refl

    build-appended :
        (i : ℕ) (ts : List fmt.Tstat) (procall procactive : List ℕ) (n : ℕ)
        → length procall + length (positions fmt.isproc i ts) ≤ totproc
        → length procactive + length (positions is_active_proc i ts) ≤ nactproc
        → build_devtstat fmt totproc nactproc i ts (procall, procactive, n)
          ≡ done (
              appended
                (positions fmt.isproc i ts)
                (positions is_active_proc i ts)
                (length (positions is_active i ts))
                (procall, procactive, n))
    unfolding build_devtstat add_task
    build-appended i [] procall procactive n h h' =
        rw (append-nil procall, append-nil procactive)
          (ap (λ k. done (procall, procactive, k)) (omega arith))
    build-appended i (t ∷ ts) procall procactive n h h' = elim (Bool-cases (fmt.isproc t)) [
      | inl y ↦ elim (Bool-cases (fmt.wasinactive t)) [
        | inl w ↦
            let h1 : length procall + suc (length (positions fmt.isproc (suc i) ts)) ≤ totproc =
              rw (y) at h in
            let h2 : length procactive + length (positions is_active_proc (suc i) ts) ≤ nactproc =
              rw (y, w) at h' in
            let room : ltb (length procall) totproc ≡ true = ground (arith, h1) in
            rw (y, w, room, add_task)
              (build-appended (suc i) ts (procall ++ i ∷ []) procactive n
                  (omega (arith, h1, length-snoc procall i)) h2
                ∙ ap
                    (λ l. done (
                      l,
                      procactive ++ positions is_active_proc (suc i) ts,
                      n + length (positions is_active (suc i) ts),
                    ))
                    (append_assoc procall (i ∷ []) _))
        | inr w ↦
            let h1 : length procall + suc (length (positions fmt.isproc (suc i) ts)) ≤ totproc =
              rw (y) at h in
            let h2 : length procactive + suc (length (positions is_active_proc (suc i) ts))
                ≤ nactproc =
              rw (y, w) at h' in
            let room : ltb (length procall) totproc ≡ true = ground (arith, h1) in
            let room' : ltb (length procactive) nactproc ≡ true = ground (arith, h2) in
            rw (y, w, room, room', add_task)
              (build-appended (suc i) ts (procall ++ i ∷ []) (procactive ++ i ∷ []) (suc n)
                  (omega (arith, h1, length-snoc procall i))
                  (omega (arith, h2, length-snoc procactive i))
                ∙ appended-snoc i procall procactive n _ _ _)
      ]
      | inr y ↦ elim (Bool-cases (fmt.wasinactive t)) [
        | inl w ↦
            rw (y, w, add_task)
              (build-appended (suc i) ts procall procactive n (rw (y) at h) (rw (y) at h'))
        | inr w ↦
            rw (y, w, add_task)
              (build-appended (suc i) ts procall procactive (suc n) (rw (y) at h) (rw (y) at h')
                ∙ ap
                    (λ k. done (
                      procall ++ positions fmt.isproc (suc i) ts,
                      procactive ++ positions is_active_proc (suc i) ts,
                      k,
                    ))
                    (omega arith))
      ]
    ]

    -- If a record does not understate its processes and its active processes, the loop stays
    -- inside its arrays; it collects the positions of the processes and those of the active
    -- processes, in order, and counts the active tasks.
    pub build_devtstat-positions :
        (ts : List fmt.Tstat)
        → length (positions fmt.isproc 0 ts) ≤ totproc
        → length (positions is_active_proc 0 ts) ≤ nactproc
        → build_devtstat fmt totproc nactproc 0 ts ([], [], 0)
          ≡ done (
            positions fmt.isproc 0 ts,
            positions is_active_proc 0 ts,
            length (positions is_active 0 ts),
          )
    build_devtstat-positions ts h h' =
        build-appended 0 ts [] [] 0 (omega (arith, h)) (omega (arith, h'))
        ∙ ap (λ k. done (positions fmt.isproc 0 ts, positions is_active_proc 0 ts, k)) (omega arith)
