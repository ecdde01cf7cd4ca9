-- ===== src/Http/Update/Pace.antt =====
-- How often the indices are brought up to date.
use atophttpd.Prelude.{
  ℕ, suc, ◌+◌, ◌*◌, ◌≤◌, ◌<◌, ◌≡◌, ◌⊎◌, refl, ◌∙◌, inl, inr, List, [], ◌∷◌, ℤ, ltb, ltb→lt, ltb→le,
  Run, Returns, Returns-bind, Returns-map, Bool-cases, arith,
}
use atophttpd.Http.Update.{Updated, httpd_update_cache, update_all}

-- A clock that does not go back, from a time on.
abbrev pub Ascending : ℕ → List ℕ → Type 0
Ascending t [] = Unit
Ascending t (now ∷ nows) = (t ≤ now) × Ascending now nows

abbrev pub last_of : ℕ → List ℕ → ℕ
last_of t [] = t
last_of t (now ∷ nows) = last_of now nows

module _ {W : Type 0} (calls : W → ℕ) where
  -- Nothing was tried and the time of the last attempt is the old one, or there were attempts.
  abbrev pub Tried : Updated W → Updated W → Type 0
  Tried s s' =
      ((s'.update ≡ s.update) × (calls s'.table ≡ calls s.table)) ⊎ (calls s.table < calls s'.table)

  -- From one state to another, with a last connection at a time.
  abbrev pub Paced : Updated W → ℕ → Updated W → Type 0
  Paced s now s' =
      Tried s s'
      × (s.update + 3 * calls s'.table ≤ s'.update + 3 * calls s.table)
      × (s'.update ≤ now)
      × (now < s'.update + 3)

  Tried-trans : (s s' s'' : Updated W) → Tried s s' → Tried s' s'' → Tried s s''
  Tried-trans s s' s'' (inl h) (inl k) = inl (k.0 ∙ h.0, k.1 ∙ h.1)
  Tried-trans s s' s'' (inl h) (inr k) = inr (omega (arith, h.1, k))
  Tried-trans s s' s'' (inr h) (inl k) = inr (omega (arith, h, k.1))
  Tried-trans s s' s'' (inr h) (inr k) = inr (omega (arith, h, k))

  Paced-trans :
      (s s' s'' : Updated W) (now later : ℕ)
      → Paced s now s'
      → Paced s' later s''
      → Paced s later s''
  Paced-trans s s' s'' now later p q =
      (Tried-trans s s' s'' p.0 q.0, omega (arith, p.1, q.1), q.2, q.3)

module _ {W : Type 0} (rawlog_parse_all : W → Run (ℤ × W)) (calls : W → ℕ)
    (counts : (w : W) → Returns (rawlog_parse_all w) (λ r. calls r.1 ≡ suc (calls w))) where
  httpd_update_cache-Paced :
      (now : ℕ) (s : Updated W)
      → s.update ≤ now
      → Returns (httpd_update_cache rawlog_parse_all now s) (Paced calls s now)
  unfolding httpd_update_cache
  httpd_update_cache-Paced now s h = elim (Bool-cases (ltb now (s.update + 3))) [
    | inl y ↦ rw (y, httpd_update_cache) (inl (refl, refl), omega arith, h, ltb→lt _ _ y)
    | inr n ↦
        let late = ltb→le _ _ n in
        rw (n, httpd_update_cache)
          (Returns-bind _ _ (rawlog_parse_all s.table) _ (counts s.table)
            (λ r e. (inr (omega (arith, e)), omega (arith, late, e), omega arith, omega arith)))
  ]

  later-Paced :
      (t : ℕ) (nows : List ℕ) (s : Updated W)
      → s.update ≤ t
      → t < s.update + 3
      → Ascending t nows
      → Returns (update_all rawlog_parse_all nows s) (Paced calls s (last_of t nows))
  unfolding update_all
  later-Paced t [] s h k a = (inl (refl, refl), omega arith, h, k)
  later-Paced t (now ∷ nows) s h k a =
      Returns-bind _ _ (httpd_update_cache rawlog_parse_all now s) _
        (httpd_update_cache-Paced now s (omega (arith, h, a.0)))
        (λ s' p.
          Returns-map _ _ (update_all rawlog_parse_all nows s')
            (λ s'' q. Paced-trans calls s s' s'' now (last_of now nows) p q)
            (later-Paced now nows s' p.2 p.3 a.1))

  -- If `rawlog_parse_all` never crashes, and the clock does not go back: behind any connections, one
  -- at least, the time that is kept is less than three seconds before the last of them. Where
  -- `rawlog_parse_all` was not called it is still the old one; for every call of it, failed or not,
  -- it has gone on by three seconds at least.
  pub update_all-Paced :
      (now : ℕ) (nows : List ℕ) (s : Updated W)
      → s.update ≤ now
      → Ascending now nows
      → Returns (update_all rawlog_parse_all (now ∷ nows) s) (Paced calls s (last_of now nows))
  unfolding update_all
  update_all-Paced now nows s h a =
      Returns-bind _ _ (httpd_update_cache rawlog_parse_all now s) _
        (httpd_update_cache-Paced now s h)
        (λ s' p.
          Returns-map _ _ (update_all rawlog_parse_all nows s')
            (λ s'' q. Paced-trans calls s s' s'' now (last_of now nows) p q)
            (later-Paced now nows s' p.2 p.3 a))
