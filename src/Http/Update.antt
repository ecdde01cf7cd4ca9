-- ===== src/Http/Update.antt =====
-- `httpd_update_cache`: the indices are brought up to date behind every connection, but not more
-- often than every three seconds.
pub mod Pace
use atophttpd.Prelude.{ℕ, ◌+◌, List, [], ◌∷◌, ℤ, ltb, if◌then◌else◌, Run, done, crash, ◌>>=◌}

-- `update`, in seconds, and the table of indices.
pub record Updated (W : Type 0) : Type 0 where
  pub update : ℕ
  pub table : W

module _ {W : Type 0} (rawlog_parse_all : W → Run (ℤ × W)) where
  -- `now - update < 3` of signed numbers; a failed parse is printed, and counts as one.
  unfoldable pub httpd_update_cache : ℕ → Updated W → Run (Updated W)
  httpd_update_cache now s =
      if ltb now (s.update + 3)
      then done s
      else do r ← rawlog_parse_all s.table; done (record { update = now; table = r.1 })

  -- The calls behind one connection after the other.
  unfoldable pub update_all : List ℕ → Updated W → Run (Updated W)
  update_all [] s = done s
  update_all (now ∷ nows) s = do s' ← httpd_update_cache now s; update_all nows s'
