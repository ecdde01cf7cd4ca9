-- ===== src/Examples/Fetch.antt =====
-- Records that are read and shown.
use atophttpd.Prelude.{
  ℕ, ◌+◌, ◌≡◌, Bool, true, false, [], ◌∷◌, some, pos, Bytes, codes, arith, Run, done,
}
use atophttpd.Cache.{Cache, CacheElem, new_cache}
use atophttpd.Atop.{RawRecord, RawFile, FileSystem, full_read, ok}
use atophttpd.Rawlog.Fetch.{Format, Mallocs, Devtstat, build_devtstat}
use atophttpd.Rawlog.Fetch.Tasks.{build_devtstat-positions}
use atophttpd.Examples.Files.{file, record_of}

-- A task is two bits: a process, and inactive. Every record holds an active and an inactive process.
abbrev two_tasks : Format
two_tasks = record {
  Tstat = Bool × Bool;
  isproc = λ t. t.0;
  wasinactive = λ t. t.1;
  tasks = λ n data_. (true, false) ∷ (true, true) ∷ [];
  uncompress = λ n data_. some data_;
}

build_devtstat-positions_example :
    build_devtstat two_tasks 2 1 0 ((true, true) ∷ (true, false) ∷ (false, false) ∷ []) ([], [], 0)
    ≡ done (0 ∷ 1 ∷ [], 1 ∷ [], 2)
build_devtstat-positions_example =
    build_devtstat-positions two_tasks 2 1 ((true, true) ∷ (true, false) ∷ (false, false) ∷ [])
      (omega arith) (omega arith)

abbrev logs : FileSystem
logs = record {
  open_file = λ path. ok (record file { record_at = λ off. full_read (record_of off) });
  stat = λ path. ok (record { st_size = 792; st_mtim = 7 });
}

abbrev pub memory : Mallocs
memory = record {
  for_sstat = true;
  for_sstat_input = true;
  for_taskall = true;
  for_procall = true;
  for_procactive = true;
  for_task_input = true;
}

abbrev elem_at : ℕ → ℕ → CacheElem
elem_at t o = record { time = pos t; off = o }

abbrev index : Cache
index = record (new_cache (codes "log")) {
  elems = elem_at 480 480 ∷ elem_at 584 584 ∷ elem_at 688 688 ∷ [];
}

abbrev count_shown : ℕ → Bytes → RawRecord → Devtstat two_tasks → Bytes → ℕ → Run ℕ
count_shown flags labels rr devtstat sstat w = done (w + 1)

opened_file : RawFile
opened_file = record file { record_at = λ off. full_read (record_of off) }
