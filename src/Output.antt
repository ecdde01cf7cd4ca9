-- ===== src/Output.antt =====
-- output.c: the buffer that a sample's text is collected in.
pub mod Bounds
pub mod Ready
use atophttpd.Prelude.{
  ℕ, ◌+◌, ◌-◌, ◌*◌, Bool, true, false, List, [], ◌∷◌, ◌++◌, Option, none, some, Bytes, ltb,
  if◌then◌else◌, length, Run, done, crash, ◌>>=◌, ◌>>◌, assert, int_limit,
}

pub data OutputType : Type 0 where
  stdout fd buf unknown : OutputType

-- `ob.buf` is NULL at first; `contents` are its bytes before `offset`. What goes to stdout or to a
-- file is appended to `written`.
pub record Output : Type 0 where
  pub output_type : OutputType
  pub allocated : Bool
  pub size : ℕ
  pub contents : Bytes
  pub written : Bytes

abbrev pub outbuf_def_size : ℕ
outbuf_def_size = 1024 * 1024

abbrev pub offset : Output → ℕ
offset op = length op.contents

-- The first call allocates the buffer.
unfoldable pub allocate : Output → Output
allocate op =
    if op.allocated
    then op
    else record op { allocated = true; size = outbuf_def_size; contents = [] }

-- A buffer with too little room left is doubled, once.
unfoldable pub enlarge : Output → ℕ → Run Output
enlarge op n =
    if ltb (op.size - offset op) n
    then (do assert (ltb (op.size * 2) int_limit); done (record op { size = op.size * 2 }))
    else done op

unfoldable pub output_buf : Output → Bytes → Run Output
output_buf op text = do
  enlarged ← enlarge (allocate op) (length text)
  assert (ltb (offset enlarged + length text) (enlarged.size + 1))
  done (record enlarged { contents = enlarged.contents ++ text })

unfoldable pub output_samp : Output → Bytes → Run Output
output_samp op text = elim op.output_type [
  | stdout ↦ done (record op { written = op.written ++ text })
  | fd ↦ done (record op { written = op.written ++ text })
  | buf ↦ output_buf op text
  | unknown ↦ crash
]

-- The callback `done` sees the collected text; then the buffer is cleared.
unfoldable pub output_samp_done :
    {W : Type 0} → Option (Output → W → Run W) → Output → W → Run (Output × W)
output_samp_done callback op w = do
  w' ← elim callback [ none ↦ done w | some f ↦ f op w ]
  done (elim op.output_type [ buf ↦ record op { contents = [] } | _ ↦ op ], w')

-- A run of `output_samp` calls.
unfoldable pub output_all : Output → List Bytes → Run Output
output_all op [] = done op
output_all op (text ∷ rest) = do op' ← output_samp op text; output_all op' rest
