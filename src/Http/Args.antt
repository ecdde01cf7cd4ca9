-- ===== src/Http/Args.antt =====
-- `http_arg_long` and `http_arg_str`: the arguments of a request.
pub mod RoundTrip
pub mod Zeros
pub mod Unescape
pub mod Memory
use atophttpd.Prelude.{
  ℕ, zero, suc, ◌+◌, Bool, true, false, ◌&&◌, ◌||◌, List, [], ◌∷◌, ◌++◌, Option, none, some, ℤ,
  Bytes, codes, ltb, leb, ◌==◌, if◌then◌else◌, length, take, drop, Run, done, crash, ◌>>=◌, ◌>>◌,
  assert, not,
}
use atophttpd.CString.{after_prefix, strstr_after, before_char, atol}

-- What stands after `needle=`: `none` is the answer -1.
unfoldable pub after_equals : Bytes → Bytes → Option Bytes
after_equals req needle = elim (strstr_after req needle) [
  | none ↦ none
  | some [] ↦ none
  | some (c ∷ s) ↦ if c == b'=' then some s else none
]

-- `none` is the answer -1.
unfoldable pub http_arg_long : Bytes → Bytes → Option ℤ
unfolding after_equals
http_arg_long req needle = elim (after_equals req needle) [ none ↦ none | some s ↦ some (atol s) ]

-- The loop that writes a comma for each `%2C`.
unfoldable pub decode : Bytes → Bytes
decode [] = []
decode (c ∷ []) = c ∷ []
decode (c ∷ d ∷ []) = c ∷ d ∷ []
decode (c ∷ d ∷ e ∷ s) =
    let replaced = b',' ∷ decode s in
    let kept = c ∷ decode (d ∷ e ∷ s) in
    if c == b'%' && d == b'2' && e == b'C' then replaced else kept

-- `strstr(p, "%2C")` finds something.
unfoldable pub has_escape : Bytes → Bool
has_escape s = elim (strstr_after s (codes "%2C")) [ none ↦ false | some rest ↦ true ]

-- `http_arg_str` with a buffer of `len` bytes: the string that is left in the buffer, or `none`
-- for the answer -1. The terminating zero goes to index `e - s`, and the first `memmove` reads the
-- byte behind it: both must be inside the buffer. `http_arg_str_in`, below, does to the bytes of the
-- buffer what the code does; this is its specification.
unfoldable pub http_arg_str : Bytes → Bytes → ℕ → Run (Option Bytes)
unfolding after_equals decode has_escape
http_arg_str req needle len = elim (after_equals req needle) [
  | none ↦ done none
  | some s ↦
      let value = before_char b'&' s in
      if ltb len (length value) then done none else do
        assert (ltb (length value) len)
        assert (not (has_escape value) || ltb (length value + 1) len)
        done (some (decode value))
]

-- `memmove(p, p + 2, strlen(p))` on the memory from `p` to the end of the buffer.
unfoldable pub memmove_two : Bytes → Run Bytes
memmove_two m = do
  assert (ltb (length (before_char 0 m)) (length m))
  assert (leb (length (before_char 0 m) + 2) (length m))
  done (take (length (before_char 0 m)) (drop 2 m) ++ drop (length (before_char 0 m)) m)

-- The loop with `strstr` on the memory from `p` on: what is before `p` is not touched again. `strstr`
-- goes on byte by byte up to the zero. With fuel: running out is a crash.
unfoldable pub unescape : ℕ → Bytes → Run Bytes
unescape zero m = crash
unescape (suc k) [] = crash
unescape (suc k) (c ∷ m) = elim (c == 0) [
  | true ↦ done (c ∷ m)
  | false ↦ elim (after_prefix (codes "%2C") (c ∷ m)) [
    | some rest ↦ do m' ← memmove_two m; left ← unescape k m'; done (b',' ∷ left)
    | none ↦ do left ← unescape k m; done (c ∷ left)
  ]
]

-- `memcpy`, and the terminating zero.
unfoldable pub store_value : Bytes → Bytes → Run Bytes
store_value value old = do
  assert (leb (length value) (length old))
  assert (ltb (length value) (length old))
  done (value ++ 0 ∷ drop (suc (length value)) old)

-- The string that is left in the buffer, which holds `old` before the call, or `none` for -1.
unfoldable pub http_arg_str_in : Bytes → Bytes → Bytes → Run (Option Bytes)
unfolding after_equals
http_arg_str_in req needle old = elim (after_equals req needle) [
  | none ↦ done none
  | some s ↦
      let value = before_char b'&' s in
      if ltb (length old) (length value) then done none else do
        m ← store_value value old
        m' ← unescape (suc (length value)) m
        done (some (before_char 0 m'))
]
