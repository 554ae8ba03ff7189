-- ===== src/LiteString/Compare.antt =====
-- Comparisons and copies of lite_string.c. `same_case a b n` stands for `strncasecmp(a, b, n) == 0`.
pub mod Equal
use cachetron.Prelude.{ℕ, Bool, true, false, Option, none, some}
use cachetron.Prelude.{List, [], ◌∷◌, ◌++◌, ltb, ◌==◌, if◌then◌else◌, ◌&&◌, add_size, sub_size}
use cachetron.Prelude.Memory.{read_range, write_range}
use cachetron.Prelude.Result.{Result, ok, ◌>>=◌}
use cachetron.Wire.{strlen}
use cachetron.LiteString.{LiteString, Handle, string_empty, string_new, string_reserve}

-- `memcmp(...) == 0` on what was read.
unfoldable pub same_bytes : List ℕ → List ℕ → Bool
same_bytes [] [] = true
same_bytes [] (y ∷ ys) = false
same_bytes (x ∷ xs) [] = false
same_bytes (x ∷ xs) (y ∷ ys) = (x == y) && same_bytes xs ys

pub string_compare : Handle → Handle → Result Bool
unfolding same_bytes
string_compare none s2 = ok false
string_compare (some s1) none = ok false
string_compare (some s1) (some s2) =
    if s1.size == s2.size
    then (do
      a ← read_range s1.cells 0 s1.size
      b ← read_range s2.cells 0 s1.size
      ok (same_bytes a b))
    else ok false

pub string_compare_cstr : Handle → Option (List ℕ) → Result Bool
unfolding same_bytes
string_compare_cstr none cstr = ok false
string_compare_cstr (some s) none = ok false
string_compare_cstr (some s) (some cstr) = do
  n ← strlen cstr
  if s.size == n
      then (do a ← read_range s.cells 0 s.size; b ← read_range cstr 0 s.size; ok (same_bytes a b))
      else ok false

module _ (same_case : List ℕ → List ℕ → ℕ → Bool) where
  pub string_case_compare : Handle → Handle → Bool
  string_case_compare none s2 = false
  string_case_compare (some s1) none = false
  string_case_compare (some s1) (some s2) =
      (s1.size == s2.size) && same_case s1.cells s2.cells s1.size

  pub string_case_compare_cstr : Handle → Option (List ℕ) → Result Bool
  string_case_compare_cstr none cstr = ok false
  string_case_compare_cstr (some s) none = ok false
  string_case_compare_cstr (some s) (some cstr) = do
    n ← strlen cstr
    ok ((s.size == n) && same_case s.cells cstr s.size)

-- `buf` is the array that the caller gives.
pub string_copy_buffer : Handle → Option (List ℕ) → Result (Bool × Option (List ℕ))
string_copy_buffer none buf = ok (false, buf)
string_copy_buffer (some s) none = ok (false, none)
string_copy_buffer (some s) (some buf) = if string_empty (some s) then ok (false, some buf) else do
  bytes ← read_range s.cells 0 s.size
  copied ← write_range buf 0 bytes
  ended ← write_range copied s.size (0 ∷ [])
  ok (true, some ended)

module _ (alloc : ℕ → Bool) where
  pub string_cstr : Handle → Result (Option (List ℕ))
  string_cstr none = ok none
  string_cstr (some s) =
      if alloc (add_size s.size 1)
      then (do bytes ← read_range s.cells 0 s.size; ok (some (bytes ++ 0 ∷ [])))
      else ok none

  -- The end of `string_substr`, with the new string and what `string_reserve` made of it.
  pub fill_substr : LiteString → ℕ → ℕ → Bool × Handle → Result Handle
  fill_substr s start len (_, none) = ok none
  fill_substr s start len (false, some sub) = ok none
  fill_substr s start len (true, some sub) = do
    bytes ← read_range s.cells start len
    cells ← write_range sub.cells 0 bytes
    ok (some (record sub { cells = cells; size = len }))

  pub string_substr : Handle → ℕ → ℕ → Result Handle
  unfolding fill_substr
  string_substr none start len = ok none
  string_substr (some s) start len =
      if len == 0
      then ok none
      else if ltb s.size (sub_size (add_size start len) 1)
      then ok none
      else fill_substr s start len (string_reserve alloc (string_new alloc) len)

  pub fill_concat : LiteString → LiteString → Bool × Handle → Result Handle
  fill_concat s1 s2 (_, none) = ok none
  fill_concat s1 s2 (false, some s) = ok none
  fill_concat s1 s2 (true, some s) = do
    first ← read_range s1.cells 0 s1.size
    copied ← write_range s.cells 0 first
    second ← read_range s2.cells 0 s2.size
    cells ← write_range copied s1.size second
    ok (some (record s { cells = cells; size = add_size s1.size s2.size }))

  pub string_concat : Handle → Handle → Result Handle
  unfolding fill_concat
  string_concat none s2 = ok none
  string_concat (some s1) none = ok none
  string_concat (some s1) (some s2) =
      fill_concat s1 s2 (string_reserve alloc (string_new alloc) (add_size s1.size s2.size))

  -- The end of `string_copy`, with what `string_reserve` made of the target.
  pub fill_copy : LiteString → Bool × Handle → Result (Bool × Handle)
  fill_copy src (_, none) = ok (false, none)
  fill_copy src (false, some dest) = ok (false, some dest)
  fill_copy src (true, some dest) = do
    bytes ← read_range src.cells 0 src.size
    cells ← write_range dest.cells 0 bytes
    ok (true, some (record dest { cells = cells; size = src.size }))

  -- The array of a string is never null.
  pub string_copy : Handle → Handle → Result (Bool × Handle)
  unfolding fill_copy
  string_copy none dest = ok (false, dest)
  string_copy (some src) none = ok (false, none)
  string_copy (some src) (some dest) = fill_copy src (
      if ltb dest.size src.size
      then string_reserve alloc (some dest) src.size
      else (true, some dest))
