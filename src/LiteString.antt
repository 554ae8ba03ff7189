-- ===== src/LiteString.antt =====
-- data_structures/string/lite_string.{h,c}: a growing string with its length. `cells` is the array
-- `data` of bytes, `alloc n` tells whether an allocation of `n` bytes succeeds. A C string is a buffer
-- with its terminator; `restrict` says that two arguments never share storage.
pub mod Edit
pub mod Compare
pub mod Search
pub mod Append
pub mod Shrink
use cachetron.Prelude.{ℕ, zero, suc, ◌+◌, ◌-◌, ◌*◌, ◌%◌, ◌^◌, Bool, true, false, Option, none, some}
use cachetron.Prelude.{List, [], ◌∷◌, ◌++◌, ltb, leb, ◌==◌, if◌then◌else◌, add_size, size_mod}
use cachetron.Prelude.{replicate, take, drop, ◌&&◌}
use cachetron.Prelude.Clp2.{clp2}
use cachetron.Prelude.Memory.{read_range, write_range, memmove, store}
use cachetron.Prelude.Result.{Result, ok, ◌>>=◌, at, deref}
use cachetron.Wire.{strlen}

pub record LiteString : Type 0 where
  pub cells : List ℕ
  pub size : ℕ
  pub capacity : ℕ

-- A string pointer, null or not.
abbrev pub Handle : Type 0
Handle = Option LiteString

-- The bytes of a string.
abbrev pub contents : LiteString → List ℕ
contents s = take s.size s.cells

pub string_at : Handle → ℕ → Result ℕ
string_at none index = ok 0
string_at (some s) index = if ltb index s.size then at s.cells index else ok 0

pub string_pop_back : Handle → Result Handle
string_pop_back none = ok none
string_pop_back (some s) = if s.size == 0 then ok (some s) else do
  cells ← store s.cells (s.size - 1) 0
  ok (some (record s { cells = cells; size = s.size - 1 }))

pub string_empty : Handle → Bool
string_empty none = true
string_empty (some s) = s.size == 0

pub string_back : Handle → Result ℕ
string_back none = ok 0
string_back (some s) = if s.size == 0 then ok 0 else at s.cells (s.size - 1)

pub string_front : Handle → Result ℕ
string_front none = ok 0
string_front (some s) = if s.size == 0 then ok 0 else at s.cells 0

unfoldable pub string_length : Handle → ℕ
string_length none = 0
string_length (some s) = s.size

pub string_capacity : Handle → ℕ
string_capacity none = 0
string_capacity (some s) = s.capacity

unfoldable pub string_clear : Handle → Result Handle
string_clear none = ok none
string_clear (some s) = if s.size == 0 then ok (some s) else do
  cells ← write_range s.cells 0 (replicate s.size 0)
  ok (some (record s { cells = cells; size = 0 }))

pub string_erase : Handle → ℕ → Result (Bool × Handle)
string_erase none index = ok (false, none)
string_erase (some s) index =
    if ltb index s.size
    then (do
      moved ← memmove s.cells index (index + 1) (s.size - index)
      cells ← store moved (s.size - 1) 0
      ok (true, some (record s { cells = cells; size = s.size - 1 })))
    else ok (false, some s)

pub string_set : Handle → ℕ → ℕ → Result Handle
string_set none index c = ok none
string_set (some s) index c =
    if c == 0
    then ok (some s)
    else if ltb index s.size
    then (do cells ← store s.cells index c; ok (some (record s { cells = cells })))
    else ok (some s)

pub string_shrink : Handle → ℕ → Result (Bool × Handle)
string_shrink none size = ok (false, none)
string_shrink (some s) size =
    if ltb size s.size
    then (do
      cells ← store s.cells size 0
      ok (true, some (record s { cells = cells; size = size })))
    else ok (false, some s)

-- The first string takes the second's storage and the other way round.
pub string_swap : Handle → Handle → Bool × Handle × Handle
string_swap none s2 = (false, none, s2)
string_swap (some s1) none = (false, some s1, none)
string_swap (some s1) (some s2) = (true, some s2, some s1)

-- `memcpy(s->data + s->size, bytes, count); s->size += count;`
pub copy_behind : Bool × Handle → List ℕ → ℕ → Result (Bool × Handle)
copy_behind (_, none) bytes count = ok (false, none)
copy_behind (false, some s) bytes count = ok (false, some s)
copy_behind (true, some s) bytes count = do
  new ← read_range bytes 0 count
  cells ← write_range s.cells s.size new
  ok (true, some (record s { cells = cells; size = add_size s.size count }))

module _ (alloc : ℕ → Bool) where
  -- The struct takes 24 bytes.
  unfoldable pub string_new : Handle
  string_new =
      if alloc 24 && alloc 16
      then some (record { cells = replicate 16 0; size = 0; capacity = 16 })
      else none

  -- `realloc` and the `memset` of what lies behind the string.
  pub string_reserve : Handle → ℕ → Bool × Handle
  string_reserve none size = (false, none)
  string_reserve (some s) size =
      if leb size 16
      then (true, some s)
      else if leb s.capacity (clp2 size)
      then (if alloc (clp2 size)
          then (
            true,
            some (record s {
              cells = take s.size s.cells ++ replicate (clp2 size - s.size) 0;
              capacity = clp2 size;
            }),
          )
          else (false, some s))
      else (true, some s)

  pub string_append_range : Handle → Handle → ℕ → Result (Bool × Handle)
  unfolding string_reserve copy_behind
  string_append_range none s2 count = ok (false, none)
  string_append_range (some s1) none count = ok ((count == 0), some s1)
  string_append_range (some s1) (some s2) count =
      if count == 0
      then ok (true, some s1)
      else if leb count s2.size
      then copy_behind (string_reserve (some s1) (add_size s1.size count)) s2.cells count
      else ok (false, some s1)

  pub string_append : Handle → Handle → Result (Bool × Handle)
  unfolding string_append_range
  string_append s1 none = ok (false, s1)
  string_append s1 (some s2) = string_append_range s1 (some s2) s2.size

  unfoldable pub string_append_cstr_range : Handle → Option (List ℕ) → ℕ → Result (Bool × Handle)
  unfolding string_reserve copy_behind
  string_append_cstr_range none cstr count = ok (false, none)
  string_append_cstr_range (some s) none count = ok ((count == 0), some s)
  string_append_cstr_range (some s) (some cstr) count = if count == 0 then ok (true, some s) else do
    n ← strlen cstr
    if leb count n
        then copy_behind (string_reserve (some s) (add_size s.size count)) cstr count
        else ok (false, some s)

  -- `strlen` of a null pointer is a fault of its own.
  unfoldable pub string_append_cstr : Handle → Option (List ℕ) → Result (Bool × Handle)
  unfolding string_append_cstr_range
  string_append_cstr s cstr = do
    bytes ← deref cstr
    n ← strlen bytes
    string_append_cstr_range s (some bytes) n

  pub string_push_back : Handle → ℕ → Result (Bool × Handle)
  unfolding string_reserve
  string_push_back none c = ok (false, none)
  string_push_back (some s) c =
      if c == 0
      then ok (false, some s)
      else put_last
          (if s.size == s.capacity
            then string_reserve (some s) ((s.capacity * 2) % size_mod)
            else (true, some s))
          c
    where
      put_last : Bool × Handle → ℕ → Result (Bool × Handle)
      put_last (_, none) c = ok (false, none)
      put_last (false, some s) c = ok (false, some s)
      put_last (true, some s) c = do
        cells ← store s.cells s.size c
        ok (true, some (record s { cells = cells; size = add_size s.size 1 }))

  -- `realloc` of the array to the string's length.
  pub string_shrink_to_fit : Handle → Bool × Handle
  string_shrink_to_fit none = (false, none)
  string_shrink_to_fit (some s) =
      if s.size == 0
      then (true, some s)
      else if s.size == s.capacity
      then (true, some s)
      else if alloc s.size
      then (true, some (record s { cells = take s.size s.cells; capacity = s.size }))
      else (false, some s)
