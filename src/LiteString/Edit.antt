-- ===== src/LiteString/Edit.antt =====
-- The insertions of lite_string.c.
use cachetron.Prelude.{ℕ, ◌+◌, ◌-◌, ◌*◌, ◌%◌, Bool, true, false, Option, none, some}
use cachetron.Prelude.{List, [], ◌∷◌, ltb, leb, ◌==◌, if◌then◌else◌, ◌&&◌, add_size, size_mod}
use cachetron.Prelude.Memory.{read_range, write_range, memmove}
use cachetron.Prelude.Result.{Result, ok, ◌>>=◌}
use cachetron.Wire.{strlen}
use cachetron.LiteString.{LiteString, Handle, string_reserve, string_push_back, string_append_range}
use cachetron.LiteString.{string_append_cstr_range}

-- The `memmove` that opens a gap at `index`, and the `memcpy` into it.
pub fill_gap : Bool × Handle → List ℕ → ℕ → ℕ → Result (Bool × Handle)
fill_gap (_, none) bytes index count = ok (false, none)
fill_gap (false, some s) bytes index count = ok (false, some s)
fill_gap (true, some s) bytes index count = do
  moved ← memmove s.cells (index + count) index (s.size - index)
  new ← read_range bytes 0 count
  cells ← write_range moved index new
  ok (true, some (record s { cells = cells; size = add_size s.size count }))

module _ (alloc : ℕ → Bool) where
  -- `if (s->size + count >= s->capacity) if (!string_reserve(s, s->size + count)) return false;`
  pub room_for : LiteString → ℕ → Bool × Handle
  room_for s count =
      let size = add_size s.size count in
      if leb s.capacity size then string_reserve alloc (some s) size else (true, some s)

  pub string_insert_range : Handle → Handle → ℕ → ℕ → Result (Bool × Handle)
  unfolding room_for fill_gap
  string_insert_range none sub index count = ok (false, none)
  string_insert_range (some s) none index count = ok (false, some s)
  string_insert_range (some s) (some sub) index count =
      if count == 0
      then ok (true, some s)
      else if leb count sub.size
      then (if ltb index s.size
          then fill_gap (room_for s count) sub.cells index count
          else if (index == 0) && (s.size == 0)
          then string_append_range alloc (some s) (some sub) count
          else ok (false, some s))
      else ok (false, some s)

  pub string_insert_string : Handle → Handle → ℕ → Result (Bool × Handle)
  unfolding string_insert_range
  string_insert_string s none index = ok (false, s)
  string_insert_string s (some sub) index = string_insert_range s (some sub) index sub.size

  pub string_insert_cstr_range : Handle → Option (List ℕ) → ℕ → ℕ → Result (Bool × Handle)
  unfolding room_for fill_gap
  string_insert_cstr_range none cstr index count = ok (false, none)
  string_insert_cstr_range (some s) none index count = ok (false, some s)
  string_insert_cstr_range (some s) (some cstr) index count =
      if count == 0 then ok (true, some s) else do
        n ← strlen cstr
        if leb count n
            then (if ltb index s.size
                then fill_gap (room_for s count) cstr index count
                else if index == s.size
                then string_append_cstr_range alloc (some s) (some cstr) count
                else ok (false, some s))
            else ok (false, some s)

  pub string_insert_cstr : Handle → Option (List ℕ) → ℕ → Result (Bool × Handle)
  unfolding string_insert_cstr_range
  string_insert_cstr s none index = ok (false, s)
  string_insert_cstr s (some cstr) index = do
    n ← strlen cstr
    string_insert_cstr_range s (some cstr) index n

  -- A character is a gap of one.
  pub string_insert : Handle → ℕ → ℕ → Result (Bool × Handle)
  unfolding fill_gap
  string_insert none index c = ok (false, none)
  string_insert (some s) index c =
      if c == 0
      then ok (false, some s)
      else if ltb index s.size
      then fill_gap
          (if s.size == s.capacity
            then string_reserve alloc (some s) ((s.capacity * 2) % size_mod)
            else (true, some s))
          (c ∷ []) index 1
      else if (index == 0) && (s.size == 0)
      then string_push_back alloc (some s) c
      else ok (false, some s)
