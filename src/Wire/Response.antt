-- ===== src/Wire/Response.antt =====
-- The answers of server.c: `out_nil` to `end_arr`, which write to the string `out` and do not look
-- at what the writes answer. `code` and `val` are the words that hold the signed numbers.
pub mod Encode
pub mod Writes
pub mod Errors
use cachetron.Prelude.{ℕ, zero, suc, ◌+◌, ◌-◌, ◌*◌, ◌%◌, ◌^◌, Bool, true, false, Option, none, some}
use cachetron.Prelude.{List, [], ◌∷◌, ◌==◌, if◌then◌else◌, add_size, size_mod, replicate}
use cachetron.Prelude.Memory.{store, write_range}
use cachetron.Prelude.Result.{Result, ok, fault, assertion, ◌>>=◌, at, deref}
use cachetron.LiteString.{LiteString, Handle, string_reserve, copy_behind, string_append_cstr}
use cachetron.LiteString.{string_length}
use cachetron.Wire.{bytes_of, strlen}

-- The tags of common.h.
abbrev pub ser_nil : ℕ
ser_nil = 0

abbrev pub ser_err : ℕ
ser_err = 1

abbrev pub ser_str : ℕ
ser_str = 2

abbrev pub ser_int : ℕ
ser_int = 3

abbrev pub ser_dbl : ℕ
ser_dbl = 4

abbrev pub ser_arr : ℕ
ser_arr = 5

-- A call whose answer is not looked at.
abbrev pub string_of : Result (Bool × Handle) → Result Handle
string_of r = r >>= λ (_, s). ok s

-- `s->data[s->size++] = c;`
pub store_last : Bool × Handle → ℕ → Result (Bool × Handle)
store_last (_, none) c = ok (false, none)
store_last (false, some s) c = ok (false, some s)
store_last (true, some s) c = do
  cells ← store s.cells s.size c
  ok (true, some (record s { cells = cells; size = add_size s.size 1 }))

module _ (alloc : ℕ → Bool) where
  pub string_append_cstr_range_bin : Handle → Option (List ℕ) → ℕ → Result (Bool × Handle)
  string_append_cstr_range_bin none cstr count = ok (false, none)
  string_append_cstr_range_bin (some s) none count = ok ((count == 0), some s)
  string_append_cstr_range_bin (some s) (some cstr) count =
      if count == 0
      then ok (true, some s)
      else copy_behind (string_reserve alloc (some s) (add_size s.size count)) cstr count

  pub string_push_back_bin : Handle → ℕ → Result (Bool × Handle)
  string_push_back_bin none c = ok (false, none)
  string_push_back_bin (some s) c =
      store_last
        (if s.size == s.capacity
          then string_reserve alloc (some s) ((s.capacity * 2) % size_mod)
          else (true, some s))
        c

  abbrev pub push : ℕ → Handle → Result Handle
  push c out = string_of (string_push_back_bin out c)

  abbrev pub append : List ℕ → ℕ → Handle → Result Handle
  append bytes count out = string_of (string_append_cstr_range_bin out (some bytes) count)

  pub out_nil : Handle → Result Handle
  out_nil out = push ser_nil out

  -- `val` is the array of the string, and `size` becomes a `uint32_t`.
  pub out_str : Handle → List ℕ → ℕ → Result Handle
  out_str out val size = do
    out₁ ← push ser_str out
    out₂ ← append (bytes_of 4 size) 4 out₁
    append val size out₂

  pub out_int : Handle → ℕ → Result Handle
  out_int out val = do out₁ ← push ser_int out; append (bytes_of 8 val) 8 out₁

  pub out_dbl : Handle → ℕ → Result Handle
  out_dbl out val = do out₁ ← push ser_dbl out; append (bytes_of 8 val) 8 out₁

  -- `msg` is the message with its terminator.
  pub out_err : Handle → ℕ → List ℕ → Result Handle
  out_err out code msg = do
    out₁ ← push ser_err out
    out₂ ← append (bytes_of 4 code) 4 out₁
    len ← strlen msg
    out₃ ← append (bytes_of 4 len) 4 out₂
    string_of (string_append_cstr alloc out₃ (some msg))

  pub out_arr : Handle → ℕ → Result Handle
  out_arr out n = do out₁ ← push ser_arr out; append (bytes_of 4 n) 4 out₁

  -- The string, and the place at which the length of the array is to stand.
  pub begin_arr : Handle → Result (Handle × ℕ)
  begin_arr out = do
    out₁ ← push ser_arr out
    out₂ ← append (replicate 4 0) 4 out₁
    ok (out₂, string_length out₂ - 4)

pub end_arr : Handle → ℕ → ℕ → Result Handle
end_arr out ctx n = do
  s ← deref out
  tag ← at s.cells (ctx - 1)
  if tag == ser_arr
      then (do
        cells ← write_range s.cells ctx (bytes_of 4 n)
        ok (some (record s { cells = cells })))
      else fault assertion
