-- ===== src/Wire/Request.antt =====
-- `parse_req` of server.c, with allocations that succeed, and `send_req` of client.c up to its call
-- of `write_all`.
pub mod RoundTrip
pub mod Send
pub mod Overrun
pub mod Safety
use cachetron.Prelude.{
  ℕ, zero, suc, ◌+◌, ◌*◌, ◌%◌, ◌^◌, ◌≤◌, List, [], ◌∷◌, ◌++◌, Option, none, some,
}
use cachetron.Prelude.{length, ltb, leb, ◌==◌, if◌then◌else◌, drop, replicate}
use cachetron.Prelude.Memory.{read_range, write_range}
use cachetron.Prelude.Result.{Result, ok, ◌>>=◌}
use cachetron.Wire.{bytes_of, read_word, strlen}

abbrev pub k_max_msg : ℕ
k_max_msg = 4096

abbrev pub k_max_args : ℕ
k_max_args = 1024

-- `string_append_cstr_range` on a new string: it appends nothing where the C string is shorter.
pub append_arg : List ℕ → ℕ → ℕ → Result (List ℕ)
append_arg cells pos sz =
    if sz == 0
    then ok []
    else do n ← strlen (drop pos cells); if leb sz n then read_range cells pos sz else ok []

-- The loop over the arguments, with those left; `none` is the answer -1.
pub parse_args : ℕ → List ℕ → ℕ → ℕ → List (List ℕ) → Result (Option (ℕ × List (List ℕ)))
unfolding append_arg
parse_args zero cells len pos out = ok (some (pos, out))
parse_args (suc n) cells len pos out = if ltb len (pos + 4) then ok none else (do
  sz ← read_word 4 cells pos
  let rest = append_arg cells (pos + 4) sz >>= λ arg.
      parse_args n cells len (pos + 4 + sz) (out ++ arg ∷ [])
  if ltb len (pos + 4 + sz) then ok none else rest)

-- The end of `parse_req`: nothing may trail the last argument.
pub whole : ℕ → Option (ℕ × List (List ℕ)) → Option (List (List ℕ))
whole len none = none
whole len (some (pos, out)) = if pos == len then some out else none

-- `cells` is the buffer from the request's first byte on, and may go on behind the `len` bytes.
unfoldable pub parse_req : List ℕ → ℕ → Result (Option (List (List ℕ)))
unfolding parse_args whole
parse_req cells len = if ltb len 4 then ok none else do
  n ← read_word 4 cells 0
  if ltb k_max_args n
      then ok none
      else do parsed ← parse_args n cells len 4 []; ok (whole len parsed)

-- `len += 4 + string_length(...)` for each argument, as a `uint32_t`
pub add_lengths : ℕ → List (List ℕ) → ℕ
add_lengths len [] = len
add_lengths len (s ∷ cmd) = add_lengths ((len + (4 + length s)) % 2 ^ 32) cmd

-- What the second loop writes from `wbuf[8]` on, as one list.
unfoldable pub write_args : List (List ℕ) → List ℕ
write_args [] = []
write_args (s ∷ cmd) = bytes_of 4 (length s) ++ (s ++ write_args cmd)

-- `strbuf` after `string_copy_buffer`, which leaves it as it was for an empty string. What the local
-- arrays hold before they are written is never sent; it is zeros here.
pub fill_strbuf : List ℕ → Result (List ℕ)
fill_strbuf [] = ok (replicate k_max_msg 0)
fill_strbuf (c ∷ s) = write_range (replicate k_max_msg 0) 0 ((c ∷ s) ++ 0 ∷ [])

-- The second loop, with `wbuf` and `cur`; a write that leaves `strbuf` or `wbuf` is a fault.
unfoldable pub copy_args : List (List ℕ) → List ℕ → ℕ → Result (List ℕ)
unfolding fill_strbuf
copy_args [] wbuf cur = ok wbuf
copy_args (s ∷ cmd) wbuf cur = do
  let p = length s % 2 ^ 32
  strbuf ← fill_strbuf s
  sized ← write_range wbuf cur (bytes_of 4 p)
  text ← read_range strbuf 0 p
  wbuf' ← write_range sized (cur + 4) text
  copy_args cmd wbuf' (cur + (4 + p))

-- The bytes handed to `write_all`, or `none` for -1.
unfoldable pub send_req : List (List ℕ) → Result (Option (List ℕ))
unfolding add_lengths copy_args
send_req cmd =
    let len = add_lengths 4 cmd in
    if ltb k_max_msg len then ok none else (do
      with_len ← write_range (replicate (4 + k_max_msg) 0) 0 (bytes_of 4 len)
      with_n ← write_range with_len 4 (bytes_of 4 (length cmd % 2 ^ 32))
      wbuf ← copy_args cmd with_n 8
      bytes ← read_range wbuf 0 (4 + len)
      ok (some bytes))
