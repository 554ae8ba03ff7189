-- ===== src/LiteString/Shrink.antt =====
-- What `string_shrink_to_fit` leaves behind for the next character.
use cachetron.Prelude.{ℕ, ◌+◌, ◌*◌, ◌%◌, ◌<◌, ◌≤◌, ◌≡◌, ◌≢◌, Bool, true, false}
use cachetron.Prelude.{some, arith, length, take, leb, le→leb, gt→leb, ◌==◌, size_mod}
use cachetron.Prelude.Memory.{length-take}
use cachetron.Prelude.Result.{fault, out_of_bounds}
use cachetron.LiteString.{LiteString, string_reserve, string_push_back, string_shrink_to_fit}
use cachetron.LiteString.Append.{IsValid}

-- A string of 1 to 8 bytes in its first array of 16 or more is shrunk to an array of its own
-- length, where the allocation succeeds, and pushing any character but zero then writes behind the
-- end of that array.
pub string_shrink_to_fit-overflow :
    (alloc : ℕ → Bool) (s : LiteString)
    → IsValid s
    → alloc s.size ≡ true
    → 0 < s.size
    → s.size ≤ 8
    → (c : ℕ) → c ≢ 0
    → string_push_back alloc (string_shrink_to_fit alloc (some s)).1 c ≡ fault out_of_bounds
unfolding string_push_back string_shrink_to_fit string_reserve
string_shrink_to_fit-overflow alloc s w given some_in few c real =
    let held : (s.size == 0) ≡ false = ground arith in
    let loose : (s.size == s.capacity) ≡ false = ground (arith, w.least) in
    let char : (c == 0) ≡ false = ground arith in
    let full : (s.size == s.size) ≡ true = ground arith in
    let enough : leb ((s.size * 2) % size_mod) 16 ≡ true = le→leb _ _ (omega arith) in
    let width : length (take s.size s.cells) ≡ s.size =
      length-take s.size s.cells (omega (arith, w.width, w.fits)) in
    let past : leb (s.size + 1) (length (take s.size s.cells)) ≡ false = gt→leb _ _ (omega arith) in
    rw (held, loose, given, char, full, enough, past)
