-- ===== src/LiteString/Search/Ends.antt =====
-- `string_ends_with` at the lengths where `string_rfind_substr` leaves the comparison astray.
use cachetron.Prelude.{◌+◌, ◌-◌, ◌^◌, ◌<◌, ◌≡◌, true, false}
use cachetron.Prelude.{some, arith, ltb, ◌==◌, size_max, sub_size}
use cachetron.Prelude.Result.{ok}
use cachetron.LiteString.{LiteString}
use cachetron.LiteString.Search.{search_down, string_rfind_substr, string_ends_with}

-- Of two strings of one length, neither empty, the first never ends with the second, even where
-- they are equal: the search stops before index 0.
pub string_ends_with-same_length :
    (s t : LiteString)
    → 0 < s.size
    → t.size ≡ s.size
    → s.size < 2 ^ 63
    → string_ends_with (some s) (some t) ≡ ok false
unfolding string_ends_with string_rfind_substr search_down
string_ends_with-same_length s t some_s e small =
    let some_t : (s.size == 0) ≡ false = ground arith in
    let fits : ltb s.size s.size ≡ false = ground arith in
    let none_left : s.size - s.size ≡ 0 = omega arith in
    let first : sub_size s.size s.size ≡ 0 = omega arith in rw (e, some_t, fits, none_left, first)

-- A string ends with every string that is longer by one: `SIZE_MAX` meets a length that wrapped.
pub string_ends_with-longer :
    (s t : LiteString)
    → t.size ≡ s.size + 1
    → s.size < 2 ^ 63
    → string_ends_with (some s) (some t) ≡ ok true
unfolding string_ends_with string_rfind_substr
string_ends_with-longer s t e small =
    let some_t : (s.size + 1 == 0) ≡ false = ground arith in
    let longer : ltb s.size (s.size + 1) ≡ true = ground arith in
    let wrapped : sub_size s.size (s.size + 1) ≡ size_max = omega arith in
    rw (e, some_t, longer, wrapped)
