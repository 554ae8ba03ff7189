-- ===== src/LiteString/Search.antt =====
-- The searches of lite_string.c. An index that does not exist is `SIZE_MAX`.
pub mod First
pub mod Ends
use cachetron.Prelude.{ℕ, zero, suc, ◌+◌, ◌-◌, ◌%◌, ◌^◌, Bool, true, false, Option, none, some}
use cachetron.Prelude.{List, [], ◌∷◌, ltb, ◌==◌, if◌then◌else◌, not, add_size, sub_size, size_max}
use cachetron.Prelude.Result.{Result, ok, ◌>>=◌, at}
use cachetron.Wire.{strlen}
use cachetron.LiteString.{LiteString, Handle}

-- `for (i = n; i > 0; --i) if (test(data[i - 1])) return i - 1;`
pub last_where : (ℕ → Bool) → List ℕ → ℕ → Result ℕ
last_where test cells zero = ok size_max
last_where test cells (suc i) = do
  x ← at cells i
  let rest = last_where test cells i
  if test x then ok i else rest

-- `n` rounds of `for (...; ++i) if (test(data[i])) return i;` from `i` on
pub first_where : (ℕ → Bool) → List ℕ → ℕ → ℕ → Result ℕ
first_where test cells zero i = ok size_max
first_where test cells (suc n) i = do
  x ← at cells i
  let rest = first_where test cells n (i + 1)
  if test x then ok i else rest

pub string_find_last_of : Handle → ℕ → Result ℕ
unfolding last_where
string_find_last_of none c = ok size_max
string_find_last_of (some s) c =
    if c == 0 then ok size_max else last_where (λ x. x == c) s.cells s.size

pub string_find_last_not_of : Handle → ℕ → Result ℕ
unfolding last_where
string_find_last_not_of none c = ok size_max
string_find_last_not_of (some s) c =
    if c == 0 then ok size_max else last_where (λ x. not (x == c)) s.cells s.size

pub string_find_first_from : Handle → ℕ → ℕ → Result ℕ
unfolding first_where
string_find_first_from none c start = ok size_max
string_find_first_from (some s) c start =
    if c == 0
    then ok size_max
    else if ltb start s.size
    then first_where (λ x. x == c) s.cells (s.size - start) start
    else ok size_max

pub string_find_first_of : Handle → ℕ → Result ℕ
unfolding string_find_first_from
string_find_first_of s c = string_find_first_from s c 0

pub string_find_first_not_of : Handle → ℕ → Result ℕ
unfolding first_where
string_find_first_not_of none c = ok size_max
string_find_first_not_of (some s) c =
    if c == 0 then ok size_max else first_where (λ x. not (x == c)) s.cells s.size 0

pub string_contains_char : Handle → ℕ → Result Bool
unfolding string_find_first_of
string_contains_char s c = do r ← string_find_first_of s c; ok (not (r == size_max))

-- `n` rounds of the inner loop from `j` on: `found`
pub matches_from : List ℕ → List ℕ → ℕ → ℕ → ℕ → Result Bool
matches_from cells sub i zero j = ok true
matches_from cells sub i (suc n) j = do
  x ← at cells (i + j)
  y ← at sub j
  let rest = matches_from cells sub i n (j + 1)
  if x == y then rest else ok false

-- One round of the outer loop: the first bytes, then the others of the `m`.
pub matches_at : List ℕ → List ℕ → ℕ → ℕ → Result Bool
unfolding matches_from
matches_at cells sub m i = do
  x ← at cells i
  y ← at sub 0
  let rest = matches_from cells sub i (m - 1) 1
  if x == y then rest else ok false

-- `n` rounds of the outer loop of the searches from `i` up.
pub search_up : List ℕ → List ℕ → ℕ → ℕ → ℕ → Result ℕ
unfolding matches_at
search_up cells sub m zero i = ok size_max
search_up cells sub m (suc n) i = do
  found ← matches_at cells sub m i
  let rest = search_up cells sub m n (i + 1)
  if found then ok i else rest

-- The outer loop of the searches from `i` down: as written, it stops before index 0.
pub search_down : List ℕ → List ℕ → ℕ → ℕ → Result ℕ
unfolding matches_at
search_down cells sub m zero = ok size_max
search_down cells sub m (suc i) = do
  found ← matches_at cells sub m (suc i)
  let rest = search_down cells sub m i
  if found then ok (suc i) else rest

-- Where `start` is past the last place the loop does not run at all.
pub string_find_substr_from : Handle → Handle → ℕ → Result ℕ
unfolding search_up
string_find_substr_from none sub start = ok size_max
string_find_substr_from (some s) none start = ok size_max
string_find_substr_from (some s) (some sub) start =
    if ltb start s.size
    then (if sub.size == 0
        then ok start
        else if ltb s.size sub.size
        then ok size_max
        else search_up s.cells sub.cells sub.size (s.size - sub.size + 1 - start) start)
    else ok size_max

pub string_find_substr : Handle → Handle → Result ℕ
unfolding string_find_substr_from
string_find_substr s sub = string_find_substr_from s sub 0

pub string_rfind_substr : Handle → Handle → Result ℕ
unfolding search_down
string_rfind_substr none sub = ok size_max
string_rfind_substr (some s) none = ok size_max
string_rfind_substr (some s) (some sub) =
    if sub.size == 0
    then ok s.size
    else if ltb s.size sub.size
    then ok size_max
    else search_down s.cells sub.cells sub.size (s.size - sub.size)

pub string_find_substr_cstr_from : Handle → Option (List ℕ) → ℕ → Result ℕ
unfolding search_up
string_find_substr_cstr_from none cstr start = ok size_max
string_find_substr_cstr_from (some s) none start = ok size_max
string_find_substr_cstr_from (some s) (some cstr) start = do
  len ← strlen cstr
  if len == 0
      then ok start
      else if ltb s.size len
      then ok size_max
      else if ltb start s.size
      then search_up s.cells cstr len (s.size - len + 1 - start) start
      else ok size_max

pub string_rfind_substr_cstr : Handle → Option (List ℕ) → Result ℕ
unfolding search_down
string_rfind_substr_cstr none cstr = ok size_max
string_rfind_substr_cstr (some s) none = ok size_max
string_rfind_substr_cstr (some s) (some cstr) = do
  len ← strlen cstr
  if len == 0
      then ok s.size
      else if ltb s.size len
      then ok size_max
      else search_down s.cells cstr len (s.size - len)

pub string_find_substr_cstr : Handle → Option (List ℕ) → Result ℕ
unfolding string_find_substr_cstr_from
string_find_substr_cstr s cstr = string_find_substr_cstr_from s cstr 0

pub string_contains : Handle → Handle → Result Bool
unfolding string_find_substr
string_contains s sub = do r ← string_find_substr s sub; ok (not (r == size_max))

pub string_contains_cstr : Handle → Option (List ℕ) → Result Bool
unfolding string_find_substr_cstr
string_contains_cstr s cstr = do r ← string_find_substr_cstr s cstr; ok (not (r == size_max))

pub string_starts_with : Handle → Handle → Result Bool
unfolding string_find_substr
string_starts_with s sub = do r ← string_find_substr s sub; ok (r == 0)

pub string_starts_with_cstr : Handle → Option (List ℕ) → Result Bool
unfolding string_find_substr_cstr
string_starts_with_cstr s cstr = do r ← string_find_substr_cstr s cstr; ok (r == 0)

-- `s->size - sub->size` wraps where the second string is the longer one.
pub string_ends_with : Handle → Handle → Result Bool
unfolding string_rfind_substr
string_ends_with none sub = ok false
string_ends_with (some s) none = ok false
string_ends_with (some s) (some sub) = do
  r ← string_rfind_substr (some s) (some sub)
  ok (r == sub_size s.size sub.size)

pub string_ends_with_cstr : Handle → Option (List ℕ) → Result Bool
unfolding string_rfind_substr_cstr
string_ends_with_cstr none cstr = ok false
string_ends_with_cstr (some s) none = ok false
string_ends_with_cstr (some s) (some cstr) = do
  r ← string_rfind_substr_cstr (some s) (some cstr)
  len ← strlen cstr
  ok (r == sub_size s.size len)
