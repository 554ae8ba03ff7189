-- ===== src/LiteString/Search/First.antt =====
-- `string_find_substr_from` finds the first place at which the second string stands in the first.
use cachetron.Prelude.{
  ℕ, zero, suc, ◌+◌, ◌-◌, ◌^◌, ◌<◌, ◌≤◌, ◌≡◌, refl, sym, ap, ◌∙◌, ◌⊎◌, inl, inr,
}
use cachetron.Prelude.{Bool, true, false, some, List, arith, length, get_or, size_max}
use cachetron.Prelude.{Bool-cases, ltb, ◌==◌, eqb→eq, eqb-false}
use cachetron.Prelude.Result.{ok, at, at-get_or}
use cachetron.LiteString.{LiteString}
use cachetron.LiteString.Search.{matches_from, matches_at, search_up, string_find_substr_from}

-- The `m` bytes of `sub` stand in `cells` at `i`.
pub StandsAt : List ℕ → List ℕ → ℕ → ℕ → Type 0
StandsAt cells sub m i = (j : ℕ) → j < m → get_or cells (i + j) 0 ≡ get_or sub j 0

-- `r` is the first place from `start` on, with the string in the first `limit` bytes.
abbrev pub IsFirst : List ℕ → List ℕ → ℕ → ℕ → ℕ → ℕ → Type 0
IsFirst cells sub m start limit r =
    ((start ≤ r)
      × (r + m ≤ limit)
      × StandsAt cells sub m r
      × ((k : ℕ) → start ≤ k → k < r → StandsAt cells sub m k → ⊥))
    ⊎ ((r ≡ size_max) × ((k : ℕ) → start ≤ k → k + m ≤ limit → StandsAt cells sub m k → ⊥))

-- The answer of a test, and what it says.
abbrev Tells {ℓ} : Bool → Type ℓ → Type ℓ
Tells true P = P
Tells false P = P → ⊥

module _ (cells sub : List ℕ) (m : ℕ) (whole : m ≤ length sub) where
  read_sub : (j : ℕ) → j < m → at sub j ≡ ok (get_or sub j 0)
  read_sub j h = at-get_or sub j 0 (omega arith)

  -- The inner loop from `j` on tells whether the bytes from `j` on agree.
  matches_from-Tells :
      (i n j : ℕ)
      → j + n ≡ m
      → i + m ≤ length cells
      → (b : Bool) × (matches_from cells sub i n j ≡ ok b)
        × Tells b ((k : ℕ) → j ≤ k → k < m → get_or cells (i + k) 0 ≡ get_or sub k 0)
  unfolding matches_from
  matches_from-Tells i zero j e inside = (true, refl, λ k h l. absurd (omega arith))
  matches_from-Tells i (suc n) j e inside =
      let x : at cells (i + j) ≡ ok (get_or cells (i + j) 0) =
        at-get_or cells (i + j) 0 (omega arith) in
      let y = read_sub j (omega arith) in
      let rest = matches_from-Tells i n (j + 1) (omega arith) inside in
      elim (Bool-cases (get_or cells (i + j) 0 == get_or sub j 0)) [
        | inr differ ↦ (
          false,
          rw (x, y, differ),
          λ all. eqb-false _ _ differ (all j (omega arith) (omega arith)),
        )
        | inl same ↦ agree rest x y same
      ]
    where
      agree :
          (b : Bool) × (matches_from cells sub i n (j + 1) ≡ ok b)
            × Tells b ((k : ℕ) → j + 1 ≤ k → k < m → get_or cells (i + k) 0 ≡ get_or sub k 0)
          → at cells (i + j) ≡ ok (get_or cells (i + j) 0)
          → at sub j ≡ ok (get_or sub j 0)
          → (get_or cells (i + j) 0 == get_or sub j 0) ≡ true
          → (b : Bool) × (matches_from cells sub i (suc n) j ≡ ok b)
            × Tells b ((k : ℕ) → j ≤ k → k < m → get_or cells (i + k) 0 ≡ get_or sub k 0)
      agree (true, run, all) x y same = (
        true,
        rw (x, y, same, run),
        λ k h l. elim (at_or_past k h) [ inl e ↦ rw e (eqb→eq _ _ same) | inr past ↦ all k past l ],
      )
        where
          at_or_past : (k : ℕ) → j ≤ k → (k ≡ j) ⊎ (j + 1 ≤ k)
          at_or_past k h = omega arith
      agree (false, run, differ) x y same =
          (false, rw (x, y, same, run), λ all. differ (λ k h l. all k (omega arith) l))

  module _ (some_sub : 0 < m) where
    -- One round of the outer loop tells whether the string stands there.
    matches_at-Tells :
        (i : ℕ)
        → i + m ≤ length cells
        → (b : Bool) × (matches_at cells sub m i ≡ ok b) × Tells b (StandsAt cells sub m i)
    unfolding matches_at StandsAt
    matches_at-Tells i inside =
        let here : i + 0 ≡ i = omega arith in
        let x : at cells i ≡ ok (get_or cells i 0) = at-get_or cells i 0 (omega arith) in
        let y = read_sub 0 some_sub in
        elim (Bool-cases (get_or cells i 0 == get_or sub 0 0)) [
          | inr differ ↦ (
            false,
            rw (x, y, differ),
            λ all. eqb-false _ _ differ (ap (λ k. get_or cells k 0) (sym here) ∙ all 0 some_sub),
          )
          | inl same ↦ rest (matches_from-Tells i (m - 1) 1 (omega arith) inside) x y same here
        ]
      where
        rest :
            (b : Bool) × (matches_from cells sub i (m - 1) 1 ≡ ok b)
              × Tells b ((k : ℕ) → 1 ≤ k → k < m → get_or cells (i + k) 0 ≡ get_or sub k 0)
            → at cells i ≡ ok (get_or cells i 0)
            → at sub 0 ≡ ok (get_or sub 0 0)
            → (get_or cells i 0 == get_or sub 0 0) ≡ true
            → i + 0 ≡ i
            → (b : Bool) × (matches_at cells sub m i ≡ ok b) × Tells b (StandsAt cells sub m i)
        rest (true, run, all) x y same here = (true, rw (x, y, same, run), both)
          where
            both : (k : ℕ) → k < m → get_or cells (i + k) 0 ≡ get_or sub k 0
            both zero l = rw here (eqb→eq _ _ same)
            both (suc k) l = all (suc k) (omega arith) l
        rest (false, run, differ) x y same here =
            (false, rw (x, y, same, run), λ all. differ (λ k h l. all k l))

    moved : (k i : ℕ) → k ≡ i → StandsAt cells sub m k → StandsAt cells sub m i
    unfolding StandsAt
    moved k i e s j h = ap (λ x. get_or cells (x + j) 0) (sym e) ∙ s j h

    at_or_past : (k i : ℕ) → i ≤ k → (k ≡ i) ⊎ (i + 1 ≤ k)
    at_or_past k i h = omega arith

    -- `n` rounds of the outer loop from `i` on.
    search_up-IsFirst :
        (limit : ℕ)
        → limit ≤ length cells
        → (n i : ℕ) → i + n + m ≡ limit + 1
        → (r : ℕ) × (search_up cells sub m n i ≡ ok r) × IsFirst cells sub m i limit r
    unfolding search_up
    search_up-IsFirst limit short zero i e =
        (size_max, refl, inr (refl, λ k h l. absurd (omega arith)))
    search_up-IsFirst limit short (suc n) i e =
        next (matches_at-Tells i (omega arith))
          (search_up-IsFirst limit short n (i + 1) (omega arith))
      where
        next :
            (b : Bool) × (matches_at cells sub m i ≡ ok b) × Tells b (StandsAt cells sub m i)
            → (r : ℕ) × (search_up cells sub m n (i + 1) ≡ ok r)
              × IsFirst cells sub m (i + 1) limit r
            → (r : ℕ) × (search_up cells sub m (suc n) i ≡ ok r) × IsFirst cells sub m i limit r
        next (true, run, here) (r, later, place) =
            (i, rw run, inl (omega arith, omega arith, here, λ k h l. absurd (omega arith)))
        next (false, run, not_here) (r, later, inl (low, high, there, before)) = (
          r,
          rw (run, later),
          inl (
            omega arith,
            high,
            there,
            λ k h l s. elim (at_or_past k i h) [
              | inl e ↦ not_here (moved k i e s)
              | inr past ↦ before k past l s
            ],
          ),
        )
        next (false, run, not_here) (r, later, inr (none_found, nowhere)) = (
          r,
          rw (run, later),
          inr (
            none_found,
            λ k h l s. elim (at_or_past k i h) [
              | inl e ↦ not_here (moved k i e s)
              | inr past ↦ nowhere k past l s
            ],
          ),
        )

-- A search for a string that is not empty stays in the arrays. It answers the first place from
-- `start` on where the string stands within the other, and `SIZE_MAX` where there is none.
pub string_find_substr_from_lem :
    (s t : LiteString) (start : ℕ)
    → s.size ≤ length s.cells
    → t.size ≤ length t.cells
    → 0 < t.size
    → s.size < 2 ^ 63
    → (r : ℕ) × (string_find_substr_from (some s) (some t) start ≡ ok r)
      × IsFirst s.cells t.cells t.size start s.size r
unfolding string_find_substr_from
string_find_substr_from_lem s t start short whole some_t small =
    elim (Bool-cases (ltb start s.size)) [
      | inr out ↦ (size_max, rw out, inr (refl, λ k h l. absurd (ground arith)))
      | inl begins ↦
          let some_sub : (t.size == 0) ≡ false = ground arith in
          elim (Bool-cases (ltb s.size t.size)) [
            | inl longer ↦ (
              size_max,
              rw (begins, some_sub, longer),
              inr (refl, λ k h l. absurd (ground arith)),
            )
            | inr fits ↦ elim (Bool-cases (ltb s.size (start + t.size))) [
              | inl late ↦
                  let no_rounds : s.size - t.size + 1 - start ≡ 0 = ground arith in
                  (
                    size_max,
                    rw (begins, some_sub, fits, no_rounds, search_up),
                    inr (refl, λ k h l. absurd (ground arith)),
                  )
              | inr room ↦
                  let (r, run, first) =
                    search_up-IsFirst s.cells t.cells t.size whole some_t s.size short
                      (s.size - t.size + 1 - start) start (ground arith) in
                  (r, rw (begins, some_sub, fits, run), first)
            ]
          ]
    ]
