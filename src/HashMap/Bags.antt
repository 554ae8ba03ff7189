-- ===== src/HashMap/Bags.antt =====
-- Counting the nodes of a table by a test, and what a write to one bucket does to the count.
use cachetron.Prelude.{ℕ, zero, suc, ◌+◌, ◌-◌, ◌<◌, ◌≤◌, ◌≡◌, ◌≢◌, refl, ap, Bool, true, false}
use cachetron.Prelude.{List, [], ◌∷◌, flatten, none, some, arith}
use cachetron.Prelude.{length, get_or, set, remove_at, replicate, count, count-append, to_nat}
use cachetron.Prelude.{All, Bool-cases, inl, inr}
use cachetron.Prelude.Result.{ok, at}
use cachetron.HashMap.{HNode, find_from}

module _ {ℓ} {A : Type ℓ} (p : A → Bool) where
  pub count-flatten-set :
      (tab : List (List A)) (i : ℕ) (c : List A)
      → i < length tab
      → count p (flatten (set tab i c)) + count p (get_or tab i [])
        ≡ count p (flatten tab) + count p c
  unfolding flatten
  count-flatten-set [] i c h = absurd (omega arith)
  count-flatten-set (x ∷ tab) zero c h =
      omega (arith, count-append p c (flatten tab), count-append p x (flatten tab))
  count-flatten-set (x ∷ tab) (suc i) c h = omega (
    arith,
    count-append p x (flatten (set tab i c)),
    count-append p x (flatten tab),
    count-flatten-set tab i c (omega arith),
  )

  pub count-flatten_none :
      (tab : List (List A)) → ((i : ℕ) → count p (get_or tab i []) ≡ 0) → count p (flatten tab) ≡ 0
  unfolding flatten
  count-flatten_none [] h = refl
  count-flatten_none (x ∷ tab) h =
      omega (arith, count-append p x (flatten tab), h 0, count-flatten_none tab (λ i. h (suc i)))

  -- Where one bucket alone can hold nodes that pass, its count is the table's.
  pub count-flatten_only :
      (tab : List (List A)) (j : ℕ)
      → ((i : ℕ) → i ≢ j → count p (get_or tab i []) ≡ 0)
      → count p (flatten tab) ≡ count p (get_or tab j [])
  unfolding flatten
  count-flatten_only [] j h = refl
  count-flatten_only (x ∷ tab) zero h =
      omega (
        arith,
        count-append p x (flatten tab),
        count-flatten_none tab (λ i. h (suc i) (omega arith)),
      )
  count-flatten_only (x ∷ tab) (suc j) h = omega (
    arith,
    count-append p x (flatten tab),
    h 0 (omega arith),
    count-flatten_only tab j (λ i ne. h (suc i) (λ e. ne (omega arith))),
  )

  pub count-flatten-ge :
      (tab : List (List A)) (i : ℕ) → count p (get_or tab i []) ≤ count p (flatten tab)
  unfolding flatten
  count-flatten-ge [] i = omega arith
  count-flatten-ge (x ∷ tab) zero = omega (arith, count-append p x (flatten tab))
  count-flatten-ge (x ∷ tab) (suc i) =
      omega (arith, count-append p x (flatten tab), count-flatten-ge tab i)

  pub count-flatten-replicate : (n : ℕ) → count p (flatten (replicate n [])) ≡ 0
  unfolding flatten
  count-flatten-replicate zero = refl
  count-flatten-replicate (suc n) = count-flatten-replicate n

  pub count_none : (xs : List A) → All (λ x. p x ≡ false) xs → count p xs ≡ 0
  count_none [] h = refl
  count_none (x ∷ xs) h = omega (arith, ap to_nat h.0, count_none xs h.1)

module _ {ℓ} {A : Type ℓ} (q : A → Bool) where
  -- Taking out the entry at `j` lowers each count by what that entry adds.
  pub count-remove_at :
      (xs : List A) (j : ℕ) (x : A)
      → at xs j ≡ ok x
      → count q (remove_at xs j) + to_nat (q x) ≡ count q xs
  count-remove_at [] j x e = cc
  count-remove_at (y ∷ xs) zero x e = ground arith
  count-remove_at (y ∷ xs) (suc j) x e = ground (arith, count-remove_at xs j x e)

module _ {ℓ κ} {A : Type ℓ} (P : A → Type κ) where
  pub All-remove_at : (xs : List A) (j : ℕ) → All P xs → All P (remove_at xs j)
  All-remove_at [] j h = h
  All-remove_at (x ∷ xs) zero h = h.1
  All-remove_at (x ∷ xs) (suc j) h = (h.0, All-remove_at xs j h.1)

module _ {ℓ} {A : Type ℓ} (p : HNode A → Bool) where
  -- A search that fails has passed over no node that meets the test.
  pub find_from-none : (j : ℕ) (c : List (HNode A)) → find_from p j c ≡ none → count p c ≡ 0
  unfolding find_from
  find_from-none j [] h = refl
  find_from-none j (n ∷ c) h = ground (arith, find_from-none (j + 1) c)

  -- One that succeeds gives the place of a node that does.
  pub find_from-some :
      (j k : ℕ) (c : List (HNode A))
      → find_from p j c ≡ some k
      → (n : HNode A) × (j ≤ k) × (at c (k - j) ≡ ok n) × (p n ≡ true)
  unfolding find_from
  find_from-some j k [] h = cc
  find_from-some j k (n ∷ c) h = elim (Bool-cases (p n)) [
    | inl e ↦ (n, ground arith, ground arith, e)
    | inr e ↦
        let (m, le, here, hit) = find_from-some (j + 1) k c (rw e at h) in
        let step : k - j ≡ suc (k - (j + 1)) = omega arith in (m, omega arith, rw step here, hit)
  ]

-- A write keeps what holds of each bucket, if it holds of the new chain.
pub All-set {ℓ κ} :
    {A : Type ℓ} (Q : ℕ → A → Type κ) (tab : List (List A)) (j : ℕ) (c : List A)
    → ((i : ℕ) → All (Q i) (get_or tab i []))
    → All (Q j) c
    → (i : ℕ) → All (Q i) (get_or (set tab j c) i [])
All-set Q [] j c h hc i = h i
All-set Q (x ∷ tab) zero c h hc zero = hc
All-set Q (x ∷ tab) zero c h hc (suc i) = h (suc i)
All-set Q (x ∷ tab) (suc j) c h hc zero = h zero
All-set Q (x ∷ tab) (suc j) c h hc (suc i) = All-set (λ k. Q (suc k)) tab j c (λ k. h (suc k)) hc i

-- Nodes that sit in another bucket have another place, and so another hash code.
pub count-elsewhere {ℓ} :
    {A : Type ℓ} (p : A → Bool) (Q : A → Type 0) (c : List A)
    → All Q c
    → ((a : A) → Q a → p a ≡ true → ⊥)
    → count p c ≡ 0
count-elsewhere p Q [] h no_hit = refl
count-elsewhere p Q (a ∷ c) h no_hit = elim (Bool-cases (p a)) [
  | inl e ↦ absurd (no_hit a h.0 e)
  | inr e ↦ omega (arith, ap to_nat e, count-elsewhere p Q c h.1 no_hit)
]

empty_of_count {ℓ} : {A : Type ℓ} (c : List A) → count (λ _. true) c ≡ 0 → c ≡ []
empty_of_count [] e = refl
empty_of_count (x ∷ c) e = absurd (omega arith)

-- In a table without a node there is no chain with one.
pub get_or-of_count {ℓ} :
    {A : Type ℓ} (tab : List (List A)) (i : ℕ)
    → count (λ _. true) (flatten tab) ≡ 0
    → get_or tab i [] ≡ []
get_or-of_count tab i h =
    empty_of_count (get_or tab i []) (omega (arith, count-flatten-ge (λ _. true) tab i))

-- An entry that is there counts.
pub count-at {ℓ} :
    {A : Type ℓ} (p : A → Bool) (xs : List A) (j : ℕ) (x : A)
    → at xs j ≡ ok x
    → p x ≡ true
    → 0 < count p xs
count-at p xs j x here passes = omega (arith, count-remove_at p xs j x here, ap to_nat passes)
