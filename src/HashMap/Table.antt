-- ===== src/HashMap/Table.antt =====
-- One table: what `h_insert`, `h_lookup` and `h_detach` do to a well-formed one.
use native.Mathlib.Nat.{one-le-pow, mod-lt, sub-zero}
use cachetron.Prelude.{ℕ, ◌+◌, ◌-◌, ◌^◌, ◌<◌, ◌≤◌, ◌≡◌, refl, sym, ap, ◌∙◌}
use cachetron.Prelude.{Bool, true, false, List, [], ◌∷◌, flatten, Option, none, some, arith}
use cachetron.Prelude.{length, get_or, set, count, to_nat, All, length-set, add_size, sub_size}
use cachetron.Prelude.{remove_at, eqb→eq, ◌⊎◌, inl, inr, Option-cases}
use cachetron.Prelude.Bits.{bit_and_mask}
use cachetron.Prelude.Result.{ok, at, at-get_or}
use cachetron.HashMap.{HNode, HTab, pos_of, h_insert, h_lookup, h_detach, hit, is_null}
use cachetron.HashMap.{find_from}
use cachetron.HashMap.Bags.{
  count-flatten-set, count-flatten_only, count-remove_at, All-remove_at, All-set, find_from-none,
  find_from-some, count-elsewhere,
}

module _ {ℓ} {A : Type ℓ} where
  -- The nodes of a table that meet a test.
  abbrev pub tally : (HNode A → Bool) → HTab A → ℕ
  tally p t = count p (flatten t.tab)

  -- A table whose mask is low ones, whose nodes are counted by `size` and sit in their buckets.
  pub record TabIsValid (t : HTab A) : Type ℓ where
    pub masked : (k : ℕ) × (t.mask ≡ 2 ^ k - 1)
    pub width : 0 < length t.tab → length t.tab ≡ t.mask + 1
    pub counted : tally (λ _. true) t ≡ t.size
    pub small : t.size < 2 ^ 64
    pub addressable : length t.tab < 2 ^ 64
    pub placed : (i : ℕ) → All (λ n. pos_of t n.hcode ≡ i) (get_or t.tab i [])

  pub pos_of-lt : (t : HTab A) (h : ℕ) → TabIsValid t → 0 < length t.tab → pos_of t h < length t.tab
  pos_of-lt t h v nonempty =
      let (k, e) = v.masked in
      rw (e, bit_and_mask k h)
        (omega (
          arith,
          v.width nonempty,
          one-le-pow k 2,
          mod-lt h {m = 2 ^ k} (omega (arith, one-le-pow k 2)),
        ))

  -- What an operation on one table leaves: the same buckets, and counts changed by one node.
  pub record Inserted (t : HTab A) (n : HNode A) (t' : HTab A) : Type ℓ where
    pub valid : TabIsValid t'
    pub size : t'.size ≡ t.size + 1
    pub width : length t'.tab ≡ length t.tab
    pub adds : (p : HNode A → Bool) → tally p t' ≡ tally p t + to_nat (p n)

  pub h_insert-Inserted :
      (t : HTab A) (n : HNode A)
      → TabIsValid t
      → 0 < length t.tab
      → t.size + 1 < 2 ^ 64
      → (t' : HTab A) × (h_insert t n ≡ ok t') × Inserted t n t'
  unfolding h_insert
  h_insert-Inserted t n v nonempty room =
      let pos = pos_of t n.hcode in
      let lt = pos_of-lt t n.hcode v nonempty in
      let old = get_or t.tab pos [] in
      let adds : (p : HNode A → Bool)
          → count p (flatten (set t.tab pos (n ∷ old))) ≡ tally p t + to_nat (p n) =
        λ p. omega (arith, count-flatten-set p t.tab pos (n ∷ old) lt) in
      (
        record t { tab = set t.tab pos (n ∷ old); size = add_size t.size 1 },
        rw (at-get_or t.tab pos [] lt),
        record {
          valid = record {
            masked = v.masked;
            width = λ _. length-set t.tab pos (n ∷ old) ∙ v.width nonempty;
            counted = omega (arith, adds (λ _. true), v.counted);
            small = omega arith;
            addressable = omega (arith, length-set t.tab pos (n ∷ old), v.addressable);
            placed = All-set _ t.tab pos (n ∷ old) v.placed (refl, v.placed pos);
          };
          size = omega arith;
          width = length-set t.tab pos (n ∷ old);
          adds = adds;
        },
      )

  pub record Detached (t : HTab A) (n : HNode A) (t' : HTab A) : Type ℓ where
    pub valid : TabIsValid t'
    pub size : t'.size + 1 ≡ t.size
    pub width : length t'.tab ≡ length t.tab
    pub removes : (p : HNode A → Bool) → tally p t' + to_nat (p n) ≡ tally p t

  pub h_detach-Detached :
      (t : HTab A) (pos j : ℕ) (n : HNode A)
      → TabIsValid t
      → pos < length t.tab
      → at (get_or t.tab pos []) j ≡ ok n
      → (t' : HTab A) × (h_detach t (some (pos, j)) ≡ ok (n, t'))
        × Detached t n t'
        × (t'.tab ≡ set t.tab pos (remove_at (get_or t.tab pos []) j))
  unfolding h_detach
  h_detach-Detached t pos j n v lt here =
      let old = get_or t.tab pos [] in
      let rest = remove_at old j in
      let removes : (p : HNode A → Bool)
          → count p (flatten (set t.tab pos rest)) + to_nat (p n) ≡ tally p t =
        λ p. omega (arith, count-flatten-set p t.tab pos rest lt, count-remove_at p old j n here) in
      let one : 1 ≤ t.size = omega (arith, removes (λ _. true), v.counted) in
      (
        record t { tab = set t.tab pos rest; size = sub_size t.size 1 },
        rw (at-get_or t.tab pos [] lt, here),
        record {
          valid = record {
            masked = v.masked;
            width = λ _. length-set t.tab pos rest ∙ v.width (omega arith);
            counted = omega (arith, removes (λ _. true), v.counted, v.small);
            small = omega (arith, v.small);
            addressable = omega (arith, length-set t.tab pos rest, v.addressable);
            placed = All-set _ t.tab pos rest v.placed (All-remove_at _ old j (v.placed pos));
          };
          size = omega (arith, v.small);
          width = length-set t.tab pos rest;
          removes = removes;
        },
        refl,
      )

  -- What a lookup finds: nothing, when no node passes the test, or the place of one that does.
  pub data Found (t : HTab A) (hcode : ℕ) (eq : HNode A → Bool) : Option (ℕ × ℕ) → Type ℓ where
    missing : tally (hit hcode eq) t ≡ 0 → Found t hcode eq none
    present :
        (pos j : ℕ) (n : HNode A)
        → pos < length t.tab
        → at (get_or t.tab pos []) j ≡ ok n
        → hit hcode eq n ≡ true
        → Found t hcode eq (some (pos, j))

  -- Every node that passes is in the one bucket that the lookup reads.
  tally-pos_of :
      (t : HTab A) (hcode : ℕ) (eq : HNode A → Bool)
      → TabIsValid t
      → tally (hit hcode eq) t ≡ count (hit hcode eq) (get_or t.tab (pos_of t hcode) [])
  tally-pos_of t hcode eq v = count-flatten_only (hit hcode eq) t.tab (pos_of t hcode) λ i ne.
      count-elsewhere (hit hcode eq) _ (get_or t.tab i []) (v.placed i)
        λ n at_i passes. ne (sym at_i ∙ ap (pos_of t) (eqb→eq n.hcode hcode (ground arith)))

  pub null-cases :
      (t : HTab A)
      → ((is_null t ≡ true) × (t.tab ≡ [])) ⊎ ((is_null t ≡ false) × (0 < length t.tab))
  unfolding is_null
  null-cases t = split t.tab
    where
      null : List (List (HNode A)) → Bool
      null tab = elim tab [ [] ↦ true | _ ↦ false ]

      split :
          (tab : List (List (HNode A)))
          → ((null tab ≡ true) × (tab ≡ [])) ⊎ ((null tab ≡ false) × (0 < length tab))
      split [] = inl (refl, refl)
      split (c ∷ cs) = inr (refl, omega arith)

  pub h_lookup-Found :
      (t : HTab A) (hcode : ℕ) (eq : HNode A → Bool)
      → TabIsValid t
      → (from : Option (ℕ × ℕ)) × (h_lookup t hcode eq ≡ ok from) × Found t hcode eq from
  unfolding h_lookup flatten
  h_lookup-Found t hcode eq v = elim (null-cases t) [
    | inl (e, null) ↦ (none, rw e, missing (rw null refl))
    | inr (e, nonempty) ↦
        let pos = pos_of t hcode in
        let lt = pos_of-lt t hcode v nonempty in
        let chain = get_or t.tab pos [] in
        let p = hit hcode eq in
        elim (Option-cases (find_from p 0 chain)) [
          | inl miss ↦ (
            none,
            rw (e, at-get_or t.tab pos [] lt, miss),
            missing (tally-pos_of t hcode eq v ∙ find_from-none p 0 chain miss),
          )
          | inr (j, found) ↦
              let (n, le, here, passes) = find_from-some p 0 j chain found in
              (
                some (pos, j),
                rw (e, at-get_or t.tab pos [] lt, found),
                present pos j n lt (rw (sub-zero j) at here) passes,
              )
        ]
  ]
