-- ===== src/HashMap/Lookup.antt =====
-- `hm_lookup` against the nodes that the map holds, and `hm_size`.
use cachetron.Prelude.{ℕ, ◌<◌, ◌≡◌, Bool, true, Option, none, some, arith}
use cachetron.Prelude.{[], get_or, length}
use cachetron.Prelude.Result.{ok, at, at-get_or}
use cachetron.HashMap.{
  HNode, HTab, HMap, hit, h_lookup, hm_lookup, hm_help_resizing, hm_size, target,
}
use cachetron.HashMap.Bags.{count-at, count-flatten-ge}
use cachetron.HashMap.Table.{tally, Found, missing, present, h_lookup-Found}
use cachetron.HashMap.Resize.{tally_map, IsValid, Kept, hm_help_resizing-Kept}

module _ {ℓ} {A : Type ℓ} where
  -- A right answer to a lookup: no node of the map passes the test, or this one does and is there.
  pub data Answer (m : HMap A) (passes : HNode A → Bool) : Option (HNode A) → Type ℓ where
    absent : tally_map passes m ≡ 0 → Answer m passes none
    found :
        (n : HNode A)
        → passes n ≡ true
        → ((p : HNode A → Bool) → p n ≡ true → 0 < tally_map p m)
        → Answer m passes (some n)

  target_lem :
      (t : HTab A) (pos j : ℕ) (n : HNode A)
      → pos < length t.tab
      → at (get_or t.tab pos []) j ≡ ok n
      → target t (pos, j) ≡ ok n
  unfolding target
  target_lem t pos j n lt here = rw (at-get_or t.tab pos [] lt) here

  pub present_counts :
      (t : HTab A) (pos j : ℕ) (n : HNode A)
      → at (get_or t.tab pos []) j ≡ ok n
      → (p : HNode A → Bool) → p n ≡ true
      → 0 < tally p t
  present_counts t pos j n here p e =
      omega (arith, count-at p (get_or t.tab pos []) j n here e, count-flatten-ge p t.tab pos)

  module _ (m : HMap A) (hcode : ℕ) (eq : HNode A → Bool) where
    -- On a well-formed map a lookup runs to its end, whatever stage the resizing is in. It answers
    -- rightly for the nodes that the map held, none exactly when no node passes the test, and it
    -- leaves a well-formed map of the same nodes.
    pub hm_lookup-Answer :
        IsValid m
        → (r : Option (HNode A)) × (m' : HMap A) × (hm_lookup m hcode eq ≡ ok (r, m'))
          × Answer m (hit hcode eq) r
          × Kept m m'
    unfolding hm_lookup
    hm_lookup-Answer v =
        let (m₁, helps, k, _) = hm_help_resizing-Kept m v in
        let (from, run, f) = h_lookup-Found m₁.ht1 hcode eq k.valid.newer in
        let (from2, run2, f2) = h_lookup-Found m₁.ht2 hcode eq k.valid.older in
        answer m₁ helps k from run f from2 run2 f2
      where
        answer :
            (m₁ : HMap A)
            → hm_help_resizing m ≡ ok m₁
            → Kept m m₁
            → (from : Option (ℕ × ℕ)) → h_lookup m₁.ht1 hcode eq ≡ ok from
            → Found m₁.ht1 hcode eq from
            → (from2 : Option (ℕ × ℕ)) → h_lookup m₁.ht2 hcode eq ≡ ok from2
            → Found m₁.ht2 hcode eq from2
            → (r : Option (HNode A)) × (m' : HMap A) × (hm_lookup m hcode eq ≡ ok (r, m'))
              × Answer m (hit hcode eq) r
              × Kept m m'
        answer m₁ helps k _ run (missing e) _ run2 (missing e2) =
            (none, m₁, rw (helps, run, run2), absent (omega (arith, k.same (hit hcode eq))), k)
        answer m₁ helps k _ run (present pos j n lt here passes) from2 run2 f2 = (
          some n,
          m₁,
          rw (helps, run, target_lem m₁.ht1 pos j n lt here),
          found n passes (λ p e. omega (arith, k.same p, present_counts m₁.ht1 pos j n here p e)),
          k,
        )
        answer m₁ helps k _ run (missing e) _ run2 (present pos j n lt here passes) = (
          some n,
          m₁,
          rw (helps, run, run2, target_lem m₁.ht2 pos j n lt here),
          found n passes (λ p e. omega (arith, k.same p, present_counts m₁.ht2 pos j n here p e)),
          k,
        )

  -- `hm_size` is the number of nodes that a well-formed map holds, resized or not.
  pub hm_size-tally : (m : HMap A) → IsValid m → hm_size m ≡ tally_map (λ _. true) m
  unfolding hm_size
  hm_size-tally m v = omega (arith, v.newer.counted, v.older.counted, v.small)
