-- ===== src/HashMap/Pop.antt =====
-- `hm_pop`: the node of the newer table is removed, and one of the older table is a crash.
use cachetron.Prelude.{ℕ, ◌+◌, ◌<◌, ◌≤◌, ◌≡◌, refl, Bool, true, flatten, Option, none, some, arith}
use cachetron.Prelude.{[], get_or, length, to_nat, count-le_all, ◌⊎◌}
use cachetron.Prelude.Result.{Result, ok, fault, null_deref, at}
use cachetron.HashMap.{HNode, HMap, hit, h_lookup, hm_pop, hm_help_resizing}
use cachetron.HashMap.{k_resizing_work}
use cachetron.HashMap.Table.{tally, Found, missing, present, h_lookup-Found}
use cachetron.HashMap.Table.{h_detach-Detached}
use cachetron.HashMap.Resize.{tally_map, IsValid, Kept, hm_help_resizing-Kept}
use cachetron.HashMap.Lookup.{present_counts}

module _ {ℓ} {A : Type ℓ} where
  -- The three ends of a pop. `crashed` is a null pointer that is read.
  pub data Popped (m : HMap A) (passes : HNode A → Bool)
      : Result (Option (HNode A) × HMap A) → Type ℓ where
    taken :
        (n : HNode A) (m' : HMap A)
        → passes n ≡ true
        → IsValid m'
        → ((p : HNode A → Bool) → tally_map p m' + to_nat (p n) ≡ tally_map p m)
        → Popped m passes (ok (some n, m'))
    absent : (m' : HMap A) → tally_map passes m ≡ 0 → Kept m m' → Popped m passes (ok (none, m'))
    crashed :
        (m' : HMap A)
        → hm_help_resizing m ≡ ok m'
        → tally passes m'.ht1 ≡ 0
        → 0 < tally passes m'.ht2
        → k_resizing_work < m.ht2.size
        → Popped m passes (fault null_deref)

  module _ (m : HMap A) (hcode : ℕ) (eq : HNode A → Bool) where
    take_newer :
        (m₁ : HMap A) (pos j : ℕ) (n : HNode A)
        → hm_help_resizing m ≡ ok m₁
        → Kept m m₁
        → h_lookup m₁.ht1 hcode eq ≡ ok (some (pos, j))
        → pos < length m₁.ht1.tab
        → at (get_or m₁.ht1.tab pos []) j ≡ ok n
        → hit hcode eq n ≡ true
        → Popped m (hit hcode eq) (hm_pop m hcode eq)
    unfolding hm_pop
    take_newer m₁ pos j n helps k run lt here passes =
        let (ht1, detach, d, _) = h_detach-Detached m₁.ht1 pos j n k.valid.newer lt here in
        rw (helps, run, detach)
          (taken n (record m₁ { ht1 = ht1 }) passes
            (record {
              newer = d.valid;
              older = k.valid.older;
              swept = k.valid.swept;
              room = λ h. omega (arith, d.width, k.valid.room h);
              small = omega (arith, d.size, k.valid.small);
            })
            (λ p. omega (arith, d.removes p, k.same p)))

    -- On a well-formed map `hm_pop` ends in one of three ways. It takes out one node that passes the
    -- test, of the nodes that the map held, and leaves a well-formed map of the others; or no node
    -- passes, and it leaves the same nodes; or it reads a null pointer, and then the nodes that pass
    -- are all in the older table, which held more nodes than one call moves.
    pub hm_pop-Popped : IsValid m → Popped m (hit hcode eq) (hm_pop m hcode eq)
    unfolding hm_pop
    hm_pop-Popped v =
        let (m₁, helps, k, progress) = hm_help_resizing-Kept m v in
        let (from, run, f) = h_lookup-Found m₁.ht1 hcode eq k.valid.newer in
        let (from2, run2, f2) = h_lookup-Found m₁.ht2 hcode eq k.valid.older in
        popped m₁ helps k progress from run f from2 run2 f2
      where
        popped :
            (m₁ : HMap A)
            → hm_help_resizing m ≡ ok m₁
            → Kept m m₁
            → ((m₁.ht2.size ≡ 0) ⊎ (m₁.ht2.size + k_resizing_work ≤ m.ht2.size))
            → (from : Option (ℕ × ℕ)) → h_lookup m₁.ht1 hcode eq ≡ ok from
            → Found m₁.ht1 hcode eq from
            → (from2 : Option (ℕ × ℕ)) → h_lookup m₁.ht2 hcode eq ≡ ok from2
            → Found m₁.ht2 hcode eq from2
            → Popped m (hit hcode eq) (hm_pop m hcode eq)
        popped m₁ helps k progress _ run (missing e) _ run2 (missing e2) =
            rw (helps, run, run2) (absent m₁ (omega (arith, k.same (hit hcode eq))) k)
        popped m₁ helps k progress _ run (present pos j n lt here passes) from2 run2 f2 =
            take_newer m₁ pos j n helps k run lt here passes
        popped m₁ helps k progress _ run (missing e) _ run2 (present pos j n lt here passes) =
            let there = present_counts m₁.ht2 pos j n here (hit hcode eq) passes in
            rw (helps, run, run2)
              (crashed m₁ helps e there (
                omega (
                  arith,
                  progress,
                  k.valid.older.counted,
                  count-le_all (hit hcode eq) (flatten m₁.ht2.tab),
                )))

    runs_of :
        m.ht2.size ≤ k_resizing_work
        → (out : Result (Option (HNode A) × HMap A)) → Popped m (hit hcode eq) out
        → (r : Option (HNode A)) × (m' : HMap A) × (out ≡ ok (r, m'))
    runs_of few out (taken n m' passes v removes) = (some n, m', refl)
    runs_of few out (absent m' e k) = (none, m', refl)
    runs_of few out (crashed m' helps e there many) = absurd (omega arith)

    -- With at most `k_resizing_work` nodes in the older table `hm_pop` does not crash.
    pub hm_pop_runs :
        IsValid m
        → m.ht2.size ≤ k_resizing_work
        → (r : Option (HNode A)) × (m' : HMap A) × (hm_pop m hcode eq ≡ ok (r, m'))
    hm_pop_runs v few = runs_of few (hm_pop m hcode eq) (hm_pop-Popped v)

    -- Whenever the nodes that pass the test are all in the older table once `hm_help_resizing` has
    -- done its share, `hm_pop` reads through the null pointer of its first lookup.
    pub hm_pop-null_deref :
        (m' : HMap A)
        → IsValid m
        → hm_help_resizing m ≡ ok m'
        → tally (hit hcode eq) m'.ht1 ≡ 0
        → 0 < tally (hit hcode eq) m'.ht2
        → hm_pop m hcode eq ≡ fault null_deref
    unfolding hm_pop
    hm_pop-null_deref m' v helps missed there =
        let (m₁, helps₁, k, _) = hm_help_resizing-Kept m v in
        let e : m₁ ≡ m' = cc (helps₁, helps) in
        let (from, run, f) = h_lookup-Found m₁.ht1 hcode eq k.valid.newer in
        let (from2, run2, f2) = h_lookup-Found m₁.ht2 hcode eq k.valid.older in
        crash m₁ helps₁ (rw e missed) (rw e there) from run f from2 run2 f2
      where
        crash :
            (m₁ : HMap A)
            → hm_help_resizing m ≡ ok m₁
            → tally (hit hcode eq) m₁.ht1 ≡ 0
            → 0 < tally (hit hcode eq) m₁.ht2
            → (from : Option (ℕ × ℕ)) → h_lookup m₁.ht1 hcode eq ≡ ok from
            → Found m₁.ht1 hcode eq from
            → (from2 : Option (ℕ × ℕ)) → h_lookup m₁.ht2 hcode eq ≡ ok from2
            → Found m₁.ht2 hcode eq from2
            → hm_pop m hcode eq ≡ fault null_deref
        crash m₁ helps missed there _ run (missing e) _ run2 (missing e2) = absurd (omega arith)
        crash m₁ helps missed there _ run (present pos j n lt here passes) from2 run2 f2 =
            absurd (omega (arith, present_counts m₁.ht1 pos j n here (hit hcode eq) passes))
        crash m₁ helps missed there _ run (missing e) _ run2 (present pos j n lt here passes) =
            rw (helps, run, run2)
