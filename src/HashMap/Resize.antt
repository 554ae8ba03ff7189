-- ===== src/HashMap/Resize.antt =====
-- `hm_help_resizing`: its loop ends, stays in the tables, and moves nodes without losing any.
use cachetron.Prelude.{ℕ, zero, suc, ◌+◌, ◌-◌, ◌^◌, ◌<◌, ◌≤◌, ◌≡◌, refl, sym, ap, ◌∙◌}
use cachetron.Prelude.{Bool, true, List, [], ◌∷◌, flatten, arith}
use cachetron.Prelude.{length, get_or, set, add_size, ◌⊎◌, inl, inr, Bool-cases}
use cachetron.Prelude.{get_or-set_ne, count-le_all, count, count-append, eqb→eq, ◌==◌}
use cachetron.Prelude.Result.{ok, at-get_or}
use cachetron.HashMap.{
  HNode, HMap, init_htab, k_resizing_work, hm_help_resizing, help_loop, help_round, help_more,
  help_fuel, drop_older, is_null,
}
use native.Mathlib.Decide.{dec_lt}
use cachetron.HashMap.Table.{TabIsValid, tally, h_insert-Inserted, h_detach-Detached, null-cases}

module _ {ℓ} {A : Type ℓ} where
  -- The nodes of both tables that meet a test.
  abbrev pub tally_map : (HNode A → Bool) → HMap A → ℕ
  tally_map p m = tally p m.ht1 + tally p m.ht2

  -- A map of two well-formed tables: the older one is empty below `resizing_pos`, and is there only
  -- beside a newer one that can take its nodes.
  pub record IsValid (m : HMap A) : Type ℓ where
    pub newer : TabIsValid m.ht1
    pub older : TabIsValid m.ht2
    pub swept : (i : ℕ) → i < m.resizing_pos → get_or m.ht2.tab i [] ≡ []
    pub room : 0 < length m.ht2.tab → 0 < length m.ht1.tab
    pub small : m.ht1.size + m.ht2.size < 2 ^ 64

  -- What any number of rounds keeps: the nodes of the two tables together, and the newer buckets.
  pub record Kept (m m' : HMap A) : Type ℓ where
    pub valid : IsValid m'
    pub same : (p : HNode A → Bool) → tally_map p m' ≡ tally_map p m
    pub total : m'.ht1.size + m'.ht2.size ≡ m.ht1.size + m.ht2.size
    pub newer_width : length m'.ht1.tab ≡ length m.ht1.tab

  Kept-trans : {a b c : HMap A} → Kept a b → Kept b c → Kept a c
  Kept-trans h k = record {
    valid = k.valid;
    same = λ p. k.same p ∙ h.same p;
    total = k.total ∙ h.total;
    newer_width = k.newer_width ∙ h.newer_width;
  }

  -- While a node is left in the older table, the position stands before the end of that table.
  pos_lt :
      (tab : List (List (HNode A))) (pos : ℕ)
      → ((i : ℕ) → i < pos → get_or tab i [] ≡ [])
      → 0 < count (λ _. true) (flatten tab)
      → pos < length tab
  unfolding flatten
  pos_lt [] pos swept some_node = absurd (omega arith)
  pos_lt (c ∷ tab) zero swept some_node = omega arith
  pos_lt (c ∷ tab) (suc pos) swept some_node =
      let rest : 0 < count (λ _. true) (flatten tab) = omega (
        arith,
        count-append (λ _. true) c (flatten tab),
        ap (count (λ _. true)) (swept 0 (omega arith)),
      ) in
      omega (arith, pos_lt tab pos (λ i h. swept (suc i) (omega arith)) rest)

  -- One round passes an empty bucket, or moves one node.
  record Round (m : HMap A) (w : ℕ) (m' : HMap A) : Type ℓ where
    kept : Kept m m'
    moved : w + m'.ht2.size ≡ m.ht2.size
    passed : w + m'.resizing_pos ≡ m.resizing_pos + 1
    unit : w ≤ 1
    width : length m'.ht2.tab ≡ length m.ht2.tab

  swept_next :
      (tab : List (List (HNode A))) (pos : ℕ)
      → ((i : ℕ) → i < pos → get_or tab i [] ≡ [])
      → get_or tab pos [] ≡ []
      → (i : ℕ) → i < pos + 1
      → get_or tab i [] ≡ []
  swept_next tab pos swept here i h = elim (dec_lt i pos) [
    | yes lt ↦ swept i lt
    | no ge ↦ let e : i ≡ pos = omega arith in rw e here
  ]

  -- A write at the position leaves the buckets below it.
  swept_set :
      (tab : List (List (HNode A))) (pos : ℕ) (c : List (HNode A))
      → ((i : ℕ) → i < pos → get_or tab i [] ≡ [])
      → (i : ℕ) → i < pos
      → get_or (set tab pos c) i [] ≡ []
  swept_set tab pos c swept i h = get_or-set_ne tab pos i c [] (λ e. omega arith) ∙ swept i h

  module _ (m : HMap A) (v : IsValid m) (left : 0 < m.ht2.size) where
    in_range : m.resizing_pos < length m.ht2.tab
    in_range = pos_lt m.ht2.tab m.resizing_pos v.swept (omega (arith, v.older.counted))

    pass-Round :
        get_or m.ht2.tab m.resizing_pos [] ≡ []
        → Round m 0 (record m { resizing_pos = add_size m.resizing_pos 1 })
    pass-Round e =
        let next : add_size m.resizing_pos 1 ≡ m.resizing_pos + 1 =
          omega (arith, in_range, v.older.addressable) in
        record {
          kept = record {
            valid = record {
              newer = v.newer;
              older = v.older;
              swept = rw next (swept_next m.ht2.tab m.resizing_pos v.swept e);
              room = v.room;
              small = v.small;
            };
            same = λ p. refl;
            total = refl;
            newer_width = refl;
          };
          moved = omega arith;
          passed = omega (arith, next);
          unit = omega arith;
          width = refl;
        }

    move-Round :
        (node : HNode A) (rest : List (HNode A))
        → get_or m.ht2.tab m.resizing_pos [] ≡ node ∷ rest
        → (m' : HMap A) × (help_round m ≡ ok (1, m')) × Round m 1 m'
    unfolding help_round
    move-Round node rest e =
        let (ht2, detach, d, shape) =
          h_detach-Detached m.ht2 m.resizing_pos 0 node v.older in_range (rw e refl) in
        let (ht1, insert, i) =
          h_insert-Inserted m.ht1 node v.newer (v.room (omega (arith, in_range)))
            (omega (arith, v.small)) in
        (
          record m { ht1 = ht1; ht2 = ht2 },
          rw (at-get_or m.ht2.tab m.resizing_pos [] in_range, e, detach, insert),
          record {
            kept = record {
              valid = record {
                newer = i.valid;
                older = d.valid;
                swept = rw shape (swept_set m.ht2.tab m.resizing_pos _ v.swept);
                room = λ h. omega (arith, i.width, d.width, v.room (omega (arith, d.width)));
                small = omega (arith, i.size, d.size, v.small);
              };
              same = λ p. omega (arith, i.adds p, d.removes p);
              total = omega (arith, i.size, d.size);
              newer_width = i.width;
            };
            moved = omega (arith, d.size);
            passed = omega arith;
            unit = omega arith;
            width = d.width;
          },
        )

    -- A round runs, and is one of the two.
    Round-runs : (w : ℕ) × (m' : HMap A) × (help_round m ≡ ok (w, m')) × Round m w m'
    unfolding help_round
    Round-runs = by_chain (get_or m.ht2.tab m.resizing_pos []) refl
      where
        by_chain :
            (c : List (HNode A))
            → get_or m.ht2.tab m.resizing_pos [] ≡ c
            → (w : ℕ) × (m' : HMap A) × (help_round m ≡ ok (w, m')) × Round m w m'
        by_chain [] e = (
          0,
          record m { resizing_pos = add_size m.resizing_pos 1 },
          rw (at-get_or m.ht2.tab m.resizing_pos [] in_range, e),
          pass-Round e,
        )
        by_chain (node ∷ rest) e = let (m', run, r) = move-Round node rest e in (1, m', run, r)

  -- What the loop leaves: all the work done, or `k_resizing_work` nodes moved.
  record Helped (m : HMap A) (nwork : ℕ) (m' : HMap A) : Type ℓ where
    kept : Kept m m'
    finished : (m'.ht2.size ≡ 0) ⊎ (m'.ht2.size + k_resizing_work ≤ m.ht2.size + nwork)
    shrinks : m'.ht2.size ≤ m.ht2.size

  help_loop_next :
      (fuel nwork w : ℕ) (m m₁ : HMap A)
      → help_more nwork m ≡ true
      → help_round m ≡ ok (w, m₁)
      → help_loop (suc fuel) nwork m ≡ help_loop fuel (nwork + w) m₁
  unfolding help_loop
  help_loop_next fuel nwork w m m₁ more run = rw (more, help_loop, run)

  help_loop-Helped :
      (fuel nwork : ℕ) (m : HMap A)
      → IsValid m
      → length m.ht2.tab - m.resizing_pos + (k_resizing_work - nwork) < fuel
      → (m' : HMap A) × (help_loop fuel nwork m ≡ ok m') × Helped m nwork m'
  unfolding help_loop
  help_loop-Helped zero nwork m v enough = absurd (omega arith)
  help_loop-Helped (suc fuel) nwork m v enough = elim (Bool-cases (help_more nwork m)) [
    | inr stop ↦ (
      m,
      rw (stop, help_loop),
      record {
        kept = record { valid = v; same = λ p. refl; total = refl; newer_width = refl };
        finished = ground arith;
        shrinks = omega arith;
      },
    )
    | inl more ↦
        let left : 0 < m.ht2.size = ground arith in
        let busy : nwork < k_resizing_work = ground arith in
        let (w, m₁, run, r) = Round-runs m v left in
        let inside = in_range m v left in
        let (m₂, runs, h) =
          help_loop-Helped fuel (nwork + w) m₁ r.kept.valid
            (omega (arith, r.passed, r.unit, r.width, inside)) in
        (
          m₂,
          help_loop_next fuel nwork w m m₁ more run ∙ runs,
          record {
            kept = Kept-trans r.kept h.kept;
            finished = omega (arith, h.finished, r.moved);
            shrinks = omega (arith, h.shrinks, r.moved);
          },
        )
  ]

  pub init_htab-TabIsValid : TabIsValid (init_htab {A = A})
  unfolding flatten
  init_htab-TabIsValid = record {
    masked = (0, refl);
    width = λ h. absurd (omega arith);
    counted = refl;
    small = omega arith;
    addressable = omega arith;
    placed = λ i. tt;
  }

  -- `drop_older` frees a table only when it has no node.
  drop_older-Kept : (m : HMap A) → IsValid m → Kept m (drop_older m)
  unfolding drop_older flatten
  drop_older-Kept m v = elim (Bool-cases (m.ht2.size == 0)) [
    | inr some_left ↦
        rw some_left (record { valid = v; same = λ p. refl; total = refl; newer_width = refl })
    | inl empty ↦ rw empty (elim (null-cases m.ht2) [
      | inl (e, _) ↦ rw e (record { valid = v; same = λ p. refl; total = refl; newer_width = refl })
      | inr (e, _) ↦
          let none_left = eqb→eq m.ht2.size 0 empty in
          rw e (record {
            valid = record {
              newer = v.newer;
              older = init_htab-TabIsValid;
              swept = λ i h. refl;
              room = λ h. absurd (omega arith);
              small = omega (arith, v.small);
            };
            same = λ p. omega (arith, count-le_all p (flatten m.ht2.tab), v.older.counted);
            total = omega arith;
            newer_width = refl;
          })
    ])
  ]

  drop_older-size : (m : HMap A) → (drop_older m).ht2.size ≡ m.ht2.size
  unfolding drop_older is_null
  drop_older-size m = elim (Bool-cases (m.ht2.size == 0)) [
    | inr some_left ↦ rw some_left
    | inl empty ↦
        let none_left = eqb→eq m.ht2.size 0 empty in
        rw empty (elim (null-cases m.ht2) [ inl (e, _) ↦ rw e | inr (e, _) ↦ rw e (sym none_left) ])
  ]

  -- `hm_help_resizing` runs to its end on every well-formed map. It keeps the map well formed and
  -- the nodes that it holds, and it leaves no node in the older table or has moved
  -- `k_resizing_work` of them out of it.
  pub hm_help_resizing-Kept :
      (m : HMap A)
      → IsValid m
      → (m' : HMap A) × (hm_help_resizing m ≡ ok m')
        × Kept m m'
        × ((m'.ht2.size ≡ 0) ⊎ (m'.ht2.size + k_resizing_work ≤ m.ht2.size))
  unfolding hm_help_resizing
  hm_help_resizing-Kept m v =
      let (m₁, run, h) = help_loop-Helped (help_fuel m) 0 m v (omega arith) in
      let k = drop_older-Kept m₁ h.kept.valid in
      (drop_older m₁, rw run, Kept-trans h.kept k, omega (arith, h.finished, drop_older-size m₁))
