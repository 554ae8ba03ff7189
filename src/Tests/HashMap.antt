-- ===== src/Tests/HashMap.antt =====
-- The hash map over numbers: an empty map, one node, and a resizing that is under way.
use cachetron.Prelude.{ℕ, zero, suc, ◌+◌, ◌≤◌, ◌≡◌, refl, ◌⊎◌, Bool, true}
use cachetron.Prelude.{List, [], ◌∷◌, flatten, Option, arith, All, to_nat, ◌==◌}
use cachetron.Prelude.{bit_and, get_or, ◌∙◌}
use cachetron.Prelude.Bits.{bit_and_mask}
use cachetron.Prelude.Result.{Result, ok, fault, null_deref}
use cachetron.HashMap.{HNode, HTab, HMap, init_hmap, hit, pos_of}
use cachetron.HashMap.{hm_help_resizing, hm_lookup, hm_insert, hm_pop}
use cachetron.HashMap.Resize.{IsValid, Kept, tally_map, hm_help_resizing-Kept, init_htab-TabIsValid}
use cachetron.HashMap.Lookup.{Answer, hm_lookup-Answer}
use cachetron.HashMap.Insert.{hm_insert_lem}
use cachetron.HashMap.Pop.{Popped, hm_pop-Popped, hm_pop-null_deref}

abbrev calloc : ℕ → Bool
calloc n = true

abbrev node : ℕ → HNode ℕ
node n = record { hcode = n; item = n }

abbrev is_item : ℕ → HNode ℕ → Bool
is_item n x = x.item == n

pub empty-IsValid : IsValid (init_hmap {A = ℕ})
empty-IsValid = record {
  newer = init_htab-TabIsValid;
  older = init_htab-TabIsValid;
  swept = λ i h. refl;
  room = λ h. h;
  small = omega arith;
}

-- `n` nodes in the only bucket of a table.
abbrev nodes : ℕ → List (HNode ℕ)
nodes zero = []
nodes (suc n) = node n ∷ nodes n

abbrev two_buckets : HTab ℕ
two_buckets = record { tab = [] ∷ [] ∷ []; mask = 1; size = 0 }

-- A resizing that has 129 nodes to move, one more than a call of `hm_help_resizing` does.
abbrev busy : HMap ℕ
busy = record {
  ht1 = two_buckets;
  ht2 = record { tab = nodes 129 ∷ []; mask = 0; size = 129 };
  resizing_pos = 0;
}

nodes-placed : (n : ℕ) → All (λ x. bit_and x.hcode 0 ≡ 0) (nodes n)
nodes-placed zero = tt
nodes-placed (suc n) = (bit_and_mask 0 n ∙ omega arith, nodes-placed n)

busy-IsValid : IsValid busy
unfolding flatten
busy-IsValid = record {
  newer = record {
    masked = (1, refl);
    width = λ h. refl;
    counted = refl;
    small = omega arith;
    addressable = omega arith;
    placed = elim [
      | zero ↦ tt
      | suc i ↦
          elim i
            as (λ k.
              All (λ n. pos_of two_buckets n.hcode ≡ suc k) (get_or two_buckets.tab (suc k) [])) [
                | zero ↦ tt
                | suc j ↦ tt
              ]
    ];
  };
  older = record {
    masked = (0, refl);
    width = λ h. refl;
    counted = refl;
    small = omega arith;
    addressable = omega arith;
    placed = elim [ zero ↦ nodes-placed 129 | suc i ↦ tt ];
  };
  swept = λ i h. elim h [ ];
  room = λ h. omega arith;
  small = omega arith;
}

abbrev run_of : Result (HMap ℕ) → HMap ℕ
run_of (ok m) = m
run_of (fault e) = init_hmap

abbrev helped : HMap ℕ
helped = run_of (hm_help_resizing busy)

helped_run : hm_help_resizing busy ≡ ok helped
unfolding hm_help_resizing
helped_run = refl

hm_help_resizing-Kept_example :
    (m' : HMap ℕ) × (hm_help_resizing busy ≡ ok m')
    × Kept busy m'
    × ((m'.ht2.size ≡ 0) ⊎ (m'.ht2.size + 128 ≤ 129))
hm_help_resizing-Kept_example = hm_help_resizing-Kept busy busy-IsValid

hm_lookup-Answer_example :
    (r : Option (HNode ℕ)) × (m' : HMap ℕ) × (hm_lookup busy 0 (is_item 0) ≡ ok (r, m'))
    × Answer busy (hit 0 (is_item 0)) r
    × Kept busy m'
hm_lookup-Answer_example = hm_lookup-Answer busy 0 (is_item 0) busy-IsValid

hm_insert_lem_example :
    (m' : HMap ℕ) × (hm_insert calloc init_hmap (node 7) ≡ ok m')
    × IsValid m'
    × ((p : HNode ℕ → Bool) → tally_map p m' ≡ tally_map p init_hmap + to_nat (p (node 7)))
hm_insert_lem_example =
    hm_insert_lem calloc (λ n. refl) init_hmap (node 7) empty-IsValid (omega arith)

hm_pop-Popped_example : Popped busy (hit 5 (is_item 5)) (hm_pop busy 5 (is_item 5))
hm_pop-Popped_example = hm_pop-Popped busy 5 (is_item 5) busy-IsValid

hm_pop-null_deref_example : hm_pop busy 0 (is_item 0) ≡ fault null_deref
unfolding hm_help_resizing flatten
hm_pop-null_deref_example =
    hm_pop-null_deref busy 0 (is_item 0) helped busy-IsValid helped_run refl (omega arith)
