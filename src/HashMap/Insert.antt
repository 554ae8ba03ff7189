-- ===== src/HashMap/Insert.antt =====
-- `hm_insert`, with the table that it may create and the resizing that it may start.
use native.Mathlib.Nat.{one-le-pow, pow-suc}
use cachetron.Prelude.{ℕ, suc, ◌+◌, ◌-◌, ◌*◌, ◌/◌, ◌%◌, ◌^◌, ◌<◌, ◌≤◌, ◌≡◌, refl, ◌∙◌}
use cachetron.Prelude.{Bool, true, false, flatten, List, [], arith, length, to_nat}
use cachetron.Prelude.{length-replicate, get_or-replicate, bit_and, add_size, sub_size}
use cachetron.Prelude.{leb, ◌==◌, inl, inr, Bool-cases}
use cachetron.Prelude.Bits.{bit_and_mask}
use cachetron.Prelude.Result.{ok}
use cachetron.HashMap.{
  HNode, HTab, HMap, is_null, round_up, h_init, hm_start_resizing, with_table, load_factor, grow,
  hm_insert, k_max_load_factor,
}
use cachetron.HashMap.Bags.{count-flatten-replicate}
use cachetron.HashMap.Table.{TabIsValid, tally, h_insert-Inserted, null-cases}
use cachetron.HashMap.Resize.{tally_map, IsValid, hm_help_resizing-Kept}

-- A power of two below 2^64 is left as it is, so the smearing of `clp2` is not reached.
round_up-pow : (k : ℕ) → 2 ^ k < 2 ^ 64 → round_up (2 ^ k) ≡ 2 ^ k
unfolding round_up
round_up-pow k small =
    let pos = one-le-pow k 2 in
    let below : sub_size (2 ^ k) 1 ≡ 2 ^ k - 1 = omega arith in
    let zero_and : bit_and (2 ^ k) (2 ^ k - 1) ≡ 0 = bit_and_mask k (2 ^ k) ∙ grind arith in
    rw (below, zero_and)

module _ {ℓ} {A : Type ℓ} (calloc : ℕ → Bool) (memory : (n : ℕ) → calloc n ≡ true) where
  -- A table of `2^k` empty buckets.
  record Fresh (n : ℕ) (t : HTab A) : Type ℓ where
    valid : TabIsValid t
    width : length t.tab ≡ n
    empty : (p : HNode A → Bool) → tally p t ≡ 0
    size : t.size ≡ 0

  h_init-Fresh : (n k : ℕ) → n ≡ 2 ^ k → n < 2 ^ 64 → Fresh n (h_init calloc n)
  unfolding h_init
  h_init-Fresh n k e small =
      let pos = one-le-pow k 2 in
      let some_buckets : (n == 0) ≡ false = ground arith in
      let kept : round_up n ≡ n = rw e (round_up-pow k (rw e at small)) in
      rw (some_buckets, kept, memory n)
        (record {
          valid = record {
            masked = (k, omega arith);
            width = λ _. length-replicate n [] ∙ omega arith;
            counted = count-flatten-replicate (λ _. true) n;
            small = omega arith;
            addressable = omega (arith, length-replicate {A = List (HNode A)} n []);
            placed = λ i. rw (get_or-replicate {A = List (HNode A)} n i []) tt;
          };
          width = length-replicate n [];
          empty = λ p. count-flatten-replicate p n;
          size = refl;
        })

  -- What a start of resizing, or none, leaves.
  record Grown (m m' : HMap A) : Type ℓ where
    valid : IsValid m'
    same : (p : HNode A → Bool) → tally_map p m' ≡ tally_map p m

  start-Grown :
      (m : HMap A)
      → IsValid m
      → m.ht2.tab ≡ []
      → is_null m.ht2 ≡ true
      → 0 < length m.ht1.tab
      → m.ht1.mask + 1 ≤ 2 ^ 61
      → (m' : HMap A) × (hm_start_resizing calloc m ≡ ok m') × Grown m m'
  unfolding hm_start_resizing
  start-Grown m v no_older null nonempty few =
      let (k, mask) = v.newer.masked in
      let pos = one-le-pow k 2 in
      let n = (add_size m.ht1.mask 1 * 2) % 2 ^ 64 in
      let twice : n ≡ 2 ^ suc k = omega (arith, pow-suc 2 k) in
      let f = h_init-Fresh n (suc k) twice (omega arith) in
      (
        record { ht1 = h_init calloc n; ht2 = m.ht1; resizing_pos = 0 },
        rw null,
        record {
          valid = record {
            newer = f.valid;
            older = v.newer;
            swept = λ i h. absurd (omega arith);
            room = λ h. omega (arith, f.width, pow-suc 2 k);
            small = omega (arith, f.size, v.newer.small);
          };
          same = λ p. omega (arith, f.empty p, no_nodes p);
        },
      )
    where
      no_nodes : (p : HNode A → Bool) → tally p m.ht2 ≡ 0
      no_nodes p = rw no_older (unfold flatten in refl)

  grow-Grown :
      (m : HMap A)
      → IsValid m
      → 0 < length m.ht1.tab
      → (m' : HMap A) × (grow calloc m ≡ ok m') × Grown m m'
  unfolding grow load_factor
  grow-Grown m v nonempty = elim (null-cases m.ht2) [
    | inr (e, _) ↦ (m, rw e, record { valid = v; same = λ p. refl })
    | inl (e, no_older) ↦
        let width = v.newer.width nonempty in
        let fits = v.newer.addressable in
        elim (Bool-cases (leb k_max_load_factor (load_factor m))) [
          | inr light ↦ (m, rw (e, light), record { valid = v; same = λ p. refl })
          | inl heavy ↦
              let (m', run, g) = start-Grown m v no_older e nonempty (
                few_buckets m.ht1.size m.ht1.mask v.newer.small (omega (arith, width, fits))
                  heavy) in
              (m', rw (e, heavy) run, g)
        ]
  ]
    where
      few_buckets :
          (size mask : ℕ)
          → size < 2 ^ 64
          → mask + 1 < 2 ^ 64
          → leb 8 (size / add_size mask 1) ≡ true
          → mask + 1 ≤ 2 ^ 61
      few_buckets size mask small fits heavy =
          let plain : add_size mask 1 ≡ mask + 1 = omega arith in
          let eight : 8 ≤ size / (mask + 1) = rw (← plain) (ground arith) in grind arith

  with_table-Grown :
      (m : HMap A)
      → IsValid m
      → Grown m (with_table calloc m)
        × (0 < length (with_table calloc m).ht1.tab)
        × ((with_table calloc m).ht1.size ≡ m.ht1.size)
        × ((with_table calloc m).ht2.size ≡ m.ht2.size)
  unfolding with_table
  with_table-Grown m v = elim (null-cases m.ht1) [
    | inr (e, nonempty) ↦ rw e (record { valid = v; same = λ p. refl }, nonempty, refl, refl)
    | inl (e, null) ↦
        let f = h_init-Fresh 4 2 refl (omega arith) in
        let none_there : (p : HNode A → Bool) → tally p m.ht1 ≡ 0 =
          λ p. rw null (unfold flatten in refl) in
        let size : m.ht1.size ≡ 0 = omega (arith, none_there (λ _. true), v.newer.counted) in
        rw e (
          record {
            valid = record {
              newer = f.valid;
              older = v.older;
              swept = v.swept;
              room = λ h. omega (arith, f.width);
              small = omega (arith, f.size, v.older.small);
            };
            same = λ p. omega (arith, f.empty p, none_there p);
          },
          omega (arith, f.width),
          omega (arith, f.size),
          refl,
        )
  ]

  -- As long as the allocations succeed and the nodes stay below 2^64, `hm_insert` runs to its end on
  -- every well-formed map, also when it creates the first table or starts and runs a resizing. It
  -- leaves a well-formed map that holds the given node once more and each other node as before.
  pub hm_insert_lem :
      (m : HMap A) (node : HNode A)
      → IsValid m
      → m.ht1.size + m.ht2.size + 1 < 2 ^ 64
      → (m' : HMap A) × (hm_insert calloc m node ≡ ok m')
        × IsValid m'
        × ((p : HNode A → Bool) → tally_map p m' ≡ tally_map p m + to_nat (p node))
  unfolding hm_insert
  hm_insert_lem m node v space =
      let m₁ = with_table calloc m in
      let (g₁, nonempty, size, size2) = with_table-Grown m v in
      let (ht1, insert, i) =
        h_insert-Inserted m₁.ht1 node g₁.valid.newer nonempty (omega (arith, size, size2)) in
      let m₂ : HMap A = record m₁ { ht1 = ht1 } in
      let v₂ : IsValid m₂ = record {
        newer = i.valid;
        older = g₁.valid.older;
        swept = g₁.valid.swept;
        room = λ h. omega (arith, i.width, nonempty);
        small = omega (arith, i.size, size, size2, space);
      } in
      let (m₃, grows, g₃) = grow-Grown m₂ v₂ (omega (arith, i.width, nonempty)) in
      let (m₄, helps, k, _) = hm_help_resizing-Kept m₃ g₃.valid in
      (
        m₄,
        rw (insert, grows) helps,
        k.valid,
        λ p. omega (arith, k.same p, g₃.same p, i.adds p, g₁.same p),
      )
