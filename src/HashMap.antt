-- ===== src/HashMap.antt =====
-- data_structures/hashmap/hashtable.{h,c}: a chained table, and the map that resizes step by step.
-- A chain is the list of its nodes from the bucket's pointer on, so `next` is the order of the
-- list; the container around a node is its `item`. A null `tab` is the table with no bucket.
-- An incoming pointer `HNode **` is a bucket and a place in its chain.
pub mod Bags
pub mod Table
pub mod Resize
pub mod Lookup
pub mod Insert
pub mod Pop
use cachetron.Prelude.{
  ℕ, zero, suc, ◌+◌, ◌-◌, ◌*◌, ◌/◌, ◌%◌, ◌^◌, bit_and, bit_or, Bool, true, false,
}
use cachetron.Prelude.{◌&&◌, Option, none, some, List, [], ◌∷◌}
use cachetron.Prelude.{ltb, leb, ◌==◌, if◌then◌else◌, add_size, sub_size, length, replicate, set}
use cachetron.Prelude.{remove_at}
use cachetron.Prelude.Clp2.{clp2}
use cachetron.Prelude.Result.{Result, ok, fault, ◌>>=◌, at, deref}
use cachetron.Prelude.Result.{assertion, diverged}

pub record HNode {ℓ} (A : Type ℓ) : Type ℓ where
  pub hcode : ℕ
  pub item : A

pub record HTab {ℓ} (A : Type ℓ) : Type ℓ where
  pub tab : List (List (HNode A))
  pub mask : ℕ
  pub size : ℕ

pub record HMap {ℓ} (A : Type ℓ) : Type ℓ where
  pub ht1 : HTab A
  pub ht2 : HTab A
  pub resizing_pos : ℕ

abbrev pub k_resizing_work : ℕ
k_resizing_work = 128

abbrev pub k_max_load_factor : ℕ
k_max_load_factor = 8

-- The rounding of `h_init`.
pub round_up : ℕ → ℕ
unfolding clp2
round_up n = if bit_and n (sub_size n 1) == 0 then n else clp2 n

pub in_bucket : ℕ → Option ℕ → Option (ℕ × ℕ)
in_bucket pos none = none
in_bucket pos (some j) = some (pos, j)

-- The test that the loop of `h_lookup` makes on each node: the hash code, then `eq`.
abbrev pub hit {ℓ} : {A : Type ℓ} → ℕ → (HNode A → Bool) → HNode A → Bool
hit hcode eq n = n.hcode == hcode && eq n

module _ {ℓ} {A : Type ℓ} where
  abbrev pub init_htab : HTab A
  init_htab = record { tab = []; mask = 0; size = 0 }

  abbrev pub init_hmap : HMap A
  init_hmap = record { ht1 = init_htab; ht2 = init_htab; resizing_pos = 0 }

  pub is_null : HTab A → Bool
  is_null t = elim t.tab [ [] ↦ true | _ ↦ false ]

  -- The bucket of a hash code.
  abbrev pub pos_of : HTab A → ℕ → ℕ
  pos_of t hcode = bit_and hcode t.mask

  pub h_insert : HTab A → HNode A → Result (HTab A)
  h_insert t node = do
    let pos = pos_of t node.hcode
    next ← at t.tab pos
    ok (record t { tab = set t.tab pos (node ∷ next); size = add_size t.size 1 })

  -- The place of the first node of a chain that passes the test.
  pub find_from : (HNode A → Bool) → ℕ → List (HNode A) → Option ℕ
  find_from p j [] = none
  find_from p j (n ∷ c) = if p n then some j else find_from p (j + 1) c

  pub h_lookup : HTab A → ℕ → (HNode A → Bool) → Result (Option (ℕ × ℕ))
  unfolding is_null find_from in_bucket
  h_lookup t hcode eq = if is_null t then ok none else do
    let pos = pos_of t hcode
    chain ← at t.tab pos
    ok (in_bucket pos (find_from (hit hcode eq) 0 chain))

  -- `*from`
  pub target : HTab A → ℕ × ℕ → Result (HNode A)
  target t from = do chain ← at t.tab from.0; at chain from.1

  pub h_detach : HTab A → Option (ℕ × ℕ) → Result (HNode A × HTab A)
  unfolding target
  h_detach t from = do
    place ← deref from
    node ← target t place
    chain ← at t.tab place.0
    let rest = remove_at chain place.1
    ok (node, record t { tab = set t.tab place.0 rest; size = sub_size t.size 1 })

  -- One round of the loop: the work that it counts, and the map after it.
  pub help_round : HMap A → Result (ℕ × HMap A)
  help_round m = do
    chain ← at m.ht2.tab m.resizing_pos
    elim chain [
      | [] ↦ ok (0, record m { resizing_pos = add_size m.resizing_pos 1 })
      | _ ∷ _ ↦ do
        (node, ht2) ← h_detach m.ht2 (some (m.resizing_pos, 0))
        ht1 ← h_insert m.ht1 node
        ok (1, record m { ht1 = ht1; ht2 = ht2 })
    ]

  abbrev pub help_more : ℕ → HMap A → Bool
  help_more nwork m = ltb nwork k_resizing_work && ltb 0 m.ht2.size

  -- The loop, with the rounds that it may still take.
  pub help_loop : ℕ → ℕ → HMap A → Result (HMap A)
  help_loop zero nwork m = fault diverged
  help_loop (suc fuel) nwork m = elim (help_more nwork m) [
    | false ↦ ok m
    | true ↦ help_round m >>= λ (w, m'). help_loop fuel (nwork + w) m'
  ]

  -- `free(ht2.tab)` once the older table is empty.
  pub drop_older : HMap A → HMap A
  unfolding is_null
  drop_older m =
      if m.ht2.size == 0 then (if is_null m.ht2 then m else record m { ht2 = init_htab }) else m

  -- A round passes a bucket or does one unit of work.
  abbrev pub help_fuel : HMap A → ℕ
  help_fuel m = length m.ht2.tab + k_resizing_work + 1

  unfoldable pub hm_help_resizing : HMap A → Result (HMap A)
  unfolding help_loop help_round drop_older h_detach h_insert
  hm_help_resizing m = do m' ← help_loop (help_fuel m) 0 m; ok (drop_older m')

  pub hm_lookup : HMap A → ℕ → (HNode A → Bool) → Result (Option (HNode A) × HMap A)
  unfolding hm_help_resizing h_lookup
  hm_lookup m hcode eq = do
    m' ← hm_help_resizing m
    from ← h_lookup m'.ht1 hcode eq
    elim from [
      | some place ↦ do node ← target m'.ht1 place; ok (some node, m')
      | none ↦ do
        from2 ← h_lookup m'.ht2 hcode eq
        elim from2 [
          | none ↦ ok (none, m')
          | some place ↦ do node ← target m'.ht2 place; ok (some node, m')
        ]
    ]

  -- As written, the second branch passes the null `from` of the first lookup to `h_detach`.
  pub hm_pop : HMap A → ℕ → (HNode A → Bool) → Result (Option (HNode A) × HMap A)
  unfolding hm_help_resizing h_lookup h_detach
  hm_pop m hcode eq = do
    m' ← hm_help_resizing m
    from ← h_lookup m'.ht1 hcode eq
    elim from [
      | some place ↦ do
        (node, ht1) ← h_detach m'.ht1 (some place)
        ok (some node, record m' { ht1 = ht1 })
      | none ↦ do
        from2 ← h_lookup m'.ht2 hcode eq
        elim from2 [
          | none ↦ ok (none, m')
          | some _ ↦ do (node, ht2) ← h_detach m'.ht2 none; ok (some node, record m' { ht2 = ht2 })
        ]
    ]

  pub hm_size : HMap A → ℕ
  hm_size m = add_size m.ht1.size m.ht2.size

  -- The nodes that the two `free` calls leave are the caller's.
  pub hm_destroy : HMap A → HMap A
  hm_destroy m = init_hmap

  pub load_factor : HMap A → ℕ
  load_factor m = m.ht1.size / add_size m.ht1.mask 1

  -- `calloc n` tells whether the allocation of `n` pointers succeeds.
  module _ (calloc : ℕ → Bool) where
    pub h_init : ℕ → HTab A
    unfolding round_up
    h_init n =
        let n' = round_up (if n == 0 then 2 else n) in
        record { tab = if calloc n' then replicate n' [] else []; mask = sub_size n' 1; size = 0 }

    pub hm_start_resizing : HMap A → Result (HMap A)
    unfolding is_null h_init
    hm_start_resizing m =
        if is_null m.ht2
        then ok (record {
          ht1 = h_init ((add_size m.ht1.mask 1 * 2) % 2 ^ 64);
          ht2 = m.ht1;
          resizing_pos = 0;
        })
        else fault assertion

    -- A map with a first table.
    pub with_table : HMap A → HMap A
    unfolding is_null h_init
    with_table m = if is_null m.ht1 then record m { ht1 = h_init 4 } else m

    pub grow : HMap A → Result (HMap A)
    unfolding is_null load_factor
    grow m =
        if is_null m.ht2
        then (if leb k_max_load_factor (load_factor m) then hm_start_resizing m else ok m)
        else ok m

    pub hm_insert : HMap A → HNode A → Result (HMap A)
    unfolding with_table h_insert grow hm_start_resizing hm_help_resizing
    hm_insert m node = do
      let m₁ = with_table m
      ht1 ← h_insert m₁.ht1 node
      m₂ ← grow (record m₁ { ht1 = ht1 })
      hm_help_resizing m₂
