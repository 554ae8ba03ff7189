-- ===== src/Zset.antt =====
-- data_structures/set/zset.{h,c}: a set of (score, name) tuples, in a tree by their order and in a
-- hash map by their names. A `ZNode` is known by its address, which stands in the tree and in the map
-- for its `tree` and `hmap` fields; `Memory` gives the other fields of the node at each address.
-- Doubles and their tests `!=` and `<` are parameters.
pub mod Order
pub mod Query
pub mod Seek
pub mod Fits
pub mod Add
pub mod Update
pub mod Dispose
use cachetron.Prelude.{
  ℕ, zero, suc, ◌+◌, ◌-◌, ◌^◌, Bool, true, false, not, Option, none, some, List, [], ◌∷◌, ◌++◌,
}
use cachetron.Prelude.{ltb, ◌==◌, if◌then◌else◌, ◌&&◌, length}
use cachetron.Prelude.Result.{Result, ok, fault, null_deref, ◌>>=◌, deref}
use cachetron.Branchless.{min_size}
use cachetron.Hash.{fnv1a_hash, fnv_shifts}
use cachetron.HashMap.{HMap, HNode, init_hmap, hm_lookup, hm_pop, hm_insert, hm_destroy}
use cachetron.Avl.{
  AvlNode, Frame, Place, leaf, node, is_left, is_right, avl_init, avl_count, avl_fix, avl_del,
  avl_offset,
}

-- The `len` of the source is the length of the name.
pub record ZNode {ℓ} (D : Type ℓ) : Type ℓ where
  pub score : D
  pub name : List ℕ

pub record ZSet : Type 0 where
  pub tree : AvlNode
  pub hmap : HMap ℕ

abbrev pub Memory {ℓ} : Type ℓ → Type ℓ
Memory D = ℕ → ZNode D

-- The sign of what `memcmp` returns.
pub data Sign : Type 0 where
  negative same positive : Sign

-- `memcmp` of the first `n` bytes.
pub memcmp : List ℕ → List ℕ → ℕ → Sign
memcmp xs ys zero = same
memcmp [] ys (suc n) = same
memcmp (x ∷ xs) [] (suc n) = same
memcmp (x ∷ xs) (y ∷ ys) (suc n) =
    let rest = memcmp xs ys n in if x == y then rest else if ltb x y then negative else positive

pub by_sign : Sign → Bool → Bool
by_sign negative b = true
by_sign same b = b
by_sign positive b = false

abbrev pub is_same : Sign → Bool
is_same negative = false
is_same same = true
is_same positive = false

abbrev pub zset_init : ZSet
zset_init = record { tree = leaf; hmap = init_hmap }

-- The place of the node at an address, which is where a pointer to the node leads.
pub seek : ℕ → List Frame → AvlNode → Option Place
seek a path leaf = none
seek a path (node b h c l r) =
    let on_left = seek a (is_left b h c r ∷ path) l in
    let on_right = seek a (is_right b h c l ∷ path) r in
    if b == a
    then some (record { path = path; addr = b; height = h; count = c; left = l; right = r })
    else elim on_left [ some place ↦ some place | none ↦ on_right ]

-- The last node that fails the test on the way down, from the candidate `found` on.
pub query_loop : (ℕ → Bool) → Option ℕ → AvlNode → Option ℕ
query_loop less found leaf = found
query_loop less found (node a h c l r) =
    let on_right = query_loop less found r in
    let on_left = query_loop less (some a) l in if less a then on_right else on_left

-- The way down to the place of a new node.
pub add_path : (ℕ → Bool) → List Frame → AvlNode → List Frame
add_path less path leaf = path
add_path less path (node a h c l r) =
    let on_left = add_path less (is_left a h c r ∷ path) l in
    let on_right = add_path less (is_right a h c l ∷ path) r in if less a then on_left else on_right

-- A call of `avl_del` makes at most one call more than the tree has nodes.
abbrev pub del_fuel : AvlNode → ℕ
del_fuel t = avl_count t + 1

module _ {ℓ} {D : Type ℓ} (ne less : D → D → Bool) where
  unfoldable pub zless : ZNode D → D → List ℕ → Bool
  unfolding memcmp by_sign
  zless zl score name =
      if ne zl.score score
      then less zl.score score
      else by_sign (memcmp zl.name name (min_size (length zl.name) (length name)))
          (ltb (length zl.name) (length name))

  unfoldable pub zless2 : Memory D → ℕ → ℕ → Bool
  unfolding zless
  zless2 mem lhs rhs = zless (mem lhs) (mem rhs).score (mem rhs).name

  unfoldable pub zset_query : Memory D → ZSet → D → List ℕ → Option ℕ
  unfolding query_loop zless
  zset_query mem zset score name = query_loop (λ a. zless (mem a) score name) none zset.tree

  unfoldable pub tree_add : Memory D → ZSet → ℕ → Result ZSet
  unfolding add_path zless2
  tree_add mem zset a = do
    root ← avl_fix (add_path (λ b. zless2 mem a b) [] zset.tree) (avl_init a)
    ok (record zset { tree = root })

abbrev pub set_score {ℓ} : {D : Type ℓ} → Memory D → ℕ → D → Memory D
set_score mem a score b = if b == a then record (mem b) { score = score } else mem b

module _ {ℓ} {D : Type ℓ} (ne less : D → D → Bool) where
  -- `zset_update`: the memory and the set after it.
  unfoldable pub zset_update : Memory D → ZSet → ℕ → D → Result (Memory D × ZSet)
  unfolding seek
  zset_update mem zset a score = if not (ne (mem a).score score) then ok (mem, zset) else do
    place ← deref (seek a [] zset.tree)
    root ← avl_del (del_fuel zset.tree) place
    let mem' = set_score mem a score
    zset' ← tree_add ne less mem' (record zset { tree = root }) a
    ok (mem', zset')

  -- Whether a node of the map has the name.
  pub hcmp : Memory D → List ℕ → HNode ℕ → Bool
  unfolding memcmp
  hcmp mem name n =
      let zname = (mem n.item).name in
      length zname == length name && is_same (memcmp zname name (length zname))

  abbrev pub name_hash : List ℕ → ℕ
  name_hash name = fnv1a_hash fnv_shifts name

  pub with_hmap : ZSet → Option (HNode ℕ) × HMap ℕ → Option ℕ × ZSet
  with_hmap zset (none, m) = (none, record zset { hmap = m })
  with_hmap zset (some n, m) = (some n.item, record zset { hmap = m })

  pub zset_lookup : Memory D → ZSet → List ℕ → Result (Option ℕ × ZSet)
  unfolding hcmp with_hmap
  zset_lookup mem zset name = elim zset.tree [
    | leaf ↦ ok (none, zset)
    | node a h c l r ↦ do
      found ← hm_lookup zset.hmap (name_hash name) (hcmp mem name)
      ok (with_hmap zset found)
  ]

  pub drop_node : Option ℕ × ZSet → Result (Option ℕ × ZSet)
  unfolding seek
  drop_node (none, zset) = ok (none, zset)
  drop_node (some a, zset) = do
    place ← deref (seek a [] zset.tree)
    root ← avl_del (del_fuel zset.tree) place
    ok (some a, record zset { tree = root })

  pub zset_pop : Memory D → ZSet → List ℕ → Result (Option ℕ × ZSet)
  unfolding hcmp with_hmap drop_node
  zset_pop mem zset name = elim zset.tree [
    | leaf ↦ ok (none, zset)
    | node a h c l r ↦ do
      found ← hm_pop zset.hmap (name_hash name) (hcmp mem name)
      drop_node (with_hmap zset found)
  ]

  -- `znode_new` where `malloc` returns the address or null.
  pub znode_new : Option ℕ → Memory D → List ℕ → D → Option (ℕ × Memory D)
  znode_new none mem name score = none
  znode_new (some a) mem name score =
      some (a, λ b. if b == a then record { score = score; name = name } else mem b)

  -- `zset_add`, which does not test the node for null before it reads it.
  unfoldable pub zset_add :
      (ℕ → Bool) → Option ℕ → Memory D → ZSet → List ℕ → D → Result (Bool × Memory D × ZSet)
  unfolding zset_lookup zset_update znode_new
  zset_add calloc malloc mem zset name score = do
    (found, zset₁) ← zset_lookup mem zset name
    elim found [
      | some a ↦ do (mem₁, zset₂) ← zset_update mem zset₁ a score; ok (false, mem₁, zset₂)
      | none ↦ do
        (a, mem₁) ← deref (znode_new malloc mem name score)
        hmap ← hm_insert calloc zset₁.hmap (record { hcode = name_hash name; item = a })
        zset₂ ← tree_add ne less mem₁ (record zset₁ { hmap = hmap }) a
        ok (true, mem₁, zset₂)
    ]

-- `znode_offset`, with the rounds that `avl_offset` may make; the offset 0 stands as 2^63.
pub znode_offset : ℕ → Option Place → ℕ → Result (Option ℕ)
znode_offset fuel none offset = ok none
znode_offset fuel (some n) offset = do
  found ← avl_offset fuel n (2 ^ 63) offset
  elim found [ none ↦ ok none | some m ↦ ok (some m.addr) ]

-- The nodes that `tree_dispose` frees, in the order in which it does.
pub tree_dispose : AvlNode → List ℕ
tree_dispose leaf = []
tree_dispose (node a h c l r) = tree_dispose l ++ (tree_dispose r ++ a ∷ [])

-- The nodes freed, and the set without its map.
pub zset_dispose : ZSet → List ℕ × ZSet
unfolding tree_dispose
zset_dispose zset = (tree_dispose zset.tree, record zset { hmap = hm_destroy zset.hmap })
