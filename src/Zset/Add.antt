-- ===== src/Zset/Add.antt =====
-- `tree_add` puts a new node where the order of the tree has its place.
use mathlib.Core.Path.{subst}
use cachetron.Prelude.{
  ℕ, ◌+◌, ◌^◌, ◌<◌, ◌≡◌, refl, sym, ap, ◌∙◌, List, [], ◌∷◌, ◌++◌, append-nil, arith,
}
use cachetron.Prelude.{Bool, false}
use cachetron.Prelude.Result.{ok}
use cachetron.Avl.{AvlNode, avl_height, avl_count, avl_init, avl_fix}
use cachetron.Avl.Order.{inorder, before, after}
use cachetron.Avl.Balance.{IsAvl}
use cachetron.Avl.Fix.{path_count, root, Tree, avl_fix-Tree}
use cachetron.Zset.{ZSet, Memory, add_path, zless2, tree_add}
use cachetron.Zset.Order.{Comparison, tuple_less_irrefl}
use cachetron.Zset.Query.{Sorted, Short, zless2_lem, zless2_trans, zless2_split}
use cachetron.Zset.Fits.{Ordered, Sorted-insert, add_path-Fits}

zless2_irrefl {ℓ} :
    {D : Type ℓ} (ne less : D → D → Bool) (c : Comparison ne less) (mem : Memory D)
    → Short mem
    → (a : ℕ) → zless2 ne less mem a a ≡ false
zless2_irrefl ne less c mem short a =
    zless2_lem ne less c mem short a a ∙ tuple_less_irrefl (c.rank (mem a).score) (mem a).name

pub zless2-Ordered {ℓ} :
    {D : Type ℓ} (ne less : D → D → Bool) (c : Comparison ne less) (mem : Memory D)
    → Short mem
    → Ordered (zless2 ne less mem)
zless2-Ordered ne less c mem short = record {
  trans = zless2_trans ne less c mem short;
  split = zless2_split ne less c mem short;
  irrefl = zless2_irrefl ne less c mem short;
}

-- A balanced and sorted tree of the old nodes, `total` in number, and a new one.
pub record Added (lt : ℕ → ℕ → Bool) (olds : List ℕ) (total a : ℕ) (u : AvlNode) : Type 0 where
  pub smaller : List ℕ
  pub larger : List ℕ
  pub old_nodes : olds ≡ smaller ++ larger
  pub tree : Tree (smaller ++ a ∷ larger) (1 + total) u
  pub sorted : Sorted lt (inorder u)

add_run {ℓ} :
    {D : Type ℓ} (ne less : D → D → Bool) (mem : Memory D) (zset : ZSet) (a : ℕ) (u : AvlNode)
    → avl_fix (add_path (zless2 ne less mem a) [] zset.tree) (avl_init a) ≡ ok u
    → tree_add ne less mem zset a ≡ ok (record zset { tree = u })
unfolding tree_add
add_run ne less mem zset a u run = rw run refl

-- With scores that are no NaN and names of fewer than 2^64 bytes, `tree_add` puts a node into a
-- balanced and sorted tree of fewer than 2^32 - 1 nodes: it ends, reads no null pointer, and leaves a
-- tree that is balanced and sorted, with the new node among the old ones, which keep their order.
pub tree_add-Added {ℓ} :
    {D : Type ℓ} (ne less : D → D → Bool) (c : Comparison ne less) (mem : Memory D) (zset : ZSet)
    (a : ℕ)
    → Short mem
    → IsAvl zset.tree
    → Sorted (zless2 ne less mem) (inorder zset.tree)
    → 1 + avl_count zset.tree < 2 ^ 32
    → (u : AvlNode) × (tree_add ne less mem zset a ≡ ok (record zset { tree = u }))
      × Added (zless2 ne less mem) (inorder zset.tree) (avl_count zset.tree) a u
unfolding before after path_count
tree_add-Added ne less c mem zset a short v s small =
    let lt = zless2 ne less mem in
    let o = zless2-Ordered ne less c mem short in
    let path = add_path (lt a) [] zset.tree in
    let k = add_path-Fits lt a [] zset.tree o v s (root (avl_height zset.tree)) in
    let (u, run, t) = avl_fix-Tree path a k.holds (omega (arith, k.total)) in
    let nodes : inorder u ≡ k.smaller ++ a ∷ k.larger =
      t.nodes
      ∙ ap (λ x. x ++ a ∷ after path) k.earlier
      ∙ ap (λ x. k.smaller ++ a ∷ x) (k.later ∙ append-nil k.larger) in
    (
      u,
      add_run ne less mem zset a u run,
      record {
        smaller = k.smaller;
        larger = k.larger;
        old_nodes = k.nodes;
        tree = record { nodes = nodes; avl = t.avl; count = omega (arith, t.count, k.total) };
        sorted = subst (Sorted lt) (sym nodes) (
            Sorted-insert lt o a k.smaller k.larger (subst (Sorted lt) k.nodes s) k.not_less
              k.is_less);
      },
    )
