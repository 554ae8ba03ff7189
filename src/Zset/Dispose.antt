-- ===== src/Zset/Dispose.antt =====
-- What is freed with a set.
use cachetron.Prelude.{ℕ, ◌≡◌, refl, [], ◌∷◌, ◌++◌, ◌==◌, count-append, arith}
use cachetron.Avl.{AvlNode, leaf, node}
use cachetron.Avl.Order.{inorder}
use cachetron.Avl.Replace.{occurs}
use cachetron.Zset.{tree_dispose}

-- `tree_dispose` frees each node as often as it stands in the tree, and nothing else.
pub tree_dispose-inorder : (t : AvlNode) (x : ℕ) → occurs x (tree_dispose t) ≡ occurs x (inorder t)
unfolding tree_dispose inorder
tree_dispose-inorder leaf x = refl
tree_dispose-inorder (node a h c l r) x = omega (
  arith,
  count-append (λ y. y == x) (tree_dispose l) (tree_dispose r ++ a ∷ []),
  count-append (λ y. y == x) (tree_dispose r) (a ∷ []),
  count-append (λ y. y == x) (inorder l) (a ∷ inorder r),
  tree_dispose-inorder l x,
  tree_dispose-inorder r x,
)
