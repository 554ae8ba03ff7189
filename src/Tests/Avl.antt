-- ===== src/Tests/Avl.antt =====
-- A tree of three nodes.
use cachetron.Prelude.{ℕ, ◌+◌, ◌^◌, ◌≤◌, ◌≡◌, refl, [], ◌∷◌, ◌++◌, arith, Option}
use cachetron.Prelude.Result.{ok}
use cachetron.Avl.{AvlNode, Place, node, avl_init, avl_del, avl_offset}
use cachetron.Avl.Order.{inorder, before, after, around}
use cachetron.Avl.Balance.{IsAvl}
use cachetron.Avl.Fix.{path_count, root, Tree}
use cachetron.Avl.Replace.{occurs}
use cachetron.Avl.Delete.{all_nodes, Rooted, avl_del-Tree}
use cachetron.Avl.Offset.{Counts, rank}
use cachetron.Avl.Climb.{Answer, avl_offset_lem}

abbrev pub three : AvlNode
three = node 2 2 3 (avl_init 1) (avl_init 3)

pub three-IsAvl : IsAvl three
three-IsAvl = (
  (tt, tt, refl, refl, omega arith, omega arith),
  (tt, tt, refl, refl, omega arith, omega arith),
  refl,
  refl,
  omega arith,
  omega arith,
)

pub three_distinct : (x : ℕ) → occurs x (inorder three) ≤ 1
unfolding inorder
three_distinct x = ground arith

abbrev top : Place
top = record { path = []; addr = 2; height = 2; count = 3; left = avl_init 1; right = avl_init 3 }

top-Rooted : Rooted top
unfolding before after inorder path_count
top-Rooted = record {
  node_avl = three-IsAvl;
  holds = root 2;
  distinct = λ x. ground arith;
  small = omega arith;
}

avl_del-Tree_example :
    (u : AvlNode) × (avl_del 2 top ≡ ok u)
    × Tree (around [] (inorder (avl_init 1) ++ inorder (avl_init 3))) (path_count [] + 1 + 1) u
avl_del-Tree_example = avl_del-Tree 2 top (omega arith) top-Rooted

top-Counts : Counts top
top-Counts = record { tree = ((tt, tt, refl), (tt, tt, refl), refl); path = tt }

three_nodes : (all_nodes top ≡ 1 ∷ 2 ∷ 3 ∷ [])
unfolding before after inorder
three_nodes = refl

avl_offset_lem_example :
    (found : Option Place) × (avl_offset 3 top (2 ^ 63) (2 ^ 63 + 1) ≡ ok found)
    × Answer (rank top) top (2 ^ 63 + 1) found
avl_offset_lem_example =
    avl_offset_lem 3 top (2 ^ 63 + 1) top-Counts (rw three_nodes (omega arith))
      (rw three_nodes (omega arith))
