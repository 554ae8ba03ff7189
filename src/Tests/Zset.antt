-- ===== src/Tests/Zset.antt =====
-- A set of three tuples, whose scores are numbers.
use cachetron.Prelude.{ℕ, ◌≤◌, ◌≡◌, refl, Bool, not, ltb, ◌==◌, [], arith, none}
use cachetron.Prelude.Result.{ok}
use cachetron.HashMap.{init_hmap}
use cachetron.Avl.{AvlNode}
use cachetron.Avl.Order.{inorder}
use cachetron.Zset.{ZSet, Memory, set_score, zless, zless2, zset_query, tree_add, zset_update}
use cachetron.Zset.Order.{Comparison, tuple_less, zless_lem}
use cachetron.Zset.Query.{Sorted, Short, first_not, zset_query_lem}
use cachetron.Zset.Add.{Added, tree_add-Added}
use cachetron.Zset.Update.{Moved, zset_update-Moved}
use cachetron.Avl.Replace.{occurs}
use cachetron.Tests.Avl.{three, three-IsAvl, three_distinct}

abbrev ne : ℕ → ℕ → Bool
ne x y = not (x == y)

abbrev numbers : Comparison ne ltb
numbers = record { rank = λ x. x; ne_lem = λ x y. refl; less_lem = λ x y. refl }

-- The node at an address has the address for its score.
abbrev memory : Memory ℕ
memory a = record { score = a; name = [] }

abbrev set : ZSet
set = record { tree = three; hmap = init_hmap }

memory-Short : Short memory
memory-Short a = omega arith

set-Sorted : Sorted (zless2 ne ltb memory) (inorder three)
unfolding inorder zless zless2
set-Sorted = ((refl, (refl, tt)), ((refl, tt), (tt, tt)))

zless_lem_example : zless ne ltb (memory 1) 2 [] ≡ tuple_less 1 [] 2 []
zless_lem_example = zless_lem ne ltb numbers (memory 1) 2 [] (omega arith) (omega arith)

zset_query_lem_example :
    zset_query ne ltb memory set 2 []
    ≡ first_not (λ a. zless ne ltb (memory a) 2 []) (inorder three) none
zset_query_lem_example =
    zset_query_lem ne ltb numbers memory set 2 [] memory-Short (omega arith) set-Sorted

tree_add-Added_example :
    (u : AvlNode) × (tree_add ne ltb memory set 4 ≡ ok (record set { tree = u }))
    × Added (zless2 ne ltb memory) (inorder three) 3 4 u
tree_add-Added_example =
    tree_add-Added ne ltb numbers memory set 4 memory-Short three-IsAvl set-Sorted (omega arith)

one_there : 1 ≤ occurs 1 (inorder three)
unfolding inorder
one_there = omega arith

zset_update-Moved_example :
    (u : AvlNode) × (zset_update ne ltb memory set 1 5
      ≡ ok (set_score memory 1 5, record set { tree = u }))
    × Moved (zless2 ne ltb (set_score memory 1 5)) 1 three u
zset_update-Moved_example =
    zset_update-Moved ne ltb numbers memory set 1 5 memory-Short three-IsAvl set-Sorted
      three_distinct (omega arith) one_there refl
