-- ===== src/Avl/Order.antt =====
-- The nodes of a tree in order, and those on both sides of a path.
use cachetron.Prelude.{ℕ, ◌≡◌, sym, ap, ◌∙◌, List, [], ◌∷◌, ◌++◌, append_assoc}
use cachetron.Avl.{AvlNode, Frame, leaf, node, is_left, is_right}

unfoldable pub inorder : AvlNode → List ℕ
inorder leaf = []
inorder (node a h c l r) = inorder l ++ a ∷ inorder r

-- What comes before the place at the end of a path, and what comes after.
unfoldable pub before : List Frame → List ℕ
before [] = []
before (is_left a h c r ∷ path) = before path
before (is_right a h c l ∷ path) = before path ++ (inorder l ++ a ∷ [])

unfoldable pub after : List Frame → List ℕ
after [] = []
after (is_left a h c r ∷ path) = (a ∷ inorder r) ++ after path
after (is_right a h c l ∷ path) = after path

-- All nodes of a tree, of which the path leads to the subtree `t`.
abbrev pub around : List Frame → List ℕ → List ℕ
around path mid = before path ++ (mid ++ after path)

pub around-left :
    (a h c : ℕ) (r : AvlNode) (path : List Frame) (mid : List ℕ)
    → around (is_left a h c r ∷ path) mid ≡ around path (mid ++ a ∷ inorder r)
unfolding before after
around-left a h c r path mid =
    ap (λ l. before path ++ l) (sym (append_assoc mid (a ∷ inorder r) (after path)))

pub around-right :
    (a h c : ℕ) (l : AvlNode) (path : List Frame) (mid : List ℕ)
    → around (is_right a h c l ∷ path) mid ≡ around path (inorder l ++ a ∷ mid)
unfolding before after
around-right a h c l path mid =
    append_assoc (before path) (inorder l ++ a ∷ []) (mid ++ after path)
    ∙ ap (λ x. before path ++ x)
        (append_assoc (inorder l) (a ∷ []) (mid ++ after path)
          ∙ sym (append_assoc (inorder l) (a ∷ mid) (after path)))
