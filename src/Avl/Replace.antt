-- ===== src/Avl/Replace.antt =====
-- A node that takes the place of another, and the first node of a subtree.
use mathlib.Core.Path.{subst}
use cachetron.Prelude.{
  ℕ, ◌+◌, ◌<◌, ◌≡◌, refl, sym, ap, ◌∙◌, List, [], ◌∷◌, ◌++◌, append_assoc, append-nil, arith,
}
use cachetron.Prelude.{true, ◌==◌, if◌then◌else◌, Bool-cases, inl, inr, map, count, to_nat, max}
use cachetron.Avl.{
  AvlNode, Frame, Place, leaf, node, is_left, avl_height, avl_count, leftmost, replace,
}
use cachetron.Avl.Order.{inorder, around, around-left}
use cachetron.Avl.Balance.{IsAvl}
use cachetron.Avl.Fix.{path_count, Holds, left}

abbrev pub swap : ℕ → ℕ → ℕ → ℕ
swap a v x = if x == a then v else x

map-append : (f : ℕ → ℕ) (xs ys : List ℕ) → map f (xs ++ ys) ≡ map f xs ++ map f ys
map-append f [] ys = refl
map-append f (x ∷ xs) ys = ap (λ l. f x ∷ l) (map-append f xs ys)

pub inorder-replace : (a v : ℕ) (t : AvlNode) → inorder (replace a v t) ≡ map (swap a v) (inorder t)
unfolding inorder replace
inorder-replace a v leaf = refl
inorder-replace a v (node b h c l r) =
    ap (λ x. x ++ swap a v b ∷ inorder (replace a v r)) (inorder-replace a v l)
    ∙ ap (λ x. map (swap a v) (inorder l) ++ swap a v b ∷ x) (inorder-replace a v r)
    ∙ sym (map-append (swap a v) (inorder l) (b ∷ inorder r))

pub replace_height : (a v : ℕ) (t : AvlNode) → avl_height (replace a v t) ≡ avl_height t
unfolding replace
replace_height a v leaf = refl
replace_height a v (node b h c l r) = refl

pub replace_count : (a v : ℕ) (t : AvlNode) → avl_count (replace a v t) ≡ avl_count t
unfolding replace
replace_count a v leaf = refl
replace_count a v (node b h c l r) = refl

pub replace-IsAvl : (a v : ℕ) (t : AvlNode) → IsAvl t → IsAvl (replace a v t)
unfolding replace
replace-IsAvl a v leaf w = w
replace-IsAvl a v (node b h c l r) w =
    let hl = replace_height a v l in
    let hr = replace_height a v r in
    (
      replace-IsAvl a v l w.0,
      replace-IsAvl a v r w.1,
      omega
          (arith, w.2, ap (λ x. max x (avl_height r)) hl, ap (max (avl_height (replace a v l))) hr),
      omega (arith, w.3, replace_count a v l, replace_count a v r),
      omega (arith, w.4),
      omega (arith, w.5),
    )

-- How often a node stands in a list.
abbrev pub occurs : ℕ → List ℕ → ℕ
occurs a = count (λ x. x == a)

same_where : (a v : ℕ) (xs : List ℕ) → occurs a xs ≡ 0 → map (swap a v) xs ≡ xs
same_where a v [] h = refl
same_where a v (x ∷ xs) h = elim (Bool-cases (x == a)) [
  | inl e ↦ absurd (omega (arith, ap to_nat e))
  | inr e ↦ rw e (ap (λ l. x ∷ l) (same_where a v xs (omega (arith, ap to_nat e))))
]

-- One node of a list gets another name.
pub swap_one :
    (a v : ℕ) (xs ys : List ℕ)
    → occurs a xs ≡ 0
    → occurs a ys ≡ 0
    → map (swap a v) (xs ++ a ∷ ys) ≡ xs ++ v ∷ ys
swap_one a v xs ys p q =
    let self : (a == a) ≡ true = ground arith in
    map-append (swap a v) xs (a ∷ ys)
    ∙ ap (λ l. l ++ swap a v a ∷ map (swap a v) ys) (same_where a v xs p)
    ∙ ap (λ l. xs ++ swap a v a ∷ l) (same_where a v ys q)
    ∙ ap (λ b. xs ++ (if b then v else a) ∷ ys) self

-- What `leftmost` finds: the first node of the subtree, which has no left subtree.
pub record Least (path : List Frame) (t : AvlNode) (w : Place) : Type 0 where
  pub no_left : w.left ≡ leaf
  pub avl : IsAvl (node w.addr w.height w.count w.left w.right)
  pub holds : Holds w.path w.height
  pub tail : List ℕ
  pub around : (mid : List ℕ) → around w.path mid ≡ around path (mid ++ tail)
  pub first : inorder t ≡ w.addr ∷ (inorder w.right ++ tail)
  pub smaller : avl_count w.right < avl_count t
  pub total : path_count w.path + w.count ≡ path_count path + avl_count t

pub leftmost-Least :
    (path : List Frame) (a h c : ℕ) (l r : AvlNode)
    → IsAvl (node a h c l r)
    → Holds path h
    → Least path (node a h c l r) (leftmost path a h c l r)
unfolding leftmost inorder path_count
leftmost-Least path a h c leaf r v holds = record {
  no_left = refl;
  avl = v;
  holds = holds;
  tail = [];
  around = λ mid. ap (λ x. around path x) (sym (append-nil mid));
  first = ap (λ x. a ∷ x) (sym (append-nil (inorder r)));
  smaller = omega (arith, v.3);
  total = refl;
}
leftmost-Least path a h c (node b h' c' ll lr) r v holds =
    let k =
      leftmost-Least (is_left a h c r ∷ path) b h' c' ll lr v.0
        (left a h c r path h' v.1 v.4 v.5 (subst (Holds path) v.2 holds)) in
    record {
      no_left = k.no_left;
      avl = k.avl;
      holds = k.holds;
      tail = k.tail ++ a ∷ inorder r;
      around = λ mid.
          k.around mid
          ∙ around-left a h c r path (mid ++ k.tail)
          ∙ ap (λ x. around path x) (append_assoc mid k.tail (a ∷ inorder r));
      first =
          let w = leftmost (is_left a h c r ∷ path) b h' c' ll lr in
          ap (λ x. x ++ a ∷ inorder r) k.first
          ∙ ap (λ x. w.addr ∷ x) (append_assoc (inorder w.right) k.tail (a ∷ inorder r));
      smaller = omega (arith, k.smaller, v.3);
      total = omega (arith, k.total, v.3);
    }
