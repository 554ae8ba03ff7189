-- ===== src/Zset/Fits.antt =====
-- The place of a new node in a sorted tree.
use mathlib.Core.Path.{subst}
use cachetron.Prelude.{
  ℕ, ◌+◌, ◌≡◌, refl, sym, ap, ◌∙◌, List, [], ◌∷◌, ◌++◌, append_assoc, append-nil, arith,
}
use cachetron.Prelude.{Bool, true, false, Bool-cases, inl, inr, ◌⊎◌, max}
use cachetron.Avl.{AvlNode, Frame, leaf, node, is_left, is_right, avl_height, avl_count}
use cachetron.Avl.Order.{inorder, before, after}
use cachetron.Avl.Balance.{IsAvl}
use cachetron.Avl.Fix.{path_count, Holds, left, right}
use cachetron.Zset.{add_path}
use cachetron.Zset.Query.{
  Every, Sorted, Every-append, Every-left, Every-right, Every-map, Sorted-Middle,
}

-- An order without cycles, in which what is between two nodes is behind the first or before the second.
pub record Ordered (lt : ℕ → ℕ → Bool) : Type 0 where
  pub trans : (a b d : ℕ) → lt a b ≡ true → lt b d ≡ true → lt a d ≡ true
  pub split : (a b d : ℕ) → lt a d ≡ true → (lt a b ≡ true) ⊎ (lt b d ≡ true)
  pub irrefl : (a : ℕ) → lt a a ≡ false

module _ (lt : ℕ → ℕ → Bool) (o : Ordered lt) where
  asym : (a b : ℕ) → lt a b ≡ true → lt b a ≡ false
  asym a b p = elim (Bool-cases (lt b a)) [
    | inl q ↦ absurd (cc (o.trans a b a p q, o.irrefl a))
    | inr q ↦ q
  ]

  less_later : (a b y : ℕ) → lt a b ≡ true → lt y b ≡ false → lt a y ≡ true
  less_later a b y p q = elim (o.split a y b p) [ inl r ↦ r | inr r ↦ absurd (cc (r, q)) ]

  not_less_earlier : (a b x : ℕ) → lt a b ≡ false → lt b x ≡ false → lt a x ≡ false
  not_less_earlier a b x p q = elim (Bool-cases (lt a x)) [
    | inr r ↦ r
    | inl r ↦ elim (o.split a b x r) [ inl s ↦ absurd (cc (p, s)) | inr s ↦ absurd (cc (q, s)) ]
  ]

  -- A node between those that it is not less than and those that it is less than.
  pub Sorted-insert :
      (a : ℕ) (xs ys : List ℕ)
      → Sorted lt (xs ++ ys)
      → Every false (lt a) xs
      → Every true (lt a) ys
      → Sorted lt (xs ++ a ∷ ys)
  Sorted-insert a [] ys v p q = (Every-map true false (lt a) (λ y. lt y a) ys (asym a) q, v)
  Sorted-insert a (x ∷ xs) ys v p q = (
    Every-append false (λ y. lt y x) xs (a ∷ ys) (Every-left false (λ y. lt y x) xs ys v.0)
        (p.0, Every-right false (λ y. lt y x) xs ys v.0),
    Sorted-insert a xs ys v.1 p.1 q,
  )

-- The place for a new node: what is on both sides of the path to it.
pub record Fits (lt : ℕ → ℕ → Bool) (a : ℕ) (path : List Frame) (t : AvlNode) (end : List Frame)
    : Type 0 where
  pub smaller : List ℕ
  pub larger : List ℕ
  pub nodes : inorder t ≡ smaller ++ larger
  pub earlier : before end ≡ before path ++ smaller
  pub later : after end ≡ larger ++ after path
  pub not_less : Every false (lt a) smaller
  pub is_less : Every true (lt a) larger
  pub holds : Holds end 0
  pub total : path_count end ≡ path_count path + avl_count t

-- What fits below a child fits below the node.
module _ (lt : ℕ → ℕ → Bool) (o : Ordered lt) (a : ℕ) (path : List Frame) (b h c : ℕ)
    (l r : AvlNode) (end : List Frame) (v : IsAvl (node b h c l r))
    (s : Sorted lt (inorder l ++ b ∷ inorder r)) where
  left-Fits :
      lt a b ≡ true → Fits lt a (is_left b h c r ∷ path) l end → Fits lt a path (node b h c l r) end
  unfolding inorder before after path_count
  left-Fits e k =
      let m = Sorted-Middle lt (inorder l) b (inorder r) s in
      record {
        smaller = k.smaller;
        larger = k.larger ++ b ∷ inorder r;
        nodes =
            ap (λ x. x ++ b ∷ inorder r) k.nodes ∙ append_assoc k.smaller k.larger (b ∷ inorder r);
        earlier = k.earlier;
        later = k.later ∙ sym (append_assoc k.larger (b ∷ inorder r) (after path));
        not_less = k.not_less;
        is_less = Every-append true (lt a) k.larger (b ∷ inorder r) k.is_less (
          e,
          Every-map false true (λ y. lt y b) (lt a) (inorder r) (λ y. less_later lt o a b y e)
              m.later,
        );
        holds = k.holds;
        total = omega (arith, k.total, v.3);
      }

  right-Fits :
      lt a b ≡ false
      → Fits lt a (is_right b h c l ∷ path) r end
      → Fits lt a path (node b h c l r) end
  unfolding inorder before after path_count
  right-Fits e k =
      let m = Sorted-Middle lt (inorder l) b (inorder r) s in
      record {
        smaller = inorder l ++ b ∷ k.smaller;
        larger = k.larger;
        nodes =
            ap (λ x. inorder l ++ b ∷ x) k.nodes
            ∙ sym (append_assoc (inorder l) (b ∷ k.smaller) k.larger);
        earlier =
            k.earlier
            ∙ append_assoc (before path) (inorder l ++ b ∷ []) k.smaller
            ∙ ap (λ x. before path ++ x) (append_assoc (inorder l) (b ∷ []) k.smaller);
        later = k.later;
        not_less =
            Every-append false (lt a) (inorder l) (b ∷ k.smaller)
              (Every-map false false (λ x. lt b x) (lt a) (inorder l)
                (λ x. not_less_earlier lt o a b x e) m.earlier)
              (e, k.not_less);
        is_less = k.is_less;
        holds = k.holds;
        total = omega (arith, k.total, v.3);
      }

goes_left :
    (lt : ℕ → ℕ → Bool) (a : ℕ) (path : List Frame) (b h c : ℕ) (l r : AvlNode)
    → lt a b ≡ true
    → add_path (lt a) path (node b h c l r) ≡ add_path (lt a) (is_left b h c r ∷ path) l
unfolding add_path
goes_left lt a path b h c l r e = rw e refl

goes_right :
    (lt : ℕ → ℕ → Bool) (a : ℕ) (path : List Frame) (b h c : ℕ) (l r : AvlNode)
    → lt a b ≡ false
    → add_path (lt a) path (node b h c l r) ≡ add_path (lt a) (is_right b h c l ∷ path) r
unfolding add_path
goes_right lt a path b h c l r e = rw e refl

pub add_path-Fits :
    (lt : ℕ → ℕ → Bool) (a : ℕ) (path : List Frame) (t : AvlNode)
    → Ordered lt
    → IsAvl t
    → Sorted lt (inorder t)
    → Holds path (avl_height t)
    → Fits lt a path t (add_path (lt a) path t)
unfolding add_path inorder
add_path-Fits lt a path leaf o v s holds = record {
  smaller = [];
  larger = [];
  nodes = refl;
  earlier = sym (append-nil (before path));
  later = refl;
  not_less = tt;
  is_less = tt;
  holds = holds;
  total = omega arith;
}
add_path-Fits lt a path (node b h c l r) o v s holds =
    let m = Sorted-Middle lt (inorder l) b (inorder r) s in
    let deep = subst (Holds path) v.2 holds in
    let swapped : 1 + max (avl_height l) (avl_height r) ≡ 1 + max (avl_height r) (avl_height l) =
      omega arith in
    let on_left =
      add_path-Fits lt a (is_left b h c r ∷ path) l o v.0 m.sorted_left
        (left b h c r path (avl_height l) v.1 v.4 v.5 deep) in
    let on_right =
      add_path-Fits lt a (is_right b h c l ∷ path) r o v.1 m.sorted_right
        (right b h c l path (avl_height r) v.0 v.5 v.4 (subst (Holds path) swapped deep)) in
    elim (Bool-cases (lt a b)) [
      | inl e ↦ subst (Fits lt a path (node b h c l r)) (sym (goes_left lt a path b h c l r e)) (
          left-Fits lt o a path b h c l r (add_path (lt a) (is_left b h c r ∷ path) l) v s e
            on_left)
      | inr e ↦ subst (Fits lt a path (node b h c l r)) (sym (goes_right lt a path b h c l r e)) (
          right-Fits lt o a path b h c l r (add_path (lt a) (is_right b h c l ∷ path) r) v s e
            on_right)
    ]
