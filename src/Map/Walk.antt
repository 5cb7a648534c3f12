-- ===== src/Map/Walk.antt =====
-- map_walk() (src/data/src/map.c) as a walk over the tree that the pointers form.
use mathlib.Core.Path.{subst}
use tcp_striper.Base.{
  ℕ, zero, suc, ◌≤◌, ◌<◌, ◌≡◌, refl, sym, ap, ◌∙◌, true, false, Option, none, some, List, [], ◌∷◌,
  ◌++◌, append-nil, append_assoc, length, length-append, if_true, if_false, is_some, arith,
}
use tcp_striper.Run.{Run, ok, aborted, ◌>>=◌}
use tcp_striper.Map.{MapHead, read, same_item, last_left, climb, leftmost, map_walk}
use tcp_striper.Map.Find.{Tree, leaf, node, size, Forms}
use tcp_striper.Map.Link.{Disjoint, Distinct}
use tcp_striper.Map.Aside.{Distinct-plug}
use tcp_striper.Map.Zipper.{
  Up, top, from_left, from_right, plug, slot_of, parent_of, depth, Around, size-plug, Forms-plug,
  inorder, after, locate,
}

-- The item that is first, if there is one.
abbrev pub first : List ℕ → Option ℕ
first [] = none
first (a ∷ rest) = some a

first_more :
    (il : List ℕ) (a : ℕ) (ir ys : List ℕ) → first ((il ++ (a ∷ ir)) ++ ys) ≡ first (il ++ (a ∷ ir))
first_more [] a ir ys = refl
first_more (i ∷ il) a ir ys = refl

same_self : (x : Option ℕ) (a : ℕ) → x ≡ some a → same_item x a ≡ true
same_self none a e = cc
same_self (some b) a e = ground arith

module _ (m : MapHead) where
  last_left-first :
      (fuel x : ℕ) (parent : Option ℕ) (l r : Tree)
      → Forms m (some x) parent (node l x r)
      → size l ≤ fuel
      → (last_left fuel m x >>= λ q. ok (some q)) ≡ ok (first (inorder (node l x r)))
  unfolding last_left
  last_left-first zero x parent leaf r h enough =
      rw (if_false (is_some (m.items x).l) _ (ap is_some h.2)) refl
  last_left-first zero x parent (node ll c lr) r h enough = absurd (omega arith)
  last_left-first (suc fuel) x parent leaf r h enough = rw (◌>>=◌, h.2) refl
  last_left-first (suc fuel) x parent (node ll c lr) r (_, up, left, right) enough =
      rw (◌>>=◌, left.0)
        (last_left-first fuel c (some x) ll lr (refl, left.1, left.2, left.3) (omega arith)
          ∙ ap ok (sym (first_more (inorder ll) c (inorder lr) (x ∷ inorder r))))

  leftmost-first :
      (fuel : ℕ) (x parent : Option ℕ) (t : Tree)
      → Forms m x parent t
      → size t ≤ fuel
      → leftmost fuel m x ≡ ok (first (inorder t))
  unfolding leftmost
  leftmost-first fuel none parent leaf h enough = refl
  leftmost-first fuel (some a) parent leaf h enough = cc
  leftmost-first fuel none parent (node l c r) h enough = cc
  leftmost-first fuel (some a) parent (node l c r) h enough =
      let e : a ≡ c = cc in
      rw e (last_left-first fuel c parent l r (refl, h.1, h.2, h.3) (omega arith))

  not_same :
      (x : Option ℕ) (c : ℕ) (parent : Option ℕ) (l r t : Tree)
      → Forms m x parent l
      → Disjoint l (node t c r)
      → same_item x c ≡ false
  not_same none c parent l r t f d = refl
  not_same (some b) c parent leaf r t f d = cc
  not_same (some b) c parent (node ll e lr) r t f d = ground (arith, d.0.0)

  -- Up from an item with nothing to its right.
  climb-first :
      (up : Up) (l r : Tree) (x fuel : ℕ)
      → Around m up
      → read m (slot_of up) ≡ some x
      → (m.items x).p ≡ parent_of up
      → Distinct (plug up (node l x r))
      → depth up < fuel
      → climb fuel m x ≡ ok (first (after up))
  unfolding climb
  climb-first up l r x zero h here parent d enough = absurd (omega arith)
  climb-first top l r x (suc fuel) h here parent d enough = rw (climb, parent) refl
  climb-first (from_left a side up) l r x (suc fuel) h here parent d enough =
      rw (climb, parent, if_true _ _ (same_self (m.items a).l x here)) refl
  climb-first (from_right side a up) l r x (suc fuel) h here parent d enough =
      let (kept, aside) = Distinct-plug up (node side a (node l x r)) d in
      rw (climb, parent, if_false _ _ (not_same (m.items a).l x (some a) side r l h.2 kept.1.0))
        (climb-first up side (node l x r) a fuel h.3 h.0 h.1 d (omega arith))

  -- map_walk() visits the items of the tree that the pointers form.
  pub map_walk-first :
      (fuel : ℕ) (t : Tree)
      → Forms m m.root none t
      → size t ≤ fuel
      → map_walk fuel m none ≡ ok (first (inorder t))
  unfolding map_walk
  map_walk-first fuel t h enough = leftmost-first fuel m.root none t h enough

  first-map_walk :
      (l r : Tree) (x fuel : ℕ) (up : Up)
      → Around m up
      → Forms m (read m (slot_of up)) (parent_of up) (node l x r)
      → Distinct (plug up (node l x r))
      → size (plug up (node l x r)) ≤ fuel
      → map_walk fuel m (some x) ≡ ok (first (inorder r ++ after up))
  unfolding map_walk
  first-map_walk l leaf x fuel up h f d enough =
      rw (map_walk, f.3)
        (climb-first up l leaf x fuel h f.0 f.1 d (omega (arith, size-plug up (node l x leaf))))
  first-map_walk l (node rl c rr) x fuel up h f d enough =
      rw (map_walk, f.3.0)
        (leftmost-first fuel (some c) (some x) (node rl c rr) (refl, f.3.1, f.3.2, f.3.3)
            (omega (arith, size-plug up (node l x (node rl c rr))))
          ∙ ap ok (sym (first_more (inorder rl) c (inorder rr) (after up))))

  pub map_walk-next :
      (fuel : ℕ) (t : Tree)
      → Forms m m.root none t
      → Distinct t
      → size t ≤ fuel
      → (xs ys : List ℕ) (a : ℕ) → inorder t ≡ xs ++ (a ∷ ys)
      → map_walk fuel m (some a) ≡ ok (first ys)
  map_walk-next fuel t h d enough xs ys a e =
      let at = locate t top xs a ys e in
      let (around, here) =
        Forms-plug m at.way (node at.l a at.r)
          (subst (λ u. Forms m m.root none u) (sym at.whole) h) in
      first-map_walk at.l at.r a fuel at.way around here (subst (λ u. Distinct u) (sym at.whole) d)
        (subst (λ u. size u ≤ fuel) (sym at.whole) enough)
      ∙ ap (λ x. ok (first x)) (at.right ∙ append-nil ys)

-- The loop `mi = NULL; while ((mi = map_walk(head, mi)))` of the callers: the items that it sees.
abbrev pub visited : ℕ → ℕ → MapHead → Option ℕ → Run (List ℕ)
visited rounds zero m mi = aborted
visited rounds (suc fuel) m mi = map_walk rounds m mi >>= λ next. elim next [
  | none ↦ ok []
  | some a ↦ visited rounds fuel m (some a) >>= λ rest. ok (a ∷ rest)
]

pub length-inorder : (t : Tree) → length (inorder t) ≡ size t
length-inorder leaf = refl
length-inorder (node l a r) =
    omega (arith, length-append {0} (inorder l) (a ∷ inorder r), length-inorder l, length-inorder r)

module _ (m : MapHead) (rounds : ℕ) (t : Tree) (h : Forms m m.root none t) (d : Distinct t)
    (enough : size t ≤ rounds) where
  visited_rest :
      (fuel : ℕ) (mi : Option ℕ) (xs ys : List ℕ)
      → inorder t ≡ xs ++ ys
      → map_walk rounds m mi ≡ ok (first ys)
      → length ys < fuel
      → visited rounds fuel m mi ≡ ok ys
  visited_rest zero mi xs ys e next more = absurd (omega arith)
  visited_rest (suc fuel) mi xs [] e next more = rw (visited, next) refl
  visited_rest (suc fuel) mi xs (a ∷ ys) e next more =
      rw
        (
          visited,
          next,
          visited_rest fuel (some a) (xs ++ (a ∷ [])) ys (e ∙ sym (append_assoc xs (a ∷ []) ys))
              (map_walk-next m rounds t h d enough xs ys a e) (omega arith),
        )
        refl

  -- When the pointers of a map form a tree in which no item is twice, the loop that starts
  -- with NULL and goes on with map_walk() of the last item until it returns NULL, on fuel for
  -- more rounds than there are items, and for as many in each call, comes to an end and sees
  -- the items of the tree from left to right, each once.
  pub map_walk-inorder : (fuel : ℕ) → size t < fuel → visited rounds fuel m none ≡ ok (inorder t)
  map_walk-inorder fuel more =
      visited_rest fuel none [] (inorder t) refl (map_walk-first m rounds t h enough)
        (omega (arith, length-inorder t))
