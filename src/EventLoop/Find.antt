-- ===== src/EventLoop/Find.antt =====
-- find_select_sk() and the comparison of src/evl/src.linux/event_loop_select.c, on the tree that
-- the map forms.
use tcp_striper.Base.{ℕ, ◌≡◌, ◌≢◌, refl, sym, Option, none, some, ◌==◌, if◌then◌else◌, arith}
use tcp_striper.Map.{Compared, below, same, above}
use tcp_striper.Map.Find.{Tree, leaf, node, lookup}
use tcp_striper.Map.Link.{Apart}
use tcp_striper.Map.Add.{insert}
use tcp_striper.EventLoop.{sk_order}

pub same→eq : (a b : ℕ) → sk_order a b ≡ same → a ≡ b
same→eq a b e = ground arith

-- The socket that a search for the descriptor `n` ends at, when `k` gives an item's descriptor.
abbrev pub find_sk : (ℕ → ℕ) → ℕ → Tree → Option ℕ
find_sk k n t = lookup (λ key a. sk_order key (k a)) n t

-- A search passes a place with `k b`, below or above which a socket `f` has been put.
pub below_law :
    (n f kb : ℕ) (here old new other added : Option ℕ)
    → sk_order f kb ≡ below
    → new ≡ (if n == f then added else old)
    → elim (sk_order n kb) [ same ↦ here | below ↦ new | above ↦ other ] ≡ (
        if n == f
        then added
        else elim (sk_order n kb) [ same ↦ here | below ↦ old | above ↦ other ])
below_law n f kb here old new other added c e = ground arith

pub above_law :
    (n f kb : ℕ) (here old new other added : Option ℕ)
    → sk_order f kb ≡ above
    → new ≡ (if n == f then added else old)
    → elim (sk_order n kb) [ same ↦ here | below ↦ other | above ↦ new ] ≡ (
        if n == f
        then added
        else elim (sk_order n kb) [ same ↦ here | below ↦ other | above ↦ old ])
above_law n f kb here old new other added c e = ground arith

module _ (k : ℕ → ℕ) where
  pub find_sk-has : (n : ℕ) (t : Tree) (a : ℕ) → find_sk k n t ≡ some a → k a ≡ n
  find_sk-has n leaf a e = cc
  find_sk-has n (node l b r) a e =
      by_order (find_sk-has n l a) (find_sk-has n r a) (sk_order n (k b)) refl e
    where
      by_order :
          (find_sk k n l ≡ some a → k a ≡ n)
          → (find_sk k n r ≡ some a → k a ≡ n)
          → (o : Compared) → sk_order n (k b) ≡ o
          → elim o [ same ↦ some b | below ↦ find_sk k n l | above ↦ find_sk k n r ] ≡ some a
          → k a ≡ n
      by_order left right same c e = let e' : b ≡ a = cc in rw (← e') (sym (same→eq n (k b) c))
      by_order left right below c e = left e
      by_order left right above c e = right e

  -- What is found is in the tree.
  pub find_sk-in :
      (fresh n : ℕ) (t : Tree) (a : ℕ) → Apart fresh t → find_sk k n t ≡ some a → a ≢ fresh
  find_sk-in fresh n leaf a h e = cc
  find_sk-in fresh n (node l b r) a h e =
      by_order (find_sk-in fresh n l a h.1) (find_sk-in fresh n r a h.2) (sk_order n (k b)) e
    where
      by_order :
          (find_sk k n l ≡ some a → a ≢ fresh)
          → (find_sk k n r ≡ some a → a ≢ fresh)
          → (o : Compared)
          → elim o [ same ↦ some b | below ↦ find_sk k n l | above ↦ find_sk k n r ] ≡ some a
          → a ≢ fresh
      by_order left right same e = λ x. h.0 (cc)
      by_order left right below e = left e
      by_order left right above e = right e

  -- The same search, with the comparison of two items.
  pub lookup-find_sk :
      (f : ℕ) (t : Tree) → lookup (λ x y. sk_order (k x) (k y)) f t ≡ find_sk k (k f) t
  lookup-find_sk f leaf = refl
  lookup-find_sk f (node l b r) =
      let left = lookup-find_sk f l in
      let right = lookup-find_sk f r in
      λ i. elim (sk_order (k f) (k b)) [ same ↦ some b | below ↦ left i | above ↦ right i ]

  -- A search after an insertion at a free place.
  pub find_sk-insert :
      (fresh n : ℕ) (t : Tree)
      → find_sk k (k fresh) t ≡ none
      → find_sk k n (insert (λ x y. sk_order (k x) (k y)) fresh t)
        ≡ (if n == k fresh then some fresh else find_sk k n t)
  find_sk-insert fresh n leaf e = ground arith
  find_sk-insert fresh n (node l b r) e =
      by_order (find_sk-insert fresh n l) (find_sk-insert fresh n r) (sk_order (k fresh) (k b)) refl
        e
    where
      Law : Tree → Tree → Type 0
      Law t t' = find_sk k n t' ≡ (if n == k fresh then some fresh else find_sk k n t)

      add : Tree → Tree
      add t = insert (λ x y. sk_order (k x) (k y)) fresh t

      by_order :
          (find_sk k (k fresh) l ≡ none → Law l (add l))
          → (find_sk k (k fresh) r ≡ none → Law r (add r))
          → (o : Compared) → sk_order (k fresh) (k b) ≡ o
          → elim o [ same ↦ some b | below ↦ find_sk k (k fresh) l | above ↦ find_sk k (k fresh) r ]
            ≡ none
          → Law
              (node l b r)
              (elim o [ same ↦ node l b r | below ↦ node (add l) b r | above ↦ node l b (add r) ])
      by_order left right same c e = cc
      by_order left right below c e = below_law n (k fresh) (k b) _ _ _ _ _ c (left e)
      by_order left right above c e = above_law n (k fresh) (k b) _ _ _ _ _ c (right e)
