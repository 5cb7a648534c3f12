-- ===== src/Map/Insert.antt =====
-- What an insertion in the tree of a map (src/data/src/map.c) keeps.
use tcp_striper.Base.{ℕ, ◌+◌, ◌≤◌, ◌≢◌, sym, arith}
use tcp_striper.Map.{Compared, below, same, above}
use tcp_striper.Map.Find.{Tree, leaf, node, size}
use tcp_striper.Map.Link.{Apart, Disjoint, Distinct}
use tcp_striper.Map.Add.{insert}

module _ (comp : ℕ → ℕ → Compared) (key : ℕ) where
  -- Induction over an insertion: the tree before and after.
  pub insert-induction {ℓ} :
      (P : Tree → Tree → Type ℓ)
      → P leaf (node leaf key leaf)
      → ((t : Tree) → P t t)
      → ((l l' : Tree) (a : ℕ) (r : Tree) → P l l' → P (node l a r) (node l' a r))
      → ((l : Tree) (a : ℕ) (r r' : Tree) → P r r' → P (node l a r) (node l a r'))
      → (t : Tree) → P t (insert comp key t)
  insert-induction P new old left right leaf = new
  insert-induction P new old left right (node l a r) =
      by_order (insert-induction P new old left right l) (insert-induction P new old left right r)
        (comp key a)
    where
      by_order :
          P l (insert comp key l)
          → P r (insert comp key r)
          → (o : Compared)
          → P (node l a r) (elim o [
            | same ↦ node l a r
            | below ↦ node (insert comp key l) a r
            | above ↦ node l a (insert comp key r)
          ])
      by_order in_l in_r same = old (node l a r)
      by_order in_l in_r below = left l _ a r in_l
      by_order in_l in_r above = right l a r _ in_r

  abbrev Grown : Tree → Tree → Type 0
  Grown t t' =
      ((b : ℕ) → b ≢ key → Apart b t → Apart b t')
      × ((u : Tree) → Apart key u → Disjoint t u → Disjoint t' u)
      × (Apart key t → Distinct t → Distinct t')

  Disjoint-Grown : (u t t' : Tree) → Grown t t' → Apart key u → Disjoint u t → Disjoint u t'
  Disjoint-Grown leaf t t' g k h = tt
  Disjoint-Grown (node l b r) t t' g k h = (
    g.0 b (λ e. k.0 (sym e)) h.0,
    Disjoint-Grown l t t' g k.1 h.1,
    Disjoint-Grown r t t' g k.2 h.2,
  )

  pub insert-Distinct : (t : Tree) → Apart key t → Distinct t → Distinct (insert comp key t)
  insert-Distinct t =
      (insert-induction Grown
        (λ b n h. (n, tt, tt), λ u k h. (k, tt, tt), λ k h. ((tt, tt), (tt, tt), (tt, tt)))
        (λ t. (λ b n h. h, λ u k h. h, λ k h. h))
        (λ l l' a r g. (
          λ b n h. (h.0, g.0 b n h.1, h.2),
          λ u k h. (h.0, g.1 u k h.1, h.2),
          λ k h. (
            (g.0 a (λ e. k.0 (sym e)) h.0.0, h.0.1),
            (g.1 r k.2 h.1.0, Disjoint-Grown r l l' g k.2 h.1.1),
            (g.2 k.1 h.2.0, h.2.1),
          ),
        ))
        (λ l a r r' g. (
          λ b n h. (h.0, h.1, g.0 b n h.2),
          λ u k h. (h.0, h.1, g.1 u k h.2),
          λ k h. (
            (h.0.0, g.0 a (λ e. k.0 (sym e)) h.0.1),
            (Disjoint-Grown l r r' g k.1 h.1.0, g.1 l k.1 h.1.1),
            (h.2.0, g.2 k.2 h.2.1),
          ),
        ))
        t).2

  pub size-insert : (t : Tree) → size (insert comp key t) ≤ size t + 1
  size-insert t =
      insert-induction (λ t t'. size t' ≤ size t + 1) (omega arith) (λ t. omega arith)
        (λ l l' a r h. omega arith) (λ l a r r' h. omega arith) t
