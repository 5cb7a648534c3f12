-- ===== src/EventLoop/Order.antt =====
-- The order of the sockets in the map of src/evl/src.linux/event_loop_select.c, by descriptor.
use tcp_striper.Base.{ℕ, ◌≤◌, ◌<◌, ◌≡◌, ◌≢◌, refl, sym, ap, none, arith}
use tcp_striper.Map.Find.{Tree, leaf, node}
use tcp_striper.Map.Link.{Apart, Disjoint, Distinct}
use tcp_striper.EventLoop.Find.{find_sk}

abbrev pub TreeAll : (ℕ → Type 0) → Tree → Type 0
TreeAll P leaf = Unit {0}
TreeAll P (node l a r) = P a × TreeAll P l × TreeAll P r

pub TreeAll-imp :
    (P Q : ℕ → Type 0) → ((b : ℕ) → P b → Q b) → (t : Tree) → TreeAll P t → TreeAll Q t
TreeAll-imp P Q f leaf h = tt
TreeAll-imp P Q f (node l a r) h = (f a h.0, TreeAll-imp P Q f l h.1, TreeAll-imp P Q f r h.2)

TreeAll-Apart :
    (P Q : ℕ → Type 0) (x : ℕ)
    → ((b : ℕ) → b ≢ x → P b → Q b)
    → (t : Tree) → Apart x t
    → TreeAll P t
    → TreeAll Q t
TreeAll-Apart P Q x f leaf n h = tt
TreeAll-Apart P Q x f (node l a r) n h =
    (f a (λ e. n.0 (sym e)) h.0, TreeAll-Apart P Q x f l n.1 h.1, TreeAll-Apart P Q x f r n.2 h.2)

module _ (k : ℕ → ℕ) where
  -- The descriptors grow from left to right.
  abbrev pub IsOrdered : Tree → Type 0
  IsOrdered leaf = Unit {0}
  IsOrdered (node l a r) =
      TreeAll (λ b. k b < k a) l × TreeAll (λ b. k a < k b) r × IsOrdered l × IsOrdered r

  Apart-above : (a : ℕ) (t : Tree) → TreeAll (λ b. k a < k b) t → Apart a t
  Apart-above a leaf h = tt
  Apart-above a (node l b r) h =
      ((λ e. let e' = ap k e in omega (arith, h.0)), Apart-above a l h.1, Apart-above a r h.2)

  Apart-below : (a : ℕ) (t : Tree) → TreeAll (λ b. k b < k a) t → Apart a t
  Apart-below a leaf h = tt
  Apart-below a (node l b r) h =
      ((λ e. let e' = ap k e in omega (arith, h.0)), Apart-below a l h.1, Apart-below a r h.2)

  Disjoint-above :
      (a : ℕ) (l r : Tree) → TreeAll (λ b. k b < k a) l → TreeAll (λ b. k a < k b) r → Disjoint l r
  Disjoint-above a leaf r h j = tt
  Disjoint-above a (node ll b lr) r h j = (
    Apart-above b r
        (TreeAll-imp (λ c. k a < k c) (λ c. k b < k c) (λ c x. let y = h.0 in omega arith) r j),
    Disjoint-above a ll r h.1 j,
    Disjoint-above a lr r h.2 j,
  )

  Disjoint-below :
      (a : ℕ) (l r : Tree) → TreeAll (λ b. k b < k a) l → TreeAll (λ b. k a < k b) r → Disjoint r l
  Disjoint-below a l leaf h j = tt
  Disjoint-below a l (node rl b rr) h j = (
    Apart-below b l
        (TreeAll-imp (λ c. k c < k a) (λ c. k c < k b) (λ c x. let y = j.0 in omega arith) l h),
    Disjoint-below a l rl h j.1,
    Disjoint-below a l rr h j.2,
  )

  -- No item is twice in an ordered tree.
  pub IsOrdered-Distinct : (t : Tree) → IsOrdered t → Distinct t
  IsOrdered-Distinct leaf h = tt
  IsOrdered-Distinct (node l a r) (low, high, hl, hr) = (
    (Apart-below a l low, Apart-above a r high),
    (Disjoint-above a l r low high, Disjoint-below a l r low high),
    (IsOrdered-Distinct l hl, IsOrdered-Distinct r hr),
  )

  pub absent_above :
      (n a : ℕ) (t : Tree) → n ≤ k a → TreeAll (λ b. k a < k b) t → find_sk k n t ≡ none
  absent_above n a leaf h j = refl
  absent_above n a (node l b r) h j =
      let left = absent_above n a l h j.1 in ground (arith, left, j.0)

  pub absent_below :
      (n a : ℕ) (t : Tree) → k a ≤ n → TreeAll (λ b. k b < k a) t → find_sk k n t ≡ none
  absent_below n a leaf h j = refl
  absent_below n a (node l b r) h j =
      let right = absent_below n a r h j.2 in ground (arith, right, j.0)

-- The order is by the numbers of the items that are in the tree.
pub IsOrdered-cong :
    (k k' : ℕ → ℕ) (x : ℕ) (t : Tree)
    → ((a : ℕ) → a ≢ x → k' a ≡ k a)
    → Apart x t
    → IsOrdered k t
    → IsOrdered k' t
IsOrdered-cong k k' x leaf e n o = tt
IsOrdered-cong k k' x (node l a r) e n o =
    let here = e a (λ y. n.0 (sym y)) in
    (
      TreeAll-Apart (λ b. k b < k a) (λ b. k' b < k' a) x (λ b m h. omega (arith, e b m, here)) l
          n.1 o.0,
      TreeAll-Apart (λ b. k a < k b) (λ b. k' a < k' b) x (λ b m h. omega (arith, e b m, here)) r
          n.2 o.1,
      IsOrdered-cong k k' x l e n.1 o.2,
      IsOrdered-cong k k' x r e n.2 o.3,
    )
