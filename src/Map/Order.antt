-- ===== src/Map/Order.antt =====
-- Each item of a map (src/data/src/map.c) comes once in the order of the items.
use mathlib.Core.Path.{subst}
use tcp_striper.Base.{ℕ, ◌≡◌, ◌≢◌, sym, ◌∙◌, List, [], ◌∷◌, ◌++◌, append-nil, All}
use tcp_striper.Map.Find.{Tree, leaf, node}
use tcp_striper.Map.Link.{Apart, Distinct}
use tcp_striper.Map.Zipper.{Up, top, from_left, from_right, inorder, after, locate}
use tcp_striper.Map.Aside.{ApartUp, Distinct-plug}

pub All-append {ℓ κ} :
    {A : Type ℓ} (P : A → Type κ) (xs ys : List A) → All P xs → All P ys → All P (xs ++ ys)
All-append P [] ys h k = k
All-append P (x ∷ xs) ys h k = (h.0, All-append P xs ys h.1 k)

Apart-inorder : (a : ℕ) (t : Tree) → Apart a t → All (λ b. b ≢ a) (inorder t)
Apart-inorder a leaf h = tt
Apart-inorder a (node l b r) h =
    All-append (λ b. b ≢ a) (inorder l) (b ∷ inorder r) (Apart-inorder a l h.1)
      ((λ e. h.0 (sym e)), Apart-inorder a r h.2)

ApartUp-after : (a : ℕ) (up : Up) → ApartUp a up → All (λ b. b ≢ a) (after up)
ApartUp-after a top h = tt
ApartUp-after a (from_left b r up) h = (
  (λ e. h.0 (sym e)),
  All-append (λ b. b ≢ a) (inorder r) (after up) (Apart-inorder a r h.1) (ApartUp-after a up h.2),
)
ApartUp-after a (from_right l b up) h = ApartUp-after a up h.2

-- The items after one are others.
pub others_after :
    (t : Tree) (xs ys : List ℕ) (a : ℕ)
    → Distinct t
    → inorder t ≡ xs ++ (a ∷ ys)
    → All (λ b. b ≢ a) ys
others_after t xs ys a d e =
    let at = locate t top xs a ys e in
    let (here, aside) =
      Distinct-plug at.way (node at.l a at.r) (subst (λ u. Distinct u) (sym at.whole) d) in
    subst (λ l. All (λ b. b ≢ a) l) (at.right ∙ append-nil ys)
      (All-append (λ b. b ≢ a) (inorder at.r) (after at.way) (Apart-inorder a at.r here.0.1)
        (ApartUp-after a at.way aside.0))
