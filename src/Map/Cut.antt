-- ===== src/Map/Cut.antt =====
-- The heap of src/data/src/map.c around a slot, when what hangs there is replaced.
use tcp_striper.Base.{ℕ, ◌≡◌, ◌≢◌, sym, ap, ◌∙◌, Option, some}
use mathlib.Core.Path.{subst}
use tcp_striper.Map.{MapHead, MapItem, Slot, root_slot, left_slot, right_slot, read}
use tcp_striper.Map.Find.{Tree, leaf, node, Forms}
use tcp_striper.Map.Link.{Apart, Distinct}
use tcp_striper.Map.Zipper.{Up, top, from_left, from_right, plug, slot_of, Around}
use tcp_striper.Map.Aside.{ApartUp, Distinct-plug}

-- Only the items `a`, `c` and `x` differ.
module _ (m m' : MapHead) (a c x : ℕ)
    (same : (b : ℕ) → b ≢ a → b ≢ c → b ≢ x → m'.items b ≡ m.items b) where
  pub tree_same :
      (y q : Option ℕ) (t : Tree)
      → Apart a t
      → Apart c t
      → Apart x t
      → Forms m y q t
      → Forms m' y q t
  tree_same y q leaf ha hc hx f = f
  tree_same y q (node l b r) ha hc hx (here, up, left, right) =
      let kept = same b (λ e. ha.0 (sym e)) (λ e. hc.0 (sym e)) (λ e. hx.0 (sym e)) in
      (
        here,
        ap (λ (i : MapItem). i.p) kept ∙ up,
        subst (λ z. Forms m' z (some b) l) (sym (ap (λ (i : MapItem). i.l) kept))
            (tree_same (m.items b).l (some b) l ha.1 hc.1 hx.1 left),
        subst (λ z. Forms m' z (some b) r) (sym (ap (λ (i : MapItem). i.r) kept))
            (tree_same (m.items b).r (some b) r ha.2 hc.2 hx.2 right),
      )

  Around-same :
      (up : Up)
      → m'.root ≡ m.root
      → ApartUp a up
      → ApartUp c up
      → ApartUp x up
      → Around m up
      → Around m' up × (read m' (slot_of up) ≡ read m (slot_of up))
  Around-same top root ha hc hx f = (tt, root)
  Around-same (from_left b r up) root ha hc hx (here, parent, side, above) =
      let kept = same b (λ e. ha.0 (sym e)) (λ e. hc.0 (sym e)) (λ e. hx.0 (sym e)) in
      let (above', slot) = Around-same up root ha.2 hc.2 hx.2 above in
      (
        (
          slot ∙ here,
          ap (λ (i : MapItem). i.p) kept ∙ parent,
          subst (λ z. Forms m' z (some b) r) (sym (ap (λ (i : MapItem). i.r) kept))
              (tree_same (m.items b).r (some b) r ha.1 hc.1 hx.1 side),
          above',
        ),
        ap (λ (i : MapItem). i.l) kept,
      )
  Around-same (from_right l b up) root ha hc hx (here, parent, side, above) =
      let kept = same b (λ e. ha.0 (sym e)) (λ e. hc.0 (sym e)) (λ e. hx.0 (sym e)) in
      let (above', slot) = Around-same up root ha.2 hc.2 hx.2 above in
      (
        (
          slot ∙ here,
          ap (λ (i : MapItem). i.p) kept ∙ parent,
          subst (λ z. Forms m' z (some b) l) (sym (ap (λ (i : MapItem). i.l) kept))
              (tree_same (m.items b).l (some b) l ha.1 hc.1 hx.1 side),
          above',
        ),
        ap (λ (i : MapItem). i.r) kept,
      )

-- The item of a slot, or another one.
abbrev pub owner : Slot → ℕ → ℕ
owner root_slot other = other
owner (left_slot x) other = x
owner (right_slot x) other = x

-- What is next to a slot: the other fields of its item, or nothing.
abbrev Beside : MapHead → MapHead → Slot → Type 0
Beside m m' root_slot = Unit {0}
Beside m m' (left_slot x) =
    (m'.root ≡ m.root) × ((m'.items x).p ≡ (m.items x).p) × ((m'.items x).r ≡ (m.items x).r)
Beside m m' (right_slot x) =
    (m'.root ≡ m.root) × ((m'.items x).p ≡ (m.items x).p) × ((m'.items x).l ≡ (m.items x).l)

-- The slot gets `y`, and beyond that only the items `a` and `c` change.
pub record Cuts (m m' : MapHead) (s : Slot) (a c : ℕ) (y : Option ℕ) : Type 0 where
  pub same : (b : ℕ) → b ≢ a → b ≢ c → b ≢ owner s a → m'.items b ≡ m.items b
  pub here : read m' s ≡ y
  pub beside : Beside m m' s

-- What is around the slot is still formed.
pub Around-cut :
    (m m' : MapHead) (up : Up) (t : Tree) (a c : ℕ) (y : Option ℕ)
    → Cuts m m' (slot_of up) a c y
    → Distinct (plug up t)
    → ApartUp a up
    → ApartUp c up
    → Around m up
    → Around m' up
Around-cut m m' top t a c y cuts d ha hc f = tt
Around-cut m m' (from_left x r up) t a c y cuts d ha hc (here, parent, side, above) =
    let (root, p_kept, r_kept) = cuts.beside in
    let (whole, aside) = Distinct-plug up (node t x r) d in
    let (above', slot) = Around-same m m' a c x cuts.same up root ha.2 hc.2 aside.0 above in
    (
      slot ∙ here,
      p_kept ∙ parent,
      subst (λ z. Forms m' z (some x) r) (sym r_kept)
          (tree_same m m' a c x cuts.same (m.items x).r (some x) r ha.1 hc.1 whole.0.1 side),
      above',
    )
Around-cut m m' (from_right l x up) t a c y cuts d ha hc (here, parent, side, above) =
    let (root, p_kept, l_kept) = cuts.beside in
    let (whole, aside) = Distinct-plug up (node l x t) d in
    let (above', slot) = Around-same m m' a c x cuts.same up root ha.2 hc.2 aside.0 above in
    (
      slot ∙ here,
      p_kept ∙ parent,
      subst (λ z. Forms m' z (some x) l) (sym l_kept)
          (tree_same m m' a c x cuts.same (m.items x).l (some x) l ha.1 hc.1 whole.0.0 side),
      above',
    )
