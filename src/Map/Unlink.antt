-- ===== src/Map/Unlink.antt =====
-- The heap of src/data/src/map.c before and after map_del() of an item with at most one child.
use mathlib.Core.Path.{subst}
use tcp_striper.Base.{ℕ, ◌≡◌, ◌≢◌, refl, sym, ap, ◌∙◌, ◌⊎◌, inl, inr, Option, none, some}
use tcp_striper.Run.{Returns}
use tcp_striper.Map.{
  MapHead, MapItem, Slot, root_slot, left_slot, right_slot, read, write, set_item, unlinked,
  replace_by, unlink,
}
use tcp_striper.Map.Find.{Tree, leaf, node, Forms}
use tcp_striper.Map.Link.{
  Apart, Distinct, NotIn, other_item, this_item, written, write-items, write-parent, read-write,
  read-set_item,
}
use tcp_striper.Map.Zipper.{
  Up, top, from_left, from_right, plug, slot_of, parent_of, Around, plug-Forms, Forms-plug,
}
use tcp_striper.Map.Aside.{ApartUp, AllApart, Distinct-plug}
use tcp_striper.Map.Cut.{tree_same, owner, Cuts, Around-cut}

not_owner : (p : Slot) (a b : ℕ) → b ≢ owner p a → NotIn p b
not_owner root_slot a b n = tt
not_owner (left_slot x) a b n = λ e. n (sym e)
not_owner (right_slot x) a b n = λ e. n (sym e)

write-Cuts : (m : MapHead) (p : Slot) (a c : ℕ) (y : Option ℕ) → Cuts m (write m p y) p a c y
write-Cuts m root_slot a c y = record { same = λ b na nc no. refl; here = refl; beside = tt }
write-Cuts m (left_slot x) a c y = record {
  same = λ b na nc no. write-items m (left_slot x) y b (λ e. no (sym e));
  here = written m (left_slot x) y;
  beside = (
    refl,
    write-parent m (left_slot x) y x,
    read-write m (left_slot x) (right_slot x) y (λ e. cc),
  );
}
write-Cuts m (right_slot x) a c y = record {
  same = λ b na nc no. write-items m (right_slot x) y b (λ e. no (sym e));
  here = written m (right_slot x) y;
  beside = (
    refl,
    write-parent m (right_slot x) y x,
    read-write m (right_slot x) (left_slot x) y (λ e. cc),
  );
}

set_item-Cuts :
    (m m' : MapHead) (p : Slot) (a c : ℕ) (y : Option ℕ) (d : ℕ) (item : MapItem)
    → Cuts m m' p a c y
    → NotIn p d
    → ((b : ℕ) → b ≢ a → b ≢ c → b ≢ d)
    → Cuts m (set_item m' d item) p a c y
set_item-Cuts m m' root_slot a c y d item cuts n other = record {
  same = λ b na nc no. other_item m' d b item (other b na nc) ∙ cuts.same b na nc no;
  here = cuts.here;
  beside = tt;
}
set_item-Cuts m m' (left_slot x) a c y d item cuts n other = record {
  same = λ b na nc no. other_item m' d b item (other b na nc) ∙ cuts.same b na nc no;
  here = read-set_item m' (left_slot x) d item n ∙ cuts.here;
  beside = (
    cuts.beside.0,
    ap (λ (i : MapItem). i.p) (other_item m' d x item n) ∙ cuts.beside.1,
    ap (λ (i : MapItem). i.r) (other_item m' d x item n) ∙ cuts.beside.2,
  );
}
set_item-Cuts m m' (right_slot x) a c y d item cuts n other = record {
  same = λ b na nc no. other_item m' d b item (other b na nc) ∙ cuts.same b na nc no;
  here = read-set_item m' (right_slot x) d item n ∙ cuts.here;
  beside = (
    cuts.beside.0,
    ap (λ (i : MapItem). i.p) (other_item m' d x item n) ∙ cuts.beside.1,
    ap (λ (i : MapItem). i.l) (other_item m' d x item n) ∙ cuts.beside.2,
  );
}

-- The right tree below the rightmost item of the left one.
abbrev pub graft : Tree → Tree → Tree
graft leaf r = r
graft (node ll b lr) r = node ll b (graft lr r)

pub graft-leaf : (l : Tree) → graft l leaf ≡ l
graft-leaf leaf = refl
graft-leaf (node ll b lr) = ap (node ll b) (graft-leaf lr)

Apart-NotIn : (up : Up) (b : ℕ) → ApartUp b up → NotIn (slot_of up) b
Apart-NotIn top b h = tt
Apart-NotIn (from_left x r up) b h = λ e. h.0 (sym e)
Apart-NotIn (from_right l x up) b h = λ e. h.0 (sym e)

-- At most one child.
abbrev pub IsSingle : Tree → Type 0
IsSingle leaf = Unit {0}
IsSingle (node l a r) = (l ≡ leaf) ⊎ (r ≡ leaf)

module _ (m : MapHead) (up : Up) (a : ℕ) where
  -- An item with no child.
  cut_leaf :
      Forms m m.root none (plug up (node leaf a leaf))
      → Distinct (plug up (node leaf a leaf))
      → let m' = set_item (write m (slot_of up) none) a unlinked in
        Forms m' m'.root none (plug up leaf)
  cut_leaf f d =
      let p = slot_of up in
      let (whole, aside) = Distinct-plug up (node leaf a leaf) d in
      let (around, here) = Forms-plug m up (node leaf a leaf) f in
      let m' = set_item (write m p none) a unlinked in
      let cuts : Cuts m m' p a a none =
        set_item-Cuts m (write m p none) p a a none a unlinked (write-Cuts m p a a none)
          (Apart-NotIn up a aside.0) (λ b na nc. na) in
      plug-Forms m' up leaf
        (Around-cut m m' up (node leaf a leaf) a a none cuts d aside.0 aside.0 around) cuts.here

  owner-Apart : (t : Tree) → AllApart up t → Apart a t → Apart (owner (slot_of up) a) t
  owner-Apart t h apart = by_way up t h apart
    where
      by_way : (w : Up) (t : Tree) → AllApart w t → Apart a t → Apart (owner (slot_of w) a) t
      by_way top t h apart = apart
      by_way (from_left x r w) leaf h apart = tt
      by_way (from_left x r w) (node tl b tr) h apart = (
        (λ e. h.0.0 (sym e)),
        by_way (from_left x r w) tl h.1 apart.1,
        by_way (from_left x r w) tr h.2 apart.2,
      )
      by_way (from_right l x w) leaf h apart = tt
      by_way (from_right l x w) (node tl b tr) h apart = (
        (λ e. h.0.0 (sym e)),
        by_way (from_right l x w) tl h.1 apart.1,
        by_way (from_right l x w) tr h.2 apart.2,
      )

  -- An item with one child, `c`.
  cut_child :
      (t cl cr : Tree) (c : ℕ)
      → Distinct (plug up t)
      → Around m up
      → (m.items a).p ≡ parent_of up
      → Forms m (m.items c).l (some c) cl
      → Forms m (m.items c).r (some c) cr
      → ApartUp a up
      → AllApart up (node cl c cr)
      → Apart a (node cl c cr)
      → Distinct (node cl c cr)
      → let m' = set_item (replace_by m (slot_of up) a c) a unlinked in
        Forms m' m'.root none (plug up (node cl c cr))
  cut_child t cl cr c d around parent left right aside child_aside apart child_d =
      let p = slot_of up in
      let m1 = write m p (some c) in
      let child = record (m1.items c) { p = (m1.items a).p } in
      let m2 = set_item m1 c child in
      let m' = set_item m2 a unlinked in
      let c_out = Apart-NotIn up c child_aside.0 in
      let cuts : Cuts m m' p a c (some c) =
        set_item-Cuts m m2 p a c (some c) a unlinked
          (set_item-Cuts m m1 p a c (some c) c child (write-Cuts m p a c (some c)) c_out
            (λ b na nc. nc))
          (Apart-NotIn up a aside) (λ b na nc. na) in
      let at_c : m'.items c ≡ child =
        other_item m2 a c unlinked (λ e. apart.0 (sym e)) ∙ this_item m1 c child in
      let in_m : m1.items c ≡ m.items c = write-items m p (some c) c c_out in
      let owned = owner-Apart (node cl c cr) child_aside apart in
      plug-Forms m' up (node cl c cr)
        (Around-cut m m' up t a c (some c) cuts d aside child_aside.0 around)
        (
          cuts.here,
          ap (λ (i : MapItem). i.p) at_c ∙ write-parent m p (some c) a ∙ parent,
          subst (λ z. Forms m' z (some c) cl)
              (sym (ap (λ (i : MapItem). i.l) at_c ∙ ap (λ (i : MapItem). i.l) in_m))
              (tree_same m m' a c (owner p a) cuts.same (m.items c).l (some c) cl apart.1
                child_d.0.0 owned.1 left),
          subst (λ z. Forms m' z (some c) cr)
              (sym (ap (λ (i : MapItem). i.r) at_c ∙ ap (λ (i : MapItem). i.r) in_m))
              (tree_same m m' a c (owner p a) cuts.same (m.items c).r (some c) cr apart.2
                child_d.0.1 owned.2 right),
        )

  -- The branches of map_del() for an item with at most one child.
  pub unlink-Forms :
      (fuel : ℕ) (l r : Tree)
      → IsSingle (node l a r)
      → Forms m m.root none (plug up (node l a r))
      → Distinct (plug up (node l a r))
      → Returns
          (λ (m1 : MapHead).
            let m' = set_item m1 a unlinked in Forms m' m'.root none (plug up (graft l r)))
          (unlink fuel m (slot_of up) a (m.items a).l (m.items a).r)
  unfolding unlink
  unlink-Forms fuel l r single f d =
      by_children l r single f d (Distinct-plug up (node l a r) d) (Forms-plug m up (node l a r) f)
    where
      by_children :
          (l r : Tree)
          → IsSingle (node l a r)
          → Forms m m.root none (plug up (node l a r))
          → Distinct (plug up (node l a r))
          → Distinct (node l a r) × AllApart up (node l a r)
          → Around m up × Forms m (read m (slot_of up)) (parent_of up) (node l a r)
          → Returns
              (λ (m1 : MapHead).
                let m' = set_item m1 a unlinked in Forms m' m'.root none (plug up (graft l r)))
              (unlink fuel m (slot_of up) a (m.items a).l (m.items a).r)
      by_children leaf leaf s f d (whole, aside) (around, h) = rw (Returns, h.2, h.3) (cut_leaf f d)
      by_children leaf (node cl c cr) s f d (whole, aside) (around, h) =
          rw (Returns, h.2, h.3.0)
            (cut_child (node leaf a (node cl c cr)) cl cr c d around h.1 h.3.2 h.3.3 aside.0 aside.2
              whole.0.1 whole.2.1)
      by_children (node cl c cr) leaf s f d (whole, aside) (around, h) =
          rw (Returns, h.2.0, h.3)
            (subst
              (λ u.
                let m' = set_item (replace_by m (slot_of up) a c) a unlinked in
                Forms m' m'.root none (plug up u))
              (sym (graft-leaf (node cl c cr)))
              (cut_child (node (node cl c cr) a leaf) cl cr c d around h.1 h.2.2 h.2.3 aside.0
                aside.1 whole.0.0 whole.2.0))
      by_children (node cl c cr) (node el e er) s f d (whole, aside) (around, h) = elim s [
        | inl e ↦ cc
        | inr e ↦ cc
      ]
