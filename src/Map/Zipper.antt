-- ===== src/Map/Zipper.antt =====
-- The heap of src/data/src/map.c around one of its slots, and the order of the items.
use tcp_striper.Base.{
  ℕ, suc, ◌+◌, ◌≤◌, ◌≡◌, refl, sym, ap, ◌∙◌, Option, none, some, List, [], ◌∷◌, ◌++◌, append_assoc,
  append-nil, arith,
}
use tcp_striper.Map.{MapHead, Slot, root_slot, left_slot, right_slot, read}
use tcp_striper.Map.Find.{Tree, leaf, node, size, Forms}

-- The way up from a slot: the items that it is left of, with what is right of them, or right of.
pub data Up : Type 0 where
  top : Up
  from_left : ℕ → Tree → Up → Up
  from_right : Tree → ℕ → Up → Up

-- The whole tree, with one at the slot.
abbrev pub plug : Up → Tree → Tree
plug top t = t
plug (from_left a r up) t = plug up (node t a r)
plug (from_right l a up) t = plug up (node l a t)

abbrev pub slot_of : Up → Slot
slot_of top = root_slot
slot_of (from_left a r up) = left_slot a
slot_of (from_right l a up) = right_slot a

abbrev pub parent_of : Up → Option ℕ
parent_of top = none
parent_of (from_left a r up) = some a
parent_of (from_right l a up) = some a

abbrev pub depth : Up → ℕ
depth top = 0
depth (from_left a r up) = suc (depth up)
depth (from_right l a up) = suc (depth up)

-- The pointers form what is around the slot.
abbrev pub Around : MapHead → Up → Type 0
Around m top = Unit {0}
Around m (from_left a r up) =
    (read m (slot_of up) ≡ some a)
    × ((m.items a).p ≡ parent_of up)
    × Forms m (m.items a).r (some a) r
    × Around m up
Around m (from_right l a up) =
    (read m (slot_of up) ≡ some a)
    × ((m.items a).p ≡ parent_of up)
    × Forms m (m.items a).l (some a) l
    × Around m up

pub size-plug : (up : Up) (t : Tree) → depth up + size t ≤ size (plug up t)
size-plug top t = omega arith
size-plug (from_left a r up) t = omega (arith, size-plug up (node t a r))
size-plug (from_right l a up) t = omega (arith, size-plug up (node l a t))

module _ (m : MapHead) where
  pub plug-Forms :
      (up : Up) (t : Tree)
      → Around m up
      → Forms m (read m (slot_of up)) (parent_of up) t
      → Forms m m.root none (plug up t)
  plug-Forms top t h f = f
  plug-Forms (from_left a r up) t (here, parent, side, above) f =
      plug-Forms up (node t a r) above (here, parent, f, side)
  plug-Forms (from_right l a up) t (here, parent, side, above) f =
      plug-Forms up (node l a t) above (here, parent, side, f)

  pub Forms-plug :
      (up : Up) (t : Tree)
      → Forms m m.root none (plug up t)
      → Around m up × Forms m (read m (slot_of up)) (parent_of up) t
  Forms-plug top t f = (tt, f)
  Forms-plug (from_left a r up) t f =
      let (above, (here, parent, left, right)) = Forms-plug up (node t a r) f in
      ((here, parent, right, above), left)
  Forms-plug (from_right l a up) t f =
      let (above, (here, parent, left, right)) = Forms-plug up (node l a t) f in
      ((here, parent, left, above), right)

abbrev pub inorder : Tree → List ℕ
inorder leaf = []
inorder (node l a r) = inorder l ++ (a ∷ inorder r)

-- The items before and after those at the slot.
abbrev pub before : Up → List ℕ
before top = []
before (from_left a r up) = before up
before (from_right l a up) = before up ++ (inorder l ++ (a ∷ []))

abbrev pub after : Up → List ℕ
after top = []
after (from_left a r up) = a ∷ (inorder r ++ after up)
after (from_right l a up) = after up

pub inorder-plug : (up : Up) (t : Tree) → inorder (plug up t) ≡ before up ++ (inorder t ++ after up)
inorder-plug top t = sym (append-nil (inorder t))
inorder-plug (from_left a r up) t =
    inorder-plug up (node t a r)
    ∙ ap (λ x. before up ++ x) (append_assoc (inorder t) (a ∷ inorder r) (after up))
inorder-plug (from_right l a up) t = inorder-plug up (node l a t) ∙ simp (append_assoc)

-- Where an item of the middle of a list is, when the list is cut at another place.
pub data Cut (il : List ℕ) (b : ℕ) (ir xs : List ℕ) (a : ℕ) (ys : List ℕ) : Type 0 where
  cut_left : (zs : List ℕ) → il ≡ xs ++ (a ∷ zs) → ys ≡ zs ++ (b ∷ ir) → Cut il b ir xs a ys
  cut_here : il ≡ xs → b ≡ a → ir ≡ ys → Cut il b ir xs a ys
  cut_right : (zs : List ℕ) → xs ≡ il ++ (b ∷ zs) → ir ≡ zs ++ (a ∷ ys) → Cut il b ir xs a ys

Cut-cons :
    {il xs ir ys : List ℕ} {a b c d : ℕ}
    → c ≡ d
    → Cut il b ir xs a ys
    → Cut (c ∷ il) b ir (d ∷ xs) a ys
Cut-cons e (cut_left zs p q) = cut_left zs (cc) q
Cut-cons e (cut_here p q r) = cut_here (cc) q r
Cut-cons e (cut_right zs p q) = cut_right zs (cc) q

pub append-append-Cut :
    (il : List ℕ) (b : ℕ) (ir xs : List ℕ) (a : ℕ) (ys : List ℕ)
    → il ++ (b ∷ ir) ≡ xs ++ (a ∷ ys)
    → Cut il b ir xs a ys
append-append-Cut [] b ir [] a ys e = cut_here refl (cc) (cc)
append-append-Cut [] b ir (x ∷ xs) a ys e = cut_right xs (cc) (cc)
append-append-Cut (i ∷ il) b ir [] a ys e = cut_left il (cc) (cc)
append-append-Cut (i ∷ il) b ir (x ∷ xs) a ys e =
    Cut-cons (cc) (append-append-Cut il b ir xs a ys (cc))

-- An item, by its place in the order.
pub record Place (up : Up) (t : Tree) (xs : List ℕ) (a : ℕ) (ys : List ℕ) : Type 0 where
  pub way : Up
  pub l : Tree
  pub r : Tree
  pub whole : plug way (node l a r) ≡ plug up t
  pub left : before way ++ inorder l ≡ before up ++ xs
  pub right : inorder r ++ after way ≡ ys ++ after up

pub locate :
    (t : Tree) (up : Up) (xs : List ℕ) (a : ℕ) (ys : List ℕ)
    → inorder t ≡ xs ++ (a ∷ ys)
    → Place up t xs a ys
locate leaf up [] a ys e = absurd (cc)
locate leaf up (x ∷ xs) a ys e = absurd (cc)
locate (node l b r) up xs a ys e =
    by_cut (append-append-Cut (inorder l) b (inorder r) xs a ys e)
      (λ zs. locate l (from_left b r up) xs a zs) (λ zs. locate r (from_right l b up) zs a ys)
  where
    by_cut :
        Cut (inorder l) b (inorder r) xs a ys
        → ((zs : List ℕ) → inorder l ≡ xs ++ (a ∷ zs) → Place (from_left b r up) l xs a zs)
        → ((zs : List ℕ) → inorder r ≡ zs ++ (a ∷ ys) → Place (from_right l b up) r zs a ys)
        → Place up (node l b r) xs a ys
    by_cut (cut_left zs p q) in_left in_right =
        let at = in_left zs p in
        record {
          way = at.way;
          l = at.l;
          r = at.r;
          whole = at.whole;
          left = at.left;
          right = at.right ∙ (rw q (sym (append_assoc zs (b ∷ inorder r) (after up))));
        }
    by_cut (cut_here p q s) in_left in_right = record {
      way = up;
      l = l;
      r = r;
      whole = ap (λ c. plug up (node l c r)) (sym q);
      left = ap (λ x. before up ++ x) p;
      right = ap (λ x. x ++ after up) s;
    }
    by_cut (cut_right zs p q) in_left in_right =
        let at = in_right zs q in
        record {
          way = at.way;
          l = at.l;
          r = at.r;
          whole = at.whole;
          left = at.left ∙ (rw p (simp append_assoc));
          right = at.right;
        }
