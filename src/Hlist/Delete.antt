-- ===== src/Hlist/Delete.antt =====
-- hlist_del() (src/data/inc/libp/list.h) on the list that the pointers form.
use tcp_striper.Base.{
  ℕ, ◌≡◌, ◌≢◌, refl, sym, ap, ◌∙◌, Option, none, some, List, [], ◌∷◌, ◌++◌, All, ◌==◌, if_true,
  if_false, Bool-cases, inl, inr, ==_iff,
}
use mathlib.Core.Path.{subst}
use tcp_striper.Hlist.{
  Link, first_link, next_link, HlistItem, HlistHead, put_item, point, pointee, set_pprev, take_off,
  hlist_del,
}
use tcp_striper.Hlist.Front.{Forms, Others, Distinct, other, this, Forms-kept}

-- The item that a pointer is in is not the given one.
abbrev Away : Link → ℕ → Type 0
Away first_link b = Unit {0}
Away (next_link c) b = c ≢ b

written : (h : HlistHead) (l : Link) (x : Option ℕ) → pointee (point h l x) l ≡ x
written h first_link x = refl
written h (next_link c) x = ap (λ (i : HlistItem). i.next) (this h c _)

pointee-put_item :
    (h : HlistHead) (l : Link) (a : ℕ) (item : HlistItem)
    → Away l a
    → pointee (put_item h a item) l ≡ pointee h l
pointee-put_item h first_link a item n = refl
pointee-put_item h (next_link c) a item n = ap (λ (i : HlistItem). i.next) (other h a c item n)

-- What a list without its first item consists of.
record TakenOff (h h' : HlistHead) (a : ℕ) (l : Link) (ys : List ℕ) : Type 0 where
  forms : Forms h' l (pointee h' l) ys
  back : (b : ℕ) → b ≢ a → Others b ys → (h'.items b).pprev ≡ (h.items b).pprev
  links : (k : Link) → k ≢ l → Away k a → All (Away k) ys → pointee h' k ≡ pointee h k
  item : h'.items a ≡ record { pprev = none; next = none }

point_items :
    (h : HlistHead) (l : Link) (x : Option ℕ) (b : ℕ) → Away l b → (point h l x).items b ≡ h.items b
point_items h first_link x b n = refl
point_items h (next_link c) x b n = other h c b _ (λ e. n (sym e))

point_pprev :
    (h : HlistHead) (l : Link) (x : Option ℕ) (b : ℕ)
    → ((point h l x).items b).pprev ≡ (h.items b).pprev
point_pprev h first_link x b = refl
point_pprev h (next_link c) x b = elim (Bool-cases (b == c)) [
  | inl y ↦
      ap (λ (i : HlistItem). i.pprev) (if_true (b == c) _ y)
      ∙ ap (λ d. (h.items d).pprev) (sym ((==_iff b c).0 y))
  | inr n ↦ ap (λ (i : HlistItem). i.pprev) (if_false (b == c) _ n)
]

pointee-point :
    (h : HlistHead) (l k : Link) (x : Option ℕ) → k ≢ l → pointee (point h l x) k ≡ pointee h k
pointee-point h first_link first_link x n = absurd (n refl)
pointee-point h first_link (next_link d) x n = refl
pointee-point h (next_link c) first_link x n = refl
pointee-point h (next_link c) (next_link d) x n =
    ap (λ (i : HlistItem). i.next) (other h c d _ (λ e. n (ap next_link e)))

-- The first item is taken out, with what followed it.
take_off-Forms :
    (h : HlistHead) (a : ℕ) (l : Link) (x : Option ℕ) (ys : List ℕ)
    → Forms h (next_link a) x ys
    → Away l a
    → All (Away l) ys
    → Others a ys
    → Distinct ys
    → TakenOff h (take_off h a l x) a l ys
take_off-Forms h a l none [] f la ly o d =
    let h1 = point h l none in
    record {
      forms = pointee-put_item h1 l a _ la ∙ written h l none;
      back = λ b n m. ap (λ (i : HlistItem). i.pprev) (other h1 a b _ n) ∙ point_pprev h l none b;
      links = λ k n ka ky. pointee-put_item h1 k a _ ka ∙ pointee-point h l k none n;
      item = this h1 a _;
    }
take_off-Forms h a l (some b) [] f la ly o d = cc
take_off-Forms h a l none (n ∷ ys) f la ly o d = cc
take_off-Forms h a l (some b) (n ∷ ys) f la ly o d =
    let b_n : b ≡ n = cc in
    subst (λ c. TakenOff h (take_off h a l (some c)) a l (n ∷ ys)) (sym b_n)
      (record { forms = whole; back = back'; links = links'; item = this h2 a _ })
  where
    h1 : HlistHead
    h1 = point h l (some n)

    h2 : HlistHead
    h2 = set_pprev h1 (some n) (some l)

    h' : HlistHead
    h' = take_off h a l (some n)

    back' : (b : ℕ) → b ≢ a → Others b (n ∷ ys) → (h'.items b).pprev ≡ (h.items b).pprev
    back' b na m =
        ap (λ (i : HlistItem). i.pprev) (other h2 a b _ na)
        ∙ ap (λ (i : HlistItem). i.pprev) (other h1 n b _ (λ e. m.0 (sym e)))
        ∙ point_pprev h l (some n) b

    links' : (k : Link) → k ≢ l → Away k a → All (Away k) (n ∷ ys) → pointee h' k ≡ pointee h k
    links' k kl ka ky =
        pointee-put_item h2 k a _ ka
        ∙ pointee-put_item h1 k n _ ky.0
        ∙ pointee-point h l k (some n) kl

    at_n : h'.items n ≡ record (h1.items n) { pprev = some l }
    at_n = other h2 a n _ o.0 ∙ this h1 n _

    rest_kept : (b : ℕ) → b ≢ a → b ≢ n → Away l b → h'.items b ≡ h.items b
    rest_kept b na nn lb = other h2 a b _ na ∙ other h1 n b _ nn ∙ point_items h l (some n) b lb

    all_kept :
        (zs : List ℕ)
        → Others a zs
        → Others n zs
        → All (Away l) zs
        → All (λ b. h'.items b ≡ h.items b) zs
    all_kept [] ha hn hl = tt
    all_kept (z ∷ zs) ha hn hl = (rest_kept z ha.0 hn.0 hl.0, all_kept zs ha.1 hn.1 hl.1)

    whole : Forms h' l (pointee h' l) (n ∷ ys)
    whole = (
      pointee-put_item h2 l a _ la ∙ pointee-put_item h1 l n _ ly.0 ∙ written h l (some n),
      ap (λ (i : HlistItem). i.pprev) at_n,
      subst (λ y. Forms h' (next_link n) y ys)
          (sym (
            ap (λ (i : HlistItem). i.next) at_n
            ∙ ap (λ (i : HlistItem). i.next) (point_items h l (some n) n ly.0)))
          (Forms-kept h h' (next_link n) (h.items n).next ys (all_kept ys o.1 d.0 ly.1) f.2),
    )

-- The list without the item `a`, whose back pointer is followed.
record Taken (h h' : HlistHead) (a : ℕ) (l : Link) (xs ys : List ℕ) : Type 0 where
  forms : Forms h' l (pointee h' l) (xs ++ ys)
  back : (b : ℕ) → Others b (xs ++ (a ∷ ys)) → (h'.items b).pprev ≡ (h.items b).pprev
  links : (k : Link) → k ≢ l → All (Away k) (xs ++ (a ∷ ys)) → pointee h' k ≡ pointee h k
  item : h'.items a ≡ record { pprev = none; next = none }

not_linked : (x : ℕ) (xs : List ℕ) → Others x xs → All (Away (next_link x)) xs
not_linked x [] h = tt
not_linked x (b ∷ xs) h = ((λ e. h.0 (sym e)), not_linked x xs h.1)

link_other : (k : Link) (x : ℕ) → Away k x → k ≢ next_link x
link_other first_link x h = λ e. cc
link_other (next_link c) x h = λ e. h cc

taken :
    (h : HlistHead) (a : ℕ) (l : Link) (xs ys : List ℕ)
    → Forms h l (pointee h l) (xs ++ (a ∷ ys))
    → Distinct (xs ++ (a ∷ ys))
    → All (Away l) (xs ++ (a ∷ ys))
    → (l' : Link) × ((h.items a).pprev ≡ some l')
      × Taken h (take_off h a l' (h.items a).next) a l xs ys
taken h a l [] ys f d w =
    let cut = take_off-Forms h a l (h.items a).next ys f.2 w.0 w.1 d.0 d.1 in
    (
      l,
      f.1,
      record {
        forms = cut.forms;
        back = λ b o. cut.back b (λ e. o.0 (sym e)) o.1;
        links = λ k n o. cut.links k n o.0 o.1;
        item = cut.item;
      },
    )
taken h a l (x ∷ xs) ys f d w =
    let (l', back_a, t) =
      taken h a (next_link x) xs ys f.2 d.1 (not_linked x (xs ++ (a ∷ ys)) d.0) in
    (
      l',
      back_a,
      record {
        forms = (t.links l (link_other l x w.0) w.1 ∙ f.0, t.back x d.0 ∙ f.1, t.forms);
        back = λ b o. t.back b o.1;
        links = λ k n o. t.links k (link_other k x o.0) o.1;
        item = t.item;
      },
    )

unlinked_again :
    (h : HlistHead) (a : ℕ) → h.items a ≡ record { pprev = none; next = none } → hlist_del h a ≡ h
unfolding hlist_del
unlinked_again h a e = rw (hlist_del, ap (λ (i : HlistItem). i.pprev) e) refl

taken_out :
    (h : HlistHead) (a : ℕ) (xs ys : List ℕ)
    → Forms h first_link h.first (xs ++ (a ∷ ys))
    → Distinct (xs ++ (a ∷ ys))
    → let h' = hlist_del h a in
      Forms h' first_link h'.first (xs ++ ys) × (h'.items a ≡ record { pprev = none; next = none })
unfolding hlist_del
taken_out h a xs ys f d =
    let (l', back_a, t) = taken h a first_link xs ys f d (anywhere (xs ++ (a ∷ ys))) in
    rw (hlist_del, back_a) (t.forms, t.item)
  where
    anywhere : (zs : List ℕ) → All (Away first_link) zs
    anywhere [] = tt
    anywhere (z ∷ zs) = (tt, anywhere zs)

-- When the pointers of a list lead to distinct items, each with the pointer that leads to it,
-- hlist_del() of one of them leaves the list of the others in their order, each again with the
-- pointer that leads to it, and both pointers of the item NULL, so that hlist_del() of the
-- item once more changes nothing.
pub hlist_del-Forms :
    (h : HlistHead) (a : ℕ) (xs ys : List ℕ)
    → Forms h first_link h.first (xs ++ (a ∷ ys))
    → Distinct (xs ++ (a ∷ ys))
    → let h' = hlist_del h a in
      Forms h' first_link h'.first (xs ++ ys)
      × (h'.items a ≡ record { pprev = none; next = none })
      × (hlist_del h' a ≡ h')
hlist_del-Forms h a xs ys f d =
    let (forms, item) = taken_out h a xs ys f d in
    (forms, item, unlinked_again (hlist_del h a) a item)
