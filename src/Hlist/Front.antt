-- ===== src/Hlist/Front.antt =====
-- hlist_add_front() (src/data/inc/libp/list.h) on the list that the pointers form.
use tcp_striper.Base.{
  ℕ, ◌≡◌, ◌≢◌, refl, sym, ap, ◌∙◌, Option, none, some, List, [], ◌∷◌, All, ◌==◌, if_true, if_false,
  arith,
}
use mathlib.Core.Path.{subst}
use tcp_striper.Hlist.{
  Link, first_link, next_link, HlistItem, HlistHead, put_item, point, put_front, set_pprev,
  hlist_add_front,
}

-- From `x`, which `link` points at, the items are the given ones.
abbrev pub Forms : HlistHead → Link → Option ℕ → List ℕ → Type 0
Forms h link x [] = x ≡ none
Forms h link x (a ∷ as') =
    (x ≡ some a) × ((h.items a).pprev ≡ some link) × Forms h (next_link a) (h.items a).next as'

abbrev pub Others : ℕ → List ℕ → Type 0
Others a xs = All (λ b. b ≢ a) xs

abbrev pub Distinct : List ℕ → Type 0
Distinct [] = Unit {0}
Distinct (a ∷ as') = Others a as' × Distinct as'

pub other :
    (h : HlistHead) (a b : ℕ) (item : HlistItem) → b ≢ a → (put_item h a item).items b ≡ h.items b
other h a b item n = if_false (b == a) _ (ground arith)

pub this : (h : HlistHead) (a : ℕ) (item : HlistItem) → (put_item h a item).items a ≡ item
this h a item = if_true (a == a) _ (ground arith)

-- The items that a list holds are as they were.
pub Forms-kept :
    (h h' : HlistHead) (link : Link) (x : Option ℕ) (xs : List ℕ)
    → All (λ b. h'.items b ≡ h.items b) xs
    → Forms h link x xs
    → Forms h' link x xs
Forms-kept h h' link x [] k f = f
Forms-kept h h' link x (a ∷ as') (k, ks) (here, back, rest) = (
  here,
  ap (λ (i : HlistItem). i.pprev) k ∙ back,
  subst (λ y. Forms h' (next_link a) y as') (sym (ap (λ (i : HlistItem). i.next) k))
      (Forms-kept h h' (next_link a) (h.items a).next as' ks rest),
)

All-others :
    (P : ℕ → Type 0) (a : ℕ) (xs : List ℕ) → ((b : ℕ) → b ≢ a → P b) → Others a xs → All P xs
All-others P a [] f o = tt
All-others P a (x ∷ xs) f o = (f x o.0, All-others P a xs f o.1)

front_Forms :
    (h : HlistHead) (i : ℕ) (x : Option ℕ) (xs : List ℕ)
    → Forms h first_link x xs
    → Others i xs
    → Distinct xs
    → Forms (put_front h i x) first_link (some i) (i ∷ xs)
front_Forms h i none [] f o d =
    let item =
      this (point h (next_link i) none) i
        (record { pprev = some first_link; next = ((point h (next_link i) none).items i).next }) in
    let old = this h i (record (h.items i) { next = none }) in
    (
      refl,
      ap (λ (i : HlistItem). i.pprev) item,
      ap (λ (i : HlistItem). i.next) item ∙ ap (λ (i : HlistItem). i.next) old,
    )
front_Forms h i (some b) [] f o d = cc
front_Forms h i none (a ∷ as') f o d = cc
front_Forms h i (some b) (a ∷ as') f o d =
    let b_a : b ≡ a = cc in
    subst (λ c. Forms (put_front h i (some c)) first_link (some i) (i ∷ a ∷ as')) (sym b_a) front
  where
    h1 : HlistHead
    h1 = point h (next_link i) (some a)

    h2 : HlistHead
    h2 = set_pprev h1 (some a) (some (next_link i))

    h3 : HlistHead
    h3 = set_pprev h2 (some i) (some first_link)

    at_i : h3.items i ≡ record (h2.items i) { pprev = some first_link }
    at_i = this h2 i (record (h2.items i) { pprev = some first_link })

    i_before : h2.items i ≡ record (h.items i) { next = some a }
    i_before = other h1 a i _ (λ e. o.0 (sym e)) ∙ this h i _

    at_a : h3.items a ≡ record (h1.items a) { pprev = some (next_link i) }
    at_a = other h2 i a _ o.0 ∙ this h1 a _

    a_before : h1.items a ≡ h.items a
    a_before = other h i a _ o.0

    rest_kept : (b : ℕ) → b ≢ a → b ≢ i → h3.items b ≡ h.items b
    rest_kept b na ni = other h2 i b _ ni ∙ other h1 a b _ na ∙ other h i b _ ni

    both : (xs : List ℕ) → Others a xs → Others i xs → All (λ b. h3.items b ≡ h.items b) xs
    both [] ha hi = tt
    both (x ∷ xs) ha hi = (rest_kept x ha.0 hi.0, both xs ha.1 hi.1)

    front : Forms (put_front h i (some a)) first_link (some i) (i ∷ a ∷ as')
    front = (
      refl,
      ap (λ (i : HlistItem). i.pprev) at_i,
      (
        ap (λ (i : HlistItem). i.next) at_i ∙ ap (λ (i : HlistItem). i.next) i_before,
        ap (λ (i : HlistItem). i.pprev) at_a,
        subst (λ y. Forms (put_front h i (some a)) (next_link a) y as')
            (sym (ap (λ (i : HlistItem). i.next) at_a ∙ ap (λ (i : HlistItem). i.next) a_before))
            (Forms-kept h (put_front h i (some a)) (next_link a) (h.items a).next as'
              (both as' d.0 o.1) f.2),
      ),
    )

-- The theorem.
pub hlist_add_front-Forms :
    (h : HlistHead) (i : ℕ) (xs : List ℕ)
    → Forms h first_link h.first xs
    → Others i xs
    → Distinct xs
    → let h' = hlist_add_front h i in Forms h' first_link h'.first (i ∷ xs)
unfolding hlist_add_front
hlist_add_front-Forms h i xs f o d = front_Forms h i h.first xs f o d
