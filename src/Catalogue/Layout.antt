-- ===== src/Catalogue/Layout.antt =====
-- The merge of new items into a shop's layout.
use xgamefi.Prelude.{
  ◌≡◌, refl, arith, ap, Bool, true, false, not, none, some, List, [], ◌∷◌, ◌++◌, any, where_is,
  ◌==◌, Bool-cases, inl, inr, ◌||◌, ◌&&◌, ==_refl, ==_iff, subst,
}
use xgamefi.Schema.{Uuid, Section}
use xgamefi.Catalogue.{section_ids, is_new, push_ids, merge_new_items_into_layout}

any-append :
    {A : Type 0} (p : A → Bool) (xs ys : List A) → any p (xs ++ ys) ≡ (any p xs || any p ys)
any-append p [] ys = refl
any-append p (x ∷ xs) ys = ground (arith, any-append p xs ys)

-- A filter keeps the members that it accepts.
any-where_is :
    (p : Uuid → Bool) (xs : List Uuid) (i : Uuid)
    → any (λ j. j == i) (where_is p xs) ≡ (any (λ j. j == i) xs && p i)
unfolding where_is
any-where_is p [] i = refl
any-where_is p (x ∷ xs) i = elim (Bool-cases (x == i)) [
  | inl e ↦
      let same : p x ≡ p i = ap p ((==_iff x i).0 e) in ground (arith, any-where_is p xs i, e, same)
  | inr n ↦ ground (arith, any-where_is p xs i, n)
]

where_is-none :
    (p : Uuid → Bool) (xs : List Uuid)
    → ((i : Uuid) → any (λ j. j == i) xs ≡ true → p i ≡ false)
    → where_is p xs ≡ []
unfolding where_is
where_is-none p [] h = refl
where_is-none p (x ∷ xs) h =
    rw (h x (rw (==_refl x))) (where_is-none p xs (λ i m. h i (ground (arith, m))))

-- The layout `ss'` lists what `ss` lists and the ids of `active`.
abbrev pub Extends : List Section → List Uuid → List Section → Type 0
Extends ss active ss' =
    (i : Uuid)
    → any (λ j. j == i) (section_ids ss')
      ≡ (any (λ j. j == i) (section_ids ss) || any (λ j. j == i) active)

or_new : (a b c n : Bool) → n ≡ (c && not (a || b)) → ((a || n) || b) ≡ ((a || b) || c)
or_new true b c n h = refl
or_new false true c n h = ground arith
or_new false false c n h = ground arith

pushed-Extends :
    (s : Section) (ss : List Section) (active new : List Uuid)
    → where_is (is_new (s ∷ ss)) active ≡ new
    → Extends (s ∷ ss) active (record s { item_ids = s.item_ids ++ new } ∷ ss)
pushed-Extends s ss active new e i =
    let is_i = λ (j : Uuid). j == i in
    let kept : any is_i new ≡ (any is_i active && is_new (s ∷ ss) i) =
      subst (λ l. any is_i l ≡ (any is_i active && is_new (s ∷ ss) i)) e
        (any-where_is (is_new (s ∷ ss)) active i) in
    let old = any-append is_i s.item_ids (section_ids ss) in
    rw (any-append is_i (s.item_ids ++ new) (section_ids ss)) (
      rw (any-append is_i s.item_ids new, old)
        (or_new (any is_i s.item_ids) (any is_i (section_ids ss)) (any is_i active) (any is_i new)
          (rw old at kept)))

push_ids-Extends :
    (ss : List Section) (active new : List Uuid) (ss' : List Section)
    → where_is (is_new ss) active ≡ new
    → push_ids ss new ≡ some ss'
    → Extends ss active ss'
push_ids-Extends [] active new ss' e h = cc
push_ids-Extends (s ∷ ss) active [] ss' e h = cc
push_ids-Extends (s ∷ ss) active (i ∷ is) ss' e h =
    let same : record s { item_ids = s.item_ids ++ i ∷ is } ∷ ss ≡ ss' = cc in
    subst (Extends (s ∷ ss) active) same (pushed-Extends s ss active (i ∷ is) e)

push_ids-none : (ss : List Section) → push_ids ss [] ≡ none
push_ids-none [] = refl
push_ids-none (s ∷ ss) = refl

-- When a layout is merged with the active ids, the new layout lists exactly what the old one
-- listed and the active ids, and a second merge with the same ids has nothing to add.
pub merge_new_items_into_layout-Extends :
    (ss : List Section) (active : List Uuid) (ss' : List Section)
    → merge_new_items_into_layout (some ss) active ≡ some ss'
    → Extends ss active ss' × (merge_new_items_into_layout (some ss') active ≡ none)
unfolding merge_new_items_into_layout
merge_new_items_into_layout-Extends ss active ss' h =
    let more = push_ids-Extends ss active (where_is (is_new ss) active) ss' refl h in
    let nothing : where_is (is_new ss') active ≡ [] =
      where_is-none (is_new ss') active
        λ i m. rw (more i, m) (not_or (any (λ j. j == i) (section_ids ss))) in
    (more, rw nothing (push_ids-none ss'))
  where
    not_or : (b : Bool) → not (b || true) ≡ false
    not_or true = refl
    not_or false = refl
