-- ===== src/Members.antt =====
-- What filtering and sorting keep of a list.
use toomoki_cdac_pds.Prelude.{
  ◌≡◌, sym, ◌⊎◌, inl, inr, true, List, [], ◌∷◌, Bool, Bool-cases, filter, sort_by, insert_by,
}
use mathlib.Core.Path.{subst}
use mathlib.Core.List.{Memᴰ}
use mathlib.Core.List.Memᴰ

pub filter-Memᴰ :
    {A : Type 0} (p : A → Bool) (xs : List A) (x : A)
    → Memᴰ x xs
    → p x ≡ true
    → Memᴰ x (filter p xs)
filter-Memᴰ p [] x m e = absurd (Memᴰ.not-nil m)
filter-Memᴰ p (y ∷ ys) x m e = elim (Memᴰ.cases_cons m) [
  | inl same ↦ rw (subst (λ z. p z ≡ true) same e) (Memᴰ.head same)
  | inr later ↦ elim (Bool-cases (p y)) [
    | inl keep ↦ rw keep (Memᴰ.tail (filter-Memᴰ p ys x later e))
    | inr drop ↦ rw drop (filter-Memᴰ p ys x later e)
  ]
]

-- Sorting loses nothing.
insert_by-Memᴰ :
    {A : Type 0} (le : A → A → Bool) (y : A) (xs : List A) (x : A)
    → (x ≡ y) ⊎ Memᴰ x xs
    → Memᴰ x (insert_by le y xs)
insert_by-Memᴰ le y [] x (inl same) = Memᴰ.head same
insert_by-Memᴰ le y [] x (inr m) = absurd (Memᴰ.not-nil m)
insert_by-Memᴰ le y (z ∷ zs) x h = elim (Bool-cases (le y z)) [
  | inl before ↦ rw before (elim h [ inl same ↦ Memᴰ.head same | inr m ↦ Memᴰ.tail m ])
  | inr after ↦ rw after (elim h [
    | inl same ↦ Memᴰ.tail (insert_by-Memᴰ le y zs x (inl same))
    | inr m ↦ elim (Memᴰ.cases_cons m) [
      | inl first ↦ Memᴰ.head first
      | inr later ↦ Memᴰ.tail (insert_by-Memᴰ le y zs x (inr later))
    ]
  ])
]

pub sort_by-Memᴰ :
    {A : Type 0} (le : A → A → Bool) (xs : List A) (x : A) → Memᴰ x xs → Memᴰ x (sort_by le xs)
sort_by-Memᴰ le [] x m = m
sort_by-Memᴰ le (y ∷ ys) x m = elim (Memᴰ.cases_cons m) [
  | inl same ↦ insert_by-Memᴰ le y (sort_by le ys) x (inl same)
  | inr later ↦ insert_by-Memᴰ le y (sort_by le ys) x (inr (sort_by-Memᴰ le ys x later))
]

pub filter-passed :
    {A : Type 0} (p : A → Bool) (xs : List A) (x : A)
    → Memᴰ x (filter p xs)
    → Memᴰ x xs × (p x ≡ true)
filter-passed p [] x m = absurd (Memᴰ.not-nil m)
filter-passed p (y ∷ ys) x m = elim (Bool-cases (p y)) [
  | inr drop ↦ let (later, e) = filter-passed p ys x (rw drop at m) in (Memᴰ.tail later, e)
  | inl keep ↦
      let both : Memᴰ x (y ∷ filter p ys) = rw keep at m in
      elim (Memᴰ.cases_cons both) [
        | inl same ↦ (Memᴰ.head same, subst (λ z. p z ≡ true) (sym same) keep)
        | inr later ↦ let (m', e) = filter-passed p ys x later in (Memᴰ.tail m', e)
      ]
]

insert_by-inserted :
    {A : Type 0} (le : A → A → Bool) (y : A) (xs : List A) (x : A)
    → Memᴰ x (insert_by le y xs)
    → (x ≡ y) ⊎ Memᴰ x xs
insert_by-inserted le y [] x m = Memᴰ.cases_cons m
insert_by-inserted le y (z ∷ zs) x m = elim (Bool-cases (le y z)) [
  | inl before ↦ Memᴰ.cases_cons (rw before at m)
  | inr after ↦
      let both : Memᴰ x (z ∷ insert_by le y zs) = rw after at m in
      elim (Memᴰ.cases_cons both) [
        | inl same ↦ inr (Memᴰ.head same)
        | inr later ↦ elim (insert_by-inserted le y zs x later) [
          | inl new ↦ inl new
          | inr old ↦ inr (Memᴰ.tail old)
        ]
      ]
]

pub sort_by-sorted :
    {A : Type 0} (le : A → A → Bool) (xs : List A) (x : A) → Memᴰ x (sort_by le xs) → Memᴰ x xs
sort_by-sorted le [] x m = m
sort_by-sorted le (y ∷ ys) x m = elim (insert_by-inserted le y (sort_by le ys) x m) [
  | inl same ↦ Memᴰ.head same
  | inr later ↦ Memᴰ.tail (sort_by-sorted le ys x later)
]
