-- ===== src/Tracking/Rows.antt =====
-- The rows of the ratings.
use javi.Prelude.{
  ℕ, ◌≤◌, ◌≡◌, refl, List, [], ◌∷◌, ◌==◌, any, count, update_where, All, arith, if-split, subst,
  count-update, any-count, Bool-cases, inl, inr, ==_iff,
}
use javi.Model.{Rating}
use javi.Tracking.{is_rating_for, saved_rating}

abbrev pub IsInRange : Rating → Type 0
IsInRange r = (1 ≤ r.value) × (r.value ≤ 5)

-- A delivery has one rating at most, of 1 to 5.
pub record IsRated (rows : List Rating) : Type 0 where
  pub once : (id : ℕ) → count (is_rating_for id) rows ≤ 1
  pub values : All IsInRange rows

saved_count :
    (id value other : ℕ) (rows : List Rating)
    → count (is_rating_for other) rows ≤ 1
    → count (is_rating_for other) (saved_rating id value rows) ≤ 1
unfolding saved_rating count
saved_count id value other rows h = elim (Bool-cases (any (is_rating_for id) rows)) [
  | inl known ↦
      let same =
        count-update (is_rating_for other) (is_rating_for id)
          (λ (r : Rating). record r { value = value }) rows (λ r. refl) in
      rw known (omega (arith, same))
  | inr missing ↦
      let none_yet = any-count (is_rating_for id) rows missing in
      rw missing (elim (Bool-cases (id == other)) [
        | inl e ↦
            let same : id ≡ other = (==_iff id other).0 e in
            let zero_yet : count (is_rating_for other) rows ≡ 0 =
              subst (λ i. count (is_rating_for i) rows ≡ 0) same none_yet in
            rw e (omega (arith, zero_yet))
        | inr e ↦ rw e h
      ])
]

updated_values :
    (id value : ℕ) (rows : List Rating)
    → (1 ≤ value) × (value ≤ 5)
    → All IsInRange rows
    → All IsInRange
        (update_where (is_rating_for id) (λ (r : Rating). record r { value = value }) rows)
unfolding update_where
updated_values id value [] h all = tt
updated_values id value (r ∷ rows) h (here, later) = (
  if-split IsInRange (is_rating_for id r) (record r { value = value }) r (λ own. h) (λ other. here),
  updated_values id value rows h later,
)

saved_values :
    (id value : ℕ) (rows : List Rating)
    → (1 ≤ value) × (value ≤ 5)
    → All IsInRange rows
    → All IsInRange (saved_rating id value rows)
unfolding saved_rating
saved_values id value rows h all =
    if-split (All IsInRange) (any (is_rating_for id) rows) _ _
      (λ known. updated_values id value rows h all) (λ missing. (h, all))

pub saved-IsRated :
    (id value : ℕ) (rows : List Rating)
    → (1 ≤ value) × (value ≤ 5)
    → IsRated rows
    → IsRated (saved_rating id value rows)
saved-IsRated id value rows h rated = record {
  once = λ other. saved_count id value other rows (rated.once other);
  values = saved_values id value rows h rated.values;
}
