-- ===== src/Retention/Batches.antt =====
-- Batches of rows: what a batch leaves to be done, and that one batch after another does what a
-- single pass over the table would.
use javi.Prelude.{
  ℕ, ◌+◌, ◌-◌, ◌<◌, ◌≡◌, refl, ap, Bool, true, false, not, ◌&&◌, ◌||◌, List, [], ◌∷◌, map, any,
  count, length, select, if◌then◌else◌, arith,
}
use javi.Retention.{is_empty, batch, update_batch, delete_batch}

module _ {A : Type 0} where
  -- The update of a single pass.
  abbrev pub change_if : (A → Bool) → (A → A) → A → A
  change_if p f x = if p x then f x else x

  module _ (size : ℕ) (p : A → Bool) (f : A → A) (done : (x : A) → p (f x) ≡ false) where
    pub count-update_batch : (xs : List A) → count p (update_batch size p f xs) ≡ count p xs - size
    unfolding count update_batch
    count-update_batch [] = omega arith
    count-update_batch (x ∷ xs) = ground (arith, done x, count-update_batch xs)

    pub map-update_batch :
        (xs : List A) → map (change_if p f) (update_batch size p f xs) ≡ map (change_if p f) xs
    unfolding update_batch
    map-update_batch [] = refl
    map-update_batch (x ∷ xs) = ground (arith, done x, map-update_batch xs)

  pub map-none :
      (p : A → Bool) (f : A → A) (xs : List A) → count p xs ≡ 0 → map (change_if p f) xs ≡ xs
  unfolding count
  map-none p f [] h = refl
  map-none p f (x ∷ xs) h = ground (arith, map-none p f xs)

  module _ (size : ℕ) (p : A → Bool) where
    pub length-batch : (xs : List A) → length (batch size p xs) + (count p xs - size) ≡ count p xs
    unfolding count batch
    length-batch [] = omega arith
    length-batch (x ∷ xs) = ground (arith, length-batch xs)

    pub count-delete_batch : (xs : List A) → count p (delete_batch size p xs) ≡ count p xs - size
    unfolding count delete_batch
    count-delete_batch [] = omega arith
    count-delete_batch (x ∷ xs) = ground (arith, count-delete_batch xs)

    pub select-delete_batch :
        (xs : List A)
        → select (λ x. not (p x)) (delete_batch size p xs) ≡ select (λ x. not (p x)) xs
    unfolding select delete_batch
    select-delete_batch [] = refl
    select-delete_batch (x ∷ xs) = ground (arith, select-delete_batch xs)

  pub is_empty-length : (xs : List A) → is_empty xs ≡ false → 0 < length xs
  is_empty-length [] h = cc
  is_empty-length (x ∷ xs) h = omega arith

  pub length-is_empty : (xs : List A) → is_empty xs ≡ true → length xs ≡ 0
  length-is_empty [] h = refl
  length-is_empty (x ∷ xs) h = cc

  -- What is in the batch or still to be done afterwards was to be done before.
  pub any-update_batch :
      (size : ℕ) (p q : A → Bool) (f : A → A)
      → ((x : A) → p (f x) ≡ false)
      → (xs : List A)
      → (any q (batch size p xs) || any q (select p (update_batch size p f xs)))
        ≡ any q (select p xs)
  unfolding any batch update_batch select
  any-update_batch size p q f done [] = refl
  any-update_batch size p q f done (x ∷ xs) =
      ground (arith, done x, any-update_batch size p q f done xs)

  pub select-none : (p : A → Bool) (xs : List A) → count p xs ≡ 0 → select p xs ≡ []
  unfolding count select
  select-none p [] h = refl
  select-none p (x ∷ xs) h = ground (arith, select-none p xs)

  pub select-kept : (p : A → Bool) (xs : List A) → count p xs ≡ 0 → select (λ x. not (p x)) xs ≡ xs
  unfolding count select
  select-kept p [] h = refl
  select-kept p (x ∷ xs) h = ground (arith, select-kept p xs)

  pub select_all : (xs : List A) → select (λ x. true) xs ≡ xs
  unfolding select
  select_all [] = refl
  select_all (x ∷ xs) = ap (λ t. x ∷ t) (select_all xs)

  pub count_none : (xs : List A) → count (λ x. false) xs ≡ 0
  unfolding count
  count_none [] = refl
  count_none (x ∷ xs) = count_none xs

  pub count-split :
      (p q r : A → Bool) (xs : List A)
      → ((x : A) → (q x || p x) ≡ r x)
      → count q xs + count p (select (λ x. not (q x)) xs) ≡ count r xs
  unfolding count select
  count-split p q r [] h = omega arith
  count-split p q r (x ∷ xs) h = ground (arith, h x, count-split p q r xs h)

  pub select-select :
      (p q r : A → Bool) (xs : List A)
      → ((x : A) → (q x && p x) ≡ r x)
      → select p (select q xs) ≡ select r xs
  unfolding select
  select-select p q r [] h = refl
  select-select p q r (x ∷ xs) h = ground (arith, h x, select-select p q r xs)

  -- Where no batch is due, nothing is.
  pub none_due :
      (size : ℕ) (p : A → Bool) (xs : List A)
      → 0 < size
      → is_empty (batch size p xs) ≡ true
      → count p xs ≡ 0
  none_due size p xs batches h =
      omega (arith, length-batch size p xs, length-is_empty (batch size p xs) h)
