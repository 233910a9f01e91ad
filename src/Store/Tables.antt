-- ===== src/Store/Tables.antt =====
-- Laws of the SELECT and UPDATE statements of src/recallpack/storage.py on lists of rows.
use recallpack.Base.{
  Bool, true, false, Option, none, some, List, [], ◌∷◌, ◌≡◌, refl, inl, inr, arith, find, any, All,
  if◌then◌else◌, Bool-cases, is_some,
}
use recallpack.Store.Query.{update_where, rowcount}

module _ {ℓ} {A : Type ℓ} where
  abbrev pub changed : (A → Bool) → (A → A) → A → A
  changed fits change x = if fits x then change x else x

  abbrev pub map_option : (A → A) → Option A → Option A
  map_option f none = none
  map_option f (some x) = some (f x)

  -- An UPDATE that leaves the tested columns alone commutes with a SELECT.
  pub find-update_where :
      (p fits : A → Bool) (change : A → A) (xs : List A)
      → ((x : A) → p (change x) ≡ p x)
      → find p (update_where fits change xs) ≡ map_option (changed fits change) (find p xs)
  unfolding find update_where
  find-update_where p fits change [] same = refl
  find-update_where p fits change (x ∷ xs) same =
      let rest = find-update_where p fits change xs same in
      elim (Bool-cases (fits x)) [
        | inl hit ↦ elim (Bool-cases (p x)) [
          | inl yes_p ↦ rw (hit, same x, yes_p) (rw hit)
          | inr no_p ↦ rw (hit, same x, no_p) rest
        ]
        | inr miss ↦ elim (Bool-cases (p x)) [
          | inl yes_p ↦ rw (miss, yes_p) (rw miss)
          | inr no_p ↦ rw (miss, no_p) rest
        ]
      ]

  pub find_sound : (p : A → Bool) (xs : List A) (x : A) → find p xs ≡ some x → p x ≡ true
  unfolding find
  find_sound p [] x h = absurd (ground arith)
  find_sound p (y ∷ ys) x h = elim (Bool-cases (p y)) [
    | inl hit ↦ ground arith
    | inr miss ↦ find_sound p ys x (ground arith)
  ]

  -- A row that some UPDATE counts is found by every weaker SELECT.
  pub find-rowcount :
      (p q : A → Bool) (xs : List A)
      → ((x : A) → p x ≡ true → q x ≡ true)
      → rowcount p xs ≡ 1
      → (x : A) × (find q xs ≡ some x)
  unfolding find rowcount
  find-rowcount p q [] weaker h = absurd (omega arith)
  find-rowcount p q (x ∷ xs) weaker h = elim (Bool-cases (q x)) [
    | inl hit ↦ (x, rw hit)
    | inr miss ↦ elim (Bool-cases (p x)) [
      | inl counted ↦ absurd (ground (arith, weaker x counted))
      | inr other ↦
          let (y, found) = find-rowcount p q xs weaker (ground arith) in (y, rw miss found)
    ]
  ]

  pub rowcount-zero : (p : A → Bool) (xs : List A) → rowcount p xs ≡ 0 → All (λ x. p x ≡ false) xs
  unfolding rowcount
  rowcount-zero p [] h = tt
  rowcount-zero p (x ∷ xs) h = (ground arith, rowcount-zero p xs (ground arith))

  -- With one row counted, every row that fits is the one that is found.
  pub found_only :
      (p : A → Bool) (xs : List A) (e : A)
      → rowcount p xs ≡ 1
      → find p xs ≡ some e
      → All (λ x. p x ≡ true → x ≡ e) xs
  unfolding rowcount find
  found_only p [] e h f = tt
  found_only p (x ∷ xs) e h f = elim (Bool-cases (p x)) [
    | inl hit ↦ (λ _. ground arith, none_fit xs (rowcount-zero p xs (ground arith)))
    | inr miss ↦ (λ c. absurd (ground arith), found_only p xs e (ground arith) (ground arith))
  ]
    where
      none_fit : (ys : List A) → All (λ x. p x ≡ false) ys → All (λ x. p x ≡ true → x ≡ e) ys
      none_fit [] z = tt
      none_fit (y ∷ ys) z = (λ c. absurd (ground arith), none_fit ys z.1)

  pub any-find : (p : A → Bool) (xs : List A) → any p xs ≡ is_some (find p xs)
  unfolding any find
  any-find p [] = refl
  any-find p (x ∷ xs) = ground (arith, any-find p xs)

  abbrev pub Pairwise : (A → A → Bool) → List A → Type 0
  Pairwise apart [] = Unit
  Pairwise apart (x ∷ xs) = All (λ y. apart x y ≡ true) xs × Pairwise apart xs
