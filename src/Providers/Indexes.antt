-- ===== src/Providers/Indexes.antt =====
-- The indexes of a decision on their way from src/recallpack/providers.py, which reads them from an answer of the
-- model, to src/recallpack/observe.py, which checks them.
use recallpack.Base.{
  String, true, false, Option, none, some, List, [], ◌∷◌, ◌≡◌, ◌⊎◌, ◌↔◌, refl, subst, inl, inr,
  arith, str_eq, ok, >>=-eq-ok, Bool-cases, Option-cases,
}
use recallpack.Json.{ℤ, Json, null, bool, int, float, str, arr, obj, Items, nil, cons, is_null}
use recallpack.Match.{codes}
use recallpack.Normalize.Parts.{as_index, indexes, distinct_indexes, valid_index_array}
use recallpack.Providers.Arguments.{
  Texts, prepend, normalize_optional_index, normalize_items, normalize_index_list,
}

-- What an item of the list stands for: a number, also one that is spelled out in digits, or nothing.
pub data StandsFor (texts : Texts) : Json → Option ℤ → Type 0 where
  nothing : StandsFor texts null none
  blank : (value : String) → str_eq value "" ≡ true → StandsFor texts (str value) none
  number : (i : ℤ) → StandsFor texts (int i) (some i)
  digits :
      (value : String) (i : ℤ)
      → str_eq value "" ≡ false
      → texts.isdigit (texts.strip (codes value)) ≡ true
      → texts.int_of (texts.strip (codes value)) ≡ some i
      → StandsFor texts (str value) (some i)

-- The numbers that the items stand for, in their order.
pub data StandForAll (texts : Texts) : Items → List ℤ → Type 0 where
  no_items : StandForAll texts nil []
  left_out :
      (j : Json) (js : Items) (is : List ℤ)
      → StandsFor texts j none
      → StandForAll texts js is
      → StandForAll texts (cons j js) is
  taken :
      (j : Json) (js : Items) (i : ℤ) (is : List ℤ)
      → StandsFor texts j (some i)
      → StandForAll texts js is
      → StandForAll texts (cons j js) (i ∷ is)

-- The index that is read from an item.
abbrev as_read : Option ℤ → Json
as_read none = null
as_read (some i) = int i

StandsFor-read :
    (texts : Texts) (j : Json) (o : Option ℤ)
    → StandsFor texts j o
    → normalize_optional_index texts j ≡ ok (as_read o)
unfolding normalize_optional_index
StandsFor-read texts _ _ nothing = refl
StandsFor-read texts _ _ (blank value empty) = rw empty refl
StandsFor-read texts _ _ (number i) = refl
StandsFor-read texts _ _ (digits value i filled all_digits parsed) =
    rw (filled, all_digits, parsed) refl

StandForAll-read :
    (texts : Texts) (js : Items) (is : List ℤ)
    → StandForAll texts js is
    → (ks : Items) × (normalize_items texts js ≡ ok ks) × (indexes ks ≡ some is)
StandForAll-read texts _ _ no_items = (nil, refl, refl)
StandForAll-read texts _ _ (left_out j js is one rest) =
    let (ks, read, numbers) = StandForAll-read texts js is rest in
    (ks, rw (StandsFor-read texts j none one, read) refl, numbers)
StandForAll-read texts _ _ (taken j js i is one rest) =
    let (ks, read, numbers) = StandForAll-read texts js is rest in
    (cons (int i) ks, rw (StandsFor-read texts j (some i) one, read) refl, rw numbers refl)

-- What was read from an item: nothing, a number, or what is no index.
read-StandsFor :
    (texts : Texts) (j k : Json)
    → normalize_optional_index texts j ≡ ok k
    → ((k ≡ null) × StandsFor texts j none)
      ⊎ (((i : ℤ) × (k ≡ int i) × StandsFor texts j (some i))
          ⊎ ((is_null k ≡ false) × (as_index k ≡ none)))
unfolding normalize_optional_index
read-StandsFor texts null k h = inl (ground arith, nothing)
read-StandsFor texts (int i) k h = inr (inl (i, ground arith, number i))
read-StandsFor texts (str value) k h = elim (Bool-cases (str_eq value "")) [
  | inl empty ↦ inl (ground arith, blank value empty)
  | inr filled ↦ elim (Bool-cases (texts.isdigit (texts.strip (codes value)))) [
    | inr other ↦ let same : k ≡ str value = ground arith in inr (inr (rw same refl, rw same refl))
    | inl all_digits ↦ elim (Option-cases (texts.int_of (texts.strip (codes value)))) [
      | inl unread ↦ absurd (ground arith)
      | inr (i, parsed) ↦ inr (inl (i, ground arith, digits value i filled all_digits parsed))
    ]
  ]
]
read-StandsFor texts (bool b) k h =
    let same : k ≡ bool b = ground arith in inr (inr (rw same refl, rw same refl))
read-StandsFor texts (float b) k h =
    let same : k ≡ float b = ground arith in inr (inr (rw same refl, rw same refl))
read-StandsFor texts (arr js) k h =
    let same : k ≡ arr js = ground arith in inr (inr (rw same refl, rw same refl))
read-StandsFor texts (obj fs) k h =
    let same : k ≡ obj fs = ground arith in inr (inr (rw same refl, rw same refl))

read-StandForAll :
    (texts : Texts) (js ks : Items) (is : List ℤ)
    → normalize_items texts js ≡ ok ks
    → indexes ks ≡ some is
    → StandForAll texts js is
read-StandForAll texts nil ks is h numbers =
    let same : nil ≡ ks = ground arith in
    let none_left : [] ≡ is = ground arith in subst (StandForAll texts nil) none_left no_items
read-StandForAll texts (cons j js) ks is h numbers =
    let (index, one, after) = >>=-eq-ok (normalize_optional_index texts j) _ h in
    let (rest, others, last) = >>=-eq-ok (normalize_items texts js) _ after in
    let same : prepend index rest ≡ ks = ground arith in
    let known : indexes (prepend index rest) ≡ some is = rw same numbers in
    elim (read-StandsFor texts j index one) [
      | inl (dropped, stands) ↦ left_out j js is stands (
          read-StandForAll texts js rest is others
            (subst (λ t. indexes (prepend t rest) ≡ some is) dropped known))
      | inr (inl (i, kept, stands)) ↦
          let known₁ : indexes (prepend (int i) rest) ≡ some is =
            subst (λ t. indexes (prepend t rest) ≡ some is) kept known in
          elim (Option-cases (indexes rest)) [
            | inl unread ↦ absurd (ground arith)
            | inr (is', read) ↦
                let listed : i ∷ is' ≡ is = ground arith in
                subst (StandForAll texts (cons j js)) listed
                  (taken j js i is' stands (read-StandForAll texts js rest is' others read))
          ]
      | inr (inr (kept, other)) ↦ absurd (ground arith)
    ]

indexes_valid :
    (ks : Items) (is : List ℤ)
    → indexes ks ≡ some is
    → distinct_indexes is ≡ true
    → valid_index_array (arr ks) ≡ some is
unfolding valid_index_array
indexes_valid ks is numbers distinct = rw (numbers, valid_index_array) (rw distinct refl)

-- The runtime accepts the list of indexes that the provider read exactly if each item is a number, a text of digits,
-- null or empty, and the numbers are distinct: it then has those numbers in their order.
pub normalize_index_list-valid :
    (texts : Texts) (js : Items) (is : List ℤ)
    → ((k : Json) × (normalize_index_list texts (arr js) ≡ ok k) × (valid_index_array k ≡ some is))
      ↔ (StandForAll texts js is × (distinct_indexes is ≡ true))
unfolding normalize_index_list valid_index_array
normalize_index_list-valid texts js is = (
  λ (k, read, valid).
      let (ks, items_read, last) = >>=-eq-ok (normalize_items texts js) _ read in
      let same : arr ks ≡ k = ground arith in
      let valid₁ : valid_index_array (arr ks) ≡ some is = rw same valid in
      elim (Option-cases (indexes ks)) [
        | inl unread ↦ absurd (ground arith)
        | inr (found, numbers) ↦
            let listed : found ≡ is = ground arith in
            (
              read-StandForAll texts js ks is items_read
                  (subst (λ t. indexes ks ≡ some t) listed numbers),
              ground arith,
            )
      ],
  λ (all_stand, distinct).
      let (ks, read, numbers) = StandForAll-read texts js is all_stand in
      (arr ks, rw read refl, indexes_valid ks is numbers distinct),
)
