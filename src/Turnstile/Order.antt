-- ===== src/Turnstile/Order.antt =====
-- The lists of src/recallpack/locking.py: what removal and the sort keep, and the order by turns.
use recallpack.Base.{
  ℕ, Bool, true, false, not, ◌&&◌, ◌||◌, List, [], ◌∷◌, ◌++◌, ◌≡◌, refl, subst, some, inl, inr,
  arith, ◌==◌, Bool-cases, Option-cases, eqb_sound,
}
use recallpack.Turnstile.{ProjectTurn, order_lt, insert_sorted, sort, remove}

abbrev pub elem : ℕ → List ℕ → Bool
elem t [] = false
elem t (u ∷ us) = u == t || elem t us

abbrev pub distinct : List ℕ → Bool
distinct [] = true
distinct (t ∷ ts) = not (elem t ts) && distinct ts

-- No later ticket is to go before an earlier one.
abbrev pub IsSorted : (ℕ → ProjectTurn) → List ℕ → Type 0
IsSorted turn [] = Unit
IsSorted turn (t ∷ ts) =
    ((u : ℕ) → elem u ts ≡ true → order_lt (turn u) (turn t) ≡ false) × IsSorted turn ts

pub elem-remove :
    (t u : ℕ) (l rest : List ℕ)
    → distinct l ≡ true
    → remove t l ≡ some rest
    → elem u rest ≡ (elem u l && not (t == u))
unfolding remove
elem-remove t u [] rest d e = cc
elem-remove t u (v ∷ vs) rest d e = elim (Option-cases (remove t vs)) [
  | inl gone ↦ ground arith
  | inr (us, found) ↦ ground (arith, elem-remove t u vs us (ground arith) found)
]

pub distinct-remove :
    (t : ℕ) (l rest : List ℕ) → distinct l ≡ true → remove t l ≡ some rest → distinct rest ≡ true
unfolding remove
distinct-remove t [] rest d e = cc
distinct-remove t (v ∷ vs) rest d e = elim (Option-cases (remove t vs)) [
  | inl gone ↦ ground arith
  | inr (us, found) ↦ ground (
    arith,
    elem-remove t v vs us (ground arith) found,
    distinct-remove t vs us (ground arith) found,
  )
]

pub elem-insert_sorted :
    (turn : ℕ → ProjectTurn) (u t : ℕ) (l : List ℕ)
    → elem u (insert_sorted turn t l) ≡ (t == u || elem u l)
unfolding insert_sorted
elem-insert_sorted turn u t [] = refl
elem-insert_sorted turn u t (v ∷ vs) = ground (arith, elem-insert_sorted turn u t vs)

pub elem-sort : (turn : ℕ → ProjectTurn) (u : ℕ) (l : List ℕ) → elem u (sort turn l) ≡ elem u l
unfolding sort
elem-sort turn u [] = refl
elem-sort turn u (t ∷ ts) =
    ground (arith, elem-insert_sorted turn u t (sort turn ts), elem-sort turn u ts)

distinct-insert_sorted :
    (turn : ℕ → ProjectTurn) (t : ℕ) (l : List ℕ)
    → distinct (insert_sorted turn t l) ≡ (not (elem t l) && distinct l)
unfolding insert_sorted
distinct-insert_sorted turn t [] = refl
distinct-insert_sorted turn t (v ∷ vs) =
    ground (arith, distinct-insert_sorted turn t vs, elem-insert_sorted turn v t vs)

pub distinct-sort : (turn : ℕ → ProjectTurn) (l : List ℕ) → distinct (sort turn l) ≡ distinct l
unfolding sort
distinct-sort turn [] = refl
distinct-sort turn (t ∷ ts) = ground (
  arith,
  distinct-insert_sorted turn t (sort turn ts),
  elem-sort turn t ts,
  distinct-sort turn ts,
)

order_lt-asymm : (a b : ProjectTurn) → order_lt a b ≡ true → order_lt b a ≡ false
unfolding order_lt
order_lt-asymm a b h = ground arith

order_lt-trans_neg :
    (a b c : ProjectTurn) → order_lt b a ≡ false → order_lt c b ≡ false → order_lt c a ≡ false
unfolding order_lt
order_lt-trans_neg a b c h k = ground arith

insert_sorted-IsSorted :
    (turn : ℕ → ProjectTurn) (t : ℕ) (l : List ℕ)
    → IsSorted turn l
    → IsSorted turn (insert_sorted turn t l)
unfolding insert_sorted
insert_sorted-IsSorted turn t [] s = (λ u h. cc, tt)
insert_sorted-IsSorted turn t (v ∷ vs) s = elim (Bool-cases (order_lt (turn v) (turn t))) [
  | inl later ↦ rw later (
    λ u h. ground (
      arith,
      elem-insert_sorted turn u t vs,
      s.0 u,
      order_lt-asymm (turn v) (turn t) later,
      eqb_sound t u,
    ),
    insert_sorted-IsSorted turn t vs s.1,
  )
  | inr first ↦ rw first (
    λ u h.
        ground (arith, s.0 u, order_lt-trans_neg (turn t) (turn v) (turn u) first, eqb_sound v u),
    s,
  )
]

pub sort-IsSorted : (turn : ℕ → ProjectTurn) (l : List ℕ) → IsSorted turn (sort turn l)
unfolding sort
sort-IsSorted turn [] = tt
sort-IsSorted turn (t ∷ ts) = insert_sorted-IsSorted turn t (sort turn ts) (sort-IsSorted turn ts)

pub elem-append_one : (u t : ℕ) (l : List ℕ) → elem u (l ++ t ∷ []) ≡ (elem u l || t == u)
elem-append_one u t [] = ground arith
elem-append_one u t (v ∷ vs) = ground (arith, elem-append_one u t vs)

pub distinct-append_one :
    (t : ℕ) (l : List ℕ) → distinct (l ++ t ∷ []) ≡ (distinct l && not (elem t l))
distinct-append_one t [] = refl
distinct-append_one t (v ∷ vs) = ground (arith, distinct-append_one t vs, elem-append_one v t vs)

-- Only the turns of the listed tickets matter.
pub IsSorted-agree :
    (turn turn' : ℕ → ProjectTurn) (l : List ℕ)
    → ((u : ℕ) → elem u l ≡ true → turn u ≡ turn' u)
    → IsSorted turn l
    → IsSorted turn' l
IsSorted-agree turn turn' [] same s = tt
IsSorted-agree turn turn' (t ∷ ts) same s = (
  λ u h. ground (arith, s.0 u, same u, same t),
  IsSorted-agree turn turn' ts (λ u h. same u (ground arith)) s.1,
)

pub IsSorted-remove :
    (turn : ℕ → ProjectTurn) (t : ℕ) (l rest : List ℕ)
    → distinct l ≡ true
    → remove t l ≡ some rest
    → IsSorted turn l
    → IsSorted turn rest
unfolding remove
IsSorted-remove turn t [] rest d e s = cc
IsSorted-remove turn t (v ∷ vs) rest d e s = elim (Bool-cases (v == t)) [
  | inl here ↦ let same : vs ≡ rest = ground arith in subst (IsSorted turn) same s.1
  | inr later ↦ elim (Option-cases (remove t vs)) [
    | inl gone ↦ absurd (ground arith)
    | inr (us, found) ↦
        let d' : distinct vs ≡ true = ground arith in
        let same : v ∷ us ≡ rest = ground arith in
        subst (IsSorted turn) same (
          λ u h. ground (arith, elem-remove t u vs us d' found, s.0 u),
          IsSorted-remove turn t vs us d' found s.1,
        )
  ]
]

-- A listed ticket can be removed.
pub remove-listed :
    (t : ℕ) (l : List ℕ) → elem t l ≡ true → (rest : List ℕ) × (remove t l ≡ some rest)
unfolding remove
remove-listed t [] h = absurd (ground arith)
remove-listed t (v ∷ vs) h = elim (Bool-cases (v == t)) [
  | inl here ↦ (vs, rw here)
  | inr later ↦ let (us, found) = remove-listed t vs (ground arith) in (v ∷ us, ground arith)
]

-- Only a listed ticket is removed.
pub removed-elem : (t : ℕ) (l rest : List ℕ) → remove t l ≡ some rest → elem t l ≡ true
unfolding remove
removed-elem t [] rest e = cc
removed-elem t (v ∷ vs) rest e = elim (Option-cases (remove t vs)) [
  | inl gone ↦ ground arith
  | inr (us, found) ↦ ground (arith, removed-elem t vs us found)
]
