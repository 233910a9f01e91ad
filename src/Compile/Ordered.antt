-- ===== src/Compile/Ordered.antt =====
-- The order in which src/recallpack/write_candidates.py and src/recallpack/compile.py rank memories.
use recallpack.Base.{
  ℕ, zero, suc, true, false, List, [], ◌∷◌, ◌≡◌, inl, inr, arith, take, Bool-cases, text_lt_asym,
}
use recallpack.Memory.{MemoryRecord}
use recallpack.Store.Query.{row_before, text_lt}
use recallpack.Compile.Rank.{Floats, Scored, ranks_before, insert_ranked, rank_order}

row_before_asym : (a b : MemoryRecord) → row_before a b ≡ true → row_before b a ≡ false
unfolding row_before
row_before_asym a b h = elim (Bool-cases (text_lt a.id b.id)) [
  | inl before ↦
      let after : text_lt b.id a.id ≡ false = text_lt_asym a.id b.id before in ground arith
  | inr other ↦ ground arith
]

-- The first of the candidates does not go before the one ahead of them.
abbrev Follows : Floats → Scored → List Scored → Type 0
Follows f x [] = Unit
Follows f x (y ∷ ys) = ranks_before f y x ≡ false

-- No candidate goes before the one just ahead of it.
abbrev pub IsInOrder : Floats → List Scored → Type 0
IsInOrder f [] = Unit
IsInOrder f (x ∷ xs) = Follows f x xs × IsInOrder f xs

module _ (f : Floats) (less_asym : (a b : ℕ) → f.less a b ≡ true → f.less b a ≡ false) where
  ranks_before_asym : (a b : Scored) → ranks_before f a b ≡ true → ranks_before f b a ≡ false
  unfolding ranks_before
  ranks_before_asym a b h = elim (Bool-cases (f.less b.score a.score)) [
    | inl higher ↦
        let other : f.less a.score b.score ≡ false = less_asym b.score a.score higher in
        ground arith
    | inr level ↦ elim (Bool-cases (row_before a.memory b.memory)) [
      | inl before ↦
          let after : row_before b.memory a.memory ≡ false =
            row_before_asym a.memory b.memory before in
          ground arith
      | inr behind ↦ ground arith
    ]
  ]

  insert_ranked-Follows :
      (x y : Scored) (ys : List Scored)
      → Follows f y ys
      → ranks_before f x y ≡ false
      → Follows f y (insert_ranked f x ys)
  unfolding insert_ranked
  insert_ranked-Follows x y [] h behind = behind
  insert_ranked-Follows x y (z ∷ zs) h behind = elim (Bool-cases (ranks_before f z x)) [
    | inl later ↦ rw later h
    | inr here ↦ rw here behind
  ]

  insert_ranked-IsInOrder :
      (x : Scored) (ys : List Scored) → IsInOrder f ys → IsInOrder f (insert_ranked f x ys)
  unfolding insert_ranked
  insert_ranked-IsInOrder x [] hs = (tt, tt)
  insert_ranked-IsInOrder x (y ∷ ys) hs = elim (Bool-cases (ranks_before f y x)) [
    | inl later ↦ rw later (
      insert_ranked-Follows x y ys hs.0 (ranks_before_asym y x later),
      insert_ranked-IsInOrder x ys hs.1,
    )
    | inr here ↦ rw here (here, hs)
  ]

  rank_order-IsInOrder : (xs : List Scored) → IsInOrder f (rank_order f xs)
  unfolding rank_order
  rank_order-IsInOrder [] = tt
  rank_order-IsInOrder (x ∷ xs) =
      insert_ranked-IsInOrder x (rank_order f xs) (rank_order-IsInOrder xs)

  take-Follows : (n : ℕ) (x : Scored) (xs : List Scored) → Follows f x xs → Follows f x (take n xs)
  take-Follows zero x xs h = tt
  take-Follows (suc n) x [] h = tt
  take-Follows (suc n) x (y ∷ ys) h = h

  take-IsInOrder : (n : ℕ) (xs : List Scored) → IsInOrder f xs → IsInOrder f (take n xs)
  take-IsInOrder zero xs hs = tt
  take-IsInOrder (suc n) [] hs = tt
  take-IsInOrder (suc n) (x ∷ xs) hs = (take-Follows n x xs hs.0, take-IsInOrder n xs hs.1)

  pub taken-IsInOrder : (n : ℕ) (xs : List Scored) → IsInOrder f (take n (rank_order f xs))
  taken-IsInOrder n xs = take-IsInOrder n (rank_order f xs) (rank_order-IsInOrder xs)
