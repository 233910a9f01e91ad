-- ===== src/Compile/Rank.antt =====
-- The similarity of src/recallpack/write_candidates.py and the orders of src/recallpack/compile.py.
use recallpack.Base.{
  ℕ, Bool, not, ◌&&◌, ◌||◌, List, [], ◌∷◌, length, ◌==◌, if◌then◌else◌, Result, ok, err,
}
use recallpack.Json.{Json, float, arr, Items, nil, cons}
use recallpack.Library.{is_finite, is_nonzero}
use recallpack.Memory.{MemoryRecord}
use recallpack.Embedding.{VectorError, invalid_embedding_vector}
use recallpack.Store.Query.{row_before}

-- The arithmetic of Python's floats, by the patterns of 64 bits: `math.hypot`, `/`, `*`, `math.fsum`
-- and `<`.
pub record Floats : Type 0 where
  pub hypot : List ℕ → ℕ
  pub div : ℕ → ℕ → ℕ
  pub mul : ℕ → ℕ → ℕ
  pub fsum : List ℕ → ℕ
  pub less : ℕ → ℕ → Bool

abbrev pub patterns_of : Items → List ℕ
patterns_of nil = []
patterns_of (cons (float bits) js) = bits ∷ patterns_of js
patterns_of (cons j js) = patterns_of js

-- A vector that passed `validated_vector` is a list of floats.
abbrev pub patterns : Json → List ℕ
patterns (arr js) = patterns_of js
patterns _ = []

abbrev pub products : Floats → ℕ → ℕ → List ℕ → List ℕ → List ℕ
products f m n (a ∷ as_) (b ∷ bs) = f.mul (f.div a m) (f.div b n) ∷ products f m n as_ bs
products f m n _ _ = []

-- `cosine_similarity`; vectors of unlike lengths raise in `zip`.
unfoldable pub cosine_similarity : Floats → Json → Json → Result VectorError ℕ
cosine_similarity f left right =
    let left_norm = f.hypot (patterns left) in
    let right_norm = f.hypot (patterns right) in
    let cosine = f.fsum (products f left_norm right_norm (patterns left) (patterns right)) in
    if not (is_nonzero left_norm) || not (is_nonzero right_norm)
    then ok 0
    else if not (length (patterns left) == length (patterns right))
    then err invalid_embedding_vector
    else if is_finite cosine
    then ok cosine
    else err invalid_embedding_vector

pub record Scored : Type 0 where
  pub score : ℕ
  pub memory : MemoryRecord

-- The key (-score, -source_project_event_seq, id) of the first is the lower one.
unfoldable pub ranks_before : Floats → Scored → Scored → Bool
ranks_before f a b =
    f.less b.score a.score || not (f.less a.score b.score) && row_before a.memory b.memory

-- `list.sort` by a key, which is stable.
unfoldable pub insert_ranked : Floats → Scored → List Scored → List Scored
insert_ranked f x [] = x ∷ []
insert_ranked f x (y ∷ ys) = if ranks_before f y x then y ∷ insert_ranked f x ys else x ∷ y ∷ ys

unfoldable pub rank_order : Floats → List Scored → List Scored
rank_order f [] = []
rank_order f (x ∷ xs) = insert_ranked f x (rank_order f xs)
