-- ===== src/Match/Stable.antt =====
-- `_normalize_text_for_match` of src/recallpack/observe.py gives texts that it leaves as they are.
use recallpack.Base.{
  ℕ, Bool, true, false, List, [], ◌∷◌, ◌++◌, ◌≡◌, refl, ap, sym, ◌∙◌, inl, inr, arith, Bool-cases,
  All, All-append,
}
use mathlib.Core.List.{append-nil, append_assoc}
use recallpack.Match.{
  is_word_code, lower_code, lower, flush, split_words, join_words, normalize_text_for_match,
}

abbrev pub IsWord : List ℕ → Type 0
IsWord w = All (λ c. is_word_code c ≡ true) w

abbrev pub nonempty : List ℕ → Bool
nonempty [] = false
nonempty (c ∷ cs) = true

abbrev pub WordList : List (List ℕ) → Type 0
WordList ws = All (λ w. IsWord w × (nonempty w ≡ true)) ws

lower_code-word : (c : ℕ) → is_word_code c ≡ true → lower_code c ≡ c ∷ []
unfolding is_word_code lower_code
lower_code-word c h = ground arith

lower_code-space : lower_code 32 ≡ 32 ∷ []
unfolding lower_code
lower_code-space = refl

lower-append : (xs ys : List ℕ) → lower (xs ++ ys) ≡ lower xs ++ lower ys
unfolding lower
lower-append [] ys = refl
lower-append (c ∷ cs) ys = rw (lower-append cs ys, append_assoc)

lower-space : (cs : List ℕ) → lower (32 ∷ cs) ≡ 32 ∷ lower cs
unfolding lower
lower-space cs = rw lower_code-space

lower-word : (w : List ℕ) → IsWord w → lower w ≡ w
unfolding lower
lower-word [] h = refl
lower-word (c ∷ cs) h = rw (lower_code-word c h.0, lower-word cs h.1)

lower-join_words : (ws : List (List ℕ)) → WordList ws → lower (join_words ws) ≡ join_words ws
unfolding join_words
lower-join_words [] h = unfold lower in refl
lower-join_words (w ∷ []) h = lower-word w h.0.0
lower-join_words (w ∷ v ∷ ws) h = rw (
  lower-append w (32 ∷ join_words (v ∷ ws)),
  lower-word w h.0.0,
  lower-space (join_words (v ∷ ws)),
  lower-join_words (v ∷ ws) h.1,
)

flush-WordList : (w : List ℕ) → IsWord w → WordList (flush w)
flush-WordList [] h = tt
flush-WordList (c ∷ cs) h = ((h, refl), tt)

pub split_words-WordList : (w cs : List ℕ) → IsWord w → WordList (split_words w cs)
unfolding split_words
split_words-WordList w [] h = flush-WordList w h
split_words-WordList w (c ∷ cs) h = elim (Bool-cases (is_word_code c)) [
  | inl inside ↦
      rw (inside, split_words)
        (split_words-WordList (w ++ c ∷ []) cs (All-append _ w (c ∷ []) h (inside, tt)))
  | inr outside ↦
      rw (outside, split_words)
        (All-append _ (flush w) (split_words [] cs) (flush-WordList w h)
          (split_words-WordList [] cs tt))
]

split_words-word :
    (u w rest : List ℕ) → IsWord w → split_words u (w ++ rest) ≡ split_words (u ++ w) rest
unfolding split_words
split_words-word u [] rest h = rw append-nil
split_words-word u (c ∷ cs) rest h =
    rw (h.0, split_words) (rw (split_words-word (u ++ c ∷ []) cs rest h.1, append_assoc))

pub flush-nonempty : (w : List ℕ) → nonempty w ≡ true → flush w ≡ w ∷ []
flush-nonempty [] h = cc
flush-nonempty (c ∷ cs) h = refl

split_words-nil : (w : List ℕ) → split_words w [] ≡ flush w
unfolding split_words
split_words-nil w = refl

split_words-space : (w rest : List ℕ) → split_words w (32 ∷ rest) ≡ flush w ++ split_words [] rest
unfolding split_words is_word_code
split_words-space w rest = refl

split_words-end : (w : List ℕ) → IsWord w → nonempty w ≡ true → split_words [] w ≡ w ∷ []
split_words-end w h n =
    ap (split_words []) (sym (append-nil w))
    ∙ split_words-word [] w [] h
    ∙ split_words-nil w
    ∙ flush-nonempty w n

pub split_words-join_words :
    (ws : List (List ℕ)) → WordList ws → split_words [] (join_words ws) ≡ ws
unfolding join_words
split_words-join_words [] h = unfold split_words in refl
split_words-join_words (w ∷ []) h = split_words-end w h.0.0 h.0.1
split_words-join_words (w ∷ v ∷ ws) h = rw (
  split_words-word [] w (32 ∷ join_words (v ∷ ws)) h.0.0,
  split_words-space w (join_words (v ∷ ws)),
  split_words-join_words (v ∷ ws) h.1,
  flush-nonempty w h.0.1,
)

-- Normalising a normalised text changes nothing.
pub normalize_idem :
    (text : List ℕ)
    → normalize_text_for_match (normalize_text_for_match text) ≡ normalize_text_for_match text
unfolding normalize_text_for_match
normalize_idem text =
    let ws = split_words-WordList [] (lower text) tt in
    rw (
      lower-join_words (split_words [] (lower text)) ws,
      split_words-join_words (split_words [] (lower text)) ws,
    )
