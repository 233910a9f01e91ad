-- ===== src/Match/Words.antt =====
-- `_normalize_text_for_match` of src/recallpack/observe.py gives the words of the text, one space between.
use recallpack.Base.{
  ℕ, true, false, List, [], ◌∷◌, ◌++◌, ◌≡◌, refl, subst, sym, inl, inr, Bool-cases, All, All-append,
}
use mathlib.Core.List.{append-nil, append_assoc}
use recallpack.Match.{is_word_code, lower, flush, split_words, join_words, normalize_text_for_match}
use recallpack.Match.Stable.{
  IsWord, nonempty, flush-nonempty, split_words-WordList, split_words-join_words, normalize_idem,
}

-- A stretch of text without a letter or a digit.
abbrev pub IsGap : List ℕ → Type 0
IsGap gap = All (λ c. is_word_code c ≡ false) gap

-- The words of a text: between its gaps, each as long as it can be.
pub data HasWords : List ℕ → List (List ℕ) → Type 0 where
  no_word : (gap : List ℕ) → IsGap gap → HasWords gap []
  last_word :
      (gap word : List ℕ)
      → IsGap gap
      → IsWord word
      → nonempty word ≡ true
      → HasWords (gap ++ word) (word ∷ [])
  next_word :
      (gap word : List ℕ) (c : ℕ) (rest : List ℕ) (words : List (List ℕ))
      → IsGap gap
      → IsWord word
      → nonempty word ≡ true
      → is_word_code c ≡ false
      → HasWords (c ∷ rest) words
      → HasWords (gap ++ (word ++ c ∷ rest)) (word ∷ words)

nonempty-append : (w : List ℕ) (c : ℕ) → nonempty (w ++ c ∷ []) ≡ true
nonempty-append [] c = refl
nonempty-append (x ∷ xs) c = refl

flush-word : (w : List ℕ) (ws : List (List ℕ)) → nonempty w ≡ true → flush w ++ ws ≡ w ∷ ws
flush-word [] ws h = cc
flush-word (c ∷ cs) ws h = refl

-- The scan, from a gap on and from inside a word.
split_words-HasWords :
    (cs : List ℕ)
    → ((gap : List ℕ) → IsGap gap → HasWords (gap ++ cs) (split_words [] cs))
      × ((gap word : List ℕ)
          → IsGap gap
          → IsWord word
          → nonempty word ≡ true
          → HasWords (gap ++ (word ++ cs)) (split_words word cs))
unfolding split_words
split_words-HasWords [] = (
  λ gap g. rw append-nil (no_word gap g),
  λ gap word g w n.
      rw (append-nil word)
        (subst (HasWords (gap ++ word)) (sym (flush-nonempty word n)) (last_word gap word g w n)),
)
split_words-HasWords (c ∷ cs) =
    let (outside, inside) = split_words-HasWords cs in
    elim (Bool-cases (is_word_code c)) [
      | inl letter ↦ (
        λ gap g. rw (letter, split_words) (inside gap (c ∷ []) g (letter, tt) refl),
        λ gap word g w n.
            rw (letter, split_words)
              (subst (λ t. HasWords (gap ++ t) (split_words (word ++ c ∷ []) cs))
                (append_assoc word (c ∷ []) cs)
                (inside gap (word ++ c ∷ []) g (All-append _ word (c ∷ []) w (letter, tt))
                  (nonempty-append word c))),
      )
      | inr other ↦ (
        λ gap g.
            rw (other, split_words)
              (subst (λ t. HasWords t (split_words [] cs)) (append_assoc gap (c ∷ []) cs)
                (outside (gap ++ c ∷ []) (All-append _ gap (c ∷ []) g (other, tt)))),
        λ gap word g w n.
            rw (other, split_words)
              (subst (HasWords (gap ++ (word ++ c ∷ cs)))
                (sym (flush-word word (split_words [] cs) n))
                (next_word gap word c cs (split_words [] cs) g w n other
                  (outside (c ∷ []) (other, tt)))),
      )
    ]

-- Normalising a text for the comparison gives the words of the text in lower case, its longest runs of
-- letters and digits of ASCII, joined in their order with one space between two. What it gives has the
-- same words, and normalising it again changes nothing.
pub normalize_text-words :
    (text : List ℕ)
    → ((words : List (List ℕ)) × HasWords (lower text) words
        × (normalize_text_for_match text ≡ join_words words)
        × HasWords (normalize_text_for_match text) words)
      × (normalize_text_for_match (normalize_text_for_match text) ≡ normalize_text_for_match text)
unfolding normalize_text_for_match
normalize_text-words text =
    let words = split_words [] (lower text) in
    let listed = split_words-WordList [] (lower text) tt in
    (
      (
        words,
        (split_words-HasWords (lower text)).0 [] tt,
        refl,
        subst (HasWords (join_words words)) (split_words-join_words words listed)
            ((split_words-HasWords (join_words words)).0 [] tt),
      ),
      normalize_idem text,
    )
