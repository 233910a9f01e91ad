-- ===== src/Match.antt =====
-- How src/recallpack/observe.py compares the texts of two memories: `_normalize_text_for_match`
-- and the policy rules. Texts are lists of code points.
mod Stable
mod Words
mod Tests
use Prim.Native.Char.{code}
use recallpack.Base.{
  ℕ, ◌+◌, String, Bool, true, false, not, ◌&&◌, ◌||◌, List, [], ◌∷◌, ◌++◌, leb, ◌==◌, str_eq, any,
  all, if◌then◌else◌,
}

abbrev pub codes : String → List ℕ
codes String.[] = []
codes (String.◌∷◌ c s) = code c ∷ codes s

-- `[a-z0-9]`
unfoldable pub is_word_code : ℕ → Bool
is_word_code c = leb 97 c && leb c 122 || leb 48 c && leb c 57

-- `str.lower` of one character, as far as `[a-z0-9]` can see it: besides A to Z only the Kelvin
-- sign and the dotted capital I have lower case letters with a code of ASCII.
unfoldable pub lower_code : ℕ → List ℕ
lower_code c =
    if leb 65 c && leb c 90
    then (c + 32) ∷ []
    else if c == 0x212a
    then 107 ∷ []
    else if c == 0x130
    then 105 ∷ 0x307 ∷ []
    else c ∷ []

unfoldable pub lower : List ℕ → List ℕ
lower [] = []
lower (c ∷ cs) = lower_code c ++ lower cs

abbrev pub flush : List ℕ → List (List ℕ)
flush [] = []
flush (c ∷ cs) = (c ∷ cs) ∷ []

-- The runs of `[a-z0-9]`; `word` is the run that the scan stands in.
unfoldable pub split_words : List ℕ → List ℕ → List (List ℕ)
split_words word [] = flush word
split_words word (c ∷ cs) = elim (is_word_code c) [
  | true ↦ split_words (word ++ c ∷ []) cs
  | false ↦ flush word ++ split_words [] cs
]

-- `" ".join(words)`
unfoldable pub join_words : List (List ℕ) → List ℕ
join_words [] = []
join_words (w ∷ []) = w
join_words (w ∷ v ∷ ws) = w ++ 32 ∷ join_words (v ∷ ws)

unfoldable pub normalize_text_for_match : List ℕ → List ℕ
normalize_text_for_match text = join_words (split_words [] (lower text))

abbrev pub codes_eq : List ℕ → List ℕ → Bool
codes_eq [] [] = true
codes_eq (a ∷ s) (b ∷ t) = a == b && codes_eq s t
codes_eq [] (b ∷ t) = false
codes_eq (a ∷ s) [] = false

abbrev pub begins : List ℕ → List ℕ → Bool
begins text [] = true
begins [] (t ∷ ts) = false
begins (c ∷ cs) (t ∷ ts) = c == t && begins cs ts

-- `term in text`
abbrev pub occurs : List ℕ → List ℕ → Bool
occurs term [] = begins [] term
occurs term (c ∷ cs) = begins (c ∷ cs) term || occurs term cs

unfoldable pub has_all : List ℕ → List String → Bool
has_all text terms = all (λ term. occurs (codes term) text) terms

unfoldable pub same_retry_policy : List ℕ → List ℕ → Bool
same_retry_policy left right =
    has_all left ("five" ∷ "attempts" ∷ "exponential" ∷ [])
      && has_all right ("five" ∷ "attempts" ∷ "exponential" ∷ [])
    || has_all left ("three" ∷ "attempts" ∷ "fixed" ∷ [])
      && has_all right ("three" ∷ "attempts" ∷ "fixed" ∷ [])
    || occurs (codes "exponential") left
      && not (occurs (codes "five") left)
      && (occurs (codes "fixed") left || occurs (codes "delay") left)
      && has_all right ("five" ∷ "attempts" ∷ "exponential" ∷ [])

unfoldable pub dependency_restriction : List ℕ → Bool
dependency_restriction text =
    let mentions_dependencies =
      occurs (codes "dependency") text
      || occurs (codes "dependencies") text
      || occurs (codes "pyproject") text in
    let restricts_change =
      occurs (codes "do not") text
      || occurs (codes "no ") (text ++ 32 ∷ [])
      || occurs (codes "without") text
      || occurs (codes "free") text in
    mentions_dependencies && restricts_change

unfoldable pub meaning_equivalent : String → String → String → Bool
meaning_equivalent left right subject =
    let left_normalized = normalize_text_for_match (codes left) in
    let right_normalized = normalize_text_for_match (codes right) in
    if codes_eq left_normalized right_normalized
    then true
    else if str_eq subject "retry_policy"
    then same_retry_policy left_normalized right_normalized
    else if str_eq subject "dependency_policy"
    then dependency_restriction left_normalized && dependency_restriction right_normalized
    else false
