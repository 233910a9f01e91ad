-- ===== src/Budget/Greedy.antt =====
-- What src/recallpack/budget.py guarantees of a pack.
use recallpack.Base.{
  ℕ, String, Bool, true, false, some, List, [], ◌∷◌, ◌++◌, length, ◌≡◌, ◌⊎◌, refl, sym, ap, ◌∙◌,
  subst, inl, inr, arith, ltb, leb, if◌then◌else◌, Bool-cases, ok, err, ◌>>=◌, >>=-eq-ok,
  Result-cases,
}
use recallpack.Json.{Fields}
use recallpack.Budget.{
  Tokenizer, budget_too_small, count, canonical_pack, fits, select_from, select,
}

-- Some of the candidates, in their order.
pub data IsSublist : List Fields → List Fields → Type 0 where
  done : IsSublist [] []
  skip : {c : Fields} {xs ys : List Fields} → IsSublist xs ys → IsSublist xs (c ∷ ys)
  keep : {c : Fields} {xs ys : List Fields} → IsSublist xs ys → IsSublist (c ∷ xs) (c ∷ ys)

append_assoc : (xs ys zs : List Fields) → (xs ++ ys) ++ zs ≡ xs ++ (ys ++ zs)
append_assoc [] ys zs = refl
append_assoc (x ∷ xs) ys zs = ap (◌∷◌ x) (append_assoc xs ys zs)

append_nil : (xs : List Fields) → xs ++ [] ≡ xs
append_nil [] = refl
append_nil (x ∷ xs) = ap (◌∷◌ x) (append_nil xs)

module _ (t : Tokenizer) (max_tokens : ℕ) where
  -- The loop adds to what was selected a choice of the candidates, and keeps within the budget.
  pub record Extends (selected candidates pack : List Fields) : Type 0 where
    pub added : List Fields
    pub pack_is : pack ≡ selected ++ added
    pub chosen : IsSublist added candidates
    pub within : fits t max_tokens pack ≡ ok true

  select_from-Extends :
      (selected candidates pack : List Fields)
      → fits t max_tokens selected ≡ ok true
      → select_from t max_tokens selected candidates ≡ ok pack
      → Extends selected candidates pack
  unfolding select_from
  select_from-Extends selected [] pack h e =
      let same : selected ≡ pack = ground arith in
      record {
        added = [];
        pack_is = sym same ∙ sym (append_nil selected);
        chosen = done;
        within = subst (λ p. fits t max_tokens p ≡ ok true) same h;
      }
  select_from-Extends selected (c ∷ cs) pack h e =
      let (fit, fitted, rest) =
        >>=-eq-ok (fits t max_tokens (selected ++ (c ∷ [])))
          (λ fit. select_from t max_tokens (if fit then selected ++ (c ∷ []) else selected) cs) e in
      elim (Bool-cases fit) [
        | inl yes_fits ↦
            let x =
              select_from-Extends (selected ++ (c ∷ [])) cs pack (fitted ∙ ap ok yes_fits)
                (rw yes_fits at rest) in
            record {
              added = c ∷ x.added;
              pack_is = x.pack_is ∙ append_assoc selected (c ∷ []) x.added;
              chosen = keep x.chosen;
              within = x.within;
            }
        | inr no_room ↦
            let x = select_from-Extends selected cs pack h (rw no_room at rest) in
            record {
              added = x.added;
              pack_is = x.pack_is;
              chosen = skip x.chosen;
              within = x.within;
            }
      ]

  select_from-append :
      (selected cs ds : List Fields)
      → select_from t max_tokens selected (cs ++ ds)
        ≡ (select_from t max_tokens selected cs >>= λ p. select_from t max_tokens p ds)
  unfolding select_from
  select_from-append selected [] ds = refl
  select_from-append selected (c ∷ cs) ds =
      elim (Result-cases (fits t max_tokens (selected ++ (c ∷ [])))) [
        | inr (e, failed) ↦ rw failed refl
        | inl (fit, fitted) ↦
            rw fitted (select_from-append (if fit then selected ++ (c ∷ []) else selected) cs ds)
      ]

  -- A selection that answers had room for the empty pack, and ran the loop from there.
  select-started :
      (candidates pack : List Fields)
      → select t max_tokens candidates ≡ ok pack
      → (fits t max_tokens [] ≡ ok true)
        × (select_from t max_tokens [] candidates ≡ ok pack)
        × (ltb max_tokens 1 ≡ false)
  unfolding select
  select-started candidates pack e = elim (Bool-cases (ltb max_tokens 1)) [
    | inl none_allowed ↦ absurd (ground arith)
    | inr positive ↦ elim (Result-cases (fits t max_tokens [])) [
      | inr (x, failed) ↦ absurd (ground arith)
      | inl (true, room) ↦ (room, ground arith, positive)
      | inl (false, room) ↦ absurd (ground arith)
    ]
  ]

  select-running :
      (candidates : List Fields)
      → ltb max_tokens 1 ≡ false
      → fits t max_tokens [] ≡ ok true
      → select t max_tokens candidates ≡ select_from t max_tokens [] candidates
  unfolding select
  select-running candidates positive room = rw (positive, room) refl

  -- A pack is a choice of the candidates, in their order, whose canonical text is within the budget.
  pub select-within :
      (candidates pack : List Fields)
      → select t max_tokens candidates ≡ ok pack
      → IsSublist pack candidates × (fits t max_tokens pack ≡ ok true)
  select-within candidates pack e =
      let (room, ran, positive) = select-started candidates pack e in
      let x = select_from-Extends [] candidates pack room ran in (rw x.pack_is x.chosen, x.within)

  -- Candidates of lower rank never displace one of higher rank: the pack for a list that goes on starts
  -- with the pack for the list, and what follows is chosen from the rest.
  pub select-append :
      (cs ds pack : List Fields)
      → select t max_tokens (cs ++ ds) ≡ ok pack
      → (first : List Fields) × (select t max_tokens cs ≡ ok first) × Extends first ds pack
  select-append cs ds pack e =
      let (room, ran, positive) = select-started (cs ++ ds) pack e in
      let (first, chosen, rest) =
        >>=-eq-ok (select_from t max_tokens [] cs) (λ p. select_from t max_tokens p ds)
          (sym (select_from-append [] cs ds) ∙ ran) in
      let x = select_from-Extends [] cs first room chosen in
      (
        first,
        select-running cs positive room ∙ chosen,
        select_from-Extends first ds pack x.within rest,
      )

  fits-total :
      ((text : String) → (tokens : List ℕ) × (t.encode text ≡ some tokens))
      → (pack : List Fields) → (b : Bool) × (fits t max_tokens pack ≡ ok b)
  unfolding fits count
  fits-total total pack =
      let (tokens, e) = total (canonical_pack t pack) in
      (leb (length tokens) max_tokens, ground arith)

  select_from-total :
      ((text : String) → (tokens : List ℕ) × (t.encode text ≡ some tokens))
      → (selected candidates : List Fields)
      → (pack : List Fields) × (select_from t max_tokens selected candidates ≡ ok pack)
  unfolding select_from
  select_from-total total selected [] = (selected, refl)
  select_from-total total selected (c ∷ cs) =
      let (b, e) = fits-total total (selected ++ (c ∷ [])) in
      let (pack, r) = select_from-total total (if b then selected ++ (c ∷ []) else selected) cs in
      (pack, rw e r)

  -- With an encoding for every text, `select` returns a pack whenever the budget is positive and has
  -- room for the empty pack, and `budget_too_small` where it is positive and has no room for it.
  pub select-total :
      ((text : String) → (tokens : List ℕ) × (t.encode text ≡ some tokens))
      → ltb max_tokens 1 ≡ false
      → (candidates : List Fields)
      → ((fits t max_tokens [] ≡ ok true)
          × (pack : List Fields) × (select t max_tokens candidates ≡ ok pack))
        ⊎ ((fits t max_tokens [] ≡ ok false)
            × (select t max_tokens candidates ≡ err budget_too_small))
  unfolding select
  select-total total positive candidates =
      let (b, e) = fits-total total [] in
      elim (Bool-cases b) [
        | inl room ↦
            let (pack, r) = select_from-total total [] candidates in
            inl (e ∙ ap ok room, pack, rw (positive, e, room) r)
        | inr no_room ↦ inr (e ∙ ap ok no_room, rw (positive, e, no_room) refl)
      ]
