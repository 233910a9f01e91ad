-- ===== src/Normalize/Raises.antt =====
-- When `_normalize_memory` of src/recallpack/observe.py raises: `component not in components` needs a
-- value with a hash.
use recallpack.Base.{
  String, Bool, true, false, ◌&&◌, List, [], ◌∷◌, ◌≡◌, refl, ◌∙◌, inl, inr, arith, str_eq,
  if◌then◌else◌, Bool-cases, str_eq_sound, Result, ok, err, ◌>>=◌,
}
use recallpack.Json.{
  Json, null, bool, int, float, str, arr, obj, Fields, get, member, is_str, is_text,
}
use recallpack.Memory.{ObserveRequest}
use recallpack.Normalize.Validate.{
  PyError, not_in, check_scope, check_memory, check_texts, normalize_memory,
}

abbrev pub raises {ℓ} : {A : Type ℓ} → Result PyError A → Bool
raises (ok a) = false
raises (err e) = true

abbrev pub has_no_hash : Json → Bool
has_no_hash (arr js) = true
has_no_hash (obj fs) = true
has_no_hash _ = false

abbrev pub is_kind : Json → Bool
is_kind (str s) = member s ("decision" ∷ "preference" ∷ "lesson" ∷ [])
is_kind _ = false

not_in-raises : (j : Json) (components : List String) → raises (not_in j components) ≡ has_no_hash j
unfolding not_in
not_in-raises null components = refl
not_in-raises (bool b) components = refl
not_in-raises (int i) components = refl
not_in-raises (float f) components = refl
not_in-raises (str s) components = refl
not_in-raises (arr js) components = refl
not_in-raises (obj fs) components = refl

scope_apart : (s : String) → str_eq s "component" ≡ true → str_eq s "project" ≡ false
unfolding str_eq
scope_apart s h = let e = str_eq_sound s "component" h in rw e refl

bind-raises :
    {A B : Type 0} (m : Result PyError A) (f : A → B) → raises (m >>= λ a. ok (f a)) ≡ raises m
bind-raises (ok a) f = refl
bind-raises (err e) f = refl

check_memory-raises :
    (type subject text scope_level : String) (component : Json) (actor : String)
    (components : List String)
    → raises (check_memory type subject text scope_level component actor components) ≡ (
        member type ("decision" ∷ "preference" ∷ "lesson" ∷ [])
        && str_eq scope_level "component"
        && has_no_hash component)
unfolding check_memory
check_memory-raises type subject text scope_level component actor components =
    elim (Bool-cases (member type ("decision" ∷ "preference" ∷ "lesson" ∷ []))) [
      | inr other ↦ ground arith
      | inl known ↦ elim (Bool-cases (str_eq scope_level "component")) [
        | inr elsewhere ↦ ground arith
        | inl there ↦
            let apart = scope_apart scope_level there in
            rw (known, there, apart)
              (bind-raises (not_in component components) (λ unknown.
                  if unknown
                  then err "invalid_component"
                  else check_scope type subject text scope_level component actor)
                ∙ not_in-raises component components)
      ]
    ]

-- The memories on which the code raises: texts throughout, a known type, and at the scope of a component
-- a list or a dictionary in its place.
abbrev pub raises_on : Fields → Bool
raises_on memory =
    is_kind (get "type" memory)
    && is_str (get "subject" memory)
    && is_str (get "text" memory)
    && is_text (get "scope_level" memory) "component"
    && has_no_hash (get "component" memory)

check_texts-raises :
    (type subject text scope_level component : Json) (actor : String) (components : List String)
    → raises (check_texts type subject text scope_level component actor components) ≡ (
        is_kind type
        && is_str subject
        && is_str text
        && is_text scope_level "component"
        && has_no_hash component)
unfolding check_texts
check_texts-raises (str type) (str subject) (str text) (str scope_level) component actor
      components =
    ground (arith, check_memory-raises type subject text scope_level component actor components)
check_texts-raises _ _ _ _ component actor components = ground arith

-- `_normalize_memory` raises exactly on a memory of texts and a known type whose scope is a component
-- that is given as a list or a dictionary; on every other memory it returns.
pub normalize_memory-raises :
    (memory : Fields) (request : ObserveRequest) (components : List String)
    → raises (normalize_memory memory request components) ≡ raises_on memory
unfolding normalize_memory
normalize_memory-raises memory request components =
    check_texts-raises (get "type" memory) (get "subject" memory) (get "text" memory)
      (get "scope_level" memory) (get "component" memory) request.actor components
