-- ===== src/Normalize/Authority.antt =====
-- What a memory that `_normalize_memory` of src/recallpack/observe.py lets through is like.
use recallpack.Base.{
  String, true, false, none, some, List, [], ◌∷◌, ◌≡◌, ◌≢◌, ◌⊎◌, refl, inl, inr, arith, str_eq, ok,
  Bool-cases, Result-cases, sym, str_eq_sound, str_eq_complete,
}
use recallpack.Json.{Json, null, bool, int, float, str, arr, obj, Fields, member, is_null}
use recallpack.Memory.{ObserveRequest, NormalMemory}
use recallpack.Normalize.Validate.{
  expected_component, subject_component_mismatch, not_in, as_component, check_scope, check_memory,
  check_texts, normalize_memory,
}

-- Who may say what, at which scope.
pub record IsAuthorized (components : List String) (actor : String) (m : NormalMemory)
    : Type 0 where
  pub kind : member m.type ("decision" ∷ "preference" ∷ "lesson" ∷ []) ≡ true
  pub preference_scope : m.type ≡ "preference" → (m.scope_level ≡ "project") × (m.component ≡ none)
  pub component_scope :
      m.type ≢ "preference"
      → (m.scope_level ≡ "component")
        × (c : String) × (m.component ≡ some c)
        × (member c components ≡ true)
  pub user_only : (m.type ≡ "decision") ⊎ (m.type ≡ "preference") → actor ≡ "user"
  pub subject_component :
      (c : String) → expected_component m.subject ≡ some c → m.component ≡ some c

-- The checks in their order, as facts about the values that pass them.
record Passes (type subject text scope_level : String) (component : Json) (actor : String)
    (components : List String) (m : NormalMemory) : Type 0 where
  known_type : member type ("decision" ∷ "preference" ∷ "lesson" ∷ []) ≡ true
  project_alone : scope_level ≡ "project" → is_null component ≡ true
  component_known :
      scope_level ≡ "component" → (c : String) × (component ≡ str c) × (member c components ≡ true)
  known_scope : member scope_level ("project" ∷ "component" ∷ []) ≡ true
  preference_project : type ≡ "preference" → scope_level ≡ "project"
  other_component : member type ("decision" ∷ "lesson" ∷ []) ≡ true → scope_level ≡ "component"
  no_mismatch : subject_component_mismatch subject component ≡ false
  user : (type ≡ "decision") ⊎ (type ≡ "preference") → actor ≡ "user"
  memory : m ≡ record {
    type = type;
    subject = subject;
    text = text;
    scope_level = scope_level;
    component = as_component component;
  }

not_in-false :
    (component : Json) (components : List String)
    → not_in component components ≡ ok false
    → (c : String) × (component ≡ str c) × (member c components ≡ true)
unfolding not_in
not_in-false (str c) components h = (c, refl, ground arith)
not_in-false null components h = absurd (ground arith)
not_in-false (bool b) components h = absurd (ground arith)
not_in-false (int i) components h = absurd (ground arith)
not_in-false (float f) components h = absurd (ground arith)
not_in-false (arr js) components h = absurd (ground arith)
not_in-false (obj fs) components h = absurd (ground arith)

as_component-null : (component : Json) → is_null component ≡ true → as_component component ≡ none
as_component-null null h = refl
as_component-null (str s) h = cc
as_component-null _ h = refl

other_kind :
    (type : String)
    → member type ("decision" ∷ "preference" ∷ "lesson" ∷ []) ≡ true
    → type ≢ "preference"
    → member type ("decision" ∷ "lesson" ∷ []) ≡ true
other_kind type h n = elim (Bool-cases (str_eq "preference" type)) [
  | inl e ↦ absurd (n (sym (str_eq_sound "preference" type e)))
  | inr e ↦ ground arith
]

mismatch-false :
    (subject : String) (component : Json) (c : String)
    → subject_component_mismatch subject component ≡ false
    → expected_component subject ≡ some c
    → as_component component ≡ some c
unfolding subject_component_mismatch
mismatch-false subject (str s) c h e = ground (arith, str_eq_sound s c)
mismatch-false subject null c h e = ground arith
mismatch-false subject (bool b) c h e = ground arith
mismatch-false subject (int i) c h e = ground arith
mismatch-false subject (float f) c h e = ground arith
mismatch-false subject (arr js) c h e = ground arith
mismatch-false subject (obj fs) c h e = ground arith

module _ (type subject text scope_level : String) (component : Json) (actor : String)
    (components : List String) (m : NormalMemory) where
  check_scope-passes :
      check_scope type subject text scope_level component actor ≡ ok m
      → (member scope_level ("project" ∷ "component" ∷ []) ≡ true)
        × (type ≡ "preference" → scope_level ≡ "project")
        × (member type ("decision" ∷ "lesson" ∷ []) ≡ true → scope_level ≡ "component")
        × (subject_component_mismatch subject component ≡ false)
        × ((type ≡ "decision") ⊎ (type ≡ "preference") → actor ≡ "user")
        × (m ≡ record {
          type = type;
          subject = subject;
          text = text;
          scope_level = scope_level;
          component = as_component component;
        })
  unfolding check_scope
  check_scope-passes h = (
    ground arith,
    λ e. ground (arith, str_eq_complete type "preference", str_eq_sound scope_level "project"),
    λ e. ground (arith, str_eq_sound scope_level "component"),
    ground arith,
    elim [
      | inl e ↦ ground (arith, str_eq_complete type "decision", str_eq_sound actor "user")
      | inr e ↦ ground (arith, str_eq_complete type "preference", str_eq_sound actor "user")
    ],
    ground arith,
  )

  known_parts :
      check_memory type subject text scope_level component actor components ≡ ok (ok m)
      → (member type ("decision" ∷ "preference" ∷ "lesson" ∷ []) ≡ true)
        × (scope_level ≡ "project" → is_null component ≡ true)
        × (scope_level ≡ "component" → not_in component components ≡ ok false)
        × (check_scope type subject text scope_level component actor ≡ ok m)
  unfolding check_memory
  known_parts h = elim (Result-cases (not_in component components)) [
    | inl (outside, e) ↦ (
      ground arith,
      λ p. ground (arith, str_eq_complete scope_level "project"),
      λ c. ground (arith, str_eq_complete scope_level "component"),
      ground arith,
    )
    | inr (raised, e) ↦ (
      ground arith,
      λ p. ground (arith, str_eq_complete scope_level "project"),
      λ c. absurd (ground (arith, str_eq_complete scope_level "component")),
      ground arith,
    )
  ]

  check_memory-Passes :
      check_memory type subject text scope_level component actor components ≡ ok (ok m)
      → Passes type subject text scope_level component actor components m
  check_memory-Passes h =
      let known = known_parts h in
      let scoped = check_scope-passes known.3 in
      record {
        known_type = known.0;
        project_alone = known.1;
        component_known = λ e. not_in-false component components (known.2 e);
        known_scope = scoped.0;
        preference_project = scoped.1;
        other_component = scoped.2;
        no_mismatch = scoped.3;
        user = scoped.4;
        memory = scoped.5;
      }

  pub check_memory-IsAuthorized :
      check_memory type subject text scope_level component actor components ≡ ok (ok m)
      → IsAuthorized components actor m
  check_memory-IsAuthorized h =
      let p = check_memory-Passes h in
      rw p.memory (record {
        kind = p.known_type;
        preference_scope = λ e. (
          p.preference_project e,
          as_component-null component (p.project_alone (p.preference_project e)),
        );
        component_scope = λ n.
            let scoped = p.other_component (other_kind type p.known_type n) in
            let (c, e, known) = p.component_known scoped in (scoped, c, rw e, known);
        user_only = p.user;
        subject_component = λ c e. mismatch-false subject component c p.no_mismatch e;
      })

check_texts-IsAuthorized :
    (type subject text scope_level component : Json) (actor : String) (components : List String)
    (m : NormalMemory)
    → check_texts type subject text scope_level component actor components ≡ ok (ok m)
    → IsAuthorized components actor m
unfolding check_texts
check_texts-IsAuthorized (str type) (str subject) (str text) (str scope_level) component actor cs m
      h =
    check_memory-IsAuthorized type subject text scope_level component actor cs m h
check_texts-IsAuthorized _ _ _ _ component actor cs m h = absurd (ground arith)

-- A memory that is let through has a known type and the scope that its type needs: the project for a
-- preference, else a known component, which is the one of its subject where the subject has one. A
-- decision and a preference come from the user.
pub normalize_memory-IsAuthorized :
    (memory : Fields) (request : ObserveRequest) (components : List String) (m : NormalMemory)
    → normalize_memory memory request components ≡ ok (ok m)
    → IsAuthorized components request.actor m
unfolding normalize_memory
normalize_memory-IsAuthorized memory request components m h =
    check_texts-IsAuthorized _ _ _ _ _ request.actor components m h
