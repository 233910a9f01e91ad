-- ===== src/Normalize/Validate.antt =====
-- `_normalize_memory` of src/recallpack/observe.py. `TypeError` is raised where the code looks an
-- unhashable value up in a set.
use recallpack.Base.{
  String, Bool, true, false, not, ◌&&◌, Option, none, some, List, [], ◌∷◌, str_eq, if◌then◌else◌,
  Result, ok, err, ◌>>=◌,
}
use recallpack.Json.{Json, str, arr, obj, Fields, get, member, is_null, is_text}
use recallpack.Memory.{ObserveRequest, NormalMemory}

pub data PyError : Type 0 where
  type_error : PyError

-- `_subject_component_mismatch`
unfoldable pub expected_component : String → Option String
expected_component subject =
    if str_eq subject "auth_policy"
    then some "auth"
    else if str_eq subject "cache_policy"
    then some "cache"
    else if str_eq subject "config_policy"
    then some "config"
    else if str_eq subject "retry_policy"
    then some "retry"
    else none

unfoldable pub subject_component_mismatch : String → Json → Bool
subject_component_mismatch subject component = elim (expected_component subject) [
  | none ↦ false
  | some expected ↦ not (is_text component expected)
]

-- `component not in components`, for a set of texts.
unfoldable pub not_in : Json → List String → Result PyError Bool
not_in (str s) components = ok (not (member s components))
not_in (arr js) components = err type_error
not_in (obj fs) components = err type_error
not_in _ components = ok true

abbrev pub as_component : Json → Option String
as_component (str s) = some s
as_component _ = none

-- `_MemoryValidation`: the memory, or the error.
abbrev pub MemoryValidation : Type 0
MemoryValidation = Result String NormalMemory

-- The checks of `_normalize_memory` behind the one that may raise.
unfoldable pub check_scope : String → String → String → String → Json → String → MemoryValidation
check_scope type subject text scope_level component actor =
    if not (member scope_level ("project" ∷ "component" ∷ []))
    then err "invalid_scope"
    else if str_eq type "preference" && not (str_eq scope_level "project")
    then err "invalid_type_scope"
    else if member type ("decision" ∷ "lesson" ∷ []) && not (str_eq scope_level "component")
    then err "invalid_type_scope"
    else if subject_component_mismatch subject component
    then err "subject_component_mismatch"
    else if str_eq type "preference" && not (str_eq actor "user")
    then err "preference_requires_user"
    else if str_eq type "decision" && not (str_eq actor "user")
    then err "decision_requires_user"
    else ok (record {
      type = type;
      subject = subject;
      text = text;
      scope_level = scope_level;
      component = as_component component;
    })

unfoldable pub check_memory :
    String
    → String
    → String
    → String
    → Json
    → String
    → List String
    → Result PyError MemoryValidation
check_memory type subject text scope_level component actor components =
    if not (member type ("decision" ∷ "preference" ∷ "lesson" ∷ []))
    then ok (err "invalid_memory_type")
    else if str_eq scope_level "project" && not (is_null component)
    then ok (err "invalid_scope_component")
    else do
      unknown ← if str_eq scope_level "component" then not_in component components else ok false
      ok (
          if unknown
          then err "invalid_component"
          else check_scope type subject text scope_level component actor)

-- The test that type, subject, text and scope are texts.
unfoldable pub check_texts :
    Json → Json → Json → Json → Json → String → List String → Result PyError MemoryValidation
check_texts (str type) (str subject) (str text) (str scope_level) component actor components =
    check_memory type subject text scope_level component actor components
check_texts _ _ _ _ component actor components = ok (err "invalid_tool_output")

-- `_normalize_memory`
unfoldable pub normalize_memory :
    Fields → ObserveRequest → List String → Result PyError MemoryValidation
normalize_memory memory request components =
    check_texts (get "type" memory) (get "subject" memory) (get "text" memory)
      (get "scope_level" memory) (get "component" memory) request.actor components
