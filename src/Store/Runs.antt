-- ===== src/Store/Runs.antt =====
-- The run rows of src/recallpack/storage.py: how a run begins, ends and is summarised.
use recallpack.Base.{
  ℕ, zero, suc, String, Bool, false, List, [], ◌&&◌, ◌||◌, Option, none, some, ◌∷◌, ◌++◌, length,
  any, ltb, ◌==◌, str_eq, if◌then◌else◌,
}
use recallpack.Json.{Json, bool, arr, obj, Items, nil, Fields, end, get, items, is_text}
use recallpack.Library.{Library}
use recallpack.Store.Rows.{RunState, running, Run, Store}
use recallpack.Store.Query.{is_run_of, is_running, update_where, rowcount}

pub record Evidence : Type 0 where
  pub model_calls : Items
  pub embedding_calls : Items
  pub tool_arguments : Option Fields
  pub validation : Json

abbrev pub list_or_empty : Json → Items
list_or_empty (arr js) = js
list_or_empty _ = nil

abbrev pub dict_or_none : Json → Option Fields
dict_or_none (obj fs) = some fs
dict_or_none _ = none

abbrev pub collection_or_empty : Json → Json
collection_or_empty (arr js) = arr js
collection_or_empty (obj fs) = obj fs
collection_or_empty _ = arr nil

abbrev pub or_end : Option Fields → Fields
or_end none = end
or_end (some fs) = fs

-- `_normalized_run_evidence`
unfoldable pub normalized_run_evidence : Option Fields → Evidence
normalized_run_evidence value =
    let evidence = or_end value in
    record {
      model_calls = list_or_empty (get "model_calls" evidence);
      embedding_calls = list_or_empty (get "embedding_calls" evidence);
      tool_arguments = dict_or_none (get "tool_arguments" evidence);
      validation = collection_or_empty (get "validation" evidence);
    }

-- `_insert_running_run`; none is the IntegrityError of the primary key, of the unique pair of event
-- and attempt, or of the foreign key.
unfoldable pub insert_running_run : Store → String → String → ℕ → String → String → Option Store
insert_running_run s run_id event_internal_id attempt_no provider_mode utc_now =
    if any (λ run. str_eq run.id run_id || is_run_of event_internal_id attempt_no run) s.runs
    then none
    else if any (λ e. str_eq e.internal_id event_internal_id) s.events
    then some (record s {
      runs =
          record {
            id = run_id;
            event_internal_id = event_internal_id;
            attempt_no = attempt_no;
            state = running;
            provider_mode = provider_mode;
            model_calls = nil;
            embedding_calls = nil;
            tool_arguments = none;
            validation = arr nil;
            failure_code = none;
            error_detail = none;
            started_at = utc_now;
            finished_at = none;
            duration_ms = none;
          }
          ∷ s.runs;
    })
    else none

unfoldable pub is_running_run : String → ℕ → Run → Bool
is_running_run event_internal_id attempt_no run =
    is_run_of event_internal_id attempt_no run && is_running run.state

-- `text[:n]`
unfoldable pub text_take : ℕ → String → String
text_take zero s = String.[]
text_take (suc n) String.[] = String.[]
text_take (suc n) (String.◌∷◌ c s) = String.◌∷◌ c (text_take n s)

-- The patterns of `_bounded_detail` and what replaces them, in the order of their use.
abbrev pub redactions : List (String × String)
redactions =
    ("\\bsk-[A-Za-z0-9_-]{8,}\\b", "[redacted]")
    ∷ ("(?i)\\b(api[_ -]?key|access[_ -]?token|secret)\\s*[:=]\\s*\\S+", "\\1=[redacted]")
    ∷ ("(?i)\\b(request[_ -]?id|password|passwd|credential)\\s*[:=]\\s*\\S+", "\\1=[redacted]")
    ∷ ("(?i)\\bauthorization\\s*:\\s*bearer\\s+\\S+", "Authorization: Bearer [redacted]")
    ∷ ("(?i)\\bbearer\\s+[A-Za-z0-9._~+/-]{8,}", "Bearer [redacted]")
    ∷ []

abbrev pub redacted : Library → List (String × String) → String → String
redacted lib [] text = text
redacted lib ((pattern_, replacement) ∷ rest) text =
    redacted lib rest (lib.re_sub pattern_ replacement text)

-- `_bounded_detail`
unfoldable pub bounded_detail : Library → Option String → Option String
bounded_detail lib none = none
bounded_detail lib (some detail) = some (text_take 1000 (redacted lib redactions detail))

-- The columns that `_finish_run` writes.
unfoldable pub finished_run :
    Library → String → RunState → Evidence → Option String → Option String → Run → Run
finished_run lib utc_now state evidence failure_code error_detail run = record run {
  state = state;
  model_calls = evidence.model_calls;
  embedding_calls = evidence.embedding_calls;
  tool_arguments = evidence.tool_arguments;
  validation = evidence.validation;
  failure_code = failure_code;
  error_detail = bounded_detail lib error_detail;
  finished_at = some utc_now;
  duration_ms = some (lib.duration_ms run.started_at utc_now);
}

-- `_finish_run`; none is its `return False`. The duration is that of each row that is written,
-- of which there is one.
unfoldable pub finish_run :
    Library
    → Store
    → String
    → ℕ
    → RunState
    → Option Fields
    → Option String
    → Option String
    → String
    → Option Store
finish_run lib s event_internal_id attempt_no state run_evidence failure_code error_detail utc_now =
    let evidence = normalized_run_evidence run_evidence in
    if rowcount (is_running_run event_internal_id attempt_no) s.runs == 1
    then some (record s {
      runs =
          update_where (is_running_run event_internal_id attempt_no)
            (finished_run lib utc_now state evidence failure_code error_detail) s.runs;
    })
    else none

-- An item that is a dictionary whose `stage` is "repair".
abbrev pub is_repair : Json → Bool
is_repair (obj item) = is_text (get "stage" item) "repair"
is_repair _ = false

abbrev pub has_repair : Json → Bool
has_repair (arr js) = any is_repair (items js)
has_repair _ = false

abbrev pub is_true : Json → Bool
is_true (bool b) = b
is_true _ = false

abbrev pub has_request_id : Json → Bool
has_request_id (obj call) = is_true (get "request_id_present" call)
has_request_id _ = false

pub record RunSummary : Type 0 where
  pub run_id : Option String
  pub provider_mode : Option String
  pub repaired : Bool
  pub request_id_present : Bool

-- `_claim_run_summary`, or the defaults of `ClaimResult` where there is no run.
unfoldable pub claim_run_summary : Option Run → RunSummary
claim_run_summary none = record {
  run_id = none;
  provider_mode = none;
  repaired = false;
  request_id_present = false;
}
claim_run_summary (some run) = record {
  run_id = some run.id;
  provider_mode = some run.provider_mode;
  repaired = ltb 1 (length (items run.model_calls)) || has_repair run.validation;
  request_id_present = any has_request_id (items run.model_calls ++ items run.embedding_calls);
}
