-- ===== src/Observe/Flow.antt =====
-- Calls of the store from src/recallpack/observe.py. Other threads and processes write the store between
-- two of them, and each may raise a `sqlite3.Error`, which rolls it back.
use recallpack.Base.{String, Option, none, some, List, Result, ok, err}
use recallpack.Json.{Json, Fields}
use recallpack.Library.{Library}
use recallpack.Memory.{ObserveRequest}
use recallpack.Compile.{Floats}
use recallpack.Store.Rows.{Store, Draw}
use recallpack.Observe.Trace.{Raised, sqlite_error}
use recallpack.Observe.Candidates.{Answer, Embedder}

-- `decide_memory_operation`, and `repair_memory_operation` where the decider has it.
pub record Decider : Type 0 where
  pub decide_memory_operation : ObserveRequest → List Fields → Answer Json
  pub repair_memory_operation : Option (ObserveRequest → List Fields → List String → Answer Json)

-- `ObserveRuntime`, without its store and its turnstiles.
pub record ObserveRuntime : Type 0 where
  pub library : Library
  pub floats : Floats
  pub decider : Decider
  pub embedding_provider : Embedder
  pub components : List String

-- The calls of the store that one `observe` makes, in their order.
pub data Moment : Type 0 where
  claiming owning selecting checking ending : Moment

-- What comes from outside into one `observe`: the writes of others before each call of the store, the
-- message of the error that the call raises, if any, that of an `IntegrityError`, and what the claim and the last call draw.
pub record Outside : Type 0 where
  pub others : Moment → Store → Store
  pub raises : Moment → Option String
  pub integrity_message : String
  pub claim_draw : Draw
  pub end_draw : Draw

-- A computation over the store: what was written before a raise stays.
abbrev pub Flow : Type 0 → Type 0
Flow A = Store → Result Raised A × Store

abbrev pub returns : {A : Type 0} → A → Flow A
returns value s = (ok value, s)

abbrev pub raise : {A : Type 0} → Raised → Flow A
raise e s = (err e, s)

abbrev pub lift : {A : Type 0} → Result Raised A → Flow A
lift r s = (r, s)

abbrev pub continue_with : {A B : Type 0} → Result Raised A → (A → Flow B) → Flow B
continue_with (ok value) next s = next value s
continue_with (err e) next s = (err e, s)

unfoldable pub then_run : {A B : Type 0} → Flow A → (A → Flow B) → Flow B
then_run first next s = continue_with (first s).0 next (first s).1

unfoldable pub store_call :
    {A : Type 0} → Outside → Moment → (Store → Result Raised A × Store) → Flow A
store_call outside moment call s = elim (outside.raises moment) [
  | some message ↦ (err (sqlite_error message), outside.others moment s)
  | none ↦ call (outside.others moment s)
]
