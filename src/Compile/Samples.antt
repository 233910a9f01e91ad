-- ===== src/Compile/Samples.antt =====
-- Data for the tests of src/recallpack/compile.py and of what shares its candidates.
use recallpack.Base.{ℕ, zero, suc, false, some, [], ◌∷◌}
use recallpack.Json.{Json, float, arr, Items, nil, cons}
use recallpack.Embedding.{embedding_model, embedding_dimension, document}
use recallpack.Memory.{MemoryRecord}
use recallpack.Store.Rows.{Store}
use recallpack.Compile.Rank.{Floats}

abbrev pub floats : Floats
floats = record {
  hypot = λ xs. 4607182418800017408;
  div = λ a b. 0;
  mul = λ a b. 0;
  fsum = λ xs. 0;
  less = λ a b. false;
}

abbrev pub no_memories : Store
no_memories = record {
  events = [];
  memories = [];
  relations = [];
  runs = [];
  cursors = [];
  lease_seconds = 60;
}

-- The pattern of 1.0.
abbrev pub one : ℕ
one = 4607182418800017408

abbrev pub zeros : ℕ → Items
zeros zero = nil
zeros (suc n) = cons (float 0) (zeros n)

abbrev pub vector : Json
vector = arr (cons (float one) (zeros 1023))

abbrev pub rule : MemoryRecord
rule = record {
  id = "m1";
  project_id = "p";
  type = "decision";
  subject = "retry_policy";
  text = "retry twice";
  scope_level = "component";
  component = some "retry";
  source_actor = "user";
  source_ref = record { session_id = "s"; event_id = "x" };
  source_project_event_seq = 1;
  embedding = vector;
  embedding_model = some embedding_model;
  embedding_dimension = some embedding_dimension;
  embedding_document_hash =
      some (document "decision" "component" (some "retry") "retry_policy" "retry twice");
  record_schema_version = some 4;
  source_event_internal_id = some "e1";
}

abbrev pub one_memory : Store
one_memory = record no_memories { memories = rule ∷ [] }
