-- ===== src/Store/Edges.antt =====
-- The supersession of memories in src/recallpack/storage.py: the checks of the priors, and the edges.
use recallpack.Base.{
  String, true, false, none, some, List, [], ◌∷◌, ◌++◌, ◌≡◌, refl, ap, subst, sym, ◌∙◌, inl, inr,
  arith, str_eq, any, keep, length, ltb, All, All-imp, Bool-cases, str_eq_refl, str_eq_sound,
  opt_str_eq_sound,
}
use mathlib.Core.List.{append_assoc}
use recallpack.Memory.{MemoryRecord, NormalMemory}
use recallpack.Store.Rows.{Event, Relation, Store}
use recallpack.Store.Query.{is_replaced}
use recallpack.Store.Supersede.{
  supersession_validation_error, insert_supersession_edges, named_active, prior_error,
  first_prior_error, is_empty,
}

-- The edge that a successor gets to a memory that it replaces.
abbrev pub edge_to : String → String → String → Relation
edge_to successor source prior = record {
  prior_memory_id = prior;
  successor_memory_id = successor;
  relation_type = "supersedes";
  source_event_internal_id = source;
}

-- One edge for each prior, the last one first.
abbrev pub edges_to : List String → String → String → List Relation
edges_to [] successor source = []
edges_to (p ∷ ps) successor source = edges_to ps successor source ++ edge_to successor source p ∷ []

-- The edges were added: each prior had no successor before, and has one now.
pub record HasEdges (s s' : Store) (priors : List String) (successor source : String) : Type 0 where
  pub edges : s'.relations ≡ edges_to priors successor source ++ s.relations
  pub free : All (λ p. is_replaced s.relations p ≡ false) priors
  pub taken : All (λ p. is_replaced s'.relations p ≡ true) priors
  pub kept : (id : String) → is_replaced s.relations id ≡ true → is_replaced s'.relations id ≡ true
  pub memories : s'.memories ≡ s.memories
  pub events : s'.events ≡ s.events
  pub runs : s'.runs ≡ s.runs
  pub cursors : s'.cursors ≡ s.cursors

abbrev pub with_edge : Store → String → String → String → Store
with_edge s prior successor source = record s {
  relations = edge_to successor source prior ∷ s.relations;
}

edge-taken :
    (s : Store) (prior successor source : String)
    → is_replaced (with_edge s prior successor source).relations prior ≡ true
unfolding is_replaced any
edge-taken s prior successor source = rw (str_eq_refl prior) refl

edge-kept :
    (s : Store) (prior successor source id : String)
    → is_replaced s.relations id ≡ true
    → is_replaced (with_edge s prior successor source).relations id ≡ true
unfolding is_replaced any
edge-kept s prior successor source id h = ground arith

edge-free :
    (s : Store) (prior successor source id : String)
    → is_replaced (with_edge s prior successor source).relations id ≡ false
    → is_replaced s.relations id ≡ false
edge-free s prior successor source id h = elim (Bool-cases (is_replaced s.relations id)) [
  | inl taken ↦ absurd (ground (arith, edge-kept s prior successor source id taken))
  | inr free ↦ free
]

pub insert_supersession_edges-HasEdges :
    (s s' : Store) (priors : List String) (successor source : String)
    → insert_supersession_edges s priors successor source ≡ some s'
    → HasEdges s s' priors successor source
unfolding insert_supersession_edges is_replaced
insert_supersession_edges-HasEdges s s' [] successor source h = record {
  edges = ground arith;
  free = tt;
  taken = tt;
  kept = λ id e. ground arith;
  memories = ground arith;
  events = ground arith;
  runs = ground arith;
  cursors = ground arith;
}
insert_supersession_edges-HasEdges s s' (p ∷ ps) successor source h =
    let s₁ = with_edge s p successor source in
    let rest : insert_supersession_edges s₁ ps successor source ≡ some s' = ground arith in
    let r = insert_supersession_edges-HasEdges s₁ s' ps successor source rest in
    record {
      edges =
          r.edges
          ∙ sym (
              append_assoc (edges_to ps successor source) (edge_to successor source p ∷ [])
                s.relations);
      free = (ground arith, All-imp ps (λ id f. edge-free s p successor source id f) r.free);
      taken = (r.kept p (edge-taken s p successor source), r.taken);
      kept = λ id e. r.kept id (edge-kept s p successor source id e);
      memories = r.memories;
      events = r.events;
      runs = r.runs;
      cursors = r.cursors;
    }

-- A stored prior that the memory of the event may replace.
pub record MayReplace (event : Event) (memory : NormalMemory) (prior : MemoryRecord) : Type 0 where
  project : prior.project_id ≡ event.project_id
  older : ltb prior.source_project_event_seq event.project_event_seq ≡ true
  type : prior.type ≡ memory.type
  subject : prior.subject ≡ memory.subject
  scope_level : prior.scope_level ≡ memory.scope_level
  component : prior.component ≡ memory.component

prior_error-none :
    (event : Event) (memory : NormalMemory) (prior : MemoryRecord)
    → prior_error event memory prior ≡ none
    → MayReplace event memory prior
unfolding prior_error
prior_error-none event memory prior h = record {
  project = str_eq_sound prior.project_id event.project_id (ground arith);
  older = ground arith;
  type = str_eq_sound prior.type memory.type (ground arith);
  subject = str_eq_sound prior.subject memory.subject (ground arith);
  scope_level = str_eq_sound prior.scope_level memory.scope_level (ground arith);
  component = opt_str_eq_sound prior.component memory.component (ground arith);
}

first_prior_error-none :
    (event : Event) (memory : NormalMemory) (priors : List MemoryRecord)
    → first_prior_error event memory priors ≡ none
    → All (MayReplace event memory) priors
unfolding first_prior_error
first_prior_error-none event memory [] h = tt
first_prior_error-none event memory (p ∷ ps) h = (
  prior_error-none event memory p (ground arith),
  first_prior_error-none event memory ps (ground arith),
)

-- The named priors are active, one for each id, and the memory may replace each.
pub record MaySupersede (s : Store) (event : Event) (memory : NormalMemory) (ids : List String)
    : Type 0 where
  all_active : length (named_active s ids) ≡ length ids
  priors : All (MayReplace event memory) (named_active s ids)
  no_lesson : is_empty ids ≡ false → str_eq memory.type "lesson" ≡ false

keep-nothing : (ms : List MemoryRecord) → keep (λ m. false) ms ≡ []
unfolding keep
keep-nothing [] = refl
keep-nothing (m ∷ ms) = keep-nothing ms

named_active-empty : (s : Store) → named_active s [] ≡ []
unfolding named_active
named_active-empty s = keep-nothing s.memories

pub supersession-none :
    (s : Store) (event : Event) (memory : NormalMemory) (ids : List String)
    → supersession_validation_error s event memory ids ≡ none
    → MaySupersede s event memory ids
unfolding supersession_validation_error
supersession-none s event memory [] h = record {
  all_active = ap length (named_active-empty s);
  priors = subst (All (MayReplace event memory)) (sym (named_active-empty s)) tt;
  no_lesson = λ e. absurd (ground arith);
}
supersession-none s event memory (i ∷ is) h = record {
  all_active = ground arith;
  priors = first_prior_error-none event memory (named_active s (i ∷ is)) (ground arith);
  no_lesson = λ e. ground arith;
}
