-- ===== src/Lib.antt =====
-- Recallpack keeps the memories of software projects. A client sends the events of a session; for
-- each, a decider (a language model) proposes one operation, which the library validates and commits to
-- a SQLite database as a memory, a duplicate or nothing. Later a pack of the memories that matter for
-- a goal is selected within a budget of tokens. This development models the core of that library.
--
-- The parts, and the files that model them:
-- - Turnstile: src/recallpack/locking.py. Tickets wait for their turn on a project. The registry is a
--   record of its dictionaries, a ticket a number, and each method a function on the registry; a thread
--   that waits on the condition variable is a ticket in state `registered`, and `wake` and `interrupt`
--   are the two ways in which its wait ends. A run is a list of calls in any order, as the lock allows.
--   Order, Invariant, Exclusion, Register, Runs and Entry hold the proofs.
-- - Json, Memory, Library: the values that the code passes around, src/recallpack/memory.py, and what
--   is taken from Python's libraries (hashes, timestamps, `re.sub`) as a parameter.
-- - Match: the comparison of two texts in src/recallpack/observe.py, on lists of code points. Stable and
--   Words are about its words.
-- - Normalize: the validation of an operation in src/recallpack/observe.py, from any JSON value. Parts
--   has no_op, duplicate and the indexes; Validate the checks of a memory; Supersede the checks of its
--   priors; Decide `_normalize_operation`. Authority, Written and Raises prove what passes.
-- - Embedding: documents and vectors in observe.py, write_candidates.py and storage.py of
--   src/recallpack. A float is the pattern of its 64 bits.
-- - Store: src/recallpack/storage.py. The database is a record with a list of rows for each table; a
--   method is a function from a store to its answer and the store after it, and a rollback answers with
--   the store before. Rows, Query, Results, Runs, Answer, Lease, Claim, Supersede, Complete and Fail are
--   the code; Tables and Ended prove what a SELECT finds after an UPDATE; Replay, Fence, Admit,
--   Refused, Edges, Commit, Rollback and Accept what the methods guarantee. Audit is the audit of the
--   events and their runs; History, Consistent, Ending, Kept, Opening, Renewed, Claimed and Steps prove that
--   it passes after any calls; Alive, Served, OperationServed and Terminal are about the owner of an attempt. Updates, Session,
--   Closing, Advance, Outcomes, Entering, Opened and Sessions prove that the tables refine a machine for
--   each session. RowChecks has the checks of single rows, RowsValid, RowsKept and Audited what keeps
--   them.
-- - Providers: how src/recallpack/providers.py reads a decision. Arguments is the reading, Decision what the
--   provider and the decider make of its errors; Settled and Indexes hold the proofs.
-- - Server: the requests and replies of src/recallpack/demo_server.py. Request is the check of a payload, Reply
--   the JSON of an answer, Checked proves that a request makes rows that the audit accepts. Identifiers of uuid4 and the
--   time come in as a `Draw`.
-- - Observe: `ObserveRuntime` of src/recallpack/observe.py, write_candidates.py, and the traces of
--   src/recallpack/providers.py. A computation is a function from a store to a result or a raised error
--   and the store after it. Before each call of the store others may write it, and the call may raise an
--   error of the database. Trace, Evidence, Candidates, Flow, Response, Attempt and Runtime are the code; Endings,
--   Kept, Selected, Written and Answered the proofs.
-- - Budget: src/recallpack/budget.py, and the count of src/recallpack/tokenization.py over a parameter
--   for json.dumps and the encoding of tiktoken.
-- - Compile: src/recallpack/compile.py, with the cosine of src/recallpack/write_candidates.py over a
--   parameter for the arithmetic of floats. Rank has the orders, Retrieve the candidates, Serve the check
--   of the ranking and the service; Retrieved, Ordered, Packed and Stale hold the proofs.
--
-- The parts meet as in the code: `Normalize` gives the result and the memory that `Store.Complete`
-- takes, `Store.Claim` gives the attempt that it names, `Observe` calls both, `Turnstile` orders the attempts
-- of a project, and `Compile` reads the active memories of the store. Numbers of the code that grow without bound are
-- natural numbers. There is no fuel: every loop runs over a list.
--
-- Not modelled: an int too large for a float, which raises OverflowError in the code and counts as finite
-- here; a type or scope without a hash in a stored result, which raises TypeError there and is refused
-- here; the trace of a compilation besides its omissions; the migrations of the database; the
-- HTTP clients of the providers; and the evaluation, evidence, review, submission and demonstration code,
-- which is no part of the memory service.
pub mod Base
pub mod Budget
pub mod Compile
pub mod Embedding
pub mod Json
pub mod Library
pub mod Match
pub mod Memory
pub mod Normalize
pub mod Observe
pub mod Providers
pub mod Server
pub mod Store
pub mod Turnstile
