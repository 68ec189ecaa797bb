-- ===== src/Lib.antt =====
-- The core of the desktop client of Hydropark, a Rust program under client/src-tauri/src: a user
-- enables skills, the client merges them into one agent, checks that the agent fits the model's
-- context window, gives the skills shared slots, and runs turns in which the model may call tools of
-- a fixed catalog. Before a skill is installed its manifest is validated.
--
-- Files, and the code that each is about (paths are below client/src-tauri/src):
--   Prelude: what the modules share. Text is a list of code points, a `BTreeMap` is a list sorted by
--     key, an `i64` is `ℤ` with its checked operations, a `u32` or `u64` is a natural number with the
--     bound written out. Json and Float are interfaces: `serde_json::Value` and `f64` are parameters.
--   Orchestrator (orchestrator.rs): Manifest has the records of a skill, Merge has `merge`,
--     `choose_primary` and `assemble_persona`, Tools has `compose_tools`. Conflicts, Primary, Leader,
--     Ordering, Clashes, Determinism and Namespacing are about what a merge gives.
--   Capacity (capacity.rs): Projection has `project_live`, Headroom has `assess_headroom`, Budget
--     compares the gate with an exact sum.
--   SharedState (shared_state.rs): Types has the slots; Splitting, Schema and ParseTotal have the
--     parser of slot types; Compat has `types_compatible` and `widen`, Resolve has `resolve_decls`,
--     Build makes a store of skills. Store has `SharedStateStore` with `set`, `append`, `patch` and
--     the readers, each returning its result and the store behind it. Fields, Agreement and Resolved
--     are about the types and contracts; Writes and Patches are about one call of the store; Ids,
--     Commute, Numbered, Preserved, Runs and Fresh are about sequences of calls.
--   Routing (tool_routing.rs): Capabilities has the closed set and its parser, Routes the routing
--     table; Declared is about accepted and refused declarations, Lookup about the routes found.
--   Catalog (tool_catalog.rs, and the argument types of ipc.rs): Names has `ToolName`, Getters and
--     Args have the argument getters and `validate_and_parse`, Execute has `execute`, in which a
--     panic is `none`. Sound and Total are about validated calls, Refusals and Errors about refused
--     ones.
--   Grammar (grammar.rs): the text that constrains the model's output.
--   Turn (turn.rs): Types has the transcript and the feedback, Machine has the loop of `run_turn`:
--     `turn_once` is one pass over an explicit state that holds the engine, the runner and the
--     variables of the loop. Trace describes transcripts as an indexed data type, without the
--     machine; Loop, Runs and Bounds connect the two.
--   Version (`SemVer` of templates.rs, of which skill_manager.rs holds a copy): Semver has its parser,
--     printer and order; Order and RoundTrip are about these.
--   Templates (templates.rs): Pins has the version pins, Documents has `save_as_template`,
--     `load_template` and `check_updates`. Ranges, Loading, Newest and Updates are about these.
--   Skills (skill_manager.rs): Entry has a skill's record and transitions, Manager the registry,
--     whose calls return their result and the manager behind it. Lifecycle has the diagram of the
--     marketplace as a state machine, Simulation relates the transitions to it, Calls has sequences
--     of calls; Reachable, Refines and Activation are about what stands behind them.
--   Unlock (unlock.rs): Sha256 has the hash and the keyed hash, Codes the check of a code, in which a
--     panic is `none`, Redeem the persisted state. Padding, Tags, Compare, Verify, Panics and
--     Persists are about these.
--   Manifest (manifest.rs): Formats has the format predicates, Sets the closed sets, Issues the report
--     and the shapes of its checks, Access the reads of JSON values. Sections, Pricing, Declared,
--     Panels and References have the validators, each returning the issues that it pushes, in order;
--     Canonical, Widgets and Normalize have the canonical form, Validate has `validate`. Pieces and
--     Paths are about paths; Clean, Consistent, Entries, Accepted, Safe and Sound are about what
--     stands behind a report without issues; Shorthand is about inline properties.
--   Composition (composition.rs): Compose has `compose_agent`, Composed is about what it returns.
--   Samples and Examples: concrete documents, skills, engines and tools, and the theorems at them.
--
-- Interaction: the composition validates the manifests, merges the skills, asks the gate of Capacity
-- and builds the routing table. Capacity and the merge read the same skill records; a turn validates
-- calls through the catalog, gives the grammar to the engine and feeds results back into the next
-- prompt.
--
-- Bounds: the loop of a turn has fuel 2 * `max_tool_hops` + 2. A pass that goes on either runs a tool,
-- which the hop limit bounds, or skips a duplicate, which happens at most once between two runs.
-- The parser of slot types has as fuel one more than the length of the schema: every nested parse is
-- of a strictly shorter text. The padding of a message has fuel for 64 zeros, and the inner loop of
-- the base32 encoder for three letters; Unlock.Padding shows that both end by their own test.
-- Everything else is by structural recursion. Counters of the store are `u64` and wrap, as do the
-- components of a version and the bracket depth of the parser, an `i32`.
--
-- Parameters: the model engine and the tool runner of a turn, serde's decoders, chrono's dates, JSON
-- values, files and floating-point numbers. Where a property needs more of them, it is a named hypothesis.
--
-- Not modelled: serde's defaults for absent manifest fields, the static tool descriptors and wire
-- errors of the catalog, the flattened view of a composed agent, the names of issue codes, the
-- `Display` texts of errors that no modelled code reads, the modules of the client that are not named
-- above (storage, downloads, sessions, licences, packages, the Tauri shell), the web client and the
-- backend.
pub mod Prelude
pub mod Manifest
pub mod Orchestrator
pub mod Samples
pub mod Capacity
pub mod SharedState
pub mod Catalog
pub mod Grammar
pub mod Turn
pub mod Routing
pub mod Version
pub mod Templates
pub mod Skills
pub mod Unlock
pub mod Composition
pub mod Examples
