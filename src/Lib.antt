-- ===== src/Lib.antt =====
-- A model of the core of Xymphony Voice, a runtime for voice agents: the life of a turn, the control
-- of turns and events by the runtime, the context that a language model is given, and the execution
-- of tools. Paths are from the repository's root.
--
-- Parts and files:
-- - Base and its children: lists, options, texts (a Python `str` is its list of code points), the
--   result type and dictionaries with identifier keys, shared by every part. Json: the values of
--   `json.loads`. Errors: the exceptions.
-- - Turn: packages/agent-runtime/src/xymphony_runtime/turn.py, a turn's states and methods, and the
--   turn that packages/contracts/src/xymphony_contracts/session.py exports. Turn/Lifecycle: every
--   sequence of method calls.
-- - Conversation: xymphony_runtime/conversation.py, from stored messages to the model's messages.
-- - Prompt and Budget: xymphony_runtime/context_budget.py and token_estimate.py. Their children are
--   about the prompt's length, the estimate and the selection of history.
-- - Assembler: xymphony_runtime/llm_context.py, the request for a turn; Assembler/Ladder and
--   Assembler/Request are about its fallbacks and its result.
-- - Summary: xymphony_runtime/summarization.py, the rolling summary that stands in for old messages;
--   Summary/Saving and Summary/Coverage are about its storing and the messages it covers.
-- - Tools/Domain, Tools/Registry, Tools/Validation, Tools/Executor: packages/tools/src/xymphony_tools,
--   each with children on what it promises; Tools/Validation/Types and Spec are a declarative reading
--   of the schema keywords, Tools/Executor/Passing one of what a handler is passed, which Extras and
--   Building compare with the code.
-- - Events: packages/contracts/src/xymphony_contracts/events.py and enums.py.
-- - Runtime/State: context.py, cancellation.py and the fields of AgentRuntime in runtime.py, all of
--   xymphony_runtime, with the session repository of persistence/memory.py. Runtime/Dispatch:
--   dispatch.py. Runtime/Turns and Runtime/Inputs: the methods of runtime.py that begin, complete,
--   cancel and fail turns, admit events, start and stop. Runtime/Invariant holds the invariant,
--   Runtime/Quiet, Keeps, Cancelling, Interruption, Failing, Failure, Operations and Stopping what
--   each operation does, and Runtime/Reach every sequence of operations. Runtime/Tasks: what the
--   tasks of runtime.py do between two awaits; Runtime/Working is about their steps and
--   Runtime/Owning about who owns a cancellation token.
-- - Persistence: the conversation and summary repositories of xymphony_runtime/persistence/memory.py;
--   Persistence/History is about what they give back, Persistence/Replay about what the model is sent.
-- - Pipeline: the tasks of runtime.py that answer a user. Pipeline itself holds what surrounds them;
--   Numbers and Context what is gathered for the model, with rag_config.py and memory_config.py;
--   Reply the stream of the model and the tool loop; Voice the speech output; Exchange the pipeline
--   and the handler of text; Speech the microphone's handlers, the listening task and `handle_input`.
--   Safe is how steps compose; Gathering, Answering, Finishing, Inputs and Finalising are about every
--   interleaving, Plain, Undisturbed, Completing and Exchanging about an exchange that nobody
--   disturbs, Silent about an empty answer.
-- - ControlPlane, of apps/api/src/xymphony_api: AgentService's versions and SessionService of services.py,
--   the queries of repositories.py, mapping.py and session_scope of db.py. A table is the list of its
--   rows, a query finds the first row that its `where` admits, and the rows are written in place.
--   AgentService and SessionService have the operations; Rows, Writing and Versions the life of a
--   version, Sessions the version of a session and its end.
-- - Examples: the theorems at concrete inputs.
--
-- How the parts interact: the runtime begins a turn, has the assembler build the model's request from
-- the stored messages, executes the tools that the model calls, and completes, cancels or fails the
-- turn; each step admits events, which staleness filters by the cancelled turns. A task gives way to
-- the others at an await: there it takes a list of the operations of Runtime/Reach, the steps that the
-- other tasks make between their own awaits: those on turns, events, tokens, audio queues, the marks
-- of finalising and of speech, stored messages and summaries. An interleaving of inputs other than a
-- shutdown is a choice of such lists.
--
-- How code corresponds to definitions: a method that raises returns `err` and, in the runtime, the
-- state as it is at the raise. A state is passed explicitly; a runtime method is a function from the
-- state to a result and a state, composed in do blocks in the order of the source. A turn object is
-- shared by reference in the source, and so is read and written in the dict of turns. A cancellation
-- token is an identity, with the set of the tokens that are set. Log calls are left out.
--
-- Parameters: the token estimator; `json.loads`, `==` on JSON values and the text of a validation
-- error (the record Interpreter); a tool's handler; the readings of a cancellation token; what the
-- model streams back, for a summary or for an answer, what a retriever, a memory store and a voice
-- give, and the steps of other tasks at each await (the record Services); the supply of uuids and the
-- clock, which are fields of the state; in the control plane the digest of a version, and what the
-- contracts of a version and of a session require beside the rules that are written out;
-- and, in `stop`, what the cancelled tasks still do while they are gathered. An event listener is an
-- identity whose calls are recorded, and is taken to return.
--
-- Bounds: the constraints of the pydantic models are tests (32,000 characters of content, 4,000 of an
-- error, 128 of a name). A float is its bit pattern, whose order is the float's on non-negative
-- values. Natural numbers stop at 0 in subtractions, where the source has tested the order before.
-- Every loop is a structural recursion; the tool loop counts down from max_tool_iterations, and a
-- stream is a finite value. The digits of a number are taken with as much fuel as the number and one
-- more, of which each digit needs one.
--
-- Not modelled: a stream that never ends; in runtime.py the request of the listening task, the frames
-- that reach a transcriber and the tracking of asyncio tasks; stopping is not among the steps at an
-- await, though its request and its cancelling are; the media bridge and sessions, the providers, the
-- transports, the worker's start-up and the dashboard; of the control plane the services of agents,
-- tools, knowledge bases and documents, and the HTTP routes.
pub mod Base
pub mod Errors
pub mod Json
pub mod Turn
pub mod Conversation
pub mod Prompt
pub mod Budget
pub mod Assembler
pub mod Summary
pub mod Tools
pub mod Events
pub mod Persistence
pub mod Runtime
pub mod Pipeline
pub mod ControlPlane
pub mod Examples
