-- ===== src/Lib.antt =====
-- The JavaScript client of yrby: packages/client/src, which keeps a Yjs document in step with a server
-- over ActionCable or AnyCable.
--
-- Three classes, each on top of the one before:
-- - `ReliableSync` (packages/client/src/reliable_sync.ts) queues the local updates until the server has
--   acknowledged them, sends the whole queue as one merged delta under the number of its newest update,
--   and sends it again on a timer while the transport is up. Reliable.antt has the state and one function
--   per method (enqueue, flush, on_ack, on_connect, on_disconnect, on_tick, destroy); Reliable/ has its
--   cache, timer and numbers, the plain queue without them (Outbox), acknowledgements, and what a history keeps.
-- - `YProtocolSession` (packages/client/src/y_protocol_session.ts) frames the queue's deltas, answers the
--   sync handshake, validates and applies what the server sends, and carries presence. Framing.antt
--   builds and validates frames, Json.antt is the acceptance of JSON.parse, which the validation calls,
--   and Session.antt has the state and the methods, with the two "update" listeners as on_doc_update and
--   on_awareness_update. `note` and `doc_events` are a call on the awareness or the document with the
--   events that it fires.
-- - `ActionCableProvider` (packages/client/src/actioncable_provider.ts) owns the subscription, the status
--   and the handlers on the page. Cable.antt is the cable's envelopes and effects, Transport.antt the state,
--   `#send`, `#observe` and the status, Provider.antt the methods and the four callbacks of the
--   subscription. packages/client/src/base64.ts is Base64.antt.
--
-- The scripts of examples/actioncable-demo/frontend test this against a live server. Two of them drive the
-- provider over a consumer of their own: rawConsumer of reliable_provider.mjs is Consumer.antt, and
-- lossyConsumer of reliable_stress.mjs, which loses frames and acknowledgements at random, is
-- Consumer/Lossy.antt, with the outcome of each test of Math.random as an argument. The others have a
-- small WebSocket client each. Scripts.antt is what these share: the member with its document and socket,
-- the posts on the socket, and the loop over the messages of a frame; Scripts/ has one file per script:
-- Audit, Chaos (with its vandal), CrashRecovery, AuditScenarios, Multiprocess, EndToEnd (e2e.mjs), Stress
-- (with its storm in Stress/Storm), ReliableClient (reliable.mjs), and for AnyCable AnycableGuarantee,
-- AnycableConcurrent, AnycableProbe and Loadtest. Cast.antt is one client of each. Buffer.antt is Buffer.from,
-- Texts.antt the templates and `includes`, ServerRead.antt is server_read.mjs. The proofs are in Loops,
-- Ends, Rounds, Turns, Delivered, Silent and Edits, and under the script's own module where they are about one
-- script.
--
-- Of the demo's widgets, examples/actioncable-demo/frontend/src/kanban.js is Widgets/Kanban.antt: the board
-- is a list of cards, what a user does is a BoardCall (Kanban/Board.antt), and `render` gives the texts of the
-- page's three lists. whiteboard.js is Widgets/Whiteboard.antt: the notes and the elements that show them are lists of entries, and
-- what happens to a page is a PageCall, in Whiteboard/History.antt.
--
-- A method is a function from the state to the new state with what it hands out, in order: calls of
-- `send` (Sent, Output) or effects outside (Effect). Microtasks wait in `tasks` until `run_tasks`. A history
-- is a list of calls (Call, SessionCall, ProviderCall), and `run`, `session_run` and `provider_run`
-- make them one after another. The timers of the host are part of the queue's state.
--
-- yjs, y-protocols and lib0 are not part of the repository: External.antt has their functions as a record,
-- Packages, that each definition takes, with documents and awareness as types of its own. What a theorem
-- relies on of them is a hypothesis: EntryLaws, SyncLaws, PresenceLaws and ReadLaws. The elements and
-- fragments that the scripts edit are a record of the same kind, Documents. The server is a predicate, which
-- deltas it has recorded, in Reliable/Recorded.antt and Provider/Recorded.antt: Honest says that each
-- acknowledgement answers a recorded delta that was sent before.
--
-- Bounds. A sequence number is a JavaScript number: `increment` no longer moves from 2 ^ 53 on, so a
-- theorem on numbers asks that a history stays below that. The loop of a script over a frame runs on
-- fuel, the length of the frame, which is enough because each round reads a byte (Ends/). The digits of a
-- number run on the number as fuel. All else is structural recursion, and the loop over awareness entries
-- recurses on their count.
--
-- Not modelled: a callback that calls back into the object that runs it, a transport that calls
-- `connected` while `create` runs, `unref` of a timer, other listeners of the document, the text of error
-- messages, a transport's Boolean results, and the constructor arguments that are only kept. Of the
-- scripts: what a WebSocket does with a call of `send`, the waiting by the clock, the top-level code that starts
-- clients and prints checks, and JSON texts, which stand by what they are made of. The Ruby server
-- (lib/), the native extension (ext/), the other widgets and the build of the demo have no definitions here.
--
-- Number.antt has JavaScript's numbers and values, Base.antt the shared names and helpers, and Examples/
-- runs on concrete inputs.
pub mod Base
pub mod Number
pub mod Json
pub mod Base64
pub mod External
pub mod Framing
pub mod Reliable
pub mod Session
pub mod Cable
pub mod Transport
pub mod Provider
pub mod Consumer
pub mod Scripts
pub mod Widgets
pub mod Examples
