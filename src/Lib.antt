-- ===== src/Lib.antt =====
-- A Go library for the Open Responses protocol: an adapter produces a response as a stream of events,
-- a transport carries the events, and a client folds them back into the response. This library models
-- its streaming core, its checker of streams, its store of conversations, the streams of its adapters
-- for three providers' APIs, and the turns of a WebSocket connection.
--
-- The program's parts and the files that model them:
-- - items.go, content.go, response.go, enums.go, events.go: Item, Response and Event hold the data, one
--   constructor or record for each Go type, and the discriminators, `TerminalResponse`, and the methods
--   of a response that end it.
-- - handler.go, `EventSink`: EventSink. A method that mutates its receiver is an action on the receiver's
--   state that may fail, and what was written before a failure stays written; `>>` is the sequence of
--   calls with an early return on an error.
-- - handler.go, `sseSink`, `Handler.save` and `Handler.resolve`: Handler. Whether an event can be encoded
--   and whether the connection takes a write are parameters.
-- - sse.go, `WriteEvent`, and internal/sse/sse.go, `splitFrames` and `parseFrame`: Sse. A byte is a natural
--   number.
-- - emitter.go: Emitter. Parts and Writer are the writers of messages, function calls and reasoning
--   (`Text`, `Annotation`, `Logprobs`, `Refusal`, `Arguments`, `Summary`, `EndSummary`, `Close`); State and
--   Calls are `Emitter` and its methods. `perform` is one call of an adapter, on the emitter or on the
--   writer that it opened last; an older writer is closed. `run` is a sequence of calls, in which errors
--   may be ignored.
-- - streamtest/streamtest.go: Streamtest. Validator, Step and Check are the checker of streams, `Validate`;
--   Sink is the recording sink; Checked is what a sink promises to a sender, for any sink.
-- - stream.go, `Accumulator`: Accumulator. State finds and places items; Add is the fold, with `none` where
--   the Go code panics.
-- - stream.go, `EventStream`: Client. EventStream is `Next`, `finish` and `Wait` on the payloads that the
--   scanner yields; Drained reads the payloads without state, for comparison.
-- - errors.go: Errors, with Errors/Quota about an error that a client reads from a peer and
--   Errors/Status about `AsError`. Headers and the members outside the specification are left out.
-- - chatcompletions/response.go, providers/anthropic/response.go and providers/gemini/response.go:
--   ChatCompletions, Anthropic and Gemini, one function for each method of a `decoder`, from the answer
--   of the server to the return of `CreateStream`. Adapter has what they share: Steps is a call of the
--   emitter by a decoder and the sequence of steps with an early return on an error; Keeps and Outcome
--   are about what steps keep. The types of a provider's SDK are records; regular expressions, number
--   parsing, string search, JSON and the errors that `mapError` makes are parameters. Int64 is Go's `int`,
--   with sums that wrap around; Extensions is extensions.go, as far as the adapters use it.
-- - websocket/websocket.go: WebSocket. Sink is the sink of one turn; Turn is the state of a session and
--   its saves, with the shared store as an interface; Serve is `session.turn` and the loop of
--   `session.run`; Conn is the client's `Turn`, on what the reader of its connection delivers.
-- - store.go and `checkFunctionCallOutputs` of request.go: Store. Memory is `MemoryStore`; Continuation is
--   `ResolveContinuation`, `History` and `StampPreviousID`.
--
-- How the parts interact. The emitter calls the sink; the sink keeps the events and folds them with the
-- accumulator; the checker reads the events. Emitter/Lifecycle relates the state of the emitter to that
-- of the checker, over any sink that keeps the promise of Streamtest/Checked; Streamtest/Sink is about
-- that promise and the recording sink. Emitter/Frame is about the properties that every send keeps;
-- Emitter/First, Growth and Folded use it, and Emitter/Conformance joins the two.
--
-- Handler/Received joins the handler's sink to the client's reader; Adapter/Outcome joins the adapters to
-- the emitter, the recording sink and the checker; WebSocket/Answers and Remembered join the session to
-- its sink and to the store, InStep and Stale to the client.
--
-- How Go is read. Values are never shared, so a deep copy is the value itself. A pointer to the last
-- element of a slice is the element beside the list of those before it: the open part of a message, the
-- open item of the response, the open item of the checker. A Go map is a function or a list of entries,
-- a nil pointer is `none`, an index from the wire is an integer, and all other numbers are naturals:
-- they count events and items. The clock and random identifiers are arguments. The wire form of an
-- event, that is its JSON and back, is the parameter `wire` of the recording sink; where a theorem needs
-- it, the hypothesis is that the wire form is lossless. Every recursion is structural, but for
-- the loop of `Wait`, which has fuel: one call of `Next` more than there are payloads is enough.
--
-- A decoder's pointer to a writer is a mark that it holds one, and `perform` acts on the writer that the
-- emitter opened last. In chatcompletions and Gemini that is always the one held. In Anthropic it may not
-- be, when a thinking delta comes without its block: then the model has the old writer's calls fail as
-- those of a closed writer do, and its Close do nothing, but takes no text from it.
--
-- Not modelled: the JSON codec with its registry, the rest of the HTTP handler and the client, `Close`
-- and the context of an event stream, the loop that reads frames from a connection (with the limit of
-- a frame's size), the rest of the WebSocket client (Dial, Send, Close) and the timers of a WebSocket
-- session, the request encoders of the adapters with their HTTP calls and `mapError`, the category of
-- a refusal in Anthropic, the entries of log probabilities (which are carried as their JSON texts),
-- the Extra and headers of an error, and the examples.
pub mod Accumulator
pub mod Adapter
pub mod Anthropic
pub mod ChatCompletions
pub mod Client
pub mod Emitter
pub mod Errors
pub mod Event
pub mod EventSink
pub mod Extensions
pub mod Gemini
pub mod Handler
pub mod Int64
pub mod Item
pub mod Prelude
pub mod Response
pub mod Sse
pub mod Store
pub mod Streamtest
pub mod Tests
pub mod WebSocket
