-- ===== src/Lib.antt =====
-- isales-engine runs outbound calls: the scheduler sends a dial request, the engine connects the
-- call over an edge device, and then, turn by turn, recognizes speech, lets referees classify the
-- customer's utterance, answers with a language model and speaks the answer. This library models
-- the parts of the package isales_engine that decide what happens, and proves what they promise.
--
-- How the parts interact: a turn's text goes to the referees, whose results (Streaming/Types) the
-- routing rules turn into one action (Pipeline/Decider). The reply's tokens are cut into sentences
-- (Streaming/SentenceSplitter), which are synthesized through the cache (Providers/TtsCache) while
-- a filler phrase bridges the wait (Realtime/Filler). Partial transcripts go through the barge-in
-- rules (Realtime/InterruptionRules), silence through the reactivation ladder (Realtime/Silence),
-- the wrap-up through its limits (Realtime/WrapUp), and each utterance through the handoff triggers
-- (Realtime/Transfer). A session records events and states (CallSession, StateMachine), the parts
-- of a call talk over a bus of two lanes (Eventbus), and frames from the edges reach the session
-- of their call (Transport/SessionDispatcher), whose rooms are entered with signed tokens
-- (Transport/RtcToken).
--
-- RunLoop composes them: a session dials, greets, and then runs rounds of waiting, judging and
-- speaking, until the line drops, a route or a limit ends the call, or an exception does.
--
-- Files and code:
--   RunLoop: isales_engine/run_loop.py, the call's state and the form of its coroutines. Monitor is
--     `_partial_monitor`, Playing `_play_tts` and `_play_streaming`, Selection `_select_gated_route`
--     and the helpers that read the session, Listening the waits, Turn the handoff, the restructure
--     and the wrap-up turn, Gate `_run_gated_turn`, Session `_main_turn_loop` and `run_session`.
--     Lifecycle is the abstract life of a call, Hoare the rules for coroutines, Settles what each
--     of them keeps, Laws what they promise.
--   Prelude: shared names, lists, texts, dicts and integers; no code of the program.
--   Streaming/Types: isales_engine/streaming/types.py.
--   Streaming/SentenceSplitter: isales_engine/streaming/sentence_splitter.py, `split_sentences`.
--     `feed` and `scan` are its two loops; Laws and Chunks hold the proofs.
--   Pipeline/Decider: isales_engine/pipeline/decider.py, `decide`; Laws holds the proofs.
--   Pipeline/PromptBuilder: isales_engine/pipeline/prompt_builder.py and greeting.py; Growth holds
--     the proofs.
--   Pipeline/Orchestrator: isales_engine/pipeline/orchestrator.py, `PipelineStream`. Spoken and
--     Failure are about `sentences` and `_generate_core`; Eager is the replay buffer, with its
--     proofs in Replay and Progress; RunLoop/Laws/Voiced joins it to the run loop.
--   Eventbus: isales_engine/eventbus.py. Lanes is about `post` and the queues, Delivery about
--     `_deliver` and `aclose`.
--   Realtime/InterruptionRules: isales_engine/realtime/interruption_rules.py and
--     interruption_detector.py. Verdicts is about `evaluate`, Building about `build_rule`, Legacy
--     about `default_rule`.
--   Realtime/Silence: isales_engine/realtime/silence_detector.py.
--   Realtime/WrapUp: isales_engine/wrapup/manager.py.
--   Realtime/Filler: isales_engine/realtime/filler_manager.py.
--   Realtime/Transfer: isales_engine/transfer/manager.py. Cheap is about the keyword and round
--     triggers, Calls about those that ask a language model.
--   Realtime/Playout: `feed_playout` and the outbound pump of isales_engine/realtime/rtc_telephony.py;
--     Frames, Stream, Turns, Delivery, Progress and Stuck hold the proofs.
--   Realtime/RtcTelephony: the registry of calls of the same file, with `dial`, `hangup` and the
--     callbacks of the dispatcher; Calls, Entries, Matched, Dialling and Reached hold the
--     proofs.
--   Realtime/Choice: `random.choice`, used by three of these.
--   Providers/TtsCache: isales_engine/providers/tts_cache.py. Bounds, Contents and Replay hold the
--     proofs on the store and the provider.
--   CallSession: isales_engine/call_session.py, `append_event`; Mirror holds the proofs.
--   StateMachine: isales_engine/state_machine.py, `transition_to`; History holds the proofs.
--   Transport/SessionDispatcher: isales_engine/transport/session_dispatcher.py; Isolation holds the
--     proofs.
--   Transport/RtcToken: isales_engine/transport/rtc_token.py, the byte layout and signing of
--     `_build_token`; Padding and Body hold the proofs. Issuer is `RtcTokenIssuer`, with its proofs
--     in Promises.
--   SessionManager: isales_engine/session_manager.py, the registry; Registry holds the proofs.
--   CallLifecycle: isales_engine/call_lifecycle.py, the retried Redis commands, with proofs in
--     Counter; Finalize is `finalize_session`, with proofs in Settled.
--   TranscriptRecorder: isales_engine/transcript_recorder.py; Persisted holds the proofs.
--   DialConsumer: isales_engine/dial_consumer.py, and `reserve_call_record`; Handling and Intake
--     hold the proofs.
--   Providers/LlmRegistry: isales_engine/providers/llm_registry.py; Stable holds the proofs.
--   Referee: isales_engine/referee.py, the rounds shown and the answer read, with proofs in Answers;
--     Prompt is `run_referee`, with proofs in Filling.
--   Modules named Examples hold inputs at which the theorems apply.
--
-- How code is read. A text is the list of its code points, a dict an association list in insertion
-- order, bytes are numbers below 256. A function that changes state takes the state and returns
-- the new one; an exception is a value of a result type. What the source takes from elsewhere is a
-- parameter: the Unicode category (`voiced`), regular expressions (`Regex`), the language models,
-- `json.loads` and JSON numbers, the speech provider (`Inner`), the shared schema of events
-- (`admits`), UTF-8, HMAC, zlib and base64. `random.choice` takes a number that is drawn. Clock
-- readings are arguments. The fate of each command to Redis and of each transaction of the database
-- is a parameter too, and so is the validation of a dial request, and of a dial
-- whether the channel is joined, the edge known and the command sent. A handler of the
-- bus is described by its acts on the bus and its outcome. Log lines are left out.
--
-- The run loop's awaits. What an await gives is an input: how a playback ends and what is heard
-- during it, how a wait for the caller ends, what each referee, the detector and the reply stream
-- give, each arbitrary. The n-th playback and the time of the n-th event are functions of n, since
-- each occurs once. `append_event` is not strict, as in production.
--
-- Loops. The main loop is recursion on the rounds that the call has, and waits after the last.
-- Loops over sequences are recursion on them. The doubling loop of the padding runs on fuel, the
-- number of bytes itself, which is enough since each round adds one at least. The loop of the
-- cache's eviction is recursion on the entries, of which each round removes one; the drain of the
-- bus runs on the number of events that the source reads off first.
--
-- Cancellation. `main.cancel()` of a manual hangup is swallowed by a playback that is awaited, and
-- may also come while the session is closed. A shutdown of the dial consumer may cancel any await
-- of the handling of a message, and the await of a finalization, which is shielded and runs on.
--
-- Interleavings. The replay buffer and the playout queue are where the order of two tasks matters
-- to what is said: a run is a list of the steps of generation, replay and cancellation, or of
-- feeding and the pump, in any order. The operations of the telephony client are cut at their
-- awaits too. A handler of the bus does not suspend, as none of the program's does, so that a drain
-- is not interrupted. The fuel of the cutting of a chunk is its length, which is enough since each
-- frame takes a byte at least.
--
-- Not modelled: the other operations of the telephony clients, the mixing of audio and the fade of a
-- barge-in, the gRPC server, the consumer of control
-- messages, the clients of remote services, the assembly of the configuration, the process entry. Of
-- the bus, the helper for tests and the count of `task_done` are left out; of the filler, the
-- streaming of its audio; of the orchestrator, the measured times and sampling parameters; of the
-- run loop, the filler that may overlap a reply, the published messages, the token budget and the
-- VAD mirror, which decide nothing, and any cancellation but that of the control plane; of the
-- registry of calls, `cancel_all`; of the registry of clients, `aclose_all`. The waits between
-- attempts are left out everywhere.
mod Prelude
pub mod Eventbus
pub mod Realtime
pub mod CallSession
pub mod StateMachine
pub mod RunLoop
pub mod TranscriptRecorder
pub mod DialConsumer
pub mod SessionManager
pub mod CallLifecycle
pub mod Streaming
pub mod Transport
pub mod Providers
pub mod Pipeline
pub mod Referee
