-- ===== src/Lib.antt =====
-- The verification library of vox-streaming, a service that records exams: candidates' desktop clients
-- upload segments or stream over WebRTC, ffmpeg records, an assembler joins the segments into a
-- recording, proctors watch live and rewind, and alerts go to proctors and to Kafka.
--
-- Parts of the program, and the files that model them:
--   * internal/domain/events.go: Domain (events, the level of an alert).
--   * internal/infrastructure/cache: Cache. segment.go is Cache/Segment, inventory.go is
--     Cache/Inventory, the upload sessions of session.go are Cache/Upload (Registry has the two Lua
--     scripts and the three methods, Invariant and Lifecycle the laws), assembly.go is Cache/Pending,
--     hls.go is Cache/Hls, schedule_stream.go is Cache/ScheduleStream, and the streams on air of
--     session.go are Cache/Session.
--   * internal/stream: Stream. gap.go is Stream/Gap, coverage.go is Stream/Coverage over the floating
--     point of Stream/Float, audit.go is in Usecase/Segments.
--   * internal/watcher: Watcher. assembly_watchdog.go is Watcher/AssemblyWatchdog, segment_watch.go is
--     Watcher/Tail/Segments, hls_watch.go is Watcher/Tail/Fragments
--     (Playlist has it as ffmpeg writes it).
--   * internal/recorder: Recorder. port_allocator.go is Recorder/PortAllocator, the restart loop of
--     supervisor.go is Recorder/Supervisor, frame_extractor.go is Recorder/Frames (Reorder has the
--     reorder buffer, Extractor the rest, Fragments, Aggregates and Panics what it does).
--   * internal/infrastructure/queue: Queue. consumer.go is Queue/Consumer, monitor.go is
--     Queue/Monitor, dlq.go is Queue/Classify (classifyError) and Queue/Replay.
--   * internal/transport/webrtc: Transport. session.go is Transport/SessionManager, live_manifest.go
--     is Transport/LiveManifest, peer.go is Transport/Peer: Uploader has the segment uploader, Closing
--     the end of a peer, Life its callbacks, timers and signaling channel as steps, Ingest the
--     start of its recorder as steps, and LiveUploader the uploader of live fragments.
--   * internal/handler/segment/handler.go: Handler/Segments. Requests has requests and answers,
--     Defs the checks of a request, Endpoints the endpoints but for the opening of a session, which is
--     Sessions.
--   * pkg/auth: Auth. jwt.go is Auth/Claims, Auth/Access and Auth/Monitors, assetsig.go is
--     Auth/AssetSignature.
--   * internal/usecase: Usecase. segment_usecase.go is Usecase/Segments, monitor_usecase.go is
--     Usecase/Alerts, assembler_usecase.go is Usecase/Assembler, stream_usecase.go is Usecase/Streams.
--   * Base holds what they share: the native numbers with their tests, 64-bit integers, time, results
--     and errors, sorting, association lists, and the commands of Redis that the program uses.
--   * Tests applies the properties to small concrete inputs.
--
-- How they interact: the use cases call the registries of Cache; the end of a stream
-- (Usecase/Assembler) or an upload session arms an entry of Cache/Pending, which the watchdog sweeps
-- and hands to the assembler again; a consumer of Queue calls a use case as its handler. An endpoint
-- of Handler calls the segment use case and arms or disarms Cache/Pending. A peer's uploader leaves
-- the segments that its end registers in Cache/Segment. Parsers, encodings and hashes of Go's library,
-- and those of tokens and UUIDs, are fields of a record of functions (Handler.Segments.Library).
--
-- State and operations: a registry is a record of maps, a method is a function from the state to the
-- state and a result, and the state is as it was where a call fails. What the outside world answers
-- (Redis, Kafka, S3, ffmpeg, the file system, a context that ends, the clock, the maker of ids) is an
-- argument: a Fault is an error or none. A committed offset is one that CommitMessages was called for;
-- that Kafka keeps the highest is not part of the model. The keys of each registry are a map of their
-- own, keyed by the identifiers that the key text is formatted from, since the prefixes keep them
-- apart. Redis and the program share one clock; a script and a pipeline are one step; a stored
-- document decodes or is garbage. The sorted set of pending assemblies is a key that lapses like the
-- others. A mutex makes a method one step; the callbacks of a peer, which hold none, are a step for
-- each of their calls.
--
-- Numbers: int64 values that can leave their range wrap (wrap64), a difference of times is held at
-- the ends of a duration (saturate64); counters, ports and offsets are natural numbers. An instant
-- counts nanoseconds from Go's zero time, and `unix` counts seconds from there, a constant away from
-- the source's.
--
-- Bounds and fuel: the retry loop has one more attempt than retries as its fuel, which is the loop's
-- own bound; so has the upload of a recorded segment. Draining the reorder buffer has the number of
-- held packets, each round of which takes one out; reading an aggregate has its length, each round of
-- which takes two bytes or more. The constructor of ports has the length of its range, of which each
-- round uses four. The other loops are over lists. The supervisor, the consumer, the watchdog and the
-- tails run over lists of what the world reports.
--
-- Not modelled: metrics and logs, the text of most messages, floating point beyond its operations as a
-- parameter, the negotiation and the media of a WebRTC peer, ffmpeg, the rest of HTTP and gRPC, the
-- clients of S3, Kafka and Redis, and the code that protoc generates, all of which are I/O, glue, or
-- code of others; and the quality report of a recording and the printing of playlist lines, which
-- decide nothing of what is modelled.
--
pub mod Base
pub mod Domain
pub mod Handler
pub mod Cache
pub mod Stream
pub mod Usecase
pub mod Watcher
pub mod Recorder
pub mod Queue
pub mod Transport
pub mod Auth
pub mod Tests
