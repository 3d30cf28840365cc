-- ===== src/Lib.antt =====
-- Oboe: a C++ library for audio streams on Android, with sample applications. This development models
-- the parts of the library that do not depend on the platform. Paths are from the repository's root.
--
-- An application fills a builder with what it asks of a stream. The builder chooses the native
-- interface, AAudio or OpenSL ES, and the quirks manager may have it open a child stream with other
-- settings, whose data are then converted. A stream of OpenSL ES that the application writes to or
-- reads from without a callback goes through a circular buffer, shared by two threads. Counters of frames follow
-- wrapping counters of the platform, and a tuner grows the buffer of a stream that had glitches.
--
-- - Prelude: the library's names and the lemmas shared: tests on numbers, lists over the native
--   numbers, integers (Prelude/Int), machine words (Prelude/Words), and the time left of a wait that
--   sleeps (Prelude/Sleep) and rounding (Prelude/Rounding).
-- - Fifo: include/oboe/FifoBuffer.h, include/oboe/FifoControllerBase.h and src/fifo. A `FifoBuffer`
--   holds the two counters of its controller, the storage as a list of bytes, and its two statistics;
--   `read`, `write` and `readNow` take the caller's buffer as a list and return it. Fifo/Queue is the
--   bounded queue of frames that it stands for, Fifo/Convert says when it is valid, and Fifo/Refine,
--   Fifo/Put, Fifo/ReadNow and Fifo/Run relate the two. Numbers of bytes are products modulo 2 ^ 32 as in
--   the source; a valid buffer keeps them below 2 ^ 31.
-- - FixedBlock: src/common/FixedBlockAdapter.cpp and src/common/FixedBlockWriter.cpp. The processor of the
--   blocks, which the client implements, is a parameter. The loop of `write` takes fuel: more rounds
--   than bytes are enough for a processor that takes whole blocks; one that takes no bytes would keep
--   the loop of the source running for ever. FixedBlock/Reader is src/common/FixedBlockReader.cpp: there
--   two rounds for each byte asked for, and two more, are enough.
-- - Definitions: the enumerations of include/oboe/Definitions.h with their values, and the texts that
--   `convertToText` gives them in src/common/Utilities.cpp.
-- - MonotonicCounter: src/common/MonotonicCounter.h.
-- - LatencyTuner: include/oboe/LatencyTuner.h and src/common/LatencyTuner.cpp. The stream is a
--   parameter, a record of the three methods that the tuner calls.
-- - StreamBase: include/oboe/AudioStreamBase.h, include/oboe/AudioStreamBuilder.h and
--   src/common/AudioStreamBuilder.cpp, up to `openStream`. What the platform answers (its version,
--   whether AAudio can be loaded, the system's properties) is a parameter.
-- - Quirks: src/common/QuirksManager.h and src/common/QuirksManager.cpp, the work-arounds for devices.
--   They choose the settings of the child stream.
-- - OpenSles: the streams of OpenSL ES, in src/opensles, and the two objects that they share
--   (OpenSles/Engine). OpenSles/Stream/Opening opens a stream, over the models of the two objects and a
--   record of the other calls, with the settings of OpenSles/Stream/Formats and the sizes of
--   OpenSles/Stream/Configuring. OpenSles/Stream is the state of a stream and what lies outside of it, a record of
--   the calls of OpenSL ES, the application's callback and the clock; OpenSles/Stream/Requests are the
--   requests and the callback of the buffer queue, and OpenSles/Stream/Requests/Session sequences of
--   them. OpenSles/Stream/Transfer are the blocking reads and writes of a stream without a callback; what
--   goes on while they sleep is a parameter, and their loop takes fuel, of which one unit for each
--   nanosecond of the timeout and one more are enough. Without a FIFO they follow a null pointer, which is
--   `none`. OpenSles/Stream/Waiting are `start`, `pause`, `flush` and `stop` of src/common/AudioStream.cpp
--   with a timeout: there a unit of fuel lasts for 20 milliseconds of it. A call that locks a mutex which its own thread holds is `none`.
-- - Aaudio: the streams over AAudio, in src/aaudio/AudioStreamAAudio.cpp. The functions of AAudio, the
--   application's callbacks and the clock are a parameter. Aaudio/Open opens and closes, Aaudio/Requests
--   are the requests, the transfers and the callbacks, Aaudio/Wait is the wait for a state, where a unit
--   of fuel lasts for 20 milliseconds, Aaudio/Session sequences of calls, Aaudio/Threads the threads that
--   they start, and Aaudio/Balance the builders.
-- - DataConversion: src/common/DataConversionFlowGraph.cpp, the chain of nodes that converts between a
--   stream and its child. DataConversion/Chain says what each node makes of a flow of samples.
-- - Builder: `openStream` of src/common/AudioStreamBuilder.cpp and the construction of
--   src/common/FilterAudioStream.h. The native streams and the setter of the MMAP policy are a parameter;
--   the policies are those of src/aaudio/AAudioExtensions.h. `openStream` calls itself for a child stream,
--   on fuel, of which 2 are enough.
-- - Flowgraph: the nodes of src/flowgraph that move samples and do not compute with them. Flowgraph/Pull
--   is the pulling of data through a graph whose nodes do not pull in `onProcess`, where one unit of fuel
--   for each node and one more are enough.
-- - Resampler: src/flowgraph/resampler without its filters. Resampler/Ratio is the reduction of the
--   ratio, where the numerator and one is enough fuel, Resampler/Delay the delay line, and
--   Resampler/Converter the node src/flowgraph/SampleRateConverter.cpp. The upstream port and what
--   computes a frame are a parameter; a unit of fuel is a frame written or read.
-- - LockFreeQueue: the queue of samples/RhythmGame/src/main/cpp/utils/LockFreeQueue.h, with 32-bit counters.
--   LockFreeQueue/Calls are sequences of its calls, and LockFreeQueue/Refine compares it with the list
--   of its items.
--
-- An `int32_t` wraps where the source converts to it, and in the sizes of bursts and of the FIFO. An
-- `int64_t` is an exact integer, but for the sums of the monotonic counter, which wrap. Unsigned sums are
-- taken modulo 2 ^ 32 or 2 ^ 64. The loops of the writer and the reader, of the blocking transfer and of
-- the waits for a state, and the opening of a child stream use fuel, and so do the reduction of a ratio and
-- the loop of the converter.
--
-- Not modelled: logging and tracing, the memory behind the buffers (they are lists), the interleaving
-- of threads (operations and requests are taken one after another), the nodes of the flow graph and
-- the filters of the resampler, which compute with floating-point numbers, the loader of the AAudio
-- library, the samples but for that queue, and the test applications.
pub mod Prelude
pub mod Fifo
pub mod FixedBlock
pub mod Definitions
pub mod MonotonicCounter
pub mod LatencyTuner
pub mod StreamBase
pub mod Quirks
pub mod OpenSles
pub mod Aaudio
pub mod DataConversion
pub mod Flowgraph
pub mod Resampler
pub mod Builder
pub mod LockFreeQueue
