-- ===== src/Lib.antt =====
-- Onyx Engine: a server that runs one language model behind an OpenAI-compatible HTTP interface.
--
-- The program is one process. `src/args.cpp` reads the command line. `src/engine.cpp` runs one thread
-- (`onyx_engine::loop`) over a fixed set of slots: it takes requests from a queue, gives each an idle
-- slot, feeds the prompts and the sampled tokens of all slots to llama.cpp in common batches, samples
-- the next token of each slot, and hands text to the threads that wait for it. `src/server.cpp` turns
-- HTTP requests into calls of the engine with the helpers of `src/http_util.cpp`. Before it starts,
-- `src/convert.cpp` finds the model file, or has a safetensors model converted into one.
--
-- The files:
--   Prelude           names of the libraries passed on; `Tests` has the Boolean tests and the
--                     conditional, `Lists` lists measured by native numbers, `Bytes` strings with
--                     their comparisons and searches, `Search` the laws of a search
--   Engine/Types      src/engine.h: requests, results, slots, metrics, and the limits of a loaded model
--   Engine/Llama      the interface to llama.cpp
--   Engine/Holdback   stop_holdback
--   Engine/Emit       collect_delivered_probs, emit, finish, on_sampled
--   Engine/Sample     compute_token_probs, sample_slot with the reasoning budget
--   Engine/Shift      context_shift
--   Engine/Batch      build_batch, and onyx_batch_add of src/llama_util.cpp
--   Engine/Decode     decode_batch
--   Engine/Queue      queue_full, generate, sweep_queue
--   Engine/Admit      admit_queued, prefill_media
--   Engine/Loop       loop: the wake-up, one tick, the shutdown
--   Engine/Load       load, with the parameters of llama.cpp and the memory's probe (Load/Params)
--   Engine/Run        how callers of generate and the loop take turns
--   Engine/Decision   decision_reuse, and the prefix that the prompts of decide share
--   HttpUtil/...      src/http_util.cpp: names (Host), media (Media), base64 (Base64), the comparison of
--                     keys (Compare), the depth of JSON text (Json)
--   Args/...          src/args.h and src/args.cpp: the record (Types), integers (Number), other values
--                     (Values), the loop over argv (Parse), the checks behind it (Check)
--   Sampler/Trigger   src/sampler.cpp: onyx_trigger_pattern
--   Convert/...       src/convert.cpp: paths (Path), the command line and the output of the converter
--                     (Shell), the cache (Cache), onyx_resolve_model (Resolve)
--   Decision/...      src/decision.h and src/decision.cpp: the families of models (Types), the escape of
--                     special tokens (Escape)
--   Server/...        src/server.cpp: errors and their status (Errors), the handler in front of all routes
--                     (Gate), logprobs (Logprobs), the reasoning budget (Reasoning), the frames of
--                     /v1/completions (Stream) and of /v1/chat/completions (Stream/Chat)
--   Examples/...      the theorems at concrete inputs
-- The modules below one of these hold proofs about it.
--
-- State. The engine is the record `Engine`: the slots, the queue and a `Core` with the state of
-- llama.cpp, the metrics and the list of finished requests. An operation takes the parts it changes and
-- returns them. The code reaches a request by a shared pointer from its slot and from the thread that
-- waits for it; here the request stands in its slot, a finished one moves to `Core.finished`, and its
-- `pieces` and `delivered` hold what the waiting thread has yet to take and what it took. An exception
-- is a flag or a value. The locks are not modelled: each operation is one step, and what other threads
-- do between the steps (a new request, a cancelled one, a piece taken) is the functions `submit` and
-- `deliver` and the field `cancelled`. A `Run` is a sequence of such steps from the engine that `load`
-- leaves; in it the caller's `deliver` reaches its request wherever the engine holds it.
--
-- llama.cpp is the record `Llama`, a parameter: an abstract state and the calls that the engine makes of
-- it, with no assumption on their answers. What `load` asks of it and of other code is the record
-- `Host`. Files, processes and the environment are two records `Machine`, one of the command line and
-- one of the conversion; the parser of chat output is the record `Parser`. Nothing is assumed of any.
--
-- Numbers: counts are natural numbers, a token is its 32-bit pattern, a counter of 64 bits wraps, and
-- where the code writes -1 for "none" the model has `none`. The sums `n_parallel_ + 1` and `n_keep + 1`
-- are 32-bit and wrap (in C++ their overflow is undefined). Times are microseconds. A float is a bit
-- pattern that is only carried.
--
-- Fuel: the loop of `decode_batch` is the one loop whose rounds do not follow the data. Its fuel,
-- `decode_fuel`, is the number of rows times one more than the batch size, and one batch size and one
-- more: a round moves forward by a row or more, or halves a view of at most a batch. The loop over the
-- octets of an address has fuel for four, the number at which the code stops.
--
-- Not modelled: HTTP and the text of JSON, which are the vendored libraries, and with them the parts of
-- the routes that only read fields of a body; the prompts and answers of decision requests and the
-- evaluations of decision mode; embeddings; the sampler chain; chat templates; the branches for Windows;
-- and the text of error messages, apart from the first words of those that the server tells apart.
pub mod Prelude
pub mod Engine
pub mod HttpUtil
pub mod Args
pub mod Sampler
pub mod Convert
pub mod Server
pub mod Decision
mod Examples
