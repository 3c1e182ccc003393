-- ===== src/Lib.antt =====
-- A model of miniserve, a small inference server for language models, and what is proved of it.
-- The server keeps the keys and values of the requests in a cache of equal blocks (PagedKVCache),
-- and a scheduler (Scheduler) composes each iteration's batch anew: it admits requests from a
-- queue, runs the model on the batch, gives each request its next token, retires the requests
-- that are done, and preempts the youngest request when the blocks run out. An engine (Engine)
-- runs the scheduler on a thread of its own: it takes submissions from a queue, and hands the
-- tokens and the end of each request to its stream.
--
-- The parts, and the files that model them:
-- - miniserve/kv_cache.py: KvCache/Storage. A cache is a record of the class's fields; `init`,
--   `free_count`, `used_count`, `allocate`, `append_block`, `free` and `check_invariants` are its
--   methods. A tensor's block is a value of an abstract type, with a value for NaN.
--   KvCache/Allocation says what the methods do on each branch, KvCache/Conservation and
--   KvCache/Tables follow the block ids, KvCache/Check treats `check_invariants` and sequences of
--   calls, and KvCache/Poison the writes of `free`.
-- - miniserve/metrics.py: Metrics.
-- - miniserve/scheduler.py: Scheduler/Sequence has its types, Scheduler/State the fields of the
--   class and its constructor, Scheduler/Submit has `submit`, Scheduler/Preemption `_make_room`
--   and `_preempt`, and Scheduler/Step `step` and `_finish`, one function to each part of the
--   loop. The other files under Scheduler have proofs, from the well-formedness of a scheduler
--   (Scheduler/Invariant) to the drain of its queues (Scheduler/Drain), and to what every order
--   of submissions and steps keeps (Scheduler/Reachable, with the laws of Scheduler/Preserved the
--   streams of Scheduler/Streams and the accounts of Scheduler/Accounts).
-- - miniserve/engine.py: Engine/State has the fields of the class and what server threads call,
--   Engine/Loop the turn of the loop with `_admit`, the two callbacks, and the shutdown. A call
--   of `submit` makes one future and one stream, which share a ticket. Engine/Tickets counts what
--   stands where, Engine/Callbacks follows the callbacks through a step of the scheduler, and
--   Engine/Contract, Engine/Serving, Engine/Shutdown and Engine/Life have the engine's promise
--   and what keeps it.
-- - miniserve/model.py: Model/Torch has the functions of the tensor library that it uses, as
--   parameters, Model/Weights the constructor and the functions on one row of a tensor, and
--   Model/Forward the passes through the cache, `forward` and `_forward_one`. Model/Reference is
--   the same network over a whole text without a cache. Model/Slots, Model/Scatter and
--   Model/Blocks follow positions to blocks and offsets, Model/Masking treats the causal mask,
--   Model/Pass and Model/Layers one pass, Model/Request and Model/Batched a request and a batch,
--   Model/Resume the passes that follow, and Model/Loading the constructor.
-- - miniserve/server.py: Server/Json has the values of a body and their conversions, Server/Post
--   `do_POST` up to the submission, Server/Respond the outcome of the future and the relay of the
--   stream, and Server/Get `do_GET`. Server/Prompts and Server/Requests say what is submitted,
--   Server/Escapes which exceptions escape, Server/Replies what is written, and Server/Outcomes
--   and Server/Answered that every outcome of the engine has its answer.
-- - miniserve/bench/static.py: Bench/Static, the admission hook of static batching.
-- - miniserve/bench/fake.py: Bench/Fake, the model of the mechanism runs.
-- - miniserve/bench/workload.py: Bench/Workload/Generate has the schedule, Bench/Workload/Profile
--   the arrivals by window; Bench/Workload/Schedule and Bench/Workload/Windows say what they are.
-- - miniserve/bench/calibrate.py: Bench/Calibrate, the check of a fit for structure in its
--   residuals.
-- - miniserve/bench/run.py: Bench/Run has what a collector reads off its stream, and the summary
--   of a run; Bench/Run/Results says what they report.
-- - miniserve/bench/costmodel.py: Bench/Cost/Config has the config, the checks of `emit_config`
--   and the costs, Bench/Cost/Crossover the bisection, the crossover and its band, over the
--   fractions of Bench/Cost/Fraction, which have a sign. Bench/Cost/Bisection says what the
--   search finds, Bench/Cost/Crossing what `crossover_tokens` returns, Bench/Cost/BandEdges where
--   the band ends, and Bench/Cost/Emission when a config is emitted. Bench/Tests has the runs.
-- - Python's dict is the association list of Dict, an exception is a value of Result, and Base
--   has the shared names, tests on numbers, lists and counting. The files under Tests have runs
--   of the model and the theorems at concrete inputs.
--
-- How the source is read:
-- - A Sequence is an object that the queues share. A scheduler has a heap from object numbers to
--   fields, and the queues hold numbers. The objects are numbered in the order of submission, so
--   the number is the field `seq_no`. The equality that `running.remove` uses compares all fields
--   of two objects, that number among them, and is read as the equality of the objects.
-- - Times are natural numbers of ticks, and the n-th reading of the clock is a function of n.
--   Sampling parameters, which the source carries and does not use, are in thousandths. A bound
--   such as `max_tokens` is a natural number; a negative one is refused by the source in the same
--   way as zero.
-- - `ceil(n / block_size)` is the exact quotient, rounded up, where the division of floats gives
--   one: `blocks_for` raises for a block size of zero and for a quotient that no float holds, and
--   `submit` with it. `step` divides by the same block size no more tokens than `submit` has
--   divided for the same request, so that it does not raise there: that is part of the
--   well-formedness of a live request (IsLive). A sum of more than 2^53 tokens, which a float
--   rounds, is not rounded here.
-- - The model is a parameter: its forward pass takes the batch and the cache and returns the
--   logits by request and the tensors that it has written. The theorems assume where they say so
--   that it answers for each sequence of its batch, which is what the interface in the source
--   promises.
-- - The floats of the forward pass are a type that is not described further. The position axis of
--   a tensor is a list and the other axes are indices, so that the shapes of the weights, which
--   torch checks, are taken to fit. Indexing a tensor, and writing through indices, is torch's
--   documented indexing; of its softmax and of its sum of weighted values the theorems use what
--   IsMasking says, for floats that are neither NaN nor infinite. A token id is a natural number,
--   and one beyond the embedding raises.
-- - The HTTP handler is given the engine's answers, the outcome of the future and the items of
--   the stream, as values, and a client that leaves as the number of writes that it still takes.
--   `json.loads`, the tokenizer and Python's parsers for the texts of numbers are parameters. The
--   pages read one state of the scheduler. The id that uuid makes up for a request is left out.
-- - `round` in the choice of a percentile is that of the exact quotient, to the even one of two.
--   The costs of the cost model, which are floats, are exact fractions, where an int that no
--   float holds raises as an operand, and the rates and rolls of the workload are exact fractions
--   that are not negative. The weights of a mixture are in thousandths, so that their sum is one
--   or is not. A measured time of the calibration is a number of ticks, and a fitted one an
--   integer. The draws of the workload's generator are a function of the number of the draw.
-- - The callbacks of the scheduler are a list of events, the latest first. The admission hook is
--   an argument of `step`.
-- - The doorway lock makes a submission one step of the engine, and the engine's own thread is
--   the only one that touches the rest, so threads are an order of submissions, turns and stops.
--   The callbacks of a step are handled when it is over: they touch the streams alone, which the
--   scheduler does not read. Times in the engine's summary are in thousandths of a tick, and a
--   throughput is a fraction.
-- - A call that raises in the source leaves what it has changed so far. Here it leaves nothing,
--   which matters only after an exception.
--
-- Bounds and fuel: every loop of the source is a structural recursion here, over the waiting
-- queue, the batch, the tokens that have not been streamed, the layers and positions of a pass,
-- the items of a stream, or the draws of a workload. The numbers of rounds are those of `drain`,
-- whose theorem says how many are enough, and of the bisection, which has as many as the upper
-- end of the range: each round makes the range shorter.
--
-- Not modelled: the start and the join of the engine's thread and a crash inside a step, the
-- sockets of the HTTP server, the benchmark's drivers, probes, fits by numpy and plots, and the
-- record BlockMeta, which the source reserves and does not use. The scheduler's theorems are
-- about any forward pass that answers, and those of Model about the passes for requests that can
-- be served; that every batch of the scheduler is of such requests is not among them.
pub mod Base
pub mod Result
pub mod Dict
pub mod KvCache
pub mod Metrics
pub mod Scheduler
pub mod Engine
pub mod Bench
pub mod Model
pub mod Server
mod Tests
