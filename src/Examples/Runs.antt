-- ===== src/Examples/Runs.antt =====
-- Examples on the engine as a whole: its start and a run.
use onyx_engine.Prelude.{
  ℕ, ◌+◌, ◌<◌, ◌≡◌, ◌≢◌, refl, true, false, none, some, Option-cases, inl, inr, List, [], ◌∷◌, All,
  length, arith,
}
use onyx_engine.Prelude.Bytes.{bytes}
use onyx_engine.Args.Types.{Args, defaults, pos}
use onyx_engine.Engine.Types.{Slot}
use onyx_engine.Engine.Emit.Account.{tally}
use onyx_engine.Engine.Batch.{build_batch}
use onyx_engine.Engine.Batch.Progress.{remaining}
use onyx_engine.Engine.Decode.{count_busy}
use onyx_engine.Engine.Decode.Account.{IsLoyal, all_held}
use onyx_engine.Engine.Llama.{Llama}
use onyx_engine.Engine.Loop.{Engine, tick}
use onyx_engine.Engine.Loop.Total.{tick-ne-none}
use onyx_engine.Engine.Load.{
  Host, Started, Loaded, load_failed, loaded, new_slot, new_slots, new_engine, load,
}
use onyx_engine.Engine.Load.Bounds.{RoomForAll, Compatible, load-RoomForAll, load-progress}
use onyx_engine.Engine.Run.{consume, arrive, Run, starts, arrives, consumes, ticks}
use onyx_engine.Engine.Run.Conserve.{times, Run-conserves}
use onyx_engine.Examples.Data.{toy, params, config}

abbrev begun : Engine toy
begun = new_engine toy 10 (new_slots 2 0)

abbrev asked : Engine toy
asked = (arrive toy config 7 params true true begun).0

asked-Run : Run toy config (7 ∷ []) asked
unfolding arrive onyx_engine.Engine.Run.accepted onyx_engine.Engine.Queue.any_bad new_engine
asked-Run = arrives [] begun 7 params true true (starts 10 2)

abbrev polled : Engine toy
polled = consume toy 7 true asked

ticked : (e : Engine toy) × (tick toy config polled ≡ some e)
ticked = elim (Option-cases (tick toy config polled)) [
  | inl q ↦ absurd (tick-ne-none toy config polled (omega arith) q)
  | inr (e, q) ↦ (e, q)
]

abbrev next : Engine toy
next = ticked.0

next-Run : Run toy config (7 ∷ []) next
next-Run = ticks (7 ∷ []) polled next (consumes (7 ∷ []) asked 7 true asked-Run) ticked.1

Run-conserves_example :
    All IsLoyal next.slots
    × (next.core.metrics.requests_processing ≡ count_busy next.slots)
    × ((x : ℕ)
        → tally x next.queue + all_held x next.slots + tally x next.core.finished
          ≡ times x (7 ∷ []))
Run-conserves_example = Run-conserves toy config (7 ∷ []) next next-Run

abbrev host : Host
host = record {
  Model = ℕ;
  Context = ℕ;
  bufts = (bytes "CPU", 0) ∷ [];
  cpu_buft = 0;
  hardware_concurrency = 8;
  load_model = λ path ps. some 0;
  add_bos = λ model. true;
  meta = λ model key. none;
  n_swa = λ model. 0;
  init = λ model ps. some 0;
  n_ctx = λ ctx. 4096;
  n_ctx_seq = λ ctx. 1024;
  has_memory = λ ctx. true;
  can_shift = λ ctx. true;
  swa_full = true;
  n_rs_seq = λ ctx. 0;
  probe_decodes = λ ctx. true;
  probe_removes = λ ctx. true;
  init_mmproj = λ path model n. true;
  read_file = λ path. none;
  templates_ok = λ model source. true;
  decision_ok = λ model. true;
}

abbrev args : Args
args = record defaults { n_parallel = pos 4; ctx_shift = true }

unfoldable up : Started
unfolding load
up = elim (load host args) [
  | loaded s ↦ s
  | load_failed e ↦ record {
    config = config;
    n_ctx = 0;
    n_parallel = 0;
    is_decision = false;
    decision_reuse_on = true;
    slots = [];
  }
]

load-up : load host args ≡ loaded up
unfolding up load onyx_engine.Engine.Load.Params.build_tensor_overrides
    onyx_engine.Decision.Types.onyx_decision_type_of
load-up = refl

load-RoomForAll_example : RoomForAll up × Compatible up
load-RoomForAll_example = load-RoomForAll host args (omega arith) up load-up

load-progress_example :
    ((L : Llama) (e : Engine L) → tick L up.config e ≢ none)
    × ((slots : List Slot)
        → length slots ≡ length up.slots
        → 0 < remaining slots
        → remaining (build_batch up.config slots).0 < remaining slots)
load-progress_example = load-progress host args (omega arith) up load-up
