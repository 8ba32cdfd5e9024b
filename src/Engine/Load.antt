-- ===== src/Engine/Load.antt =====
-- src/engine.cpp: `onyx_engine::load`, with `onyx_probe_seq_rm` of src/llama_util.cpp. What llama.cpp,
-- mtmd, the file system and the other classes answer is the record `Host`.
pub mod Params
pub mod Bounds
use onyx_engine.Prelude.{
  ℕ, zero, suc, ◌+◌, ◌*◌, min, max, Bool, true, false, not, ◌&&◌, ◌||◌, Option, none, some, List,
  [], ◌∷◌, ltb, ◌==◌, if◌then◌else◌,
}
use onyx_engine.Prelude.Bytes.{Bytes, bytes, eqb, find_from}
use onyx_engine.Args.Types.{ℤ, pos, negsuc, above, at_least_zero, Args}
use onyx_engine.Decision.Types.{
  DecisionType, no_decision, onyx_decision_type_of, onyx_decision_reads_embeddings,
}
use onyx_engine.Engine.Types.{
  Config, Slot, idle, rb_off, Metrics, SeqRmKind, rm_none, rm_partial, rm_full, rm_bounded,
}
use onyx_engine.Engine.Llama.{Llama}
use onyx_engine.Engine.Emit.{Core}
use onyx_engine.Engine.Loop.{Engine}
use onyx_engine.Engine.Queue.{is_empty}
use onyx_engine.Engine.Load.Params.{
  Overrides, unknown_buft, overrides, build_tensor_overrides, ModelParams, model_params,
  ContextParams, context_params, slots_wanted,
}

pub record Host : Type 1 where
  pub Model : Type 0
  pub Context : Type 0
  -- the buffer types of the devices by name, and the host's
  pub bufts : List (Bytes × ℕ)
  pub cpu_buft : ℕ
  pub hardware_concurrency : ℕ
  -- llama_model_load_from_file, llama_vocab_get_add_bos, llama_model_meta_val_str, llama_model_n_swa
  pub load_model : Bytes → ModelParams → Option Model
  pub add_bos : Model → Bool
  pub meta : Model → Bytes → Option Bytes
  pub n_swa : Model → ℕ
  -- llama_init_from_model, llama_n_ctx, llama_n_ctx_seq; whether it has a memory, and one that shifts
  pub init : Model → ContextParams → Option Context
  pub n_ctx : Context → ℕ
  pub n_ctx_seq : Context → ℕ
  pub has_memory : Context → Bool
  pub can_shift : Context → Bool
  -- `swa_full` of llama_context_default_params
  pub swa_full : Bool
  -- llama_n_rs_seq; the two tokens of the probe are decoded; the first of them is kept alone
  pub n_rs_seq : Context → ℕ
  pub probe_decodes : Context → Bool
  pub probe_removes : Context → Bool
  -- mtmd_init_from_file gives a context
  pub init_mmproj : Bytes → Model → ℕ → Bool
  -- the text of a file
  pub read_file : Bytes → Option Bytes
  -- the constructor of `onyx_chat_templates` and `onyx_decision::init` do not throw
  pub templates_ok : Model → Bytes → Bool
  pub decision_ok : Model → Bool

-- One constructor for each text of `load_error_`.
pub data LoadError : Type 0 where
  unknown_buffer_type model_failed embedding_of_decision context_failed : LoadError
  mmproj_failed template_not_jinja template_unreadable template_failed decision_failed : LoadError

pub record Started : Type 0 where
  pub config : Config
  pub n_ctx : ℕ
  pub n_parallel : ℕ
  pub is_decision : Bool
  pub decision_reuse_on : Bool
  pub slots : List Slot

pub data Loaded : Type 0 where
  load_failed : LoadError → Loaded
  loaded : Started → Loaded

-- A default `onyx_slot` with its sequence.
abbrev pub new_slot : ℕ → Slot
new_slot i = record {
  seq_id = i;
  state = idle;
  req = none;
  cache_tokens = [];
  prompt = [];
  has_media = false;
  n_past = 0;
  i_batch = none;
  sampled = 0;
  n_sent = 0;
  t_last_used = 0;
  t_start = 0;
  t_prompt = 0;
  n_probs_sent = 0;
  probs_covered_bytes = 0;
  rb_state = rb_off;
  rb_count = 0;
  rb_forced_idx = 0;
  rb_start_match = 0;
  rb_end_match = 0;
}

-- `for (i = 0; i < n_parallel_; i++)`, by the rounds left.
unfoldable pub new_slots : ℕ → ℕ → List Slot
new_slots zero i = []
new_slots (suc rounds) i = new_slot i ∷ new_slots rounds (i + 1)

abbrev pub new_metrics : Metrics
new_metrics = record {
  prompt_tokens = 0;
  prompt_us = 0;
  predicted_tokens = 0;
  predicted_us = 0;
  n_decode = 0;
  n_busy_slots = 0;
  n_tokens_max = 0;
  requests_rejected = 0;
  requests_timed_out = 0;
  requests_processing = 0;
}

-- The engine that the loop thread starts with.
unfoldable pub new_engine : (L : Llama) → L.World → List Slot → Engine L
new_engine L world slots = record {
  core = record { world = world; tick = 0; metrics = new_metrics; finished = [] };
  slots = slots;
  queue = [];
}

-- `--chat-template` takes Jinja source or "chatml".
unfoldable pub template_refused : Bytes → Bool
template_refused [] = false
template_refused (c ∷ source) =
    not (eqb (c ∷ source) (bytes "chatml"))
    && is_absent (find_from (bytes "{{") (c ∷ source) 0)
    && is_absent (find_from (bytes "{%") (c ∷ source) 0)
  where
    is_absent : Option ℕ → Bool
    is_absent none = true
    is_absent (some i) = false

module _ (H : Host) where
  unfoldable pub onyx_probe_seq_rm : H.Context → SeqRmKind
  onyx_probe_seq_rm ctx =
      if not (H.has_memory ctx)
      then rm_none
      else if ltb 0 (H.n_rs_seq ctx)
      then rm_bounded
      else if not (H.probe_decodes ctx)
      then rm_none
      else if H.probe_removes ctx
      then rm_partial
      else rm_full

  -- The configuration behind `llama_init_from_model` and the projector.
  unfoldable pub config_of : Args → H.Model → H.Context → ContextParams → Bool → Config
  unfolding onyx_probe_seq_rm
  config_of args model ctx cparams is_decision =
      let has_mmproj = not (is_empty args.mmproj_path) in
      record {
        embedding_mode = args.embedding;
        has_mmproj = has_mmproj;
        n_ctx_slot = H.n_ctx_seq ctx;
        n_batch = cparams.n_batch;
        tick_tokens =
            if above args.tick_tokens 0
            then min (at_least_zero args.tick_tokens) cparams.n_batch
            else 0;
        max_queue = at_least_zero args.max_queue;
        queue_timeout_us = at_least_zero args.queue_timeout * 1000000;
        n_swa = if H.swa_full then 0 else H.n_swa model;
        cache_reuse = if has_mmproj then 0 else at_least_zero args.cache_reuse;
        ctx_shift =
            args.ctx_shift
            && not args.embedding
            && not is_decision
            && not has_mmproj
            && H.has_memory ctx
            && H.can_shift ctx;
        n_keep = elim args.n_keep [ pos n ↦ some n | negsuc n ↦ none ];
        add_bos = H.add_bos model;
        seq_rm = if args.embedding || is_decision then rm_none else onyx_probe_seq_rm ctx;
      }

  -- The template to use, or what is wrong with it.
  unfoldable pub template_override : Args → Option Bytes × LoadError
  unfolding template_refused
  template_override args =
      if template_refused args.chat_template
      then (none, template_not_jinja)
      else if is_empty args.chat_template_file
      then (some args.chat_template, template_unreadable)
      else (H.read_file args.chat_template_file, template_unreadable)

  -- The end of `load`: a decision model has no slots and no loop, an embedding engine neither.
  start : Args → H.Model → H.Context → ContextParams → Bool → Loaded
  unfolding config_of new_slots
  start args model ctx cparams is_decision =
      let n_parallel = slots_wanted args is_decision in
      let c = config_of args model ctx cparams is_decision in
      let slots = if args.embedding || is_decision then [] else new_slots n_parallel 0 in
      if is_decision && not (H.decision_ok model)
      then load_failed decision_failed
      else loaded (record {
        config = c;
        n_ctx = H.n_ctx ctx;
        n_parallel = n_parallel;
        is_decision = is_decision;
        decision_reuse_on = not is_decision || above args.cache_reuse 0;
        slots = slots;
      })

  with_template :
      Args → H.Model → H.Context → ContextParams → Bool → Option Bytes × LoadError → Loaded
  unfolding start
  with_template args model ctx cparams is_decision (none, error) = load_failed error
  with_template args model ctx cparams is_decision (some source, error) =
      if H.templates_ok model source
      then start args model ctx cparams is_decision
      else load_failed template_failed

  with_context : Args → H.Model → ContextParams → Bool → Option H.Context → Loaded
  unfolding with_template template_override
  with_context args model cparams is_decision none = load_failed context_failed
  with_context args model cparams is_decision (some ctx) =
      if not (is_empty args.mmproj_path)
        && not (H.init_mmproj args.mmproj_path model cparams.n_threads)
      then load_failed mmproj_failed
      else with_template args model ctx cparams is_decision (template_override args)

  abbrev pub is_decision_type : DecisionType → Bool
  is_decision_type no_decision = false
  is_decision_type _ = true

  with_model : Args → Option H.Model → Loaded
  unfolding with_context
  with_model args none = load_failed model_failed
  with_model args (some model) =
      let type = onyx_decision_type_of (H.meta model) in
      let is_decision = is_decision_type type in
      let cparams =
        context_params args H.hardware_concurrency is_decision
          (onyx_decision_reads_embeddings type) in
      if is_decision && args.embedding
      then load_failed embedding_of_decision
      else with_context args model cparams is_decision (H.init model cparams)

  with_overrides : Args → Overrides → Loaded
  unfolding with_model
  with_overrides args (unknown_buft name) = load_failed unknown_buffer_type
  with_overrides args (overrides patterns) =
      with_model args (H.load_model args.model_path (model_params args patterns))

  unfoldable pub load : Args → Loaded
  unfolding with_overrides
  load args = with_overrides args (build_tensor_overrides H.bufts H.cpu_buft args)
