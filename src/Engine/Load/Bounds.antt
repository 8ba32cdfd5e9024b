-- ===== src/Engine/Load/Bounds.antt =====
-- What a successful `onyx_engine::load` (src/engine.cpp) guarantees to the loop.
use onyx_engine.Prelude.{
  ℕ, zero, suc, ◌+◌, ◌%◌, ◌^◌, ◌≤◌, ◌<◌, ◌≡◌, ◌≢◌, refl, Bool, true, false, not, ◌&&◌, ◌||◌, Option,
  none, some, List, [], length, get_elem?, if_both, arith, subst, ap, ◌∙◌,
}
use onyx_engine.Prelude.Bytes.{Bytes}
use onyx_engine.Args.Types.{ℤ, Args, above, at_least_zero, next_i32}
use onyx_engine.Decision.Types.{onyx_decision_type_of}
use onyx_engine.Engine.Types.{Slot}
use onyx_engine.Engine.Llama.{Llama}
use onyx_engine.Engine.Queue.{is_empty}
use onyx_engine.Engine.Batch.{build_batch}
use onyx_engine.Engine.Batch.Progress.{remaining, build_batch-remaining}
use onyx_engine.Engine.Loop.{Engine, tick}
use onyx_engine.Engine.Loop.Total.{tick-ne-none}
use onyx_engine.Engine.Load.Params.{
  Overrides, unknown_buft, overrides, build_tensor_overrides, context_params, slots_wanted,
  batch_size,
}
use onyx_engine.Engine.Load.{
  Host, LoadError, Started, Loaded, load_failed, loaded, new_slot, new_slots, config_of,
  template_override, start, with_template, with_context, is_decision_type, with_model,
  with_overrides, load,
}

-- The slots are numbered by their sequences and hold nothing.
pub new_slots-at : (n i k : ℕ) → k < n → get_elem? (new_slots n i) k ≡ some (new_slot (i + k))
unfolding new_slots
new_slots-at zero i k h = absurd (omega arith)
new_slots-at (suc n) i zero h = ap (λ (j : ℕ). some (new_slot j)) (omega arith)
new_slots-at (suc n) i (suc k) h =
    new_slots-at n (i + 1) k (omega arith) ∙ ap (λ (j : ℕ). some (new_slot j)) (omega arith)

length-new_slots : (n i : ℕ) → length (new_slots n i) ≡ n
unfolding new_slots
length-new_slots zero i = refl
length-new_slots (suc n) i = ap suc (length-new_slots n (i + 1))

-- There is a slot, each slot has a row of a batch and one row is left over; a tick's budget is at
-- most a batch.
unfoldable pub RoomForAll : Started → Type 0
RoomForAll s =
    (1 ≤ s.n_parallel)
    × (s.n_parallel < s.config.n_batch)
    × (s.config.tick_tokens ≤ s.config.n_batch)
    × (length s.slots ≤ s.n_parallel)

-- What cannot go together with a projector or embeddings is off.
unfoldable pub Compatible : Started → Type 0
Compatible s =
    (s.config.has_mmproj ≡ true → (s.config.cache_reuse ≡ 0) × (s.config.ctx_shift ≡ false))
    × (s.config.embedding_mode ≡ true → (s.slots ≡ []) × (s.config.ctx_shift ≡ false))

shift_off : (a b c m x y : Bool) → m ≡ true → (a && not b && not c && not m && x && y) ≡ false
shift_off a b c m x y e = ground arith

shift_embedding : (a b c m x y : Bool) → b ≡ true → (a && not b && not c && not m && x && y) ≡ false
shift_embedding a b c m x y e = ground arith

-- Below the greatest `int32_t` the sum does not wrap.
next_i32-fits : (n : ℕ) → n + 1 < 2 ^ 31 → next_i32 n ≡ n + 1
unfolding next_i32
next_i32-fits n h = ground (arith, small)
  where
    small : (n + 1) % 2 ^ 32 ≡ n + 1
    small = omega arith

batch_size-room : (z : ℤ) (n : ℕ) → n + 1 < 2 ^ 31 → n < batch_size z n
batch_size-room z n h = omega (arith, next_i32-fits n h)

loaded-injective : (s s' : Started) → loaded s ≡ loaded s' → s ≡ s'
loaded-injective s s' e = cc

-- Only the greatest number of the type does not fit with one more.
slots_wanted-fits :
    (args : Args) (d : Bool)
    → at_least_zero args.n_parallel + 1 < 2 ^ 31
    → slots_wanted args d + 1 < 2 ^ 31
unfolding slots_wanted
slots_wanted-fits args d h =
    if_both (λ (n : ℕ). n + 1 < 2 ^ 31) (args.embedding || d) (omega arith) (omega arith)

module _ (H : Host) (args : Args) (fits : at_least_zero args.n_parallel + 1 < 2 ^ 31) where
  abbrev Sound : Loaded → Type 0
  Sound l = (s : Started) → l ≡ loaded s → RoomForAll s × Compatible s

  fails-Sound : (error : LoadError) → Sound (load_failed error)
  fails-Sound error s e = absurd (cc)

  slots_wanted-pos : (d : Bool) → 1 ≤ slots_wanted args d
  unfolding slots_wanted
  slots_wanted-pos d = if_both (λ (n : ℕ). 1 ≤ n) (args.embedding || d) (omega arith) (omega arith)

  start-Sound :
      (model : H.Model) (ctx : H.Context) (d r : Bool)
      → Sound (start H args model ctx (context_params args H.hardware_concurrency d r) d)
  unfolding start config_of context_params RoomForAll Compatible
  start-Sound model ctx d r = if_both Sound (d && not (H.decision_ok model)) (fails-Sound _) (λ s e.
      subst (λ (s' : Started). RoomForAll s' × Compatible s') (loaded-injective _ s e)
        (
          (
            slots_wanted-pos d,
            batch_size-room args.n_batch (slots_wanted args d) (slots_wanted-fits args d fits),
            if_both (λ (n : ℕ). n ≤ batch_size args.n_batch (slots_wanted args d))
                (above args.tick_tokens 0) (omega arith) (omega arith),
            if_both (λ (ss : List Slot). length ss ≤ slots_wanted args d) (args.embedding || d)
                (omega arith) (omega (arith, length-new_slots (slots_wanted args d) 0)),
          ),
          (
            λ h. (
              rw (h) refl,
              shift_off args.ctx_shift args.embedding d _ (H.has_memory ctx) (H.can_shift ctx) h,
            ),
            λ h. (
              rw (h) refl,
              shift_embedding args.ctx_shift args.embedding d _ (H.has_memory ctx) (H.can_shift ctx)
                  h,
            ),
          ),
        ))

  with_template-Sound :
      (model : H.Model) (ctx : H.Context) (d r : Bool) (o : Option Bytes × LoadError)
      → Sound (with_template H args model ctx (context_params args H.hardware_concurrency d r) d o)
  unfolding with_template
  with_template-Sound model ctx d r (none, error) = fails-Sound error
  with_template-Sound model ctx d r (some source, error) =
      if_both Sound (H.templates_ok model source) (start-Sound model ctx d r) (fails-Sound _)

  with_context-Sound :
      (model : H.Model) (d r : Bool) (o : Option H.Context)
      → Sound (with_context H args model (context_params args H.hardware_concurrency d r) d o)
  unfolding with_context
  with_context-Sound model d r none = fails-Sound _
  with_context-Sound model d r (some ctx) =
      if_both Sound
        (not (is_empty args.mmproj_path)
          && not (
              H.init_mmproj args.mmproj_path model
                (context_params args H.hardware_concurrency d r).n_threads))
        (fails-Sound _) (with_template-Sound model ctx d r (template_override H args))

  with_model-Sound : (o : Option H.Model) → Sound (with_model H args o)
  unfolding with_model
  with_model-Sound none = fails-Sound _
  with_model-Sound (some model) =
      if_both Sound (is_decision_type H (onyx_decision_type_of (H.meta model)) && args.embedding)
        (fails-Sound _) (with_context-Sound model _ _ _)

  with_overrides-Sound : (o : Overrides) → Sound (with_overrides H args o)
  unfolding with_overrides
  with_overrides-Sound (unknown_buft name) = fails-Sound _
  with_overrides-Sound (overrides patterns) = with_model-Sound _

  -- If the number of parallel places is below the greatest `int32_t`, then whatever else the command
  -- line says and llama.cpp answers, an engine that loads has at least one
  -- parallel place, a batch with room for one row of each and one more, a tick budget of at most a
  -- batch, and no more slots than places; with a projector neither prefix reuse nor context shift
  -- is on, and with embeddings there are no slots and no context shift.
  pub load-RoomForAll : (s : Started) → load H args ≡ loaded s → RoomForAll s × Compatible s
  unfolding load
  load-RoomForAll = with_overrides-Sound (build_tensor_overrides H.bufts H.cpu_buft args)

  -- If the number of parallel places is below the greatest `int32_t`, then a loop that runs with the
  -- configuration of a successful load makes progress: each tick ends,
  -- whatever the engine's state and llama.cpp's answers, and for as many slots as were loaded, each
  -- batch that is built while a prompt has tokens left to evaluate leaves fewer of them.
  pub load-progress :
      (s : Started)
      → load H args ≡ loaded s
      → ((L : Llama) (e : Engine L) → tick L s.config e ≢ none)
        × ((slots : List Slot)
            → length slots ≡ length s.slots
            → 0 < remaining slots
            → remaining (build_batch s.config slots).0 < remaining slots)
  unfolding RoomForAll
  load-progress s e =
      let (room, compatible) = load-RoomForAll s e in
      let (some_place, rows, budget, places) = room in
      (
        λ L e. tick-ne-none L s.config e (omega arith),
        λ slots same left. build_batch-remaining s.config slots (omega arith) left,
      )
