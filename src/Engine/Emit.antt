-- ===== src/Engine/Emit.antt =====
-- src/engine.cpp: `collect_delivered_probs`, `onyx_engine::emit`, `onyx_engine::finish` and
-- `onyx_engine::on_sampled`. Each takes the slot and the request that `slot.req` points to, and
-- returns the slot with the request in it, or hands a finished request over to `Core.finished`.
pub mod Stops
pub mod Heard
pub mod Streaming
pub mod Identity
pub mod Account
use onyx_engine.Prelude.{
  ℕ, suc, ◌+◌, ◌-◌, ◌%◌, ◌^◌, max, Bool, true, false, not, ◌&&◌, Option, none, some, List, [], ◌∷◌,
  ◌++◌, length, take, drop, contains, leb, ltb, ◌==◌, if◌then◌else◌,
}
use onyx_engine.Prelude.Bytes.{Bytes, find_from}
use onyx_engine.Engine.Types.{
  GenParams, GenRequest, GenResult, GenPiece, GenError, FinishReason, stop_reason, cancel_reason,
  TokenProbs, Slot, idle, rb_off, Metrics,
}
use onyx_engine.Engine.Llama.{Llama}
use onyx_engine.Engine.Holdback.{stop_holdback}

-- What the slots share and the engine thread alone writes. `finished` lists the requests whose
-- `finished` flag was set and whose caller was notified, the latest first.
pub record Core (L : Llama) : Type 0 where
  pub world : L.World
  pub tick : ℕ
  pub metrics : Metrics
  pub finished : List GenRequest

-- uint64_t arithmetic.
abbrev pub u64 : ℕ → ℕ
u64 n = n % 2 ^ 64

-- The loop of `collect_delivered_probs` over the entries not sent yet: those whose text ends within
-- the first `limit` bytes, and how many bytes are covered then.
collect : ℕ → List TokenProbs → ℕ → List TokenProbs × ℕ
collect limit [] covered = ([], covered)
collect limit (p ∷ ps) covered =
    let next = covered + length p.sampled.piece in
    let rest = collect limit ps next in
    if ltb limit next then ([], covered) else (p ∷ rest.0, rest.1)

unfoldable pub collect_delivered_probs : Slot → GenResult → Slot × List TokenProbs
unfolding collect
collect_delivered_probs slot res =
    let (out, covered) =
      collect slot.n_sent (drop slot.n_probs_sent res.probs) slot.probs_covered_bytes in
    (
      record slot { n_probs_sent = slot.n_probs_sent + length out; probs_covered_bytes = covered },
      out,
    )

unfoldable pub emit : GenRequest → Bytes → List TokenProbs → GenRequest
emit req piece probs = record req {
  pieces = req.pieces ++ (record { text = piece; probs = probs } ∷ []);
}

-- A released slot; its cache and `n_past` stay.
unfoldable pub release : Slot → ℕ → Slot
release slot tick = record slot {
  req = none;
  state = idle;
  has_media = false;
  prompt = [];
  i_batch = none;
  n_sent = 0;
  n_probs_sent = 0;
  probs_covered_bytes = 0;
  rb_state = rb_off;
  rb_count = 0;
  rb_forced_idx = 0;
  rb_start_match = 0;
  rb_end_match = 0;
  t_prompt = 0;
  t_last_used = tick;
}

abbrev pub or_error : Option GenError → Option GenError → Option GenError
or_error none old = old
or_error (some e) old = some e

abbrev pub is_none {ℓ} : {A : Type ℓ} → Option A → Bool
is_none none = true
is_none (some a) = false

abbrev is_cancel : FinishReason → Bool
is_cancel cancel_reason = true
is_cancel _ = false

-- The result's verdict and times; `(slot, res)` with `slot.t_prompt` set.
pub stamp : Slot → GenResult → FinishReason → Option GenError → ℕ → Slot × GenResult
stamp slot res reason error now =
    let res' = record res { finish = reason; error = or_error error res.error } in
    if slot.t_prompt == 0
    then (
      record slot { t_prompt = now },
      record res' { t_prompt_us = now - slot.t_start; t_predict_us = now - now },
    )
    else (slot, record res' { t_predict_us = now - slot.t_prompt })

count_finished : Metrics → Slot → GenResult → Metrics
count_finished m slot res = record m {
  prompt_tokens = u64 (m.prompt_tokens + (res.n_prompt - res.n_cached));
  prompt_us = m.prompt_us + res.t_prompt_us;
  predicted_tokens = u64 (m.predicted_tokens + res.n_predicted);
  predicted_us = m.predicted_us + res.t_predict_us;
  n_tokens_max = max m.n_tokens_max slot.n_past;
  requests_processing = m.requests_processing - 1;
}

-- The last piece: the text kept back, unless the request failed or was cancelled.
owes : Slot → GenRequest → FinishReason → Bool
owes slot req reason =
    req.wants_pieces
    && is_none req.result.error
    && not (is_cancel reason)
    && ltb slot.n_sent (length req.result.text)

pub flush : Slot → GenRequest → FinishReason → GenRequest
unfolding collect_delivered_probs
flush slot req reason =
    let slot' = record slot { n_sent = length req.result.text } in
    if owes slot req reason
    then emit req (drop slot.n_sent req.result.text) (collect_delivered_probs slot' req.result).1
    else req

-- The keep loop for a text cut at `pos`: entries up to the first that reaches beyond it.
trim_probs : ℕ → ℕ → List TokenProbs → List TokenProbs
trim_probs pos cum [] = []
trim_probs pos cum (p ∷ ps) =
    let next = cum + length p.sampled.piece in
    let rest = trim_probs pos next ps in if ltb pos next then [] else p ∷ rest

-- The stop loop: the first stop word of the list that stands in the text, and where.
unfoldable pub first_stop : Bytes → ℕ → List Bytes → Option (Bytes × ℕ)
first_stop text n_sent [] = none
first_stop text n_sent (stop ∷ stops) =
    elim (find_from stop text (if ltb (length stop) n_sent then n_sent - length stop else 0)) [
      | some pos ↦ some (stop, pos)
      | none ↦ first_stop text n_sent stops
    ]

cut : GenResult → Bytes → ℕ → GenResult
unfolding trim_probs
cut res stop pos = record res {
  text = take pos res.text;
  stopping_word = stop;
  probs = trim_probs pos 0 res.probs;
}

-- The streaming block: what is neither sent nor kept back goes out.
release_text : Slot → GenRequest → Slot × GenRequest
unfolding collect_delivered_probs
release_text slot req =
    let end = length req.result.text - stop_holdback req.result.text req.params.stop in
    let slot' = record slot { n_sent = end } in
    let (slot'', out) = collect_delivered_probs slot' req.result in
    if req.wants_pieces && ltb slot.n_sent end
    then (slot'', emit req (take (end - slot.n_sent) (drop slot.n_sent req.result.text)) out)
    else (slot, req)

append_piece : GenResult → Bytes → Option TokenProbs → GenResult
append_piece res piece none = record res { text = res.text ++ piece }
append_piece res piece (some p) = record res {
  text = res.text ++ piece;
  probs = res.probs ++ p ∷ [];
}

module _ (L : Llama) where
  unfoldable pub finish :
      Core L → Slot → GenRequest → FinishReason → Option GenError → Core L × Slot
  unfolding stamp count_finished flush owes release
  finish core slot req reason error =
      let (slot', res) = stamp slot req.result reason error (L.now core.world) in
      let req' = flush slot' (record req { result = res }) reason in
      (
        record core {
          tick = u64 (core.tick + 1);
          metrics = count_finished core.metrics slot' res;
          finished = record req' { smpl = false; finished = true } ∷ core.finished;
        },
        release slot' (u64 (core.tick + 1)),
      )

  on_stop : Core L → Slot → GenRequest → Option (Bytes × ℕ) → Core L × Slot
  unfolding cut release_text
  on_stop core slot req (some (stop, pos)) =
      finish core slot (record req { result = cut req.result stop pos }) stop_reason none
  on_stop core slot req none =
      let (slot', req') = release_text slot req in (core, record slot' { req = some req' })

  unfoldable pub on_sampled : Core L → Slot → GenRequest → Option TokenProbs → Core L × Slot
  unfolding append_piece on_stop
  on_sampled core slot req probs =
      if L.is_eog slot.sampled
      then finish core slot req stop_reason none
      else (let piece =
            L.token_to_piece slot.sampled (contains req.params.preserved_tokens slot.sampled) in
          let req' = record req { result = append_piece req.result piece probs } in
          on_stop core slot req' (first_stop req'.result.text slot.n_sent req.params.stop))
