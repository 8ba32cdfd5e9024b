-- ===== src/Engine/Holdback.antt =====
-- src/engine.cpp: `stop_holdback`, the text that is kept back from a streaming client.
pub mod Laws
use onyx_engine.Prelude.{
  ℕ, zero, suc, ◌+◌, ◌-◌, ◌%◌, ◌^◌, min, List, [], ◌∷◌, length, take, drop, leb, if◌then◌else◌,
}
use onyx_engine.Prelude.Bytes.{Bytes, eqb}

-- The inner loop: `k` falls from `max_k` while `k > hold`; the first suffix of `text` that is the
-- beginning of `stop` sets `hold` and ends the loop.
scan : Bytes → Bytes → ℕ → ℕ → ℕ
scan text stop zero hold = hold
scan text stop (suc k) hold =
    let rest = scan text stop k hold in
    if leb (suc k) hold
    then hold
    else if eqb (drop (length text - suc k) text) (take (suc k) stop)
    then suc k
    else rest

-- `stop.size() - 1` is a `size_t`: it wraps for an empty stop word.
max_k : Bytes → Bytes → ℕ
max_k text stop = min (length text) ((length stop + (2 ^ 64 - 1)) % 2 ^ 64)

holdback_from : Bytes → List Bytes → ℕ → ℕ
unfolding scan max_k
holdback_from text [] hold = hold
holdback_from text (stop ∷ stops) hold =
    holdback_from text stops (scan text stop (max_k text stop) hold)

pub stop_holdback : Bytes → List Bytes → ℕ
stop_holdback text stops = holdback_from text stops 0
