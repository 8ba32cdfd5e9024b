-- ===== src/Examples/Answers.antt =====
-- Examples on what the server lets in and answers.
use onyx_engine.Prelude.{
  ℕ, ◌+◌, ◌≡◌, ◌↔◌, ◌⊎◌, refl, true, false, ◌&&◌, none, some, List, [], ◌∷◌, ◌++◌, arith, length,
  take, get_elem?,
}
use onyx_engine.Prelude.Bytes.{Bytes, bytes}
use onyx_engine.Args.Types.{pos, defaults}
use onyx_engine.Engine.Types.{GenPiece, GenResult, TokenProbs, busy}
use onyx_engine.Server.Gate.{Request, ServerState, foreign_host, refusal_of}
use onyx_engine.Server.Gate.Policy.{IsOpen, IsAuthorized, refusal_of-none}
use onyx_engine.Server.Logprobs.{legacy_logprobs, chat_logprobs_content}
use onyx_engine.Server.Logprobs.Offsets.{text_of, legacy_logprobs-text_offset}
use onyx_engine.Server.Reasoning.{Render, or_tag, chosen_budget, build_reasoning_budget}
use onyx_engine.Server.Reasoning.Forced.{build_reasoning_budget-start}
use onyx_engine.Server.Stream.{stream_text}
use onyx_engine.Server.Stream.Text.{read_offsets, pieces_probs, stream_text-offsets}
use onyx_engine.Server.Stream.Closing.{ClosesWhole}
use onyx_engine.Server.Stream.Chat.{Parser, stream_chat}
use onyx_engine.Server.Stream.Chat.Order.{read_entries, count_chat_done, stream_chat-reads}
use onyx_engine.Examples.Data.{no_result}

abbrev full : GenResult
full = record no_result { error = some busy; queue_full = true }

abbrev server : ServerState
server = record { api_key = bytes "k"; loopback = true; ready = true }

abbrev asked : Request
asked = record {
  method = bytes "POST";
  path = bytes "/v1/completions";
  request_id = [];
  has_origin = false;
  host = some (bytes "localhost:8080");
  authorization = bytes "Bearer k";
}

refusal_of-none_example : (refusal_of server asked ≡ none) ↔ (
    (asked.has_origin ≡ false)
    × ((server.loopback && foreign_host asked.host) ≡ false)
    × (IsOpen asked ⊎ (IsAuthorized server asked × (server.ready ≡ true))))
refusal_of-none_example = refusal_of-none server asked

abbrev entry : Bytes → TokenProbs
entry text = record {
  sampled = record { token = 5; piece = text; logprob = 0 };
  top = record { token = 5; piece = text; logprob = 0 } ∷ [];
}

abbrev entries : List TokenProbs
entries = entry (bytes "ab") ∷ entry (bytes "c") ∷ entry (bytes "d") ∷ []

legacy_logprobs-text_offset_example :
    get_elem? (legacy_logprobs entries 4).0.text_offset 2
    ≡ some (4 + length (text_of (take 2 entries)))
legacy_logprobs-text_offset_example = legacy_logprobs-text_offset entries 4 2 (omega arith)

abbrev render : Render
render = record {
  thinking_start_tag = [];
  thinking_end_tag = [];
  prompt = bytes "Assistant:<think>";
}

build_reasoning_budget-start_example :
    ((build_reasoning_budget (λ s. s) (some (pos 8)) defaults render).start_in_prompt ≡ true) ↔ (
      ((n : ℕ) × (chosen_budget defaults (some (pos 8)) ≡ pos n))
      × ((u : Bytes) × (render.prompt ≡ u ++ or_tag render.thinking_start_tag (bytes "<think>"))))
build_reasoning_budget-start_example =
    build_reasoning_budget-start (λ s. s) (some (pos 8)) defaults render

abbrev pieces : List GenPiece
pieces =
    record { text = bytes "ab"; probs = entry (bytes "ab") ∷ [] }
    ∷ record { text = []; probs = [] }
    ∷ record { text = bytes "c"; probs = entry (bytes "c") ∷ [] }
    ∷ []

stream_text-offsets_example :
    read_offsets (stream_text true true false [] [] pieces no_result (λ n. true)).0.written
    ≡ (legacy_logprobs (pieces_probs pieces) 0).0.text_offset
stream_text-offsets_example = stream_text-offsets true false [] [] pieces no_result (λ n. true)

-- A parser that hands on how long the text is.
abbrev parser : Parser
parser = record {
  State = ℕ;
  Delta = ℕ;
  make = 0;
  update = λ s text partial. (length text, some (length text ∷ []));
  has_tool_calls = λ s. false;
}

stream_chat-reads_example :
    (read_entries
        (stream_chat parser true true false [] [] pieces no_result (λ n. true)).0.sink.written
      ≡ chat_logprobs_content (pieces_probs pieces))
    × ClosesWhole false no_result (
        count_chat_done
          (stream_chat parser true true false [] [] pieces no_result (λ n. true)).0.sink.written)
stream_chat-reads_example =
    stream_chat-reads parser true false [] [] pieces no_result (λ n. true) refl
