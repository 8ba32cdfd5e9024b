-- ===== src/Server/Logprobs.antt =====
-- src/server.cpp: `chat_logprob_entry`, `chat_logprobs_content` and `legacy_logprobs`.
pub mod Offsets
use onyx_engine.Prelude.{ℕ, ◌+◌, List, [], ◌∷◌, map, length}
use onyx_engine.Prelude.Bytes.{Bytes}
use onyx_engine.Engine.Types.{ProbEntry, TokenProbs}

-- One object of the chat shape; `bytes` are those of the token's text, one number each.
pub record ChatEntry : Type 0 where
  pub token : Bytes
  pub logprob : ℕ
  pub bytes : List ℕ

chat_entry : ProbEntry → ChatEntry
chat_entry e = record { token = e.piece; logprob = e.logprob; bytes = e.piece }

unfoldable pub chat_logprob_entry : TokenProbs → ChatEntry × List ChatEntry
unfolding chat_entry
chat_logprob_entry p = (chat_entry p.sampled, map chat_entry p.top)

unfoldable pub chat_logprobs_content : List TokenProbs → List (ChatEntry × List ChatEntry)
unfolding chat_logprob_entry
chat_logprobs_content probs = map chat_logprob_entry probs

-- The flat arrays of the legacy shape. An object of `top_logprobs` is its assignments in order.
pub record LegacyLogprobs : Type 0 where
  pub tokens : List Bytes
  pub token_logprobs : List ℕ
  pub top_logprobs : List (List (Bytes × ℕ))
  pub text_offset : List ℕ

abbrev top_object : List ProbEntry → List (Bytes × ℕ)
top_object top = map (λ t. (t.piece, t.logprob)) top

-- The arrays and the new offset.
unfoldable pub legacy_logprobs : List TokenProbs → ℕ → LegacyLogprobs × ℕ
legacy_logprobs [] offset =
    (record { tokens = []; token_logprobs = []; top_logprobs = []; text_offset = [] }, offset)
legacy_logprobs (p ∷ ps) offset =
    let (rest, end) = legacy_logprobs ps (offset + length p.sampled.piece) in
    (
      record {
        tokens = p.sampled.piece ∷ rest.tokens;
        token_logprobs = p.sampled.logprob ∷ rest.token_logprobs;
        top_logprobs = top_object p.top ∷ rest.top_logprobs;
        text_offset = offset ∷ rest.text_offset;
      },
      end,
    )
