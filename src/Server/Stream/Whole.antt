-- ===== src/Server/Stream/Whole.antt =====
-- From the sampled token (src/engine.cpp) to the client of /v1/completions (src/server.cpp).
use onyx_engine.Prelude.{ℕ, ◌≡◌, Bool, true, ◌++◌}
use onyx_engine.Prelude.Bytes.{Bytes}
use onyx_engine.Engine.Types.{GenRequest}
use onyx_engine.Engine.Llama.{Llama}
use onyx_engine.Server.Stream.{stream_text}
use onyx_engine.Server.Stream.Text.{read_text}

-- If the client wants pieces, the frames of the pieces that its callback was given, and of those that
-- wait for it, carry the text of the result.
abbrev pub ReadsAll : GenRequest → Type 0
ReadsAll req =
    req.wants_pieces ≡ true
    → (want usage json : Bool) (message truncated : Bytes) (takes : ℕ → Bool)
    → read_text
        (stream_text want usage json message truncated (req.delivered ++ req.pieces) req.result
          takes).0.written
      ≡ req.result.text
