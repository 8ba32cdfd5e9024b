-- ===== src/Server/Logprobs/Offsets.antt =====
-- The offsets of the legacy logprobs (src/server.cpp).
use onyx_engine.Prelude.{
  ℕ, zero, suc, ◌<◌, length-append, ◌+◌, ◌≡◌, refl, ap, ◌∙◌, List, [], ◌∷◌, ◌++◌, length, take,
  get_elem?, some, arith,
}
use onyx_engine.Prelude.Bytes.{Bytes}
use onyx_engine.Engine.Types.{TokenProbs}
use onyx_engine.Server.Logprobs.{LegacyLogprobs, legacy_logprobs}

abbrev both : LegacyLogprobs → LegacyLogprobs → LegacyLogprobs
both a b = record {
  tokens = a.tokens ++ b.tokens;
  token_logprobs = a.token_logprobs ++ b.token_logprobs;
  top_logprobs = a.top_logprobs ++ b.top_logprobs;
  text_offset = a.text_offset ++ b.text_offset;
}

-- The logprobs of a stream's frames, each begun where the last one ended, are those of one answer.
pub legacy_logprobs-append :
    (ps qs : List TokenProbs) (offset : ℕ)
    → legacy_logprobs (ps ++ qs) offset ≡ (
      both (legacy_logprobs ps offset).0 (legacy_logprobs qs (legacy_logprobs ps offset).1).0,
      (legacy_logprobs qs (legacy_logprobs ps offset).1).1,
    )
unfolding legacy_logprobs
legacy_logprobs-append [] qs offset = refl
legacy_logprobs-append (p ∷ ps) qs offset =
    rw (legacy_logprobs-append ps qs (offset + length p.sampled.piece)) refl

-- The text of some entries.
unfoldable pub text_of : List TokenProbs → Bytes
text_of [] = []
text_of (p ∷ ps) = p.sampled.piece ++ text_of ps

pub length-text_of :
    (ps : List TokenProbs) (offset : ℕ)
    → (legacy_logprobs ps offset).1 ≡ offset + length (text_of ps)
unfolding legacy_logprobs text_of
length-text_of [] offset = omega arith
length-text_of (p ∷ ps) offset = omega (
  arith,
  length-text_of ps (offset + length p.sampled.piece),
  length-append p.sampled.piece (text_of ps),
)

-- Each entry's offset is where its token's text begins: behind the text of the entries before it,
-- counted from the given offset.
pub legacy_logprobs-text_offset :
    (ps : List TokenProbs) (offset i : ℕ)
    → i < length ps
    → get_elem? (legacy_logprobs ps offset).0.text_offset i
      ≡ some (offset + length (text_of (take i ps)))
unfolding legacy_logprobs text_of
legacy_logprobs-text_offset [] offset i h = absurd (omega arith)
legacy_logprobs-text_offset (p ∷ ps) offset zero h = ap some (omega arith)
legacy_logprobs-text_offset (p ∷ ps) offset (suc i) h =
    legacy_logprobs-text_offset ps (offset + length p.sampled.piece) i (omega arith)
    ∙ ap some (omega (arith, length-append p.sampled.piece (text_of (take i ps))))
