-- ===== src/Examples/Files.antt =====
-- Examples on the conversion of models and on decision requests.
use onyx_engine.Prelude.{ℕ, ◌≡◌, ◌≢◌, refl, true, false, none, some, [], ◌∷◌, ◌++◌}
use onyx_engine.Prelude.Bytes.{Bytes, bytes, eqb}
use onyx_engine.Convert.Cache.{Machine}
use onyx_engine.Convert.Resolve.{onyx_resolve_model}
use onyx_engine.Convert.Resolve.Origin.{Origin, onyx_resolve_model-Origin}
use onyx_engine.Convert.Shell.{command}
use onyx_engine.Convert.Shell.Words.{gap, sh_word, sh_active, sh_words, sh_words-command}
use onyx_engine.Decision.Escape.{onyx_decision_escape_special_tokens}
use onyx_engine.Decision.Escape.Free.{one_byte, onyx_decision_escape_special_tokens-ne-token}

abbrev quote_path : Bytes
quote_path = bytes "a'b; rm $x"

sh_words-command_example :
    sh_words gap [] (command (bytes "c.py") quote_path (bytes "o"))
    ≡ sh_word (bytes "python3")
      ∷ sh_word (bytes "c.py")
      ∷ sh_word quote_path
      ∷ sh_word (bytes "--outfile")
      ∷ sh_word (bytes "o")
      ∷ sh_word (bytes "--outtype")
      ∷ sh_word (bytes "f16")
      ∷ sh_word (bytes "2")
      ∷ sh_active 62
      ∷ sh_active 38
      ∷ sh_word (bytes "1")
      ∷ []
sh_words-command_example = sh_words-command (bytes "c.py") quote_path (bytes "o")

-- One file, a GGUF model.
abbrev machine : Machine
machine = record {
  World = ℕ;
  exists_ = λ w p. eqb p (bytes "m.gguf");
  is_regular_file = λ w p. eqb p (bytes "m.gguf");
  is_directory = λ w p. false;
  content = λ w p. none;
  files_in = λ w p. [];
  last_write_time = λ w p. none;
  file_size = λ w p. none;
  create_directories = λ w p. (w, true);
  remove = λ w p. w;
  rename = λ w p q. (w, true);
  run = λ w c. (w, ([], some 0));
  absolute = λ p. p;
  temp_suffix = λ w. [];
  script_env = none;
  executable_dir = [];
  lexically_normal = λ p. p;
  source_dir = none;
}

onyx_resolve_model-Origin_example : Origin machine 0 (bytes "m.gguf") (bytes "m.gguf")
unfolding onyx_resolve_model eqb onyx_engine.Convert.Path.extension
onyx_resolve_model-Origin_example =
    onyx_resolve_model-Origin machine 0 (bytes "m.gguf") (bytes "m.gguf") [] refl

onyx_decision_escape_special_tokens-ne-token_example :
    onyx_decision_escape_special_tokens (bytes "<<|x|>|end|>")
    ≢ bytes "<" ++ (60 ∷ 124 ∷ (bytes "x" ++ (124 ∷ 62 ∷ bytes "|end|>")))
onyx_decision_escape_special_tokens-ne-token_example =
    onyx_decision_escape_special_tokens-ne-token (bytes "<<|x|>|end|>") (bytes "<") (bytes "x")
      (bytes "|end|>") (one_byte refl)
