-- ===== src/Convert/Shell/Words.antt =====
-- The words that a POSIX shell makes of the command line of `run_converter` (src/convert.cpp).
use onyx_engine.Prelude.{
  ℕ, ◌≡◌, refl, sym, ap, ◌∙◌, inl, inr, true, List, [], ◌∷◌, ◌++◌, append_assoc, append-nil, Bool,
  ◌||◌, ◌==◌, if◌then◌else◌, Bool-cases, ==_iff,
}
use onyx_engine.Prelude.Lists.{contains}
use onyx_engine.Prelude.Bytes.{Bytes, bytes}
use onyx_engine.Convert.Shell.{quote_body, shquote, command}

-- Where the shell stands: between two words, in one, in one behind a single quote or a backslash, or
-- behind a backslash between two words.
pub data ShState : Type 0 where
  gap bare quoted escaped begun : ShState

-- What the shell sees: a word with its quotes and backslashes resolved, a byte that is not quoted and
-- means something to it (an operator, the end of a line, an expansion, a pattern, a double quote), or
-- the end of the text inside a quotation.
pub data ShToken : Type 0 where
  sh_word : Bytes → ShToken
  sh_active : ℕ → ShToken
  sh_unclosed : ShToken

-- The blanks, and the other bytes that POSIX has quoted to stand for themselves: | & ; < > ( ) $ ` " * ?
-- [ # ~ = %, the end of a line, and the ! { } of its reserved words.
abbrev pub is_blank : ℕ → Bool
is_blank c = c == b' ' || c == b'\t'

abbrev pub is_active : ℕ → Bool
is_active c =
    contains
      (b'|' ∷ b'&' ∷ b';' ∷ b'<' ∷ b'>' ∷ b'(' ∷ b')' ∷ b'$' ∷ b'`' ∷ b'"' ∷ b'*' ∷ b'?' ∷ b'['
        ∷ b'#' ∷ b'~' ∷ b'=' ∷ b'%' ∷ b'\n' ∷ b'!' ∷ b'{' ∷ b'}' ∷ [])
      c

-- The tokens of a command line; an active byte ends a word. Behind a backslash the end of a line is
-- dropped, and every other byte stands for itself. The text is a C string, without a NUL byte.
unfoldable pub sh_words : ShState → Bytes → Bytes → List ShToken
sh_words gap word [] = []
sh_words bare word [] = sh_word word ∷ []
sh_words _ word [] = sh_unclosed ∷ []
sh_words gap word (c ∷ s) =
    let skip = sh_words gap [] s in
    let quote = sh_words quoted [] s in
    let escape = sh_words begun [] s in
    let start = sh_words bare (c ∷ []) s in
    if is_blank c
    then skip
    else if c == 39
    then quote
    else if c == 92
    then escape
    else if is_active c
    then sh_active c ∷ skip
    else start
sh_words bare word (c ∷ s) =
    let end = sh_words gap [] s in
    let quote = sh_words quoted word s in
    let escape = sh_words escaped word s in
    let longer = sh_words bare (word ++ (c ∷ [])) s in
    if is_blank c
    then sh_word word ∷ end
    else if c == 39
    then quote
    else if c == 92
    then escape
    else if is_active c
    then sh_word word ∷ sh_active c ∷ end
    else longer
sh_words quoted word (c ∷ s) =
    let close = sh_words bare word s in
    let longer = sh_words quoted (word ++ (c ∷ [])) s in if c == 39 then close else longer
sh_words escaped word (c ∷ s) =
    let dropped = sh_words bare word s in
    let longer = sh_words bare (word ++ (c ∷ [])) s in if c == 10 then dropped else longer
sh_words begun word (c ∷ s) =
    let dropped = sh_words gap [] s in
    let start = sh_words bare (c ∷ []) s in if c == 10 then dropped else start

quote_body-quote :
    (c : ℕ) (s : Bytes) → (c == 39) ≡ true → quote_body (c ∷ s) ≡ 39 ∷ 92 ∷ 39 ∷ 39 ∷ quote_body s
unfolding quote_body
quote_body-quote c s e = rw (e, quote_body) refl

-- Inside the quotes every byte stands for itself.
sh_words-quote_body :
    (s word rest : Bytes)
    → sh_words quoted word (quote_body s ++ (39 ∷ rest)) ≡ sh_words bare (word ++ s) rest
unfolding sh_words quote_body contains
sh_words-quote_body [] word rest = ap (λ (w : Bytes). sh_words bare w rest) (sym (append-nil word))
sh_words-quote_body (c ∷ s) word rest = elim (Bool-cases (c == 39)) [
  | inl e ↦
      ap (λ (u : Bytes). sh_words quoted word (u ++ (39 ∷ rest))) (quote_body-quote c s e)
      ∙ (sh_words-quote_body s (word ++ (39 ∷ [])) rest
          ∙ ap (λ (w : Bytes). sh_words bare w rest)
              (append_assoc word (39 ∷ []) s
                ∙ ap (λ (d : ℕ). word ++ (d ∷ s)) (sym ((==_iff c 39).0 e))))
  | inr e ↦
      rw (e, quote_body)
        (rw (e, sh_words)
          (sh_words-quote_body s (word ++ (c ∷ [])) rest
            ∙ ap (λ (w : Bytes). sh_words bare w rest) (append_assoc word (c ∷ []) s)))
]

sh_words-shquote :
    (s rest : Bytes) → sh_words gap [] (shquote s ++ (32 ∷ rest)) ≡ sh_word s ∷ sh_words gap [] rest
unfolding sh_words shquote contains
sh_words-shquote s rest =
    ap (λ (u : Bytes). sh_words quoted [] u) (append_assoc (quote_body s) (39 ∷ []) (32 ∷ rest))
    ∙ sh_words-quote_body s [] (32 ∷ rest)

-- Whatever bytes the three paths hold, quotes, spaces, ends of lines, operators and expansions of the
-- shell included, the shell sees exactly these words: each path is one word, unchanged. The only bytes
-- that mean something to it are the ">" and the "&" of the redirection at the end.
pub sh_words-command :
    (script model_dir outfile : Bytes)
    → sh_words gap [] (command script model_dir outfile)
      ≡ sh_word (bytes "python3")
        ∷ sh_word script
        ∷ sh_word model_dir
        ∷ sh_word (bytes "--outfile")
        ∷ sh_word outfile
        ∷ sh_word (bytes "--outtype")
        ∷ sh_word (bytes "f16")
        ∷ sh_word (bytes "2")
        ∷ sh_active 62
        ∷ sh_active 38
        ∷ sh_word (bytes "1")
        ∷ []
unfolding sh_words command contains
sh_words-command script model_dir outfile =
    ap (λ (ts : List ShToken). sh_word (bytes "python3") ∷ ts) (sh_words-shquote script _)
    ∙ (ap (λ (ts : List ShToken). sh_word (bytes "python3") ∷ sh_word script ∷ ts)
          (sh_words-shquote model_dir _)
        ∙ ap
            (λ (ts : List ShToken).
              sh_word (bytes "python3")
              ∷ sh_word script
              ∷ sh_word model_dir
              ∷ sh_word (bytes "--outfile")
              ∷ ts)
            (sh_words-shquote outfile _))
