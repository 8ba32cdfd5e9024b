-- ===== src/Convert/Shell.antt =====
-- src/convert.cpp: `shquote` on Unix, and `run_converter`: the command line that the converter is run
-- with, and what is kept of its output.
pub mod Words
pub mod Tail
use onyx_engine.Prelude.{
  ℕ, ◌+◌, Bool, Option, none, some, List, [], ◌∷◌, ◌++◌, length, drop, ltb, ◌==◌, if◌then◌else◌,
}
use onyx_engine.Prelude.Bytes.{Bytes, bytes}

-- 39 is the single quote and 92 the backslash: a quote is closed, escaped and opened again.
unfoldable quote_body : Bytes → Bytes
quote_body [] = []
quote_body (c ∷ s) =
    let rest = quote_body s in if c == 39 then 39 ∷ 92 ∷ 39 ∷ 39 ∷ rest else c ∷ rest

unfoldable pub shquote : Bytes → Bytes
unfolding quote_body
shquote s = 39 ∷ (quote_body s ++ (39 ∷ []))

-- `cmd` in `run_converter`.
unfoldable pub command : Bytes → Bytes → Bytes → Bytes
unfolding shquote
command script model_dir outfile =
    bytes "python3 "
    ++ (shquote script
        ++ (bytes " "
            ++ (shquote model_dir
                ++ (bytes " --outfile " ++ (shquote outfile ++ bytes " --outtype f16 2>&1")))))

-- The oldest line goes when there are more than `keep`.
unfoldable pub push_line : ℕ → List Bytes → Bytes → List Bytes
push_line keep tail line =
    let longer = tail ++ (line ∷ []) in if ltb keep (length longer) then drop 1 longer else longer

-- The loop over the output, a byte at a time, and the last line behind it; 10 is the newline. The
-- output holds no zero byte, which would end a chunk of `fgets`.
unfoldable pub read_lines : ℕ → List Bytes → Bytes → Bytes → List Bytes
unfolding push_line
read_lines keep tail [] [] = tail
read_lines keep tail (l ∷ line) [] = push_line keep tail (l ∷ line)
read_lines keep tail line (c ∷ output) =
    let ended = read_lines keep (push_line keep tail line) [] output in
    let longer = read_lines keep tail (line ++ (c ∷ [])) output in if c == 10 then ended else longer
