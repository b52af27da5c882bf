-- ===== src/Tests/Client.antt =====
-- The client of tools/cli.c on small inputs.
use pulse_db.Cli.Ends.{IsFinished, split_line-IsFinished}
use pulse_db.Prelude.{List, [], arith, ◌++◌, ◌∷◌, ◌≡◌}
use pulse_db.Prelude.Bytes.{Bytes, codes}
use pulse_db.Cli.Lines.{split_line-typed_words, typed_words}
use pulse_db.Cli.Requests.{bulk_strings, resp_parse_command-send_command}
use pulse_db.Cli.{send_command, split_line, words, max_args}
use pulse_db.Resp.{ok, array, resp_parse_command}

abbrev set_words : List Bytes
set_words = codes "SET" ∷ codes "a" ∷ codes "x y" ∷ []

resp_parse_command-send_command_example :
    resp_parse_command (send_command set_words ++ codes "*")
    ≡ ok (array (bulk_strings set_words)) (codes "*")
resp_parse_command-send_command_example =
    resp_parse_command-send_command set_words (codes "*") (omega arith)
      (omega arith, (omega arith, (omega arith, tt)))

split_line-typed_words_example : split_line (typed_words set_words) max_args ≡ words set_words
split_line-typed_words_example = split_line-typed_words set_words max_args (omega arith)

-- A quote that is not closed.
split_line-IsFinished_example : IsFinished (split_line (codes "SET 'a b") max_args)
split_line-IsFinished_example = split_line-IsFinished (codes "SET 'a b") max_args
