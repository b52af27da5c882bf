-- ===== src/Cli/Requests.antt =====
-- The requests of tools/cli.c as the parser of src/resp.c reads them.
use pulse_db.Prelude.{append_assoc, All, List, [], arith, length, refl, subst, ◌++◌, ◌∷◌, ◌≡◌, ◌≤◌}
use pulse_db.Reply.RoundTrip.{
  size, AllElements, IsArgument, encode, encode_all, resp_parse_command-encode,
}
use pulse_db.Prelude.Bytes.{Bytes}
use pulse_db.Reply.{reply_array, reply_bulk, crlf}
use pulse_db.Resp.{
  max_array_len, max_bulk_len, resp_parse_command, Elements, array, cons, nil, bulk_string, ok,
}
use pulse_db.Prelude.Decimal.{decimal}
use pulse_db.Cli.{bulk_words, send_command}

-- The words as the elements of a request.
abbrev pub bulk_strings : List Bytes → Elements
bulk_strings [] = nil
bulk_strings (w ∷ ws) = cons (bulk_string w) (bulk_strings ws)

abbrev pub IsWord : Bytes → Type 0
IsWord w = length w ≤ max_bulk_len

size-bulk_strings : (ws : List Bytes) → size (bulk_strings ws) ≡ length ws
size-bulk_strings [] = refl
size-bulk_strings (w ∷ ws) = omega (arith, size-bulk_strings ws)

bulk_words-encode_all : (ws : List Bytes) → bulk_words ws ≡ encode_all (bulk_strings ws)
unfolding bulk_words encode_all encode reply_bulk
bulk_words-encode_all [] = refl
bulk_words-encode_all (w ∷ ws) = rw (bulk_words-encode_all ws) (
    let rest = encode_all (bulk_strings ws) in
    rw (append_assoc (decimal (length w)) (crlf ++ (w ++ crlf)) rest, append_assoc w crlf rest)
      refl)

AllElements-words : (ws : List Bytes) → All IsWord ws → AllElements IsArgument (bulk_strings ws)
AllElements-words [] h = tt
AllElements-words (w ∷ ws) h = (h.0, AllElements-words ws h.1)

-- At most 1048576 words of at most 64 MB each, as `send_command` of the client writes them, are
-- read back by `resp_parse_command` of the server as the elements of a request, with exactly the
-- bytes behind it left over.
pub resp_parse_command-send_command :
    (argv : List Bytes) (rest : Bytes)
    → length argv ≤ max_array_len
    → All IsWord argv
    → resp_parse_command (send_command argv ++ rest) ≡ ok (array (bulk_strings argv)) rest
unfolding send_command encode reply_array
resp_parse_command-send_command argv rest h fit =
    let n = size-bulk_strings argv in
    let t =
      resp_parse_command-encode (bulk_strings argv) rest (omega (arith, n, h))
        (AllElements-words argv fit) in
    let same : encode (array (bulk_strings argv)) ≡ send_command argv =
      rw
        (
          n,
          bulk_words-encode_all argv,
          append_assoc (decimal (length argv)) crlf (encode_all (bulk_strings argv)),
        )
        refl in
    subst (λ s. resp_parse_command (s ++ rest) ≡ ok (array (bulk_strings argv)) rest) same t
