-- ===== src/Tests/Protocol.antt =====
-- The parser of src/resp.c, the encoders of src/reply.c, the buffers of src/util.c and the command
-- line of src/config.c on small inputs.
use pulse_db.Prelude.{[], ◌∷◌, negsuc, ◌≡◌, refl, ◌++◌, ◌+◌, arith, length}
use pulse_db.Config.{config_create_default, config_parse_args, config_parse_args-IsPort, IsPort}
use pulse_db.Buffer.{
  buffer_append, buffer_consume, buffer_init, IsWithin, buffer_consume-buffer_append, Buffer,
}
use pulse_db.Resp.Stable.{resp_parse_command_stable, resp_parse_reply_stable}
use pulse_db.Prelude.Bytes.{Bytes, codes}
use pulse_db.Resp.{
  RespValue, resp_parse_command, resp_parse_reply, array, cons, max_depth, parse_value,
  request_count, bulk_string, ok, parse_array, parse_typed, simple_string, array_elements,
  error_string, integer, nil, read_number_line, find_line_end, parse_elements, line_end, null,
  parse_bulk, after_cr, bulk_payload, end_payload, line_number, parse_number, number_text,
  number_digits, number_from,
}
use pulse_db.Reply.RoundTrip.{Fits, encode, resp_parse_reply-encode}

abbrev ping : Bytes
ping = codes "*1\r\n$4\r\nPING\r\n"

abbrev pinged : RespValue
pinged = array (cons (bulk_string (codes "PING")) nil)

ping_parsed : resp_parse_command ping ≡ ok pinged []
unfolding resp_parse_command request_count parse_array array_elements parse_elements parse_value
    parse_typed parse_bulk bulk_payload end_payload read_number_line find_line_end line_end after_cr
    line_number parse_number number_text number_digits number_from
ping_parsed = refl

resp_parse_command_stable_example : resp_parse_command (ping ++ codes "*1") ≡ ok pinged (codes "*1")
resp_parse_command_stable_example =
    resp_parse_command_stable ping (codes "*1") pinged [] ping_parsed

abbrev seven : Bytes
seven = codes ":-7\r\n"

seven_parsed : resp_parse_reply seven ≡ ok (integer (negsuc 6)) []
unfolding resp_parse_reply parse_value parse_typed read_number_line find_line_end line_end after_cr
    line_number parse_number number_text number_digits number_from
seven_parsed = refl

resp_parse_reply_stable_example :
    resp_parse_reply (seven ++ codes "+") ≡ ok (integer (negsuc 6)) (codes "+")
resp_parse_reply_stable_example =
    resp_parse_reply_stable seven (codes "+") (integer (negsuc 6)) [] seven_parsed

-- A queue of replies: an array that holds one of each kind.
abbrev replies : RespValue
replies = array (
    cons (simple_string (codes "OK")) (
      cons (error_string (codes "ERR"))
        (cons (integer (negsuc 6)) (cons (bulk_string (codes "a\r\n")) (cons null nil)))))

replies-Fits : Fits (max_depth + 1) replies
replies-Fits = ground arith

resp_parse_reply-encode_example :
    resp_parse_reply (encode replies ++ codes "+") ≡ ok replies (codes "+")
resp_parse_reply-encode_example = resp_parse_reply-encode replies (codes "+") replies-Fits

-- A buffer that holds PING.
abbrev filled : Buffer
filled = buffer_append buffer_init ping

filled-IsWithin : IsWithin filled
filled-IsWithin = (buffer_consume-buffer_append buffer_init ping (omega arith)).1

buffer_consume-buffer_append_example :
    ((buffer_consume (buffer_append filled seven) (length filled.bytes)).bytes ≡ seven)
    × IsWithin (buffer_append filled seven)
    × IsWithin (buffer_consume (buffer_append filled seven) (length filled.bytes))
buffer_consume-buffer_append_example = buffer_consume-buffer_append filled seven filled-IsWithin

config_parse_args-IsPort_example :
    IsPort (config_parse_args config_create_default (codes "--port" ∷ codes "65536" ∷ [])).1.port
config_parse_args-IsPort_example =
    config_parse_args-IsPort config_create_default (codes "--port" ∷ codes "65536" ∷ [])
      (omega arith)
