-- ===== src/Server/Input.antt =====
-- src/server.c: `process_input`, `read_from_client` and `service_blocked`.
use pulse_db.Commands.Lookup.{command_lookup}
use pulse_db.Resp.{
  Elements, Parse, RespValue, bulk_string, cons, nil, resp_parse_command, array, ok,
}
use pulse_db.Commands.{CommandSpec}
use pulse_db.Commands.Process.{
  CommandResult, Handlers, Session, arity_ok, c_str, command_process, command_retry_blocked,
  has_nul, result_blocked, result_done,
}
use pulse_db.Prelude.{
  Bool, List, Option, [], eqb_ℤ, false, if◌then◌else◌, length, ltb, ltb_ℤ, map, none, not, pos,
  some, suc, true, zero, ℕ, ℤ, ◌&&◌, ◌+◌, ◌==◌, ◌>>=◌, ◌||◌, ◌∷◌,
}
use pulse_db.Prelude.Bytes.{Bytes, codes}
use pulse_db.Reply.{reply_error}
use pulse_db.Server.{
  ReadEnd, ReadResult, Run, broken, client_max_query_buf, is_blocked, left_by, null_pointer,
  read_all, read_loop, returned, session_of, then_run, Client,
}
use pulse_db.Txn.{Request}
use pulse_db.World.{World, mono_ms, tick}

-- The texts of the elements, `none` for a null one.
abbrev pub element_texts : Elements → List (Option Bytes)
element_texts nil = []
element_texts (cons (bulk_string s) es) = some s ∷ element_texts es
element_texts (cons _ es) = none ∷ element_texts es

-- The elements as texts, if none is null.
abbrev pub all_texts : List (Option Bytes) → Option (List Bytes)
all_texts [] = some []
all_texts (none ∷ es) = none
all_texts (some s ∷ es) = all_texts es >>= (λ ss. some (s ∷ ss))

-- What was parsed: `count == 0`, a request of texts, or one with a null element among its texts.
pub data Incoming : Type 0 where
  blank : Incoming
  request : Request → Incoming
  with_null : List (Option Bytes) → Incoming

abbrev pub request_of : List (Option Bytes) → Option (List Bytes) → Incoming
request_of es none = with_null es
request_of es (some []) = blank
request_of es (some (name ∷ args)) = request (record { name = name; args = args })

abbrev pub incoming : RespValue → Incoming
incoming (array es) = request_of (element_texts es) (all_texts (element_texts es))
incoming _ = blank

-- The loop of `validate` meets an element with a NUL byte before it meets a null one.
abbrev pub nul_first : List (Option Bytes) → Bool
nul_first [] = false
nul_first (none ∷ es) = false
nul_first (some s ∷ es) = has_nul (s ∷ []) || nul_first es

-- `validate` answers with an error before it reads a null element.
abbrev pub stops_early : Option CommandSpec → List (Option Bytes) → Bool
stops_early none es = true
stops_early (some spec) es = not (arity_ok spec (length es)) || nul_first es

abbrev pub text_of : Option Bytes → Bytes
text_of none = []
text_of (some s) = s

module _ (handlers : Handlers World) where
  -- `command_process` on a request with a null element; `none` is a read through a null pointer.
  unfoldable pub process_nulls :
      Session World → List (Option Bytes) → Option (CommandResult × Session World)
  process_nulls s [] = none
  process_nulls s (none ∷ args) = none
  process_nulls s (some name ∷ args) =
      if stops_early (command_lookup (c_str name)) (some name ∷ args)
      then command_process handlers s (record { name = name; args = map text_of args })
      else none

  -- What `process_input` does with the result of a request.
  abbrev pub after_command :
      (Client → World → Run (Client × World))
      → Client
      → Option Request
      → Option (CommandResult × Session World)
      → Run (Client × World)
  after_command next c req none = null_pointer
  after_command next c req (some (result_blocked, s)) =
      next (record (left_by c s) { blocked_req = req }) s.world
  after_command next c req (some (_, s)) = next (left_by c s) s.world

  abbrev pub after_request :
      (Client → World → Run (Client × World)) → Client → World → Incoming → Run (Client × World)
  after_request next c w blank = next c w
  after_request next c w (request req) =
      after_command next c (some req) (command_process handlers (session_of c w) req)
  after_request next c w (with_null es) =
      after_command next c none (process_nulls (session_of c w) es)

  abbrev pub protocol_error : Client → Bytes → Client
  protocol_error c msg = record c { out = reply_error c.out msg; close_after_reply = true }

  abbrev pub after_parse :
      (Client → World → Run (Client × World))
      → Client
      → World
      → Parse RespValue
      → Run (Client × World)
  after_parse next c w Parse.incomplete = returned (c, w)
  after_parse next c w Parse.error = returned (protocol_error c (codes "ERR Protocol error"), w)
  after_parse next c w Parse.undefined = Run.undefined
  after_parse next c w (ok v rest) = after_request next (record c { input = rest }) w (incoming v)

  -- The test of the loop; `resp_parse_command` finds an empty input incomplete.
  abbrev pub may_run : Client → Bool
  may_run c = not (is_blocked c) && not c.close_after_reply

  -- The loop of `process_input`: what the requests used up is taken off the input at once.
  unfoldable pub input_loop : ℕ → Client → World → Run (Client × World)
  input_loop zero c w = Run.out_of_fuel
  input_loop (suc n) c w =
      let more = after_parse (input_loop n) c w (resp_parse_command c.input) in
      if may_run c then more else returned (c, w)

  abbrev pub limit_input : Client × World → Run (Client × World)
  limit_input (c, w) =
      if ltb client_max_query_buf (length c.input)
      then returned (protocol_error c (codes "ERR Protocol error: request too large"), w)
      else returned (c, w)

  -- The length of the input is enough fuel.
  unfoldable pub process_input : Client → World → Run (Client × World)
  process_input c w = then_run (input_loop (length c.input + 1) c w) limit_input

  -- The end of `read_from_client`, where the peer has finished sending.
  abbrev pub at_end_of_stream : Bool → Client × World → Run (Client × World)
  at_end_of_stream false (c, w) = returned (c, w)
  at_end_of_stream true (c, w) = returned (
    record c { close_after_reply = true; closed = is_blocked c || (length c.out == 0) || c.closed },
    w,
  )

  abbrev pub after_read : Client → World → ReadEnd × Bytes → Run (Client × World)
  after_read c w (broken, input) = returned (record c { input = input; closed = true }, w)
  after_read c w (read_all eof, input) =
      then_run (process_input (record c { input = input }) w) (at_end_of_stream eof)

  unfoldable pub read_from_client : List ReadResult → Client → World → Run (Client × World)
  read_from_client results c w = after_read c w (read_loop results c.input)

  -- `block_deadline != 0 && now >= block_deadline`
  abbrev pub timed_out_at : ℤ → Client → Bool
  timed_out_at now c = not (eqb_ℤ c.block_deadline (pos 0)) && not (ltb_ℤ now c.block_deadline)

  abbrev pub after_retry : Client → Option (CommandResult × Session World) → Run (Client × World)
  after_retry c none = null_pointer
  after_retry c (some (result_done, s)) =
      process_input (record (left_by c s) { blocked_req = none }) s.world
  after_retry c (some (_, s)) = returned (left_by c s, s.world)

  abbrev pub retry : ℤ → Client → World → Option Request → Run (Client × World)
  retry now c w none = returned (c, w)
  retry now c w (some req) =
      if c.closed
      then returned (c, w)
      else after_retry c (command_retry_blocked handlers (session_of c w) req (timed_out_at now c))

  -- The loop of `service_blocked`, with the reading of the clock.
  unfoldable pub service_all : ℤ → List Client → World → Run (List Client × World)
  service_all now [] w = returned ([], w)
  service_all now (c ∷ cs) w =
      then_run (retry now c w c.blocked_req)
        (λ (c', w'). then_run (service_all now cs w') (λ (cs', w''). returned (c' ∷ cs', w'')))

  unfoldable pub service_blocked : List Client → World → Run (List Client × World)
  service_blocked cs w = service_all (mono_ms w) cs (tick w)
