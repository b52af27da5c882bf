-- ===== src/Server/Ends.antt =====
-- The loop of `process_input` in src/server.c ends: every request takes bytes off the input.
use pulse_db.Commands.Process.{
  CommandResult, Handlers, Session, command_process, result_blocked, result_done, result_queued,
}
use pulse_db.Prelude.{
  Option, ap, arith, if_both, if◌then◌else◌, length, ltb, none, refl, some, suc, zero, ℕ, ◌+◌, ◌<◌,
  ◌≡◌, ◌≢◌,
}
use pulse_db.Prelude.Bytes.{Bytes}
use pulse_db.Resp.{resp_parse_command, ok, incomplete, RespValue, Parse}
use pulse_db.Resp.Shorter.{resp_parse_command_shorter}
use pulse_db.Server.{
  Client, client_max_query_buf, left_by, session_of, then_run, Run, null_pointer, returned,
}
use pulse_db.Server.Input.{
  Incoming, after_command, after_parse, after_request, blank, incoming, input_loop, limit_input,
  may_run, process_input, process_nulls, request, with_null,
}
use pulse_db.Txn.{Request}
use pulse_db.World.{World}

-- A client with less input than `n` bytes.
abbrev Below : ℕ → Client → Type 0
Below n c = length c.input < n

-- What was parsed leaves less than `n` bytes.
abbrev Takes : ℕ → Parse RespValue → Type 0
Takes n p = (v : RespValue) (rest : Bytes) → p ≡ ok v rest → length rest < n

module _ (handlers : Handlers World) where
  abbrev Next : Type 0
  Next = Client → World → Run (Client × World)

  module _ (f g : Next) (n : ℕ) (same : (c : Client) (w : World) → Below n c → f c w ≡ g c w) where
    after_command-same :
        (c : Client) (req : Option Request) (r : Option (CommandResult × Session World))
        → Below n c
        → after_command handlers f c req r ≡ after_command handlers g c req r
    after_command-same c req none h = refl
    after_command-same c req (some (result_blocked, s)) h =
        same (record (left_by c s) { blocked_req = req }) s.world h
    after_command-same c req (some (result_done, s)) h = same (left_by c s) s.world h
    after_command-same c req (some (result_queued, s)) h = same (left_by c s) s.world h

    after_request-same :
        (c : Client) (w : World) (i : Incoming)
        → Below n c
        → after_request handlers f c w i ≡ after_request handlers g c w i
    after_request-same c w blank h = same c w h
    after_request-same c w (request req) h =
        after_command-same c (some req) (command_process handlers (session_of c w) req) h
    after_request-same c w (with_null es) h =
        after_command-same c none (process_nulls handlers (session_of c w) es) h

    after_parse-same :
        (c : Client) (w : World) (p : Parse RespValue)
        → Takes n p
        → after_parse handlers f c w p ≡ after_parse handlers g c w p
    after_parse-same c w incomplete h = refl
    after_parse-same c w Parse.error h = refl
    after_parse-same c w Parse.undefined h = refl
    after_parse-same c w (ok v rest) h =
        after_request-same (record c { input = rest }) w (incoming v) (h v rest refl)

  -- Every fuel above the length of the input gives the same.
  pub input_loop_fuel :
      (n m : ℕ) (c : Client) (w : World)
      → length c.input < n
      → length c.input < m
      → input_loop handlers n c w ≡ input_loop handlers m c w
  unfolding input_loop
  input_loop_fuel zero m c w h k = absurd (omega arith)
  input_loop_fuel (suc n) zero c w h k = absurd (omega arith)
  input_loop_fuel (suc n) (suc m) c w h k =
      ap (λ r. if may_run handlers c then r else returned (c, w))
        (after_parse-same (input_loop handlers n) (input_loop handlers m) (length c.input)
          (λ c' w' l. input_loop_fuel n m c' w' (omega arith) (omega arith)) c w
          (resp_parse_command c.input) (resp_parse_command_shorter c.input))

  module _ (f : Next) (n : ℕ)
      (ends : (c : Client) (w : World) → Below n c → f c w ≢ Run.out_of_fuel) where
    after_command_ends :
        (c : Client) (req : Option Request) (r : Option (CommandResult × Session World))
        → Below n c
        → after_command handlers f c req r ≢ Run.out_of_fuel
    after_command_ends c req none h = λ e. cc
    after_command_ends c req (some (result_blocked, s)) h =
        ends (record (left_by c s) { blocked_req = req }) s.world h
    after_command_ends c req (some (result_done, s)) h = ends (left_by c s) s.world h
    after_command_ends c req (some (result_queued, s)) h = ends (left_by c s) s.world h

    after_request_ends :
        (c : Client) (w : World) (i : Incoming)
        → Below n c
        → after_request handlers f c w i ≢ Run.out_of_fuel
    after_request_ends c w blank h = ends c w h
    after_request_ends c w (request req) h =
        after_command_ends c (some req) (command_process handlers (session_of c w) req) h
    after_request_ends c w (with_null es) h =
        after_command_ends c none (process_nulls handlers (session_of c w) es) h

    after_parse_ends :
        (c : Client) (w : World) (p : Parse RespValue)
        → Takes n p
        → after_parse handlers f c w p ≢ Run.out_of_fuel
    after_parse_ends c w incomplete h = λ e. cc
    after_parse_ends c w Parse.error h = λ e. cc
    after_parse_ends c w Parse.undefined h = λ e. cc
    after_parse_ends c w (ok v rest) h =
        after_request_ends (record c { input = rest }) w (incoming v) (h v rest refl)

  -- The loop ends within any fuel above the length of the input.
  pub input_loop_ends :
      (n : ℕ) (c : Client) (w : World)
      → length c.input < n
      → input_loop handlers n c w ≢ Run.out_of_fuel
  unfolding input_loop
  input_loop_ends zero c w h = absurd (omega arith)
  input_loop_ends (suc n) c w h =
      if_both (λ r. r ≢ Run.out_of_fuel) (may_run handlers c) _ (returned (c, w))
        (after_parse_ends (input_loop handlers n) (length c.input)
          (λ c' w' l. input_loop_ends n c' w' (omega arith)) c w (resp_parse_command c.input)
          (resp_parse_command_shorter c.input))
        (λ e. cc)

  limit_input_ends : (r : Client × World) → limit_input handlers r ≢ Run.out_of_fuel
  limit_input_ends (c, w) =
      if_both (λ r. r ≢ Run.out_of_fuel) (ltb client_max_query_buf (length c.input)) _ _ (λ e. cc)
        (λ e. cc)

  then_run_ends :
      {A B : Type 0} (r : Run A) (f : A → Run B)
      → r ≢ Run.out_of_fuel
      → ((a : A) → f a ≢ Run.out_of_fuel)
      → then_run r f ≢ Run.out_of_fuel
  then_run_ends (returned a) f h k = k a
  then_run_ends null_pointer f h k = λ e. cc
  then_run_ends Run.undefined f h k = λ e. cc
  then_run_ends Run.out_of_fuel f h k = λ e. h refl

  -- For every client, every world and all handlers `process_input` comes to an end within as many
  -- turns as its input has bytes, and one more.
  pub process_input_ends : (c : Client) (w : World) → process_input handlers c w ≢ Run.out_of_fuel
  unfolding process_input
  process_input_ends c w =
      then_run_ends (input_loop handlers (length c.input + 1) c w) (limit_input handlers)
        (input_loop_ends (length c.input + 1) c w (omega arith)) limit_input_ends
