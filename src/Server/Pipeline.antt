-- ===== src/Server/Pipeline.antt =====
-- The requests of a connection of src/server.c are run in order however the bytes of the stream are
-- split: input that arrives in two parts has the effect of the whole.
use pulse_db.Prelude.{
  Bool-cases, inl, inr, ltb, Bool, ap, if◌then◌else◌, length-append, subst, true, ◌+◌, Option,
  arith, false, length, none, refl, some, suc, zero, ℕ, ◌++◌, ◌<◌, ◌≡◌,
}
use pulse_db.Server.{
  client_max_query_buf, then_run, Client, left_by, session_of, Run, null_pointer, returned,
}
use pulse_db.Resp.{resp_parse_command, ok, incomplete, RespValue, Parse}
use pulse_db.Resp.Shorter.{resp_parse_command_shorter}
use pulse_db.Resp.Stable.{resp_parse_command_stable}
use pulse_db.Server.Input.{
  limit_input, may_run, process_input, Incoming, after_command, after_parse, after_request, blank,
  incoming, input_loop, process_nulls, request, with_null,
}
use pulse_db.Commands.Process.{
  CommandResult, Handlers, Session, command_process, result_blocked, result_done, result_queued,
}
use pulse_db.Prelude.Bytes.{Bytes}
use pulse_db.Server.Ends.{input_loop_fuel}
use pulse_db.Txn.{Request}
use pulse_db.World.{World}

-- The client with more bytes behind its input.
abbrev pub with_more : Client → Bytes → Client
with_more c t = record c { input = c.input ++ t }

-- A request that was read is also read with more bytes behind it, and takes bytes off the input.
abbrev Stands : Bytes → ℕ → Parse RespValue → Parse RespValue → Type 0
Stands t n p q =
    (v : RespValue) (rest : Bytes) → p ≡ ok v rest → (q ≡ ok v (rest ++ t)) × (length rest < n)

module _ (handlers : Handlers World) (t : Bytes) where
  abbrev Next : Type 0
  Next = Client → World → Run (Client × World)

  -- Where the run on a part of the input leaves a connection that is not to be closed, the run on
  -- the input with `t` behind it goes on from there.
  abbrev Continues : Run (Client × World) → Run (Client × World) → Type 0
  Continues (returned (c, w)) whole =
      c.close_after_reply ≡ false
      → (k : ℕ) → length (c.input ++ t) < k
      → whole ≡ input_loop handlers k (with_more c t) w
  Continues _ whole = Unit

  module _ (f g : Next) (n : ℕ)
      (goes_on : (c : Client) (w : World)
        → length c.input < n
        → Continues (f c w) (g (with_more c t) w)) where
    after_command-Continues :
        (c : Client) (req : Option Request) (r : Option (CommandResult × Session World))
        → length c.input < n
        → Continues
            (after_command handlers f c req r)
            (after_command handlers g (with_more c t) req r)
    after_command-Continues c req none h = tt
    after_command-Continues c req (some (result_blocked, s)) h =
        goes_on (record (left_by c s) { blocked_req = req }) s.world h
    after_command-Continues c req (some (result_done, s)) h = goes_on (left_by c s) s.world h
    after_command-Continues c req (some (result_queued, s)) h = goes_on (left_by c s) s.world h

    after_request-Continues :
        (c : Client) (w : World) (i : Incoming)
        → length c.input < n
        → Continues (after_request handlers f c w i) (after_request handlers g (with_more c t) w i)
    after_request-Continues c w blank h = goes_on c w h
    after_request-Continues c w (request req) h =
        after_command-Continues c (some req) (command_process handlers (session_of c w) req) h
    after_request-Continues c w (with_null es) h =
        after_command-Continues c none (process_nulls handlers (session_of c w) es) h

    -- A step that finds a request, or ends the loop.
    after_parse-Continues :
        (c : Client) (w : World) (p q : Parse RespValue)
        → Stands t n p q
        → Continues (returned (c, w)) (after_parse handlers g (with_more c t) w q)
        → Continues (after_parse handlers f c w p) (after_parse handlers g (with_more c t) w q)
    after_parse-Continues c w incomplete q h stop = stop
    after_parse-Continues c w Parse.error q h stop = λ e. absurd (cc)
    after_parse-Continues c w Parse.undefined q h stop = tt
    after_parse-Continues c w (ok v rest) q h stop =
        let s = h v rest refl in
        rw (s.0) (after_request-Continues (record c { input = rest }) w (incoming v) s.1)

  stays :
      (m : ℕ) (c : Client) (w : World)
      → length (c.input ++ t) < m
      → Continues (returned (c, w)) (input_loop handlers m (with_more c t) w)
  stays m c w h e k l = input_loop_fuel handlers m k (with_more c t) w h l

  choose :
      (b : Bool) (c : Client) (w : World) (p q : Run (Client × World))
      → Continues (returned (c, w)) (if b then q else returned (with_more c t, w))
      → (Continues (returned (c, w)) q → Continues p q)
      → Continues (if b then p else returned (c, w)) (if b then q else returned (with_more c t, w))
  choose true c w p q s f = f s
  choose false c w p q s f = s

  input_loop-Continues :
      (n m : ℕ) (c : Client) (w : World)
      → length c.input < n
      → length (c.input ++ t) < m
      → Continues (input_loop handlers n c w) (input_loop handlers m (with_more c t) w)
  unfolding input_loop
  input_loop-Continues zero m c w h k = absurd (omega arith)
  input_loop-Continues (suc n) zero c w h k = absurd (omega arith)
  input_loop-Continues (suc n) (suc m) c w h k =
      choose (may_run handlers c) c w _ _ (stays (suc m) c w k) (
        after_parse-Continues (input_loop handlers n) (input_loop handlers m) (length c.input)
          (λ c' w' l.
            input_loop-Continues n m c' w' (omega arith)
              (omega (arith, length-append c'.input t, length-append c.input t)))
          c w (resp_parse_command c.input) (resp_parse_command (c.input ++ t))
          (λ v rest e. (
            resp_parse_command_stable c.input t v rest e,
            resp_parse_command_shorter c.input v rest e,
          )))

  closes : Run (Client × World) → Bool
  closes (returned (c, w)) = c.close_after_reply
  closes _ = true

  -- A connection that is not to be closed passed the limit on its input.
  limit-returned :
      (r : Run (Client × World)) (c : Client) (w : World)
      → then_run r (limit_input handlers) ≡ returned (c, w)
      → c.close_after_reply ≡ false
      → r ≡ returned (c, w)
  unfolding closes
  limit-returned (returned (c', w')) c w h e =
      elim (Bool-cases (ltb client_max_query_buf (length c'.input))) [
        | inl over ↦ let shut : true ≡ c.close_after_reply = ap closes (rw over at h) in absurd (cc)
        | inr fits ↦ rw fits at h
      ]
  limit-returned null_pointer c w h e = absurd (cc)
  limit-returned Run.undefined c w h e = absurd (cc)
  limit-returned Run.out_of_fuel c w h e = absurd (cc)

  -- If `process_input` leaves a connection that is not to be closed, then the same input with
  -- more bytes behind it has the effect of a second call on what the first one left, once those
  -- bytes have arrived: the same replies, the same world and the same state of the connection.
  pub process_input-append :
      (c : Client) (w : World) (c' : Client) (w' : World)
      → process_input handlers c w ≡ returned (c', w')
      → c'.close_after_reply ≡ false
      → process_input handlers (with_more c t) w ≡ process_input handlers (with_more c' t) w'
  unfolding process_input
  process_input-append c w c' w' h e =
      let first = limit-returned (input_loop handlers (length c.input + 1) c w) c' w' h e in
      let step =
        input_loop-Continues (length c.input + 1) (length (c.input ++ t) + 1) c w (omega arith)
          (omega arith) in
      let next =
        subst (λ r. Continues r (input_loop handlers (length (c.input ++ t) + 1) (with_more c t) w))
          first step in
      ap (λ r. then_run r (limit_input handlers))
        (next e (length (c'.input ++ t) + 1) (omega arith))
