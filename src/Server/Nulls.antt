-- ===== src/Server/Nulls.antt =====
-- A request of src/resp.c may have a null element, which src/commands.c reads as a text.
use pulse_db.Prelude.{
  Bool, ap, arith, if◌then◌else◌, suc, zero, ℕ, ◌<◌, ◌∙◌, [], refl, true, ◌++◌, ◌≡◌,
}
use pulse_db.Server.{then_run, Client, null_pointer}
use pulse_db.Server.Input.{
  after_parse, limit_input, input_loop, may_run, process_input, process_nulls,
}
use pulse_db.Resp.{
  null, array, array_elements, bulk_payload, cons, nil, parse_array, parse_bulk, parse_elements,
  parse_typed, parse_value, read_number_line, request_count, resp_parse_command, ok, find_line_end,
  line_end, after_cr, line_number, parse_number, number_text, number_digits, number_from,
}
use pulse_db.Commands.Process.{Handlers}
use pulse_db.Prelude.Bytes.{Bytes, codes}
use pulse_db.Resp.Stable.{resp_parse_command_stable}
use pulse_db.World.{World}

-- An array of one null element.
abbrev pub null_request : Bytes
null_request = codes "*1\r\n$-1\r\n"

null_request_ok : resp_parse_command null_request ≡ ok (array (cons null nil)) []
unfolding resp_parse_command read_number_line find_line_end line_end after_cr line_number
    parse_number number_text number_digits number_from request_count parse_array array_elements
    parse_elements parse_value parse_typed parse_bulk bulk_payload
null_request_ok = refl

when_true : {A : Type 0} (b : Bool) (x y : A) → b ≡ true → (if b then x else y) ≡ x
when_true b x y h = rw h refl

module _ (handlers : Handlers World) where
  loop_null :
      (n : ℕ) (c : Client) (w : World) (t : Bytes)
      → 0 < n
      → may_run handlers c ≡ true
      → input_loop handlers n (record c { input = null_request ++ t }) w ≡ null_pointer
  unfolding input_loop process_nulls
  loop_null zero c w t z h = absurd (omega arith)
  loop_null (suc n) c w t z h =
      when_true (may_run handlers c) _ _ h
      ∙ ap (after_parse handlers (input_loop handlers n) (record c { input = null_request ++ t }) w)
          (resp_parse_command_stable null_request t _ [] null_request_ok)

  -- At a client that is neither parked nor to be closed, the request `*1`, `$-1`, an array of one
  -- null element, makes `process_input` read through a null pointer, whatever follows it in the
  -- input.
  pub process_input_null :
      (c : Client) (w : World) (t : Bytes)
      → may_run handlers c ≡ true
      → process_input handlers (record c { input = null_request ++ t }) w ≡ null_pointer
  unfolding process_input
  process_input_null c w t h =
      ap (λ r. then_run r (limit_input handlers)) (loop_null _ c w t (omega arith) h)
