-- ===== src/Server.antt =====
-- src/server.c: the clients of the event loop. The sockets are parameters, as the results that the
-- reads and writes of the system give.
use pulse_db.Commands.Process.{Session}
use pulse_db.Prelude.{
  Bool, List, Option, [], drop, false, if◌then◌else◌, length, ltb, none, pos, some, true, ℕ, ℤ,
  ◌&&◌, ◌*◌, ◌++◌, ◌==◌, ◌||◌, ◌∷◌,
}
use pulse_db.Prelude.Bytes.{Bytes}
use pulse_db.Txn.{Request, Txn, txn_init}
use pulse_db.World.{World}
pub mod Input
pub mod Ends
pub mod Pipeline
pub mod Waiting
pub mod Nulls

-- CLIENT_MAX_QUERY_BUF
abbrev pub client_max_query_buf : ℕ
client_max_query_buf = 256 * 1024 * 1024

-- READ_CHUNK
abbrev pub read_chunk : ℕ
read_chunk = 16384

-- `fd` is no part of the model.
pub record Client : Type 0 where
  pub input : Bytes
  pub out : Bytes
  pub txn : Txn
  pub blocked_req : Option Request
  pub block_deadline : ℤ
  pub close_after_reply : Bool
  pub closed : Bool

abbrev pub client_add : Client
client_add = record {
  input = [];
  out = [];
  txn = txn_init;
  blocked_req = none;
  block_deadline = pos 0;
  close_after_reply = false;
  closed = false;
}

abbrev pub is_blocked : Client → Bool
is_blocked c = elim c.blocked_req [ none ↦ false | some _ ↦ true ]

-- What a call returns: a result, a dereference of a null pointer, a signed overflow in
-- `parse_number`, or no result within the fuel.
pub data Run {ℓ} (A : Type ℓ) : Type ℓ where
  returned : A → Run A
  null_pointer undefined out_of_fuel : Run A

abbrev pub then_run {ℓ κ} : {A : Type ℓ} {B : Type κ} → Run A → (A → Run B) → Run B
then_run (returned a) f = f a
then_run null_pointer f = null_pointer
then_run undefined f = undefined
then_run out_of_fuel f = out_of_fuel

-- What a command sees of a client, and what it leaves there.
abbrev pub session_of : Client → World → Session World
session_of c w = record {
  out = c.out;
  txn = c.txn;
  world = record w { waiting = is_blocked c; block_deadline = c.block_deadline };
}

abbrev pub left_by : Client → Session World → Client
left_by c s = record c { out = s.out; txn = s.txn; block_deadline = s.world.block_deadline }

-- The read of the system: bytes, the end of the stream, or one of the errors.
pub data ReadResult : Type 0 where
  received : Bytes → ReadResult
  end_of_stream interrupted would_block failed : ReadResult

-- How the loop of `read_from_client` ends: with a failure, or whether the stream ended.
pub data ReadEnd : Type 0 where
  broken : ReadEnd
  read_all : Bool → ReadEnd

-- The loop of `read_from_client`, over what the calls of `read` give.
unfoldable pub read_loop : List ReadResult → Bytes → ReadEnd × Bytes
read_loop [] input = (read_all false, input)
read_loop (received chunk ∷ rest) input =
    let more = read_loop rest (input ++ chunk) in
    if ltb (length chunk) read_chunk then (read_all false, input ++ chunk) else more
read_loop (end_of_stream ∷ rest) input = (read_all true, input)
read_loop (interrupted ∷ rest) input = read_loop rest input
read_loop (would_block ∷ rest) input = (read_all false, input)
read_loop (failed ∷ rest) input = (broken, input)

-- The write of the system: a number of bytes, or one of the errors.
pub data WriteResult : Type 0 where
  sent : ℕ → WriteResult
  interrupted would_block failed : WriteResult

-- The loop of `write_to_client`: what is left of the output, and whether the connection broke.
unfoldable pub write_loop : List WriteResult → Bytes → Bytes × Bool
write_loop [] out = (out, false)
write_loop (r ∷ rest) [] = ([], false)
write_loop (WriteResult.sent n ∷ rest) (b ∷ out) =
    if n == 0 then (b ∷ out, true) else write_loop rest (drop n (b ∷ out))
write_loop (WriteResult.interrupted ∷ rest) (b ∷ out) = write_loop rest (b ∷ out)
write_loop (WriteResult.would_block ∷ rest) (b ∷ out) = (b ∷ out, false)
write_loop (WriteResult.failed ∷ rest) (b ∷ out) = (b ∷ out, true)

unfoldable pub write_to_client : List WriteResult → Client → Client
write_to_client results c =
    let (out, broke) = write_loop results c.out in
    record c { out = out; closed = broke || c.close_after_reply && (length out == 0) || c.closed }

-- The loop of `remove_closed_clients`.
unfoldable pub remove_closed_clients : List Client → List Client
remove_closed_clients [] = []
remove_closed_clients (c ∷ cs) =
    if c.closed then remove_closed_clients cs else c ∷ remove_closed_clients cs
