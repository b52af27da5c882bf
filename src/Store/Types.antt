-- ===== src/Store/Types.antt =====
-- The structures of src/store.h. A linked list is the sequence of its values, with the length
-- that the structure keeps beside it; a union with its tag is one data type.
use pulse_db.Prelude.{ℕ, ℤ, List}
use pulse_db.Prelude.Bytes.{Bytes}
use pulse_db.Table.Buckets.{Buckets}

-- `List`: the values from head to tail.
pub record ListValue : Type 0 where
  pub items : List Bytes
  pub len : ℕ

pub record HashField : Type 0 where
  pub field : Bytes
  pub value : Bytes

pub record Hash : Type 0 where
  pub buckets : Buckets HashField
  pub len : ℕ

-- A `double` that is not a NaN (`parse_double` refuses those), as the program compares it: every
-- finite one is a multiple of 2 ^ -1074, so it is the integer `n` that it is the n-fold of.
pub data Score : Type 0 where
  neg_infinity : Score
  finite : ℤ → Score
  infinity : Score

pub record ZSetEntry : Type 0 where
  pub member : Bytes
  pub score : Score

pub record ZIndexNode : Type 0 where
  pub member : Bytes
  pub hash : ℕ
  pub score : Score

-- `cap`, the room of the array, is no part of the model.
pub record ZSet : Type 0 where
  pub entries : List ZSetEntry
  pub len : ℕ
  pub index : Buckets ZIndexNode
  pub index_size : ℕ

pub record StreamId : Type 0 where
  pub ms : ℕ
  pub seq : ℕ

pub record StreamField : Type 0 where
  pub field : Bytes
  pub value : Bytes

pub record StreamEntry : Type 0 where
  pub id : StreamId
  pub fields : List StreamField
  pub num_fields : ℕ

-- The entries from head to tail.
pub record Stream : Type 0 where
  pub entries : List StreamEntry
  pub len : ℕ
  pub last_id : StreamId

pub data StoreType : Type 0 where
  none string list hash zset stream : StoreType

-- The union `v` of an entry with its `type`.
pub data Value : Type 0 where
  str : Bytes → Value
  list : ListValue → Value
  hash : Hash → Value
  zset : ZSet → Value
  stream : Stream → Value

pub record StoreEntry : Type 0 where
  pub key : Bytes
  pub hash : ℕ
  pub expires_at : ℤ
  pub value : Value

pub record Store : Type 0 where
  pub buckets : Buckets StoreEntry
  pub size : ℕ
  pub count : ℕ

pub data StoreStatus : Type 0 where
  ok not_found wrong_type not_integer overflow invalid_id id_zero id_too_small : StoreStatus

abbrev pub type_of : Value → StoreType
type_of (Value.str s) = StoreType.string
type_of (Value.list l) = StoreType.list
type_of (Value.hash h) = StoreType.hash
type_of (Value.zset z) = StoreType.zset
type_of (Value.stream x) = StoreType.stream
