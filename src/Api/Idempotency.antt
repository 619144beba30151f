-- ===== src/Api/Idempotency.antt =====
-- api/idempotency.rs: the answers that are kept under the key of a request. A slot of the registry is
-- locked while a request under its key is served; the registry is then as the request finds it.
pub mod FileNames
pub mod Once
mod Tests
use aria_underlay.Base.{
  ℕ, ◌+◌, ◌-◌, ◌/◌, ◌%◌, Text, text, List, [], ◌∷◌, ◌++◌, Option, none, some, ltb, trim, is_empty,
  if◌then◌else◌, text_ord,
}
use aria_underlay.Base.BTree.{BTreeMap, get, insert, remove}
use aria_underlay.Base.Errors.{
  UnderlayError, UnderlayResult, ok, err, fail_if, invalid, str, num, ◌>>◌,
}
use aria_underlay.Base.Utf8.{as_bytes, byte_length}
use aria_underlay.Api.Response.{ApplyIntentResponse}

abbrev pub max_idempotency_key_bytes : ℕ
max_idempotency_key_bytes = 125

pub record ApplyIdempotencyRecord : Type 0 where
  pub stored_at_unix_secs : ℕ  -- u64
  pub fingerprint : Text
  pub response : ApplyIntentResponse

-- Which store the registry was made with: the default one, or the one that has a file for each record.
pub data StoreKind : Type 0 where
  in_memory json_file : StoreKind

-- The slots of the registry and what the store has.
pub record ApplyIdempotencyRegistry : Type 0 where
  pub entries : BTreeMap Text (Option ApplyIdempotencyRecord)
  pub store : BTreeMap Text ApplyIdempotencyRecord

-- `slot`: what is known under a key. `stored` is what the store answers.
unfoldable pub slot :
    (key : Text)
    → UnderlayResult (Option ApplyIdempotencyRecord)
    → ApplyIdempotencyRegistry
    → ApplyIdempotencyRegistry × UnderlayResult (Option ApplyIdempotencyRecord)
slot key stored r = elim (get key r.entries) [
  | some found ↦ (r, ok found)
  | none ↦ elim stored [
    | ok found ↦ (record r { entries = insert key found r.entries }, ok found)
    | err e ↦ (r, err e)
  ]
]

-- `*record = Some(stored_record)` in a slot, after the store has taken it.
unfoldable pub keep :
    Text → ApplyIdempotencyRecord → ApplyIdempotencyRegistry → ApplyIdempotencyRegistry
keep key found r = record r {
  entries = insert key (some found) r.entries;
  store = insert key found r.store;
}

-- A restart of the service: the slots are gone, and with them what a store in memory has.
unfoldable pub restarted : StoreKind → ApplyIdempotencyRegistry → ApplyIdempotencyRegistry
restarted in_memory r = record r { entries = []; store = [] }
restarted json_file r = record r { entries = [] }

-- `fs::remove_file` on a record, by the collection of old records. The slots are not told of it.
unfoldable pub remove_record : Text → ApplyIdempotencyRegistry → ApplyIdempotencyRegistry
remove_record key r = record r { store = remove key r.store }

unfoldable pub normalize_idempotency_key : Text → UnderlayResult Text
normalize_idempotency_key key = do
  fail_if (is_empty (trim key)) (invalid "idempotency_key must not be empty" [])
  fail_if (ltb max_idempotency_key_bytes (byte_length (trim key))) (
      invalid "idempotency_key must be at most {} bytes after trimming; got {} bytes"
        (num max_idempotency_key_bytes ∷ num (byte_length (trim key)) ∷ []))
  ok (trim key)

unfoldable pub idempotency_payload_mismatch_error : Text → UnderlayError
idempotency_payload_mismatch_error key =
    invalid "idempotency_key {:?} was already used with a different apply payload" (str key ∷ [])

-- `{byte:02x}`.
abbrev pub hex_digit : ℕ → ℕ
hex_digit n = if ltb n 10 then n + b'0' else n + 87

unfoldable pub hex_bytes : List ℕ → Text
hex_bytes [] = []
hex_bytes (b ∷ r) = hex_digit (b / 16) ∷ hex_digit (b % 16) ∷ hex_bytes r

unfoldable pub hex_encode : Text → Text
hex_encode value = hex_bytes (as_bytes value)

-- The name of the file under the root of the store.
unfoldable pub path_for : Text → Text
path_for key = hex_encode key ++ text ".json"
