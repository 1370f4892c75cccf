-- ===== src/Queue/Message.antt =====
-- `MessageType`, `MessageStatus`, and `QueueMessage` with its two conversions. A field of another
-- JSON type than the dataclass names is an error here, where Python would store it unchecked.
pub mod Codec
use competitor_intelligence.Base.{ℕ, Option, none, some, String, ite, string_discrete, ◌≡◌, refl}
use competitor_intelligence.Queue.Json.{Json, JsonFields, null, num, text, obj, end, field, get}

pub data MessageType : Type 0 where
  collection parsing notification health_check : MessageType

pub data MessageStatus : Type 0 where
  pending processing completed failed retry : MessageStatus

pub record QueueMessage : Type 0 where
  pub message_id : String
  pub message_type : MessageType
  pub payload : JsonFields
  pub status : MessageStatus
  pub created_at : ℕ
  pub processed_at : Option ℕ
  pub completed_at : Option ℕ
  pub retry_count : ℕ
  pub max_retries : ℕ
  pub error : Option String
  pub metadata : JsonFields

-- `MessageType.value`, and `MessageType(s)`, which raises `ValueError` (`none`).
unfoldable pub type_value : MessageType → String
type_value collection = "collection"
type_value parsing = "parsing"
type_value notification = "notification"
type_value health_check = "health_check"

unfoldable pub type_of : String → Option MessageType
type_of s = ite (string_discrete s "collection") (some collection) (
    ite (string_discrete s "parsing") (some parsing) (
      ite (string_discrete s "notification") (some notification)
        (ite (string_discrete s "health_check") (some health_check) none)))

unfoldable pub status_value : MessageStatus → String
status_value pending = "pending"
status_value processing = "processing"
status_value completed = "completed"
status_value failed = "failed"
status_value retry = "retry"

unfoldable pub status_of : String → Option MessageStatus
status_of s = ite (string_discrete s "pending") (some pending) (
    ite (string_discrete s "processing") (some processing) (
      ite (string_discrete s "completed") (some completed) (
        ite (string_discrete s "failed") (some failed)
          (ite (string_discrete s "retry") (some retry) none))))

unfoldable pub opt_num : Option ℕ → Json
opt_num none = null
opt_num (some n) = num n

unfoldable pub opt_text : Option String → Json
opt_text none = null
opt_text (some s) = text s

unfoldable pub to_dict : QueueMessage → JsonFields
to_dict m = field "message_id" (text m.message_id) (
    field "message_type" (text (type_value m.message_type)) (
      field "payload" (obj m.payload) (
        field "status" (text (status_value m.status)) (
          field "created_at" (num m.created_at) (
            field "processed_at" (opt_num m.processed_at) (
              field "completed_at" (opt_num m.completed_at) (
                field "retry_count" (num m.retry_count) (
                  field "max_retries" (num m.max_retries) (
                    field "error" (opt_text m.error)
                      (field "metadata" (obj m.metadata) end))))))))))

-- `data.get(k, default)` at each of the types.
unfoldable pub text_or : String → Option Json → Option String
text_or d none = some d
text_or d (some (text s)) = some s
text_or d (some _) = none

unfoldable pub num_or : ℕ → Option Json → Option ℕ
num_or d none = some d
num_or d (some (num n)) = some n
num_or d (some _) = none

unfoldable pub obj_or_empty : Option Json → Option JsonFields
obj_or_empty none = some end
obj_or_empty (some (obj fs)) = some fs
obj_or_empty (some _) = none

-- `data.get(k)`, where a missing key and `null` are both `None`.
unfoldable pub num_or_none : Option Json → Option (Option ℕ)
num_or_none none = some none
num_or_none (some null) = some none
num_or_none (some (num n)) = some (some n)
num_or_none (some _) = none

unfoldable pub text_or_none : Option Json → Option (Option String)
text_or_none none = some none
text_or_none (some null) = some none
text_or_none (some (text s)) = some (some s)
text_or_none (some _) = none

infixl 5 ◌>>=◌
abbrev pub ◌>>=◌ : {A B : Type 0} → Option A → (A → Option B) → Option B
none >>= f = none
some a >>= f = f a

-- `from_dict`, with the id and the clock that the defaults would draw.
unfoldable pub from_dict : String → ℕ → JsonFields → Option QueueMessage
from_dict fresh_id now d = do
  message_id ← text_or fresh_id (get "message_id" d)
  type_name ← text_or "collection" (get "message_type" d)
  message_type ← type_of type_name
  payload ← obj_or_empty (get "payload" d)
  status_name ← text_or "pending" (get "status" d)
  status ← status_of status_name
  created_at ← num_or now (get "created_at" d)
  processed_at ← num_or_none (get "processed_at" d)
  completed_at ← num_or_none (get "completed_at" d)
  retry_count ← num_or 0 (get "retry_count" d)
  max_retries ← num_or 3 (get "max_retries" d)
  error ← text_or_none (get "error" d)
  metadata ← obj_or_empty (get "metadata" d)
  some (record {
    message_id = message_id;
    message_type = message_type;
    payload = payload;
    status = status;
    created_at = created_at;
    processed_at = processed_at;
    completed_at = completed_at;
    retry_count = retry_count;
    max_retries = max_retries;
    error = error;
    metadata = metadata;
  })
