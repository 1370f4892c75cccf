-- ===== src/Queue/Message/Codec.antt =====
-- `to_dict` and `from_dict`: a stored message is read back unchanged.
use competitor_intelligence.Base.{
  ℕ, Option, none, some, String, ◌≡◌, ◌≢◌, refl, arith, string_discrete,
}
use competitor_intelligence.Queue.Json.{JsonFields, get, text}
use competitor_intelligence.Queue.Message.{
  MessageType, MessageStatus, QueueMessage, collection, parsing, notification, health_check,
  pending, processing, completed, failed, retry, type_value, type_of, status_value, status_of,
  opt_num, opt_text, to_dict, text_or, num_or, obj_or_empty, num_or_none, text_or_none, from_dict,
}

type_of-type_value : (t : MessageType) → type_of (type_value t) ≡ some t
unfolding string_discrete type_of type_value
type_of-type_value collection = refl
type_of-type_value parsing = refl
type_of-type_value notification = refl
type_of-type_value health_check = refl

status_of-status_value : (s : MessageStatus) → status_of (status_value s) ≡ some s
unfolding string_discrete status_of status_value
status_of-status_value pending = refl
status_of-status_value processing = refl
status_of-status_value completed = refl
status_of-status_value failed = refl
status_of-status_value retry = refl

num_or_none-opt_num : (o : Option ℕ) → num_or_none (some (opt_num o)) ≡ some o
unfolding num_or_none opt_num
num_or_none-opt_num none = refl
num_or_none-opt_num (some n) = refl

text_or_none-opt_text : (o : Option String) → text_or_none (some (opt_text o)) ≡ some o
unfolding text_or_none opt_text
text_or_none-opt_text none = refl
text_or_none-opt_text (some s) = refl

-- A message that is turned into a dictionary is read back unchanged, whatever id and clock
-- from_dict would draw for missing fields.
pub from_dict-to_dict :
    (fresh_id : String) (now : ℕ) (m : QueueMessage) → from_dict fresh_id now (to_dict m) ≡ some m
unfolding string_discrete from_dict to_dict get text_or num_or obj_or_empty
from_dict-to_dict fresh_id now m =
    simp (type_of-type_value, status_of-status_value, num_or_none-opt_num, text_or_none-opt_text)

-- A dictionary whose message type is a text that names no type is refused.
pub from_dict_unknown_type :
    (fresh_id : String) (now : ℕ) (d : JsonFields) (s : String)
    → get "message_type" d ≡ some (text s)
    → ((t : MessageType) → s ≢ type_value t)
    → from_dict fresh_id now d ≡ none
unfolding from_dict type_of type_value text_or
from_dict_unknown_type fresh_id now d s h other =
    ground (arith, other collection, other parsing, other notification, other health_check)
