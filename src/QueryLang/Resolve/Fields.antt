-- ===== src/QueryLang/Resolve/Fields.antt =====
-- The built-in fields and the attribute types of crates/logscope-query-lang/src/resolve.rs.
use log_scope.Prelude.{
  String, Bool, true, false, ◌||◌, List, [], ◌∷◌, Option, none, some, if◌then◌else◌,
}
use log_scope.Text.{Text, codes, text_eq}

pub data CanonicalField : Type 0 where
  timestamp observed_timestamp severity severity_text severity_number message event_name trace_id
        span_id operation outcome event_type request_id transaction_id message_id entity_id dataset
        record_id :
      CanonicalField

pub data CanonType : Type 0 where
  timestamp severity int text str : CanonType

-- `CanonicalField::canon_type`
unfoldable pub canon_type : CanonicalField → CanonType
canon_type timestamp = CanonType.timestamp
canon_type observed_timestamp = CanonType.timestamp
canon_type severity = CanonType.severity
canon_type severity_number = CanonType.int
canon_type message = CanonType.text
canon_type _ = CanonType.str

-- `CanonicalField::display`
unfoldable pub display : CanonicalField → String
display timestamp = "timestamp"
display observed_timestamp = "observed_timestamp"
display severity = "severity"
display severity_text = "severity.text"
display severity_number = "severity.number"
display message = "message"
display event_name = "event.name"
display trace_id = "trace_id"
display span_id = "span_id"
display operation = "operation"
display outcome = "outcome"
display event_type = "event_type"
display request_id = "request_id"
display transaction_id = "transaction_id"
display message_id = "message_id"
display entity_id = "entity_id"
display dataset = "dataset"
display record_id = "record_id"

-- Whether a match on string literals takes its arm.
unfoldable pub is_one_of : Text → List String → Bool
is_one_of written [] = false
is_one_of written (s ∷ ss) = text_eq written (codes s) || is_one_of written ss

unfoldable pub builtin_field : Text → Option CanonicalField
builtin_field written =
    if is_one_of written ("timestamp" ∷ "@timestamp" ∷ "time" ∷ [])
    then some timestamp
    else if is_one_of written ("observed_timestamp" ∷ "observed.timestamp" ∷ [])
    then some observed_timestamp
    else if is_one_of written ("severity" ∷ "level" ∷ "log.level" ∷ [])
    then some severity
    else if is_one_of written ("severity.text" ∷ "severity_text" ∷ [])
    then some severity_text
    else if is_one_of written ("severity.number" ∷ "severity_number" ∷ [])
    then some severity_number
    else if is_one_of written ("message" ∷ "msg" ∷ "body" ∷ [])
    then some message
    else if is_one_of written ("event.name" ∷ "event_name" ∷ [])
    then some event_name
    else if is_one_of written ("trace_id" ∷ "trace.id" ∷ [])
    then some trace_id
    else if is_one_of written ("span_id" ∷ "span.id" ∷ [])
    then some span_id
    else if is_one_of written ("operation" ∷ [])
    then some operation
    else if is_one_of written ("outcome" ∷ [])
    then some outcome
    else if is_one_of written ("event_type" ∷ "event.type" ∷ [])
    then some event_type
    else if is_one_of written ("request_id" ∷ "request.id" ∷ [])
    then some request_id
    else if is_one_of written ("transaction_id" ∷ "transaction.id" ∷ [])
    then some transaction_id
    else if is_one_of written ("message_id" ∷ "message.id" ∷ [])
    then some message_id
    else if is_one_of written ("entity_id" ∷ "entity.id" ∷ [])
    then some entity_id
    else if is_one_of written ("dataset" ∷ [])
    then some dataset
    else if is_one_of written ("record_id" ∷ [])
    then some record_id
    else none

unfoldable pub builtin_field_names : List String
builtin_field_names =
    "timestamp" ∷ "observed_timestamp" ∷ "severity" ∷ "severity.text" ∷ "severity.number"
    ∷ "message" ∷ "event.name" ∷ "trace_id" ∷ "span_id" ∷ "operation" ∷ "outcome" ∷ "event_type"
    ∷ "request_id" ∷ "transaction_id" ∷ "message_id" ∷ "entity_id" ∷ "dataset" ∷ "record_id" ∷ []

-- `AttrType`
pub data AttrType : Type 0 where
  str int double bool bytes array map empty : AttrType

-- `AttrType::describe`
unfoldable pub describe_type : AttrType → String
describe_type str = "string"
describe_type int = "integer"
describe_type double = "double"
describe_type bool = "boolean"
describe_type bytes = "bytes"
describe_type array = "array"
describe_type map = "object"
describe_type empty = "empty"

unfoldable pub is_scalar : AttrType → Bool
is_scalar str = true
is_scalar int = true
is_scalar double = true
is_scalar bool = true
is_scalar _ = false
