-- ===== src/Telemetry.antt =====
-- src/telemetry.rs: the log record of an event.
pub mod Hex
pub mod Laws
use Prim.Native.String
use sentiric_b2bua_service.Prelude.{ℕ, String, Bool, Option, none, some, List, [], ◌∷◌, unwrap_or}
use sentiric_b2bua_service.Prelude.Table.{lookup, insert, erase}
use sentiric_b2bua_service.Telemetry.Hex.{hex16}

-- The integers, over the native numbers.
pub data ℤ : Type 0 where
  pos : ℕ → ℤ
  -- `negsuc n` is the negative of `n + 1`
  negsuc : ℕ → ℤ

-- `f64::to_bits`
abbrev pub F64 : Type 0
F64 = ℕ

-- What the source makes of `serde_json::Value`.
pub data Value : Type 0 where
  null : Value
  truth : Bool → Value
  integer : ℤ → Value
  float : F64 → Value
  text : String → Value

-- value.as_str()
abbrev pub as_str : Value → Option String
as_str (text s) = some s
as_str _ = none

pub data Level : Type 0 where
  error warn info debug trace : Level

-- A call of the visitor. A value that is shown (`record_debug`, `record_error`) is given by its
-- text.
pub data Call : Type 0 where
  record_debug : (name shown : String) → Call
  record_str : (name value : String) → Call
  record_bool : String → Bool → Call
  record_i64 : String → ℤ → Call
  record_u64 : String → ℕ → Call
  record_f64 : String → F64 → Call
  record_error : (name shown : String) → Call

pub record ResourceContext : Type 0 where
  pub service_name : String
  pub service_version : String
  pub service_env : String
  pub host_name : String

pub record SutsLogRecord : Type 0 where
  pub schema_v : String
  pub ts : String
  pub severity : String
  pub tenant_id : String
  pub resource : ResourceContext
  pub trace_id : Option String
  pub span_id : Option String
  pub event : String
  pub message : String
  pub attributes : List (String × Value)

pub record SutsFormatter : Type 0 where
  pub resource : ResourceContext
  pub tenant_id : String

pub new : (service_name version env host_name tenant_id : String) → SutsFormatter
new service_name version env host_name tenant_id = record {
  resource = record {
    service_name = service_name;
    service_version = version;
    service_env = env;
    host_name = host_name;
  };
  tenant_id = tenant_id;
}

pub severity_of : Level → String
severity_of error = "ERROR"
severity_of warn = "WARN"
severity_of info = "INFO"
severity_of debug = "DEBUG"
severity_of trace = "DEBUG"

-- The field that has been removed, or that is there, as a text.
abbrev pub text_of : Option Value → Option String
text_of none = none
text_of (some v) = as_str v

abbrev or_else : Option String → Option String → Option String
or_else none other = other
or_else (some s) other = some s

-- span.id(), where there is a span
span_text : Option ℕ → String
unfolding hex16
span_text none = "no-span"
span_text (some id) = hex16 id

-- What the formatter is given besides the event's fields: its level, the time, the current span.
pub record Context : Type 0 where
  pub level : Level
  pub now : String
  pub lookup_current : Option ℕ

-- `serde_json`: `json!` on an `f64`, and `to_string` on a log record
pub record Json : Type 0 where
  pub of_f64 : F64 → Value
  pub to_string : SutsLogRecord → Option String

module _ (json : Json) where
  -- The field that a call of the visitor names, and what it is given.
  unfoldable pub field_of : Call → String × Value
  field_of (record_debug name shown) = (name, text shown)
  field_of (record_str name value) = (name, text value)
  field_of (record_bool name value) = (name, truth value)
  field_of (record_i64 name value) = (name, integer value)
  field_of (record_u64 name value) = (name, integer (pos value))
  field_of (record_f64 name value) = (name, json.of_f64 value)
  field_of (record_error name shown) = (name, text shown)

  -- `event.record(&mut visitor)`, over the fields so far
  unfoldable pub visit : List Call → List (String × Value) → List (String × Value)
  visit [] fields = fields
  visit (c ∷ cs) fields = visit cs (insert (field_of c).0 (field_of c).1 fields)

  unfoldable pub log_record : SutsFormatter → Context → List Call → SutsLogRecord
  unfolding span_text
  log_record self ctx calls =
      let fields = visit calls [] in
      let unnamed = erase "event" fields in
      let rest = erase "message" unnamed in
      record {
        schema_v = "1.0.0";
        ts = ctx.now;
        severity = severity_of ctx.level;
        tenant_id = self.tenant_id;
        resource = self.resource;
        trace_id = or_else (text_of (lookup "trace_id" rest)) (text_of (lookup "sip.call_id" rest));
        span_id = some (span_text ctx.lookup_current);
        event = unwrap_or (text_of (lookup "event" fields)) "LOG_EVENT";
        message = unwrap_or (text_of (lookup "message" unnamed)) "";
        attributes = rest;
      }

  -- What is written of an event.
  pub format_event : SutsFormatter → Context → List Call → String
  format_event self ctx calls = elim (json.to_string (log_record self ctx calls)) [
    | none ↦ ""
    | some line ↦ String.◌++◌ line "\n"
  ]
