-- ===== src/Libraries.antt =====
-- The functions of other crates, and of the Unicode tables, that the handlers call. Nothing is
-- assumed of them but what a theorem names.
use sentiric_b2bua_service.Prelude.{String, Bool, Option}
use sentiric_b2bua_service.Sip.{SipLibrary, AudioProfile}
use sentiric_b2bua_service.Data.{CallSessionData}

pub record Libraries : Type 0 where
  pub sip : SipLibrary
  pub open sip use *
  pub profile : AudioProfile
  -- `str::to_uppercase`, by the Unicode tables
  pub to_uppercase : String → String
  -- whether `MetadataValue::from_str` takes the text
  pub is_metadata : String → Bool
  -- `serde_json` on `CallSessionData`
  pub to_json : CallSessionData → Option String
  pub from_json : String → Option CallSessionData
  -- `json!({ "callId": call_id }).to_string()`
  pub call_id_json : String → String
