-- ===== src/Telemetry/Laws.antt =====
-- Where each part of a log record of src/telemetry.rs comes from.
use sentiric_b2bua_service.Prelude.{
  ℕ, ◌<◌, ◌^◌, String, ◌≡◌, refl, ◌||◌, Option, none, some, Option-cases, inl, inr, List, [], ◌∷◌,
  unwrap_or, arith, ◌==◌, eq_iff, if◌then◌else◌,
}
use sentiric_b2bua_service.Prelude.Table.{lookup, insert, erase, lookup-erase, lookup-insert}
use sentiric_b2bua_service.Telemetry.{
  Value, Call, Context, Json, SutsFormatter, SutsLogRecord, field_of, visit, log_record,
  severity_of, text_of, or_else, span_text,
}
use sentiric_b2bua_service.Telemetry.Hex.{hex16, unhex, unhex-hex16}

module _ (json : Json) where
  -- The value that the last call for the name gives.
  pub last_given : String → List Call → Option Value
  last_given name [] = none
  last_given name (c ∷ cs) = elim (last_given name cs) [
    | some v ↦ some v
    | none ↦ if (field_of json c).0 == name then some (field_of json c).1 else none
  ]

  abbrev given_or : Option Value → Option Value → Option Value
  given_or none other = other
  given_or (some v) other = some v

  lookup-visit :
      (k : String) (cs : List Call) (fields : List (String × Value))
      → lookup k (visit json cs fields) ≡ given_or (last_given k cs) (lookup k fields)
  unfolding visit last_given
  lookup-visit k [] fields = refl
  lookup-visit k (c ∷ cs) fields =
      let name = (field_of json c).0 in
      let rest = lookup-visit k cs (insert (field_of json c).0 (field_of json c).1 fields) in
      let here = lookup-insert name k (field_of json c).1 fields in
      elim (Option-cases (last_given k cs)) [
        | inl e ↦ ground (arith, rest, here, e)
        | inr (v, e) ↦ ground (arith, rest, here, e)
      ]

  recorded : (k : String) (cs : List Call) → lookup k (visit json cs []) ≡ last_given k cs
  unfolding lookup
  recorded k cs = ground (arith, lookup-visit k cs [])

  kept :
      (k : String) (cs : List Call)
      → lookup k (erase "message" (erase "event" (visit json cs [])))
        ≡ (if k == "event" || k == "message" then none else last_given k cs)
  kept k cs =
      let unnamed = erase "event" (visit json cs []) in
      ground (
        arith,
        lookup-erase "message" k unnamed,
        lookup-erase "event" k (visit json cs []),
        recorded k cs,
        eq_iff k "event",
        eq_iff "event" k,
        eq_iff k "message",
        eq_iff "message" k,
      )

  -- The span id of a record: never missing, and the digits of the span's id where there is a span.
  unfoldable pub Spans : Option ℕ → Option String → Type 0
  Spans none span_id = span_id ≡ some "no-span"
  Spans (some id) span_id = (s : String) × (span_id ≡ some s) × (unhex s ≡ id)

  -- A span's id is a `u64`.
  unfoldable pub IsU64 : Option ℕ → Type 0
  IsU64 none = Unit
  IsU64 (some id) = id < 2 ^ 64

  span_text-Spans : (o : Option ℕ) → IsU64 o → Spans o (some (span_text o))
  unfolding Spans IsU64 span_text
  span_text-Spans none h = refl
  span_text-Spans (some id) h = (hex16 id, refl, unhex-hex16 id h)

  -- The log record of an event whose visitor is called by `calls`.
  pub record Records (self : SutsFormatter) (ctx : Context) (calls : List Call) (r : SutsLogRecord)
      : Type 0 where
    -- the name and the text of the event, and what stands in for them
    pub event : r.event ≡ unwrap_or (text_of (last_given "event" calls)) "LOG_EVENT"
    pub message : r.message ≡ unwrap_or (text_of (last_given "message" calls)) ""
    -- every other field, as it was given last
    pub attributes :
        (k : String)
        → lookup k r.attributes
          ≡ (if k == "event" || k == "message" then none else last_given k calls)
    -- the trace id, else the SIP call id
    pub trace_id :
        r.trace_id
        ≡ or_else (text_of (last_given "trace_id" calls)) (text_of (last_given "sip.call_id" calls))
    pub span : Spans ctx.lookup_current r.span_id
    pub severity : r.severity ≡ severity_of ctx.level
    pub tenant_id : r.tenant_id ≡ self.tenant_id
    pub service : r.resource ≡ self.resource

  -- Where a span's id is a `u64`, the log record's event, message and trace id are the texts given
  -- last under their names, with `LOG_EVENT`, the empty text and the SIP call id for one that is
  -- missing or no text; every other field is an attribute with the value given last, and those two
  -- are none; the span id is never missing, and where there is a span its digits say the span's
  -- 64-bit id.
  pub log_record-Records :
      (self : SutsFormatter) (ctx : Context) (calls : List Call)
      → IsU64 ctx.lookup_current
      → Records self ctx calls (log_record json self ctx calls)
  unfolding log_record span_text
  log_record-Records self ctx calls h = record {
    event = rw (recorded "event" calls) refl;
    message =
        rw (lookup-erase "event" "message" (visit json calls []), recorded "message" calls) refl;
    attributes = λ k. kept k calls;
    trace_id = rw (kept "trace_id" calls, kept "sip.call_id" calls) refl;
    span = span_text-Spans ctx.lookup_current h;
    severity = refl;
    tenant_id = refl;
    service = refl;
  }
