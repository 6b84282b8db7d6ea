-- ===== src/Examples.antt =====
-- Concrete inputs: the values that the tests and examples share.
pub mod Core
pub mod Clock
pub mod Storage
pub mod Local
pub mod Released
pub mod Host
pub mod Service
pub mod Devices
use context_layer.Base.{
  ℕ, ◌+◌, ◌*◌, ◌/◌, ◌%◌, negsuc, Bool, true, false, Text, text, List, [], ◌∷◌, Option, none, some,
  ℤ, pos, Result, ok, err, is_empty,
}
use context_layer.Contracts.{
  OffsetDateTime, FileIdentity, FileChange, EvidenceKind, SensitivityClass, RetrievalClass,
  ContentRef, EventPayload, file_observed, collector_gap, content_observed, EventEnvelope,
  EventEnvelopeV2, Stamp, Value,
}
use context_layer.Core.Serde.{Serde}
use context_layer.Core.Grants.{RetrievalGrant}
use context_layer.Storage.Tables.{Crates, UtcTime}

abbrev pub at_second : ℕ → OffsetDateTime
at_second n = record { unix_nanos = pos (n * 1000000000); offset_seconds = pos 0 }

abbrev pub stamp : Stamp
stamp = record { fresh_id = 77; now = at_second 60 }

abbrev pub report_file : FileIdentity
report_file = record { provider = text "ntfs"; namespace = text "vol"; opaque_id = 1 ∷ 2 ∷ [] }

abbrev pub reference : ContentRef
reference = record {
  sha256 = text "ab";
  media_type = text "text/plain";
  byte_length = 2;
  compression = none;
  storage_class = text "local_vault";
  retrieval_class = RetrievalClass.normal;
}

abbrev pub file_event : EventEnvelope
file_event = record {
  event_id = 5;
  schema_version = 1;
  source = text "watcher";
  source_sequence = some 3;
  observed_at = at_second 10;
  ingested_at = at_second 20;
  scope_id = text "scope.personal";
  correlation_id = none;
  sensitivity = SensitivityClass.metadata;
  payload = file_observed report_file (text "C:\\r.pdf") FileChange.created;
  evidence = record { kind = EvidenceKind.observed; collector = text "w"; detail = text "d" };
}

abbrev pub content_event : EventEnvelopeV2
content_event = record {
  event_id = 6;
  envelope_version = 2;
  event_type = text "fixture";
  payload_version = 1;
  source = text "fixture";
  source_sequence = some 1;
  occurred_at = none;
  observed_at = at_second 11;
  ingested_at = at_second 21;
  device_id = none;
  scope_id = text "scope.personal";
  correlation_id = none;
  sensitivity = SensitivityClass.metadata;
  content_refs = reference ∷ [];
  payload = Value.null;
  evidence = record { kind = EvidenceKind.observed; collector = text "w"; detail = text "d" };
}

-- A serializer that knows the two events above.
abbrev pub serde : Serde
serde = record {
  encode_v1 = λ _. ok (text "v1");
  decode_v1 = λ _. ok file_event;
  encode_v2 = λ _. ok (text "v2");
  decode_v2 = λ _. ok content_event;
  encode_sensitivity = λ _. ok (text "metadata");
  decode_sensitivity = λ _. ok SensitivityClass.metadata;
  payload_to_value = λ _. ok Value.null;
}

abbrev pub grant : RetrievalGrant
grant = record {
  max_event_sensitivity = SensitivityClass.metadata;
  max_content_retrieval = RetrievalClass.normal;
  include_payload = true;
}

-- Times within one minute of the year 2024, written as their second.
abbrev pub second_of : OffsetDateTime → ℕ
second_of t = elim (t.unix_nanos) [ pos n ↦ n / 1000000000 % 60 | negsuc _ ↦ 0 ]

abbrev pub crates : Crates
crates = record {
  serde = serde;
  format_rfc3339 = λ t. ok (second_of t ∷ []);
  parse_rfc3339 = λ s. elim s [ [] ↦ err (text "empty") | c ∷ _ ↦ ok (at_second c) ];
  to_utc = λ t. record {
    year = pos 2024;
    month = 1;
    day = 1;
    hour = 0;
    minute = 0;
    second = second_of t;
    nanosecond = 0;
  };
  new_artifact_id = λ n. 100 + n;
}
