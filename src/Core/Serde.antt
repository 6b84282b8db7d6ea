-- ===== src/Core/Serde.antt =====
-- What the core uses of `serde_json` and of the derived (de)serializers. An error is its message.
use context_layer.Base.{Text, Result, ok, ◌≡◌}
use context_layer.Contracts.{Value, EventPayload, EventEnvelope, EventEnvelopeV2, SensitivityClass}

pub record Serde : Type 0 where
  pub encode_v1 : EventEnvelope → Result Text Text
  pub decode_v1 : Text → Result EventEnvelope Text
  pub encode_v2 : EventEnvelopeV2 → Result Text Text
  pub decode_v2 : Text → Result EventEnvelopeV2 Text
  pub encode_sensitivity : SensitivityClass → Result Text Text
  pub decode_sensitivity : Text → Result SensitivityClass Text
  pub payload_to_value : EventPayload → Result Value Text

-- Decoding inverts encoding.
pub record IsFaithful (serde : Serde) : Type 0 where
  pub decode-encode_v1 :
      (e : EventEnvelope) (json : Text) → serde.encode_v1 e ≡ ok json → serde.decode_v1 json ≡ ok e
  pub decode-encode_v2 :
      (e : EventEnvelopeV2) (json : Text)
      → serde.encode_v2 e ≡ ok json
      → serde.decode_v2 json ≡ ok e
  pub decode-encode_sensitivity :
      (s : SensitivityClass) (json : Text)
      → serde.encode_sensitivity s ≡ ok json
      → serde.decode_sensitivity json ≡ ok s
