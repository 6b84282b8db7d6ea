-- ===== src/Examples/Released.antt =====
-- A released text at concrete inputs.
use context_layer.Base.{
  ◌≡◌, ◌<◌, refl, true, All, All-map, all-All, ltb, ltb→lt, Text, text, trim, [], ◌∷◌, none, some,
  ok,
}
use context_layer.Contracts.{LocalTextContent}
use context_layer.Core.Serde.{Serde}
use context_layer.Core.Grants.{sensitivity_allowed, retrieval_class_allowed}
use context_layer.Core.ContentAccess.{RawEventLookupRepository, authorize_reference}
use context_layer.Vault.{read_verified_bytes}
use context_layer.Agent.Policy.{ReadCapabilityPolicy, grant_for_token, scope_allowed, split_from}
use context_layer.Agent.ContentRead.{read_text_content_with_policy}
use context_layer.Agent.ContentRead.Released.{Released, read_text_content_with_policy-Released}
use context_layer.Examples.{grant, serde, reference, content_event}
use context_layer.Examples.Local.{toy, digest, files}

abbrev token : Text
token = text "0123456789abcdef0123456789abcdef"

abbrev policy : ReadCapabilityPolicy
policy = record {
  token = token;
  allowed_scopes = text "scope.personal" ∷ [];
  grant = grant;
  allow_text_content = true;
}

abbrev vault_serde : Serde
vault_serde = record serde {
  decode_v2 =
      λ _. ok (record content_event { content_refs = record reference { sha256 = digest } ∷ [] });
}

abbrev by_id : RawEventLookupRepository Text
by_id id = ok (
    some (record {
      event_id = id;
      schema_version = 2;
      scope_id = text "scope.personal";
      sensitivity_json = text "metadata";
      envelope_json = text "v2";
    }))

abbrev answer : LocalTextContent
answer = record {
  event_id = 6;
  sha256 = digest;
  media_type = text "text/plain";
  byte_length = 2;
  content = 7 ∷ 8 ∷ [];
}

answered :
    read_text_content_with_policy vault_serde by_id toy none files files policy token 6 digest
    ≡ ok answer
unfolding read_text_content_with_policy grant_for_token authorize_reference scope_allowed
    sensitivity_allowed retrieval_class_allowed split_from trim read_verified_bytes
answered = refl

token_characters : All (λ ch. ch < 0x110000) token
token_characters =
    All-map (λ ch h. ltb→lt ch 0x110000 h) token (all-All (λ ch. ltb ch 0x110000) token refl)

read_text_content_with_policy-Released_example :
    Released vault_serde by_id toy policy token 6 digest answer
read_text_content_with_policy-Released_example =
    read_text_content_with_policy-Released vault_serde by_id toy none files files policy token 6
      digest answer token_characters token_characters answered
