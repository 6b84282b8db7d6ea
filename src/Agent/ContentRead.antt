-- ===== src/Agent/ContentRead.antt =====
-- apps/context-agent/src/content_read.rs: the text of stored content, for a caller that the policy
-- admits. `files` is the vault when its metadata is looked at, `later` when it is read.
pub mod Released
use context_layer.Base.{
  ℕ, zero, suc, ◌+◌, ◌*◌, ◌-◌, Bool, true, false, ◌&&◌, ◌||◌, ◌==◌, leb, ltb, not, if◌then◌else◌,
  Text, text, text_eq, trim, trim_matches, eq_ignore_ascii_case, byte_len, is_empty, List, [], ◌∷◌,
  ◌++◌, length, all, Option, none, some, Result, ok, err, ◌>>=◌, map_err, ensure, ◌>>◌, ok_or,
}
use context_layer.Contracts.{
  Uuid, ReadCapabilityToken, RetrievalClass, ContentRef, LocalTextContent,
}
use context_layer.Core.Serde.{Serde}
use context_layer.Core.Grants.{RetrievalGrant}
use context_layer.Core.ContentAccess.{
  RawEventLookupRepository, AuthorizedContentRef, ContentAccessError, authorize_reference,
}
use context_layer.Vault.{Sha256, File, VaultError, is_hex_digit, read_verified_bytes}
use context_layer.Agent.Policy.{
  ReadCapabilityPolicy, ConfigurationError, grant_for_token, scope_allowed, text_content_allowed,
  split,
}

abbrev pub max_text_content_bytes : ℕ
max_text_content_bytes = 96 * 1024

abbrev pub max_media_type_bytes : ℕ
max_media_type_bytes = 128

pub data ContentReadError : Type 0 where
  not_authorized unsupported_content too_large unavailable : ContentReadError
  configuration : ConfigurationError → ContentReadError

unfoldable pub content_read_code : ContentReadError → Text
content_read_code not_authorized = text "content_not_authorized"
content_read_code (configuration _) = text "read_configuration_invalid"
content_read_code unsupported_content = text "content_type_not_supported"
content_read_code too_large = text "content_too_large"
content_read_code unavailable = text "content_unavailable"

unfoldable pub is_lowercase_sha256 : Text → Bool
is_lowercase_sha256 value = (byte_len value == 64) && all is_hex_digit value

-- `str::split_once` at one character.
unfoldable pub split_once : ℕ → Text → Option (Text × Text)
split_once mark [] = none
split_once mark (c ∷ s) =
    let rest = split_once mark s in
    if c == mark then some ([], s) else elim rest [ none ↦ none | some (a, b) ↦ some (c ∷ a, b) ]

abbrev pub is_utf8_charset : Option (Text × Text) → Bool
is_utf8_charset none = false
is_utf8_charset (some (name, value)) =
    eq_ignore_ascii_case (trim name) (text "charset")
    && eq_ignore_ascii_case (trim_matches (λ c. c == 34) (trim value)) (text "utf-8")

unfoldable pub is_utf8_parameter : Text → Bool
unfolding split_once
is_utf8_parameter part =
    let parameter = trim part in
    not (is_empty parameter) && is_utf8_charset (split_once b'=' parameter)

abbrev pub is_plain_parts : List Text → Bool
is_plain_parts [] = false
is_plain_parts (first ∷ parameters) =
    eq_ignore_ascii_case (trim first) (text "text/plain") && all is_utf8_parameter parameters

unfoldable pub is_utf8_plain_text : Text → Bool
is_utf8_plain_text media_type = is_plain_parts (split b';' media_type)

abbrev is_continuation : ℕ → Bool
is_continuation b = leb 0x80 b && leb b 0xbf

abbrev char_of_two : ℕ → List ℕ → Option (ℕ × List ℕ)
char_of_two a (b ∷ s) =
    if leb 0xc2 a && is_continuation b then some ((a - 0xc0) * 64 + (b - 0x80), s) else none
char_of_two a _ = none

abbrev char_of_three : ℕ → List ℕ → Option (ℕ × List ℕ)
char_of_three a (b ∷ c ∷ s) =
    if is_continuation b
      && (is_continuation c && ((not (a == 0xe0) || leb 0xa0 b) && (not (a == 0xed) || leb b 0x9f)))
    then some ((a - 0xe0) * 4096 + (b - 0x80) * 64 + (c - 0x80), s)
    else none
char_of_three a _ = none

abbrev char_of_four : ℕ → List ℕ → Option (ℕ × List ℕ)
char_of_four a (b ∷ c ∷ d ∷ s) =
    if leb a 0xf4
      && (is_continuation b
          && (is_continuation c
              && (is_continuation d
                  && ((not (a == 0xf0) || leb 0x90 b) && (not (a == 0xf4) || leb b 0x8f)))))
    then some ((a - 0xf0) * 262144 + (b - 0x80) * 4096 + (c - 0x80) * 64 + (d - 0x80), s)
    else none
char_of_four a _ = none

-- The first character of some bytes, and the bytes after it.
abbrev next_char : List ℕ → Option (ℕ × List ℕ)
next_char [] = none
next_char (a ∷ s) =
    if ltb a 0x80
    then some (a, s)
    else if ltb a 0xe0
    then char_of_two a s
    else if ltb a 0xf0
    then char_of_three a s
    else char_of_four a s

decode_chars : ℕ → List ℕ → Option Text
decode_chars fuel [] = some []
decode_chars zero (b ∷ bytes) = none
decode_chars (suc fuel) (b ∷ bytes) = elim (next_char (b ∷ bytes)) [
  | none ↦ none
  | some (c, rest) ↦ elim (decode_chars fuel rest) [ none ↦ none | some s ↦ some (c ∷ s) ]
]

-- `String::from_utf8`: a character takes a byte at least, so that their number is enough fuel.
unfoldable pub from_utf8 : List ℕ → Option Text
unfolding decode_chars
from_utf8 bytes = decode_chars (length bytes) bytes

unfoldable pub vault_bytes : Result (List ℕ) VaultError → Result (List ℕ) ContentReadError
vault_bytes (ok bytes) = ok bytes
vault_bytes (err (VaultError.too_large _)) = err too_large
vault_bytes (err _) = err unavailable

abbrev pub is_secret : RetrievalClass → Bool
is_secret RetrievalClass.secret = true
is_secret _ = false

abbrev pub is_none {ℓ} : {A : Type ℓ} → Option A → Bool
is_none none = true
is_none (some _) = false

unfoldable pub is_supported : ContentRef → Bool
unfolding is_utf8_plain_text
is_supported r =
    text_eq r.storage_class (text "local_vault")
    && (is_none r.compression
        && (leb (byte_len r.media_type) max_media_type_bytes && is_utf8_plain_text r.media_type))

module _ {E : Type 0} (serde : Serde) (repo : RawEventLookupRepository E) (digest : Sha256)
    (target : Option (List ℕ)) (files later : List File) where
  -- From the authorised reference on.
  unfoldable pub release : Uuid → ContentRef → Result LocalTextContent ContentReadError
  unfolding is_supported vault_bytes from_utf8
  release event_id r = do
    ensure (not (is_secret r.retrieval_class)) not_authorized
    ensure (is_supported r) unsupported_content
    ensure (leb r.byte_length max_text_content_bytes) too_large
    bytes ←
        vault_bytes (read_verified_bytes digest r.sha256 max_text_content_bytes target files later)
    ensure (length bytes == r.byte_length) unavailable
    content ← ok_or (from_utf8 bytes) unavailable
    ok (record {
      event_id = event_id;
      sha256 = r.sha256;
      media_type = r.media_type;
      byte_length = r.byte_length;
      content = content;
    })

  unfoldable pub release_authorized :
      Uuid
      → Result (Option AuthorizedContentRef) (ContentAccessError E)
      → Result LocalTextContent ContentReadError
  unfolding release
  release_authorized event_id (err e) = err unavailable
  release_authorized event_id (ok none) = err not_authorized
  release_authorized event_id (ok (some a)) = release event_id a.reference

  unfoldable pub read_granted :
      ReadCapabilityPolicy
      → Uuid
      → Text
      → Option RetrievalGrant
      → Result LocalTextContent ContentReadError
  unfolding release_authorized is_lowercase_sha256
  read_granted policy event_id sha256 none = err not_authorized
  read_granted policy event_id sha256 (some grant) = do
    ensure (text_content_allowed policy) not_authorized
    ensure (is_lowercase_sha256 sha256) not_authorized
    release_authorized event_id
        (authorize_reference serde repo event_id sha256 grant (scope_allowed policy))

  unfoldable pub read_text_content_with_policy :
      ReadCapabilityPolicy
      → ReadCapabilityToken
      → Uuid
      → Text
      → Result LocalTextContent ContentReadError
  unfolding read_granted
  read_text_content_with_policy policy authorization event_id sha256 =
      read_granted policy event_id sha256 (grant_for_token policy authorization)

  unfoldable pub read_text_content_from_environment :
      Result (Option ReadCapabilityPolicy) ConfigurationError
      → ReadCapabilityToken
      → Uuid
      → Text
      → Result LocalTextContent ContentReadError
  unfolding read_text_content_with_policy
  read_text_content_from_environment (err e) authorization event_id sha256 = err (configuration e)
  read_text_content_from_environment (ok none) authorization event_id sha256 = err not_authorized
  read_text_content_from_environment (ok (some policy)) authorization event_id sha256 =
      read_text_content_with_policy policy authorization event_id sha256
