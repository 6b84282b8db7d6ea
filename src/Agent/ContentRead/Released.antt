-- ===== src/Agent/ContentRead/Released.antt =====
-- What must hold for text to be released.
use context_layer.Base.{
  ℕ, ◌<◌, ◌≤◌, All, to_bytes, ◌≡◌, ◌≢◌, refl, ap, sym, ◌∙◌, true, false, ◌==◌, ==_iff, leb, not,
  Text, List, length, Option, byte_len, text, eq_of_text_eq, leb→le, none, some, Result, ok, err,
  ensure, ok_or, bind-ok, ok_inj, ensure-ok, arith,
}
use context_layer.Contracts.{
  Uuid, RetrievalClass, ReadCapabilityToken, ContentRef, LocalTextContent,
}
use context_layer.Core.Serde.{Serde}
use context_layer.Core.Grants.{RetrievalGrant}
use context_layer.Core.ContentAccess.{
  RawEventLookupRepository, AuthorizedContentRef, ContentAccessError, authorize_reference,
}
use context_layer.Core.ContentAccess.Laws.{Authorized, authorize_reference-Authorized}
use context_layer.Vault.{Sha256, File, VaultError, hex_sha256, read_verified_bytes}
use context_layer.Vault.Integrity.{read_verified_bytes-integrity}
use context_layer.Agent.Policy.{
  ReadCapabilityPolicy, grant_for_token, scope_allowed, text_content_allowed,
}
use context_layer.Agent.ReadCapability.Tokens.{grant_for_token-bytes}
use context_layer.Agent.ContentRead.{
  not_authorized, unsupported_content, too_large, unavailable, max_text_content_bytes, is_secret,
  is_supported, is_none, is_utf8_plain_text, max_media_type_bytes, vault_bytes, from_utf8, release,
  release_authorized, read_granted, is_lowercase_sha256, read_text_content_with_policy,
}

-- What a reference to text must be for its bytes to be read.
pub record Supported (r : ContentRef) : Type 0 where
  pub in_vault : r.storage_class ≡ text "local_vault"
  pub uncompressed : r.compression ≡ none
  pub short_type : byte_len r.media_type ≤ max_media_type_bytes
  pub plain_text : is_utf8_plain_text r.media_type ≡ true

is_none-none : {A : Type 0} (o : Option A) → is_none o ≡ true → o ≡ none
is_none-none none h = refl
is_none-none (some x) h = absurd (ground arith)

is_supported-Supported : (r : ContentRef) → is_supported r ≡ true → Supported r
unfolding is_supported
is_supported-Supported r h = record {
  in_vault = eq_of_text_eq r.storage_class (text "local_vault") (ground (arith, h));
  uncompressed = is_none-none r.compression (ground (arith, h));
  short_type = leb→le _ _ (ground (arith, h));
  plain_text = ground (arith, h);
}

is_secret-public : (c : RetrievalClass) → is_secret c ≡ false → c ≢ RetrievalClass.secret
is_secret-public c h same = ground (arith, rw same at h)

-- The stored bytes behind a text.
pub record Genuine (digest : Sha256) (r : ContentRef) (c : LocalTextContent) : Type 0 where
  pub bytes : List ℕ
  pub intact : hex_sha256 digest bytes ≡ r.sha256
  pub bounded : length bytes ≤ max_text_content_bytes
  pub recorded : length bytes ≡ r.byte_length
  pub decoded : from_utf8 bytes ≡ some c.content
  pub length_told : c.byte_length ≡ length bytes
  pub digest_told : c.sha256 ≡ r.sha256
  pub public : r.retrieval_class ≢ RetrievalClass.secret
  pub supported : Supported r

vault_bytes-ok :
    (r : Result (List ℕ) VaultError) (bytes : List ℕ) → vault_bytes r ≡ ok bytes → r ≡ ok bytes
unfolding vault_bytes
vault_bytes-ok (ok found) bytes h = ap ok (ok_inj h)
vault_bytes-ok (err (VaultError.too_large limit)) bytes h = absurd (ground arith)
vault_bytes-ok (err (VaultError.io e)) bytes h = absurd (ground arith)
vault_bytes-ok (err VaultError.invalid_digest) bytes h = absurd (ground arith)
vault_bytes-ok (err VaultError.not_regular_file) bytes h = absurd (ground arith)
vault_bytes-ok (err VaultError.integrity_mismatch) bytes h = absurd (ground arith)

ok_or-some : {A E : Type 0} (o : Option A) (e : E) (a : A) → ok_or o e ≡ ok a → o ≡ some a
ok_or-some none e a h = absurd (ground arith)
ok_or-some (some b) e a h = ap some (ok_inj h)

module _ {E : Type 0} (serde : Serde) (repo : RawEventLookupRepository E) (digest : Sha256)
    (target : Option (List ℕ)) (files later : List File) where
  release-Genuine :
      (event_id : Uuid) (r : ContentRef) (c : LocalTextContent)
      → release serde repo digest target files later event_id r ≡ ok c
      → Genuine digest r c
  unfolding release
  release-Genuine event_id r c h =
      let (u, public, h1) =
        bind-ok (ensure (not (is_secret r.retrieval_class)) not_authorized) _ c h in
      let (v, supported, h2) = bind-ok (ensure (is_supported r) unsupported_content) _ c h1 in
      let (w, short, h3) =
        bind-ok (ensure (leb r.byte_length max_text_content_bytes) too_large) _ c h2 in
      let (bytes, read, h4) =
        bind-ok
          (vault_bytes
            (read_verified_bytes digest r.sha256 max_text_content_bytes target files later))
          _ c h3 in
      let (x, exact, h5) = bind-ok (ensure (length bytes == r.byte_length) unavailable) _ c h4 in
      let (content, decoded, done) = bind-ok (ok_or (from_utf8 bytes) unavailable) _ c h5 in
      let (intact, bounded, place) =
        read_verified_bytes-integrity digest r.sha256 max_text_content_bytes target files later
          bytes (vault_bytes-ok _ bytes read) in
      let size : length bytes ≡ r.byte_length = (==_iff _ _).0 (ensure-ok _ _ x exact) in
      record {
        bytes = bytes;
        intact = intact;
        bounded = bounded;
        recorded = size;
        decoded =
            ok_or-some (from_utf8 bytes) unavailable content decoded
            ∙ ap (λ t. some t.content) (ok_inj done);
        length_told = sym (ap (λ t. t.byte_length) (ok_inj done)) ∙ sym size;
        digest_told = sym (ap (λ t. t.sha256) (ok_inj done));
        public = is_secret-public r.retrieval_class (ground (arith, ensure-ok _ _ u public));
        supported = is_supported-Supported r (ensure-ok _ _ v supported);
      }

  release_authorized-some :
      (event_id : Uuid) (o : Result (Option AuthorizedContentRef) (ContentAccessError E))
      (c : LocalTextContent)
      → release_authorized serde repo digest target files later event_id o ≡ ok c
      → (a : AuthorizedContentRef) × (o ≡ ok (some a))
        × (release serde repo digest target files later event_id a.reference ≡ ok c)
  unfolding release_authorized
  release_authorized-some event_id (err e) c h = absurd (ground arith)
  release_authorized-some event_id (ok none) c h = absurd (ground arith)
  release_authorized-some event_id (ok (some a)) c h = (a, refl, h)

-- Why a text was released to the bearer of a token.
pub record Released {E : Type 0} (serde : Serde) (repo : RawEventLookupRepository E)
    (digest : Sha256) (policy : ReadCapabilityPolicy) (authorization : ReadCapabilityToken)
    (event_id : Uuid) (sha256 : Text) (c : LocalTextContent) : Type 0 where
  pub grant : RetrievalGrant
  pub bearer : to_bytes policy.token ≡ to_bytes authorization
  pub granted : grant ≡ policy.grant
  pub text_allowed : text_content_allowed policy ≡ true
  pub chosen : AuthorizedContentRef
  pub authorized : Authorized serde repo event_id sha256 grant (scope_allowed policy) chosen
  pub genuine : Genuine digest chosen.reference c

read_granted-Released :
    {E : Type 0} (serde : Serde) (repo : RawEventLookupRepository E) (digest : Sha256)
    (target : Option (List ℕ)) (files later : List File) (policy : ReadCapabilityPolicy)
    (authorization : ReadCapabilityToken) (event_id : Uuid) (sha256 : Text) (c : LocalTextContent)
    (o : Option RetrievalGrant)
    → All (λ ch. ch < 0x110000) policy.token
    → All (λ ch. ch < 0x110000) authorization
    → grant_for_token policy authorization ≡ o
    → read_granted serde repo digest target files later policy event_id sha256 o ≡ ok c
    → Released serde repo digest policy authorization event_id sha256 c
unfolding read_granted
read_granted-Released serde repo digest target files later policy authorization event_id sha256 c
      none own given g h =
    absurd (ground arith)
read_granted-Released serde repo digest target files later policy authorization event_id sha256 c
      (some grant) own given g h =
    let (u, allowed, h1) = bind-ok (ensure (text_content_allowed policy) not_authorized) _ c h in
    let (v, wellformed, h2) = bind-ok (ensure (is_lowercase_sha256 sha256) not_authorized) _ c h1 in
    let (a, answered, released) =
      release_authorized-some serde repo digest target files later event_id
        (authorize_reference serde repo event_id sha256 grant (scope_allowed policy)) c h2 in
    let (bearer, granted) = grant_for_token-bytes policy authorization grant own given g in
    record {
      grant = grant;
      bearer = bearer;
      granted = granted;
      text_allowed = ensure-ok _ _ u allowed;
      chosen = a;
      authorized =
          authorize_reference-Authorized serde repo event_id sha256 grant (scope_allowed policy) a
            answered;
      genuine =
          release-Genuine serde repo digest target files later event_id a.reference c released;
    }

-- For tokens of Unicode characters, text is released only to a bearer of the bytes of the policy's
-- token, and where the policy allows text; only through a reference that is authorised for the
-- policy's grant and scopes, is not secret, is stored in the local vault without compression, and has
-- a short media type of plain UTF-8 text; and only if the stored bytes have the reference's digest and
-- recorded length, are within the limit, and decode as UTF-8 to the text.
pub read_text_content_with_policy-Released :
    {E : Type 0} (serde : Serde) (repo : RawEventLookupRepository E) (digest : Sha256)
    (target : Option (List ℕ)) (files later : List File) (policy : ReadCapabilityPolicy)
    (authorization : ReadCapabilityToken) (event_id : Uuid) (sha256 : Text) (c : LocalTextContent)
    → All (λ ch. ch < 0x110000) policy.token
    → All (λ ch. ch < 0x110000) authorization
    → read_text_content_with_policy serde repo digest target files later policy authorization
        event_id sha256
      ≡ ok c
    → Released serde repo digest policy authorization event_id sha256 c
unfolding read_text_content_with_policy
read_text_content_with_policy-Released serde repo digest target files later policy authorization
      event_id sha256 c own given h =
    read_granted-Released serde repo digest target files later policy authorization event_id sha256
      c (grant_for_token policy authorization) own given refl h
