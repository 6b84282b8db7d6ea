-- ===== src/Agent/Policy.antt =====
-- apps/context-agent/src/read_capability.rs, `ReadCapabilityPolicy`: whose token reads which scopes, and
-- how far. The environment variables are a parameter.
use context_layer.Base.{
  ℕ, zero, suc, ◌+◌, ◌*◌, ◌/◌, ◌%◌, Bool, true, false, ◌&&◌, ◌||◌, ◌==◌, leb, ltb, not,
  if◌then◌else◌, Text, text, text_eq, trim, byte_len, to_bytes, is_empty, List, [], ◌∷◌, ◌++◌,
  length, any, Option, none, some, Result, ok, err, ◌>>=◌, ensure, ◌>>◌,
}
use context_layer.Contracts.{ReadCapabilityToken, ScopeId, SensitivityClass, RetrievalClass}
use context_layer.Core.Grants.{RetrievalGrant, metadata_only}

pub record ReadCapabilityPolicy : Type 0 where
  pub token : Text
  pub allowed_scopes : List Text
  pub grant : RetrievalGrant
  pub allow_text_content : Bool

-- The messages of `from_environment`, by what they are about.
pub data ConfigurationError : Type 0 where
  token_required token_size invalid_scope scope_count : ConfigurationError
  unsupported_profile : Text → ConfigurationError

pub record Environment : Type 0 where
  pub token : Option Text
  pub profile : Option Text
  pub scopes : Option Text

abbrev pub is_some {ℓ} : {A : Type ℓ} → Option A → Bool
is_some none = false
is_some (some _) = true

abbrev pub unwrap_or {ℓ} : {A : Type ℓ} → A → Option A → A
unwrap_or d none = d
unwrap_or d (some a) = a

unfoldable pub grant_of_profile : Text → Result (RetrievalGrant × Bool) ConfigurationError
unfolding metadata_only
grant_of_profile profile =
    if text_eq profile (text "metadata")
    then ok (metadata_only, false)
    else if text_eq profile (text "sensitive")
    then ok (
      record {
        max_event_sensitivity = SensitivityClass.sensitive;
        max_content_retrieval = RetrievalClass.sensitive;
        include_payload = true;
      },
      true,
    )
    else err (unsupported_profile profile)

-- `str::split` at one character; the parts are never none.
unfoldable pub split_from : ℕ → Text → Text → List Text
split_from mark part [] = part ∷ []
split_from mark part (c ∷ s) =
    let stop = split_from mark [] s in
    let more = split_from mark (part ++ c ∷ []) s in if c == mark then part ∷ stop else more

abbrev pub split : ℕ → Text → List Text
split mark s = split_from mark [] s

-- `HashSet::insert`
abbrev pub insert_scope : Text → List Text → List Text
insert_scope scope scopes = if any (text_eq scope) scopes then scopes else scopes ++ scope ∷ []

unfoldable pub collect_scopes : List Text → List Text → Result (List Text) ConfigurationError
collect_scopes scopes [] = ok scopes
collect_scopes scopes (part ∷ parts) =
    let scope = trim part in
    let rest = collect_scopes (insert_scope scope scopes) parts in
    if is_empty scope || ltb 256 (byte_len scope) then err invalid_scope else rest

unfoldable pub policy_of_token : Text → Environment → Result ReadCapabilityPolicy ConfigurationError
unfolding grant_of_profile split_from collect_scopes
policy_of_token token env = do
  ensure (leb 32 (byte_len token) && leb (byte_len token) 1024) token_size
  (grant, allow_text_content) ← grant_of_profile (unwrap_or (text "metadata") env.profile)
  scopes ← collect_scopes [] (split b',' (unwrap_or (text "scope.personal") env.scopes))
  ensure (not (is_empty scopes) && leb (length scopes) 16) scope_count
  ok (record {
    token = token;
    allowed_scopes = scopes;
    grant = grant;
    allow_text_content = allow_text_content;
  })

unfoldable pub from_environment :
    Environment → Result (Option ReadCapabilityPolicy) ConfigurationError
unfolding policy_of_token
from_environment env = elim (env.token) [
  | none ↦ if is_some env.profile || is_some env.scopes then err token_required else ok none
  | some token ↦ policy_of_token token env >>= λ policy. ok (some policy)
]

-- `^` and `|` on `w` bits.
unfoldable pub xor_bits : ℕ → ℕ → ℕ → ℕ
xor_bits zero a b = 0
xor_bits (suc w) a b = (a + b) % 2 + 2 * xor_bits w (a / 2) (b / 2)

unfoldable pub or_bits : ℕ → ℕ → ℕ → ℕ
or_bits zero a b = 0
or_bits (suc w) a b =
    (if (a % 2 == 0) && (b % 2 == 0) then 0 else 1) + 2 * or_bits w (a / 2) (b / 2)

unfoldable pub accumulate : ℕ → List ℕ → List ℕ → ℕ
unfolding xor_bits or_bits
accumulate difference (l ∷ left) (r ∷ right) =
    accumulate (or_bits 8 difference (xor_bits 8 l r)) left right
accumulate difference _ _ = difference

unfoldable pub constant_time_equal : List ℕ → List ℕ → Bool
unfolding accumulate
constant_time_equal left right =
    if not (length left == length right) then false else accumulate 0 left right == 0

unfoldable pub grant_for_token : ReadCapabilityPolicy → ReadCapabilityToken → Option RetrievalGrant
unfolding constant_time_equal
grant_for_token policy token =
    if constant_time_equal (to_bytes policy.token) (to_bytes token) then some policy.grant else none

unfoldable pub scope_allowed : ReadCapabilityPolicy → ScopeId → Bool
scope_allowed policy scope_id = any (text_eq scope_id) policy.allowed_scopes

abbrev pub text_content_allowed : ReadCapabilityPolicy → Bool
text_content_allowed policy = policy.allow_text_content

unfoldable pub authorize :
    ReadCapabilityPolicy → ReadCapabilityToken → ScopeId → Option RetrievalGrant
unfolding scope_allowed grant_for_token
authorize policy token scope_id =
    if not (scope_allowed policy scope_id) then none else grant_for_token policy token
