-- ===== src/Screenpipe/Loopback.antt =====
-- crates/screenpipe-adapter/src/lib.rs: the base URL of the client. `Url::parse` is a parameter.
use context_layer.Base.{
  ℕ, ◌≡◌, refl, sym, ap, ◌∙◌, subst, inl, inr, Bool, true, false, Bool-cases, ◌&&◌, ◌==◌, ==_iff,
  if◌then◌else◌, not, Text, text, text_eq, eq_of_text_eq, trim, is_empty, eq_ignore_ascii_case,
  List, [], ◌∷◌, Option, none, some, Result, ok, ◌>>=◌, ◌>>◌, map_err, ensure, ensure-ok, bind-ok,
  ok_inj, arith,
}
use context_layer.Screenpipe.{ScreenpipeError, missing_api_key, non_loopback_base_url, invalid_url}

pub data Host : Type 0 where
  domain : Text → Host
  ipv4 : (a b c d : ℕ) → Host
  ipv6 : ℕ → Host

-- What is used of a parsed URL.
pub record BaseUrl : Type 0 where
  pub scheme : Text
  pub host : Option Host
  pub username : Text
  pub password : Option Text
  pub query : Option Text
  pub fragment : Option Text
  pub path : Text

-- `Ipv4Addr::is_loopback` and `Ipv6Addr::is_loopback`.
abbrev pub is_loopback : Option Host → Bool
is_loopback none = false
is_loopback (some (domain d)) = eq_ignore_ascii_case d (text "localhost")
is_loopback (some (ipv4 a b c d)) = a == 127
is_loopback (some (ipv6 address)) = address == 1

abbrev is_none {ℓ} : {A : Type ℓ} → Option A → Bool
is_none none = true
is_none (some _) = false

abbrev is_plain : BaseUrl → Bool
is_plain u =
    is_loopback u.host
    && (is_empty u.username && (is_none u.password && (is_none u.query && is_none u.fragment)))

-- `if url.path().is_empty() { url.set_path("/") }`
abbrev with_path : BaseUrl → BaseUrl
with_path u = if is_empty u.path then record u { path = text "/" } else u

unfoldable pub validate_loopback_base_url :
    (Text → Result BaseUrl Text) → Text → Result BaseUrl ScreenpipeError
validate_loopback_base_url parse value = do
  url ← map_err invalid_url (parse value)
  ensure (text_eq url.scheme (text "http")) (non_loopback_base_url value)
  ensure (is_plain url) (non_loopback_base_url value)
  ensure (text_eq (with_path url).path (text "/")) (non_loopback_base_url value)
  ok (with_path url)

pub record Client : Type 0 where
  pub base_url : BaseUrl
  pub api_key : Text

-- `ScreenpipeClient::new`; the HTTP client is built with neither proxy nor redirects.
unfoldable pub new_client :
    (Text → Result BaseUrl Text) → Text → Text → Result Client ScreenpipeError
unfolding validate_loopback_base_url trim
new_client parse base_url api_key = do
  url ← validate_loopback_base_url parse base_url
  ensure (not (is_empty (trim api_key))) missing_api_key
  ok (record { base_url = url; api_key = api_key })

-- A host of this machine.
pub data Local : Option Host → Type 0 where
  localhost :
      (d : Text) → eq_ignore_ascii_case d (text "localhost") ≡ true → Local (some (domain d))
  v4 : (b c d : ℕ) → Local (some (ipv4 127 b c d))
  v6 : Local (some (ipv6 1))

is_loopback-Local : (h : Option Host) → is_loopback h ≡ true → Local h
is_loopback-Local none e = absurd (ground (arith, e))
is_loopback-Local (some (domain d)) e = localhost d e
is_loopback-Local (some (ipv4 a b c d)) e =
    subst (λ n. Local (some (ipv4 n b c d))) (sym ((==_iff a 127).0 e)) (v4 b c d)
is_loopback-Local (some (ipv6 n)) e = subst (λ m. Local (some (ipv6 m))) (sym ((==_iff n 1).0 e)) v6

-- A base URL that goes nowhere but to this machine, without credentials.
pub record Safe (u : BaseUrl) : Type 0 where
  pub scheme : u.scheme ≡ text "http"
  pub host : Local u.host
  pub username : u.username ≡ []
  pub password : u.password ≡ none
  pub path : u.path ≡ text "/"

and_left : (a b : Bool) → (a && b) ≡ true → a ≡ true
and_left a b h = ground (arith, h)

and_right : (a b : Bool) → (a && b) ≡ true → b ≡ true
and_right a b h = ground (arith, h)

empty_of : {A : Type 0} (xs : List A) → is_empty xs ≡ true → xs ≡ []
empty_of [] h = refl
empty_of (x ∷ xs) h = absurd (ground (arith, h))

none_of : {A : Type 0} (x : Option A) → is_none x ≡ true → x ≡ none
none_of none h = refl
none_of (some a) h = absurd (ground (arith, h))

-- The path alone may differ.
with_path-rest :
    (u : BaseUrl)
    → u.scheme ≡ text "http"
    → is_plain u ≡ true
    → text_eq (with_path u).path (text "/") ≡ true
    → Safe (with_path u)
with_path-rest u s p e = elim (Bool-cases (is_empty u.path)) [
  | inl t ↦ rw t (safe (record u { path = text "/" }) s p refl)
  | inr t ↦ rw t (safe u s p (rw t at e))
]
  where
    safe :
        (u : BaseUrl)
        → u.scheme ≡ text "http"
        → is_plain u ≡ true
        → text_eq u.path (text "/") ≡ true
        → Safe u
    safe u s p e =
        let rest = and_right (is_loopback u.host) _ p in
        record {
          scheme = s;
          host = is_loopback-Local u.host (and_left _ _ p);
          username = empty_of u.username (and_left _ _ rest);
          password = none_of u.password (and_left _ _ (and_right (is_empty u.username) _ rest));
          path = eq_of_text_eq u.path (text "/") e;
        }

-- A client that is made sends its key to this machine alone: the base URL is plain HTTP on localhost
-- or a loopback address, without user name or password, with no path but the root.
pub new_client-Safe :
    (parse : Text → Result BaseUrl Text) (base_url api_key : Text) (client : Client)
    → new_client parse base_url api_key ≡ ok client
    → Safe client.base_url
unfolding new_client validate_loopback_base_url
new_client-Safe parse base_url api_key client h =
    let (valid, h1, made) = bind-ok (validate_loopback_base_url parse base_url) _ client h in
    let (u0, k0, done) =
      bind-ok (ensure (not (is_empty (trim api_key))) missing_api_key) _ client made in
    let (url, parsed, h2) = bind-ok (map_err invalid_url (parse base_url)) _ valid h1 in
    let (u1, k1, h3) =
      bind-ok (ensure (text_eq url.scheme (text "http")) (non_loopback_base_url base_url)) _ valid
        h2 in
    let (u2, k2, h4) =
      bind-ok (ensure (is_plain url) (non_loopback_base_url base_url)) _ valid h3 in
    let (u3, k3, h5) =
      bind-ok (ensure (text_eq (with_path url).path (text "/")) (non_loopback_base_url base_url)) _
        valid h4 in
    subst Safe (ok_inj h5 ∙ ap (λ c. c.base_url) (ok_inj done)) (
      with_path-rest url (eq_of_text_eq url.scheme (text "http") (ensure-ok _ _ u1 k1))
        (ensure-ok _ _ u2 k2) (ensure-ok _ _ u3 k3))
