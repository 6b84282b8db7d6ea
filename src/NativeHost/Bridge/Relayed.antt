-- ===== src/NativeHost/Bridge/Relayed.antt =====
-- For whom the host answers, and with what.
use context_layer.Base.{
  ℕ, ◌≡◌, refl, ap, sym, ◌∙◌, Bool, true, false, Bool-cases, inl, inr, ◌==◌, ==_iff, not, Text,
  text, text_eq, eq_of_text_eq, is_empty, strip_prefix, trim_start, List, [], ◌∷◌, ◌++◌, append-nil,
  any-Memᴰ, find, find-Memᴰ, find_passes, All, All-map, Memᴰ, map_err-ok, Option, none, some, ok,
  map_err, ensure, ensure-ok, bind-ok, ok_inj, ok_or, arith,
}
use mathlib.Core.List.{reverse, reverse_aux}
use mathlib.Core.Option.{some_inj}
use context_layer.Contracts.{LocalApiRequest, LocalApiResponse, local_api_version}
use context_layer.NativeHost.{
  BrowserMessage, missing_origin, origin_not_allowlisted, empty_allowlist, io, is_some, protocol_of,
}
use context_layer.NativeHost.Request.{request_from_browser}
use context_layer.NativeHost.Accepted.{Acceptable, request_from_browser-Acceptable}
use context_layer.NativeHost.Delivered.{Submits, message_id, request-Submits}
use context_layer.NativeHost.Bridge.{
  is_origin, trim_end_slashes, load_allowed_origins, is_allowed, World, run_host,
}

-- The texts are the same up to slashes at their ends.
pub record SameSite (a b : Text) : Type 0 where
  pub site : Text
  pub slashes_a : Text
  pub slashes_b : Text
  pub first : a ≡ site ++ slashes_a
  pub second : b ≡ site ++ slashes_b
  pub only_a : All (λ c. c ≡ b'/') slashes_a
  pub only_b : All (λ c. c ≡ b'/') slashes_b

-- Where an allowlist comes from: the environment, or else the file, which may not be empty.
pub data Allowlist (w : World) (allowed : List Text) : Type 0 where
  of_environment :
      (origin : Text) → w.env_origin ≡ some origin → allowed ≡ origin ∷ [] → Allowlist w allowed
  of_config :
      w.env_origin ≡ none → w.config ≡ ok allowed → is_empty allowed ≡ false → Allowlist w allowed

-- How a response came about.
pub record Bridged (w : World) (response : LocalApiResponse) : Type 0 where
  pub origin : Text
  pub argument : Memᴰ origin w.arguments
  pub extension : Text
  pub of_extension : origin ≡ text "chrome-extension://" ++ extension
  pub allowed : List Text
  pub allowlist : Allowlist w allowed
  pub entry : Text
  pub listed : Memᴰ entry allowed
  pub same_site : SameSite origin entry
  pub message : BrowserMessage
  pub received : w.stdin ≡ ok message
  pub acceptable : Acceptable w.parse_url message
  pub request : LocalApiRequest
  pub request_id : request.request_id ≡ w.request_id
  pub request_version : request.protocol_version ≡ local_api_version
  pub submits : Submits (message_id message) request.command
  pub answer : LocalApiResponse
  pub answered : w.agent request ≡ ok answer
  pub relayed_id : response.request_id ≡ answer.request_id
  pub relayed_result : response.result ≡ answer.result
  pub bridge_version : response.protocol_version ≡ protocol_of message

reverse_aux-append : (a b r : Text) → reverse_aux (a ++ b) r ≡ reverse_aux b (reverse_aux a r)
reverse_aux-append [] b r = refl
reverse_aux-append (x ∷ a) b r = reverse_aux-append a b (x ∷ r)

reverse_aux-twice : (a b r : Text) → reverse_aux (reverse_aux a b) r ≡ reverse_aux b (a ++ r)
reverse_aux-twice [] b r = refl
reverse_aux-twice (x ∷ a) b r = reverse_aux-twice a (x ∷ b) r

reverse_aux-rest : (a r : Text) → reverse_aux a r ≡ reverse a ++ r
reverse_aux-rest a r = sym (
    sym (reverse_aux-twice (reverse_aux a []) [] r)
    ∙ ap (λ s. reverse_aux s r) (reverse_aux-twice a [] [] ∙ append-nil a))

All-reverse_aux : (P : ℕ → Type 0) (a r : Text) → All P a → All P r → All P (reverse_aux a r)
All-reverse_aux P [] r h k = k
All-reverse_aux P (x ∷ a) r h k = All-reverse_aux P a (x ∷ r) h.1 (h.0, k)

trim_start-split :
    (p : ℕ → Bool) (s : Text)
    → (gone : Text) × (s ≡ gone ++ trim_start p s) × All (λ c. p c ≡ true) gone
unfolding trim_start
trim_start-split p [] = ([], refl, tt)
trim_start-split p (c ∷ s) = elim (Bool-cases (p c)) [
  | inl t ↦
      let (gone, e, every) = trim_start-split p s in
      (c ∷ gone, rw (t, trim_start) (ap (λ s'. c ∷ s') e), (t, every))
  | inr t ↦ ([], rw (t, trim_start) refl, tt)
]

trim_end-split :
    (s : Text)
    → (slashes : Text) × (s ≡ trim_end_slashes s ++ slashes) × All (λ c. c ≡ b'/') slashes
unfolding trim_end_slashes
trim_end-split s =
    let (gone, e, every) = trim_start-split (λ c. c == b'/') (reverse s) in
    let kept = trim_start (λ c. c == b'/') (reverse s) in
    (
      reverse gone,
      sym (reverse_aux-twice s [] [] ∙ append-nil s)
          ∙ ap (λ x. reverse_aux x []) e
          ∙ reverse_aux-append gone kept []
          ∙ reverse_aux-rest kept (reverse gone),
      All-reverse_aux (λ c. c ≡ b'/') gone []
          (All-map (λ c same. (==_iff c b'/').0 same) gone every) tt,
    )

is_allowed-SameSite :
    (origin : Text) (allowed : List Text)
    → is_allowed origin allowed ≡ true
    → (entry : Text) × Memᴰ entry allowed × SameSite origin entry
is_allowed-SameSite origin allowed h =
    let (entry, there, e) =
      any-Memᴰ (λ a. text_eq (trim_end_slashes origin) (trim_end_slashes a)) allowed h in
    let same = eq_of_text_eq (trim_end_slashes origin) (trim_end_slashes entry) e in
    let (m, first, only_m) = trim_end-split origin in
    let (n, second, only_n) = trim_end-split entry in
    (
      entry,
      there,
      record {
        site = trim_end_slashes origin;
        slashes_a = m;
        slashes_b = n;
        first = first;
        second = second ∙ ap (λ site. site ++ n) (sym same);
        only_a = only_m;
        only_b = only_n;
      },
    )

strip_prefix-some : (p s rest : Text) → strip_prefix p s ≡ some rest → s ≡ p ++ rest
strip_prefix-some [] s rest h = some_inj.0 h
strip_prefix-some (c ∷ p) [] rest h = absurd (ground (arith, h))
strip_prefix-some (c ∷ p) (d ∷ s) rest h = elim (Bool-cases (c == d)) [
  | inl t ↦ rw (← (==_iff c d).0 t) (ap (λ s'. c ∷ s') (strip_prefix-some p s rest (rw t at h)))
  | inr t ↦ absurd (ground (arith, rw t at h))
]

is_some-some : {A : Type 0} (o : Option A) → is_some o ≡ true → (a : A) × (o ≡ some a)
is_some-some none h = absurd (ground (arith, h))
is_some-some (some a) h = (a, refl)

load_allowed_origins-Allowlist :
    (w : World) (allowed : List Text) (o : Option Text)
    → w.env_origin ≡ o
    → load_allowed_origins o w.config ≡ ok allowed
    → Allowlist w allowed
unfolding load_allowed_origins
load_allowed_origins-Allowlist w allowed (some origin) at h =
    of_environment origin at (sym (ok_inj h))
load_allowed_origins-Allowlist w allowed none at h =
    let (origins, read, h1) = bind-ok (map_err io w.config) _ allowed h in
    let (u, filled, done) =
      bind-ok (ensure (not (is_empty origins)) empty_allowlist) _ allowed h1 in
    let same : origins ≡ allowed = ok_inj done in
    let filled_in : is_empty origins ≡ false =
      ground (arith, ensure-ok (not (is_empty origins)) empty_allowlist u filled) in
    of_config at (map_err-ok io w.config origins read ∙ ap ok same) (rw same at filled_in)

ok_or-ok : {A E : Type 0} (o : Option A) (e : E) (a : A) → ok_or o e ≡ ok a → o ≡ some a
ok_or-ok none e a h = absurd (ground (arith, h))
ok_or-ok (some b) e a h = ap some (ok_inj h)

-- The host answers the browser only if one of its arguments is an extension's origin that is, up to
-- slashes at the end, an entry of the allowlist; the allowlist is the origin of the environment, or
-- else a file that lists at least one. It answers only a message that is acceptable, with what the
-- agent answered to a request of the host's identifier that submits an event of the message's
-- identifier. The answer has the protocol version of the message, whatever the agent's version.
pub run_host-Bridged :
    (w : World) (response : LocalApiResponse) → run_host w ≡ ok response → Bridged w response
unfolding run_host
run_host-Bridged w response h =
    let (origin, h0, h1) =
      bind-ok (ok_or (find is_origin w.arguments) missing_origin) _ response h in
    let (allowed, loaded, h2) =
      bind-ok (load_allowed_origins w.env_origin w.config) _ response h1 in
    let (u, checked, h3) =
      bind-ok (ensure (is_allowed origin allowed) origin_not_allowlisted) _ response h2 in
    let (message, received, h4) = bind-ok (map_err io w.stdin) _ response h3 in
    let (bridged, accepted, h5) =
      bind-ok (request_from_browser w.parse_url w.stamp w.computer w.request_id message) _ response
        h4 in
    let (answer, answered, h6) = bind-ok (map_err io (w.agent bridged.1)) _ response h5 in
    let named = ok_or-ok (find is_origin w.arguments) missing_origin origin h0 in
    let (extension, stripped) = is_some-some _ (find_passes is_origin w.arguments origin named) in
    let (entry, listed, site) =
      is_allowed-SameSite origin allowed
        (ensure-ok (is_allowed origin allowed) origin_not_allowlisted u checked) in
    let (version, its_id, current, submits) =
      request-Submits w.parse_url w.stamp w.computer w.request_id message bridged.0 bridged.1
        accepted in
    let relayed = ok_inj h6 in
    record {
      origin = origin;
      argument = find-Memᴰ is_origin w.arguments origin named;
      extension = extension;
      of_extension = strip_prefix-some (text "chrome-extension://") origin extension stripped;
      allowed = allowed;
      allowlist = load_allowed_origins-Allowlist w allowed w.env_origin refl loaded;
      entry = entry;
      listed = listed;
      same_site = site;
      message = message;
      received = map_err-ok io w.stdin message received;
      acceptable =
          (request_from_browser-Acceptable w.parse_url w.stamp w.computer w.request_id message).0
            (bridged, accepted);
      request = bridged.1;
      request_id = its_id;
      request_version = current;
      submits = submits;
      answer = answer;
      answered = map_err-ok io (w.agent bridged.1) answer answered;
      relayed_id = sym (ap (λ r. r.request_id) relayed);
      relayed_result = sym (ap (λ r. r.result) relayed);
      bridge_version = sym (ap (λ r. r.protocol_version) relayed) ∙ version;
    }
