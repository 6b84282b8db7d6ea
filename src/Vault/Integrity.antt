-- ===== src/Vault/Integrity.antt =====
-- What a read returns, and that what is put can be read.
use context_layer.Base.{
  ℕ, ◌+◌, ◌≤◌, ◌<◌, min, ◌≡◌, refl, ap, ◌∙◌, sym, Bool, true, false, leb, Text, text_eq,
  text_eq_refl, eq_of_text_eq, List, [], ◌∷◌, length, take_all, Option, none, some, Result, ok, err,
  ensure, bind-ok, ok_inj, ensure-ok, Bool-cases, inl, inr, arith, leb→le, le→leb,
}
use context_layer.Vault.{
  VaultError, too_large, integrity_mismatch, regular, File, path_eq, lookup, exists, Sha256,
  hex_sha256, path_for_digest, StoredContent, publish, written, opened, put_unless, open_fault,
  stored, arrive, remove_file, io, check_metadata, read_limited, read_verified_bytes, put_bytes,
  put_at, temp_path, Weather,
}

-- Bytes that are read have the digest that was asked for, which is a well-formed one, and are no more
-- than the limit, whatever happens to the file between the look at it and the read.
pub read_verified_bytes-integrity :
    (sha256 : Sha256) (digest : Text) (limit : ℕ) (target : Option (List ℕ))
    (files later : List File) (bytes : List ℕ)
    → read_verified_bytes sha256 digest limit target files later ≡ ok bytes
    → (hex_sha256 sha256 bytes ≡ digest)
      × (length bytes ≤ limit)
      × ((path : List Text) × (path_for_digest digest ≡ ok path))
unfolding read_verified_bytes
read_verified_bytes-integrity sha256 digest limit target files later bytes h =
    let (path, hpath, h1) = bind-ok (path_for_digest digest) _ bytes h in
    let (u, checked, h2) = bind-ok (check_metadata limit (lookup path files)) _ bytes h1 in
    let (found, hread, h3) = bind-ok (read_limited limit target (lookup path later)) _ bytes h2 in
    let (v, small, h4) = bind-ok (ensure (leb (length found) limit) (too_large limit)) _ bytes h3 in
    let (w, same, done) =
      bind-ok (ensure (text_eq (hex_sha256 sha256 found) digest) integrity_mismatch) _ bytes h4 in
    (
      rw (← ok_inj done) (eq_of_text_eq (hex_sha256 sha256 found) digest (ensure-ok _ _ w same)),
      rw (← ok_inj done) (leb→le (length found) limit (ensure-ok _ _ v small)),
      (path, hpath),
    )

path_eq_refl : (p : List Text) → path_eq p p ≡ true
path_eq_refl [] = refl
path_eq_refl (s ∷ p) = rw (text_eq_refl s) (path_eq_refl p)

-- A call that stored the bytes anew.
record Fresh (sha256 : Text) (bytes : List ℕ) (path : List Text) (content : StoredContent)
    (files : List File) : Type 0 where
  digest : content.sha256 ≡ sha256
  there : lookup path files ≡ some (regular bytes)

abbrev Outcome : Type 0
Outcome = Result StoredContent VaultError × List File

-- An error is not the result that a hypothesis gives.
not_stored :
    {P : Type 0} (e : VaultError) (before files : List File) (content : StoredContent)
    → ◌≡◌ {A = Outcome} (err e, before) (ok content, files)
    → P
not_stored e before files content h =
    let clash : ◌≡◌ {A = Result StoredContent VaultError} (err e) (ok content) = ap (λ p. p.0) h in
    absurd (ground (arith, clash))

not_fresh :
    {P : Type 0} (sha256 : Text) (bytes : List ℕ) (path : List Text) (before files : List File)
    (content : StoredContent)
    → ◌≡◌ {A = Outcome} (ok (stored sha256 bytes path true), before) (ok content, files)
    → content.duplicate ≡ false
    → P
not_fresh sha256 bytes path before files content h new =
    let same : stored sha256 bytes path true ≡ content = ok_inj (ap (λ p. p.0) h) in
    let clash : true ≡ false = ap (λ c. c.duplicate) same ∙ new in absurd (ground (arith, clash))

publish-Fresh :
    (fault : Option Text) (resolves : Bool) (sha256 : Text) (bytes : List ℕ) (temp path : List Text)
    (files files' : List File) (content : StoredContent)
    → publish fault resolves sha256 bytes temp path files ≡ (ok content, files')
    → content.duplicate ≡ false
    → Fresh sha256 bytes path content files'
unfolding publish
publish-Fresh none resolves sha256 bytes temp path files files' content h new = record {
  digest = sym (ap (λ c. c.sha256) (ok_inj (ap (λ p. p.0) h)));
  there = rw (← ap (λ p. p.1) h, path_eq_refl path);
}
publish-Fresh (some e) resolves sha256 bytes temp path files files' content h new =
    elim (Bool-cases (exists resolves path files)) [
      | inl t ↦ not_fresh sha256 bytes path (remove_file temp files) files' content (rw t at h) new
      | inr t ↦ not_stored (io e) (remove_file temp files) files' content (rw t at h)
    ]

written-Fresh :
    (weather : Weather) (fault : Option Text) (sha256 : Text) (bytes : List ℕ)
    (temp path : List Text) (files files' : List File) (content : StoredContent)
    → written weather fault sha256 bytes temp path files ≡ (ok content, files')
    → content.duplicate ≡ false
    → Fresh sha256 bytes path content files'
unfolding written
written-Fresh weather (some e) sha256 bytes temp path files files' content h new =
    not_stored (io e) _ files' content h
written-Fresh weather none sha256 bytes temp path files files' content h new =
    publish-Fresh weather.rename weather.resolves_later sha256 bytes temp path
      (arrive path weather.appears (record { path = temp; entry = regular bytes } ∷ files)) files'
      content h new

opened-Fresh :
    (weather : Weather) (fault : Option Text) (sha256 : Text) (bytes : List ℕ)
    (temp path : List Text) (files files' : List File) (content : StoredContent)
    → opened weather fault sha256 bytes temp path files ≡ (ok content, files')
    → content.duplicate ≡ false
    → Fresh sha256 bytes path content files'
unfolding opened
opened-Fresh weather (some e) sha256 bytes temp path files files' content h new =
    not_stored (io e) files files' content h
opened-Fresh weather none sha256 bytes temp path files files' content h new =
    written-Fresh weather weather.write_all sha256 bytes temp path files files' content h new

put_unless-Fresh :
    (found : Bool) (weather : Weather) (sha256 : Text) (bytes : List ℕ) (temp path : List Text)
    (files files' : List File) (content : StoredContent)
    → put_unless found weather sha256 bytes temp path files ≡ (ok content, files')
    → content.duplicate ≡ false
    → Fresh sha256 bytes path content files'
unfolding put_unless
put_unless-Fresh true weather sha256 bytes temp path files files' content h new =
    not_fresh sha256 bytes path files files' content h new
put_unless-Fresh false weather sha256 bytes temp path files files' content h new =
    opened-Fresh weather (open_fault weather (lookup temp files)) sha256 bytes temp path files
      files' content h new

put_at-Fresh :
    (weather : Weather) (unique sha256 : Text) (bytes : List ℕ) (r : Result (List Text) VaultError)
    (files files' : List File) (content : StoredContent)
    → put_at weather unique sha256 bytes r files ≡ (ok content, files')
    → content.duplicate ≡ false
    → (path : List Text) × (r ≡ ok path) × Fresh sha256 bytes path content files'
unfolding put_at
put_at-Fresh weather unique sha256 bytes (err e) files files' content h new =
    not_stored e files files' content h
put_at-Fresh weather unique sha256 bytes (ok path) files files' content h new = (
  path,
  refl,
  put_unless-Fresh (exists weather.resolves path files) weather sha256 bytes
      (temp_path sha256 unique) path files files' content h new,
)

-- Content that was stored anew reads back as the bytes that were put, under the digest that the call
-- returned, whatever else the system did during the call, if the bytes are within the limit.
pub put_bytes-read_verified_bytes :
    (sha256 : Sha256) (weather : Weather) (unique : Text) (bytes : List ℕ)
    (files files' : List File) (content : StoredContent) (limit : ℕ) (target : Option (List ℕ))
    → put_bytes sha256 weather unique bytes files ≡ (ok content, files')
    → content.duplicate ≡ false
    → length bytes ≤ limit
    → limit < 18446744073709551615
    → read_verified_bytes sha256 content.sha256 limit target files' files' ≡ ok bytes
unfolding put_bytes read_verified_bytes check_metadata read_limited
put_bytes-read_verified_bytes sha256 weather unique bytes files files' content limit target h new
      fits small =
    let (path, hpath, fresh) =
      put_at-Fresh weather unique (hex_sha256 sha256 bytes) bytes
        (path_for_digest (hex_sha256 sha256 bytes)) files files' content h new in
    rw (
      fresh.digest,
      hpath,
      fresh.there,
      le→leb (length bytes) limit fits,
      take_all (min (limit + 1) 18446744073709551615) bytes (omega arith),
      le→leb (length bytes) limit fits,
      text_eq_refl (hex_sha256 sha256 bytes),
    )
