-- ===== src/Storage/Match/Laws.antt =====
-- What a download is matched with.
use context_layer.Base.{
  ℕ, ◌+◌, ◌*◌, ◌/◌, ◌<◌, ◌≤◌, distance, ◌≡◌, refl, sym, ap, ◌∙◌, subst, ◌⊎◌, true, ltb, Bool-cases,
  inl, inr, Text, eq_ignore_ascii_case, [], ◌∷◌, Option, none, some, ok, bind-ok, ok_inj, arith,
  All-Memᴰ, Memᴰ,
}
use mathlib.Core.Option.{some_inj}
use context_layer.Contracts.{OffsetDateTime}
use context_layer.Core.Engine.{DownloadMatchCandidate}
use context_layer.Storage.Tables.{Crates, LocationRow, PendingRow, Database}
use context_layer.Storage.SortKey.{text_lt}
use context_layer.Storage.Match.{
  Joined, candidates, newest_candidate, latest_observed, match_times, parse, seconds_between,
  check_match, find_download_match,
}
use context_layer.Storage.Match.Rows.{
  IsCandidate, candidates-All, newest_candidate-All, TimesOf, match_times-TimesOf,
}

-- A download has one row, as its primary key demands, and no two active locations are at one path up
-- to ASCII case.
pub record DistinctRows (db : Database) : Type 0 where
  pub downloads :
      (p q : PendingRow)
      → Memᴰ p db.pending_download
      → Memᴰ q db.pending_download
      → p.download_id ≡ q.download_id
      → p ≡ q
  pub locations :
      (path : Text) (l m : LocationRow)
      → Memᴰ l db.location
      → Memᴰ m db.location
      → l.active ≡ true
      → m.active ≡ true
      → eq_ignore_ascii_case l.path path ≡ true
      → eq_ignore_ascii_case m.path path ≡ true
      → l ≡ m

own_times :
    (db : Database) (path : Text) (j : Joined) (times : Text × Text)
    → DistinctRows db
    → IsCandidate db path j
    → TimesOf db j.pending.download_id times
    → times ≡ (j.pending.observed_at, j.location.observed_at)
own_times db path j times distinct c t =
    let same_download : t.download ≡ j.pending =
      distinct.downloads t.download j.pending t.download_row c.download_row t.same_id in
    let same_file : t.file ≡ j.location =
      distinct.locations j.pending.final_path t.file j.location t.file_row c.location_row t.active
        c.active
        (subst (λ p. eq_ignore_ascii_case t.file.path p.final_path ≡ true) same_download t.here)
        c.here in
    t.their_times
    ∙ ap (λ p. (p.observed_at, t.file.observed_at)) same_download
    ∙ ap (λ l. (j.pending.observed_at, l.observed_at)) same_file

-- What a match is made of: an unmatched download and an active location, both at the path, whose
-- own recorded times are within the tolerance.
pub record Matched (crates : Crates) (path : Text) (tolerance : ℕ) (db : Database)
    (c : DownloadMatchCandidate) : Type 0 where
  pub row : Joined
  pub candidate : IsCandidate db path row
  pub download_id : c.download_id ≡ row.pending.download_id
  pub identity : c.identity ≡ row.artifact.identity
  pub url : c.url ≡ row.pending.url
  pub source_event_ids :
      c.source_event_ids ≡ row.pending.source_event_id ∷ row.location.source_event_id ∷ []
  pub download_time : OffsetDateTime
  pub file_time : OffsetDateTime
  pub download_parsed : parse crates row.pending.observed_at ≡ ok download_time
  pub file_parsed : parse crates row.location.observed_at ≡ ok file_time
  pub close : distance download_time.unix_nanos file_time.unix_nanos < (tolerance + 1) * 1000000000
  pub observed_at : (c.observed_at ≡ download_time) ⊎ (c.observed_at ≡ file_time)

one_of_times :
    (crates : Crates) (j : Joined) (download_time file_time at : OffsetDateTime)
    → parse crates j.pending.observed_at ≡ ok download_time
    → parse crates j.location.observed_at ≡ ok file_time
    → parse crates (latest_observed j) ≡ ok at
    → (at ≡ download_time) ⊎ (at ≡ file_time)
one_of_times crates j download_time file_time at hd hf h =
    elim (Bool-cases (text_lt j.pending.observed_at j.location.observed_at)) [
      | inl t ↦ inr (ok_inj (sym (rw t at h) ∙ hf))
      | inr t ↦ inl (ok_inj (sym (rw t at h) ∙ hd))
    ]

within_seconds :
    (nanos seconds : ℕ) → nanos / 1000000000 ≤ seconds → nanos < (seconds + 1) * 1000000000
within_seconds nanos seconds h = omega arith

check_match-Matched :
    (crates : Crates) (path : Text) (tolerance : ℕ) (db : Database) (o : Option Joined)
    (c : DownloadMatchCandidate)
    → DistinctRows db
    → ((j : Joined) → o ≡ some j → IsCandidate db path j)
    → check_match crates tolerance db o ≡ ok (some c)
    → Matched crates path tolerance db c
unfolding check_match
check_match-Matched crates path tolerance db none c distinct hj h =
    let e : ◌≡◌ {A = Option DownloadMatchCandidate} none (some c) = ok_inj h in
    absurd (ground (arith, e))
check_match-Matched crates path tolerance db (some j) c distinct hj h =
    let (times, ht, h1) =
      bind-ok (match_times db j.pending.download_id db.pending_download) _ (some c) h in
    let (download_time, hd, h2) = bind-ok (parse crates times.0) _ (some c) h1 in
    let (file_time, hf, h3) = bind-ok (parse crates times.1) _ (some c) h2 in
    let own = own_times db path j times distinct (hj j refl) (
      match_times-TimesOf db j.pending.download_id db.pending_download times
        (All-Memᴰ db.pending_download) ht) in
    let hd' : parse crates j.pending.observed_at ≡ ok download_time =
      subst (λ t. parse crates t.0 ≡ ok download_time) own hd in
    let hf' : parse crates j.location.observed_at ≡ ok file_time =
      subst (λ t. parse crates t.1 ≡ ok file_time) own hf in
    elim (Bool-cases (ltb tolerance (seconds_between download_time file_time))) [
      | inl t ↦
          let e : ◌≡◌ {A = Option DownloadMatchCandidate} none (some c) = ok_inj (rw t at h3) in
          absurd (ground (arith, e))
      | inr t ↦
          let (observed_at, ho, done) =
            bind-ok (parse crates (latest_observed j)) _ (some c) (rw t at h3) in
          let e = some_inj.0 (ok_inj done) in
          let latest = one_of_times crates j download_time file_time observed_at hd' hf' ho in
          subst (Matched crates path tolerance db) e (record {
            row = j;
            candidate = hj j refl;
            download_id = refl;
            identity = refl;
            url = refl;
            source_event_ids = refl;
            download_time = download_time;
            file_time = file_time;
            download_parsed = hd';
            file_parsed = hf';
            close =
                within_seconds (distance download_time.unix_nanos file_time.unix_nanos) tolerance
                  (ground (arith, t));
            observed_at = latest;
          })
    ]

-- Where a download has one row and no two active locations share a path, a match is made of a download
-- that is still unmatched and an active location of an artifact, both in the tables and at the asked
-- path up to ASCII case; the recorded times of that download and that location differ by less than one
-- second more than the tolerance, and the time of the match is one of them.
pub find_download_match-Matched :
    (crates : Crates) (path : Text) (tolerance : ℕ) (db : Database) (c : DownloadMatchCandidate)
    → DistinctRows db
    → find_download_match crates path tolerance db ≡ ok (some c)
    → Matched crates path tolerance db c
unfolding find_download_match
find_download_match-Matched crates path tolerance db c distinct h =
    check_match-Matched crates path tolerance db
      (newest_candidate (candidates db path db.pending_download)) c distinct
      (λ j e.
        newest_candidate-All (IsCandidate db path) (candidates db path db.pending_download) j
          (candidates-All db path db.pending_download (All-Memᴰ db.pending_download)) e)
      h
