-- ===== src/Storage/Match/Rows.antt =====
-- What the rows are that the two statements of find_download_match return.
use context_layer.Base.{
  ℕ, ◌≡◌, refl, sym, ap, ◌∙◌, subst, ==_iff, true, ◌&&◌, ◌==◌, Bool-cases, Option-cases, inl, inr,
  Text, eq_ignore_ascii_case, List, [], ◌∷◌, Option, none, some, ok, ok_inj, arith, All, All-append,
  All-Memᴰ, Memᴰ, find_passes,
}
use mathlib.Core.Option.{some_inj}
use context_layer.Storage.Tables.{ArtifactRow, LocationRow, PendingRow, Database, artifact_of}
use context_layer.Storage.SortKey.{text_lt}
use context_layer.Storage.Match.{
  Joined, join_artifact, join_locations, is_unmatched, candidates, newest_candidate, first_times,
  match_times,
}

-- A joined row that the statement may return.
pub record IsCandidate (db : Database) (path : Text) (j : Joined) : Type 0 where
  pub download_row : Memᴰ j.pending db.pending_download
  pub location_row : Memᴰ j.location db.location
  pub unmatched : j.pending.matched_at ≡ none
  pub asked : eq_ignore_ascii_case j.pending.final_path path ≡ true
  pub active : j.location.active ≡ true
  pub here : eq_ignore_ascii_case j.location.path j.pending.final_path ≡ true
  pub artifact : (j.artifact.artifact_id == j.location.artifact_id) ≡ true

is_unmatched-none : (p : PendingRow) → is_unmatched p ≡ true → p.matched_at ≡ none
is_unmatched-none p h = elim (Option-cases p.matched_at) [
  | inl n ↦ n
  | inr (at, e) ↦ absurd (ground (arith, rw e at h))
]

join_locations-All :
    (db : Database) (path : Text) (p : PendingRow)
    → is_unmatched p ≡ true
    → eq_ignore_ascii_case p.final_path path ≡ true
    → Memᴰ p db.pending_download
    → (ls : List LocationRow) → All (λ l. Memᴰ l db.location) ls
    → All (IsCandidate db path) (join_locations db p ls)
unfolding join_locations
join_locations-All db path p hu hp hm [] known = tt
join_locations-All db path p hu hp hm (l ∷ ls) known =
    let rest = join_locations-All db path p hu hp hm ls known.1 in
    elim (Bool-cases (l.active && eq_ignore_ascii_case l.path p.final_path)) [
      | inr t ↦ rw t rest
      | inl t ↦ rw t (
          All-append (IsCandidate db path) (join_artifact p l (artifact_of db l))
            (join_locations db p ls)
            (joined (artifact_of db l) refl (ground (arith, t)) (ground (arith, t))) rest)
    ]
  where
    joined :
        (o : Option ArtifactRow)
        → artifact_of db l ≡ o
        → l.active ≡ true
        → eq_ignore_ascii_case l.path p.final_path ≡ true
        → All (IsCandidate db path) (join_artifact p l o)
    joined none e ha hh = tt
    joined (some a) e ha hh = (
      record {
        download_row = hm;
        location_row = known.0;
        unmatched = is_unmatched-none p hu;
        asked = hp;
        active = ha;
        here = hh;
        artifact = find_passes (λ a'. a'.artifact_id == l.artifact_id) db.artifact a e;
      },
      tt,
    )

pub candidates-All :
    (db : Database) (path : Text) (ps : List PendingRow)
    → All (λ p. Memᴰ p db.pending_download) ps
    → All (IsCandidate db path) (candidates db path ps)
unfolding candidates
candidates-All db path [] known = tt
candidates-All db path (p ∷ ps) known =
    elim (Bool-cases (is_unmatched p && eq_ignore_ascii_case p.final_path path)) [
      | inr t ↦ rw t (candidates-All db path ps known.1)
      | inl t ↦ rw t (
          All-append (IsCandidate db path) (join_locations db p db.location) (candidates db path ps)
            (join_locations-All db path p (ground (arith, t)) (ground (arith, t)) known.0
              db.location (All-Memᴰ db.location))
            (candidates-All db path ps known.1))
    ]

pub newest_candidate-All {κ} :
    (P : Joined → Type κ) (js : List Joined) (j : Joined)
    → All P js
    → newest_candidate js ≡ some j
    → P j
unfolding newest_candidate
newest_candidate-All P [] j h e = absurd (ground (arith, e))
newest_candidate-All P (k ∷ js) j h e = elim (Option-cases (newest_candidate js)) [
  | inl n ↦ let same : k ≡ j = ground (arith, rw n at e) in subst P same h.0
  | inr (best, n) ↦ elim (Bool-cases (text_lt k.pending.observed_at best.pending.observed_at)) [
    | inl t ↦
        let same : best ≡ j = ground (arith, rw (n, t) at e) in
        subst P same (newest_candidate-All P js best h.1 n)
    | inr t ↦ let same : k ≡ j = ground (arith, rw (n, t) at e) in subst P same h.0
  ]
]

-- A row of the second query: a download of the identifier and an active location at its path.
pub record TimesOf (db : Database) (id : ℕ) (times : Text × Text) : Type 0 where
  pub download : PendingRow
  pub file : LocationRow
  pub download_row : Memᴰ download db.pending_download
  pub file_row : Memᴰ file db.location
  pub same_id : download.download_id ≡ id
  pub active : file.active ≡ true
  pub here : eq_ignore_ascii_case file.path download.final_path ≡ true
  pub their_times : times ≡ (download.observed_at, file.observed_at)

first_times-TimesOf :
    (db : Database) (p : PendingRow) (ls : List LocationRow) (times : Text × Text)
    → Memᴰ p db.pending_download
    → All (λ l. Memᴰ l db.location) ls
    → first_times p ls ≡ some times
    → TimesOf db p.download_id times
first_times-TimesOf db p [] times hp known h = absurd (ground (arith, h))
first_times-TimesOf db p (l ∷ ls) times hp known h =
    elim (Bool-cases (l.active && eq_ignore_ascii_case l.path p.final_path)) [
      | inl t ↦ record {
        download = p;
        file = l;
        download_row = hp;
        file_row = known.0;
        same_id = refl;
        active = ground (arith, t);
        here = ground (arith, t);
        their_times = sym (some_inj.0 (rw t at h));
      }
      | inr t ↦ first_times-TimesOf db p ls times hp known.1 (rw t at h)
    ]

pub match_times-TimesOf :
    (db : Database) (id : ℕ) (ps : List PendingRow) (times : Text × Text)
    → All (λ p. Memᴰ p db.pending_download) ps
    → match_times db id ps ≡ ok times
    → TimesOf db id times
unfolding match_times
match_times-TimesOf db id [] times known h = absurd (ground (arith, h))
match_times-TimesOf db id (p ∷ ps) times known h = elim (Bool-cases (p.download_id == id)) [
  | inr t ↦ match_times-TimesOf db id ps times known.1 (rw t at h)
  | inl t ↦ elim (Option-cases (first_times p db.location)) [
    | inl n ↦ match_times-TimesOf db id ps times known.1 (rw (t, n) at h)
    | inr (found, n) ↦
        let same : found ≡ times = ok_inj (rw (t, n) at h) in
        let its_id : p.download_id ≡ id = (==_iff p.download_id id).0 t in
        subst (λ i. TimesOf db i times) its_id
          (first_times-TimesOf db p db.location times known.0 (All-Memᴰ db.location)
            (n ∙ ap some same))
  ]
]
