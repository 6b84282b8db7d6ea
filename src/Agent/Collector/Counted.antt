-- ===== src/Agent/Collector/Counted.antt =====
-- The sequence numbers that the calls of a reconciliation draw.
use context_layer.Base.{
  ℕ, suc, ◌+◌, ◌≡◌, refl, ap, ◌∙◌, subst, Bool-cases, inl, inr, ltb, ◌||◌, if◌then◌else◌, Text,
  List, [], ◌∷◌, length, Result, ok, err, ok_inj, arith,
}
use context_layer.Contracts.{EventPayload, FileChange, FileIdentity, modified, deleted}
use context_layer.Core.Engine.{IngestReport, IngestError}
use context_layer.Storage.Tables.{Database, StorageError, ActiveLocation}
use context_layer.Platform.{ReconciledFile, ReconcileIssue, ReconcileReport}
use context_layer.Agent.Collector.{
  Outside, CollectorState, CollectorError, Step, resume, ◌then◌, return, ingest, ingest_drawn,
  ingest_file, record_gap, engine_done, u64_max,
}
use context_layer.Agent.Collector.Reconcile.{
  is_existing, is_current, path_is_under_issue, insert_missing, delete_missing, record_issues,
}

-- A call that succeeds with a value and a state.
abbrev pub Succeeds : {A : Type 0} → Step A → CollectorState → A → CollectorState → Type 0
Succeeds m s a s' = m s ≡ (ok a, s')

pub resume-ok :
    {A B : Type 0} (x : Result A CollectorError × CollectorState) (next : A → Step B) (b : B)
    (s' : CollectorState)
    → resume x next ≡ (ok b, s')
    → (a : A) × ((s₁ : CollectorState) × (x ≡ (ok a, s₁)) × (next a s₁ ≡ (ok b, s')))
resume-ok (ok a, s₁) next b s' h = (a, (s₁, refl, h))
resume-ok (err e, s₁) next b s' h = absurd (ground (arith, h))

pub then-ok :
    {A B : Type 0} (m : Step A) (next : A → Step B) (s : CollectorState) (b : B)
    (s' : CollectorState)
    → (m then next) s ≡ (ok b, s')
    → (a : A) × ((s₁ : CollectorState) × (m s ≡ (ok a, s₁)) × (next a s₁ ≡ (ok b, s')))
unfolding ◌then◌
then-ok m next s b s' h = resume-ok (m s) next b s' h

-- The state went on by some events, in its scope.
pub record Counted (s : CollectorState) (n : ℕ) (s' : CollectorState) : Type 0 where
  pub events : s'.last_sequence ≡ s.last_sequence + n
  pub scope_id : s'.scope_id ≡ s.scope_id

pub engine_done-Counted :
    (o : Outside) (s : CollectorState)
    (x : Result IngestReport (IngestError StorageError) × Database) (s' : CollectorState)
    → engine_done o x s ≡ (ok tt, s')
    → (s'.last_sequence ≡ s.last_sequence) × (s'.scope_id ≡ s.scope_id)
engine_done-Counted o s (ok r, db) s' h = (ground (arith, h), ground (arith, h))
engine_done-Counted o s (err e, db) s' h = absurd (ground (arith, h))

pub ingest-Counted :
    (o : Outside) (payload : EventPayload) (detail : Text) (s s' : CollectorState)
    → ingest o payload detail s ≡ (ok tt, s')
    → Counted s 1 s'
unfolding ingest ingest_drawn
ingest-Counted o payload detail s s' h = elim (Bool-cases (ltb s.last_sequence u64_max)) [
  | inr full ↦ absurd (ground (arith, rw full at h))
  | inl room ↦
      let (e, f) = engine_done-Counted o _ _ s' (rw room at h) in
      record { events = omega (arith, e); scope_id = f }
]

pub ingest_file-Counted :
    (o : Outside) (i : FileIdentity) (path : Text) (change : FileChange) (detail : Text)
    (s s' : CollectorState)
    → ingest_file o i path change detail s ≡ (ok tt, s')
    → Counted s 1 s'
unfolding ingest_file
ingest_file-Counted o i path change detail s s' h = ingest-Counted o _ detail s s' h

pub record_gap-Counted :
    (o : Outside) (reason : Text) (s s' : CollectorState)
    → record_gap o reason s ≡ (ok tt, s')
    → Counted s 1 s'
unfolding record_gap
record_gap-Counted o reason s s' h = ingest-Counted o _ _ s s' h

pub return-Counted :
    {A : Type 0} (a : A) (n : ℕ) (s : CollectorState) (b : A) (s' : CollectorState)
    → n ≡ 0
    → return a s ≡ (ok b, s')
    → Counted s n s'
return-Counted a n s b s' z h = record {
  events = ground (arith, h, z);
  scope_id = ground (arith, h);
}

pub Counted-trans :
    (a b c : CollectorState) (m n : ℕ) → Counted a m b → Counted b n c → Counted a (m + n) c
Counted-trans a b c m n f g = record {
  events = omega (arith, f.events, g.events);
  scope_id = g.scope_id ∙ f.scope_id;
}

pub Counted-suc :
    (a b c : CollectorState) (n : ℕ) → Counted a 1 b → Counted b n c → Counted a (suc n) c
Counted-suc a b c n f g = record {
  events = omega (arith, f.events, g.events);
  scope_id = g.scope_id ∙ f.scope_id;
}

pub returned :
    {A : Type 0} (a b : A) (s s' : CollectorState) → return a s ≡ (ok b, s') → (a ≡ b) × (s ≡ s')
returned a b s s' h = (ok_inj (ap (λ p. p.0) h), ap (λ p. p.1) h)

-- One more event, then the rest.
pub one_more :
    (m : Step (Unit {0})) (rest : Step ℕ) (s s' : CollectorState) (n : ℕ)
    → ((t : CollectorState) → m s ≡ (ok tt, t) → Counted s 1 t)
    → ((t : CollectorState) (k : ℕ) → rest t ≡ (ok k, s') → Counted t k s')
    → (m then (λ _. rest then (λ k. return (suc k)))) s ≡ (ok n, s')
    → Counted s n s'
one_more m rest s s' n first later h =
    let (u, (t, h1, h2)) = then-ok m (λ _. rest then (λ k. return (suc k))) s n s' h in
    let (k, (t', h3, h4)) = then-ok rest (λ k. return (suc k)) t n s' h2 in
    let (e, f) = returned (suc k) n t' s' h4 in
    subst (λ i. Counted s i s') e
      (Counted-suc s t s' k (first t h1) (later t k (h3 ∙ ap (λ st. (ok k, st)) f)))

pub nothing-Counted : (n : ℕ) (s s' : CollectorState) → return 0 s ≡ (ok n, s') → Counted s n s'
nothing-Counted n s s' h =
    let (e, f) = returned 0 n s s' h in
    record { events = ground (arith, e, f); scope_id = ground (arith, f) }

module _ (o : Outside) where
  pub insert_missing-Counted :
      (active : List ActiveLocation) (files : List ReconciledFile) (s : CollectorState) (n : ℕ)
      (s' : CollectorState)
      → insert_missing o active files s ≡ (ok n, s')
      → Counted s n s'
  unfolding insert_missing
  insert_missing-Counted active [] s n s' h = nothing-Counted n s s' h
  insert_missing-Counted active (f ∷ files) s n s' h = elim (Bool-cases (is_existing active f)) [
    | inl there ↦ insert_missing-Counted active files s n s' (rw there at h)
    | inr missing ↦
        one_more _ (insert_missing o active files) s s' n
          (λ t e. ingest_file-Counted o f.identity f.path modified _ s t e)
          (λ t k e. insert_missing-Counted active files t k s' e) (rw missing at h)
  ]

  pub delete_missing-Counted :
      (report : ReconcileReport) (ls : List ActiveLocation) (s : CollectorState) (n : ℕ)
      (s' : CollectorState)
      → delete_missing o report ls s ≡ (ok n, s')
      → Counted s n s'
  unfolding delete_missing
  delete_missing-Counted report [] s n s' h = nothing-Counted n s s' h
  delete_missing-Counted report (l ∷ ls) s n s' h =
      elim (Bool-cases (is_current report.files l || path_is_under_issue o l report.issues)) [
        | inl there ↦ delete_missing-Counted report ls s n s' (rw there at h)
        | inr missing ↦
            one_more _ (delete_missing o report ls) s s' n
              (λ t e. ingest_file-Counted o l.identity l.path deleted _ s t e)
              (λ t k e. delete_missing-Counted report ls t k s' e) (rw missing at h)
      ]

  pub record_issues-Counted :
      (issues : List ReconcileIssue) (s s' : CollectorState)
      → record_issues o issues s ≡ (ok tt, s')
      → Counted s (length issues) s'
  unfolding record_issues
  record_issues-Counted [] s s' h = return-Counted tt 0 s tt s' refl h
  record_issues-Counted (issue ∷ issues) s s' h =
      let (u, (t, h1, h2)) = then-ok (record_gap o _) (λ _. record_issues o issues) s tt s' h in
      Counted-suc s t s' (length issues) (record_gap-Counted o _ s t h1)
        (record_issues-Counted issues t s' h2)
