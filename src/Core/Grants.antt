-- ===== src/Core/Grants.antt =====
-- crates/core/src/retrieval.rs, `RetrievalGrant` and the two ranks (content_access.rs repeats them).
use context_layer.Base.{
  ℕ, ◌≤◌, Bool, true, false, leb, List, [], retain, All, All-map, All-of_length-retain, length,
  leb→le, ◌≡◌,
}
use context_layer.Contracts.{
  SensitivityClass, RetrievalClass, ContentRef, EventPayload, content_observed,
}

pub record RetrievalGrant : Type 0 where
  pub max_event_sensitivity : SensitivityClass
  pub max_content_retrieval : RetrievalClass
  pub include_payload : Bool

unfoldable pub metadata_only : RetrievalGrant
metadata_only = record {
  max_event_sensitivity = SensitivityClass.metadata;
  max_content_retrieval = RetrievalClass.normal;
  include_payload = false;
}

abbrev pub sensitivity_rank : SensitivityClass → ℕ
sensitivity_rank SensitivityClass.metadata = 0
sensitivity_rank SensitivityClass.content_derived = 1
sensitivity_rank SensitivityClass.sensitive = 2

abbrev pub retrieval_class_rank : RetrievalClass → ℕ
retrieval_class_rank RetrievalClass.normal = 0
retrieval_class_rank RetrievalClass.sensitive = 1
retrieval_class_rank RetrievalClass.secret = 2

unfoldable pub sensitivity_allowed : SensitivityClass → SensitivityClass → Bool
sensitivity_allowed actual maximum = leb (sensitivity_rank actual) (sensitivity_rank maximum)

unfoldable pub retrieval_class_allowed : RetrievalClass → RetrievalClass → Bool
retrieval_class_allowed actual maximum =
    leb (retrieval_class_rank actual) (retrieval_class_rank maximum)

unfoldable pub filter_refs : List ContentRef → RetrievalClass → List ContentRef
unfolding retrieval_class_allowed
filter_refs refs maximum = retain (λ r. retrieval_class_allowed r.retrieval_class maximum) refs

unfoldable pub refs_from_v1_payload : EventPayload → List ContentRef
refs_from_v1_payload (content_observed _ refs) = refs
refs_from_v1_payload _ = []

-- A reference within the class of a grant.
abbrev pub Within : RetrievalClass → ContentRef → Type 0
Within maximum r = retrieval_class_rank r.retrieval_class ≤ retrieval_class_rank maximum

pub sensitivity_allowed-le :
    (a m : SensitivityClass)
    → sensitivity_allowed a m ≡ true
    → sensitivity_rank a ≤ sensitivity_rank m
unfolding sensitivity_allowed
sensitivity_allowed-le a m h = leb→le _ _ h

pub retrieval_class_allowed-le :
    (a m : RetrievalClass)
    → retrieval_class_allowed a m ≡ true
    → retrieval_class_rank a ≤ retrieval_class_rank m
unfolding retrieval_class_allowed
retrieval_class_allowed-le a m h = leb→le _ _ h

-- If the filter drops nothing then every reference was within the class.
pub Within-of_length :
    (refs : List ContentRef) (maximum : RetrievalClass)
    → length (filter_refs refs maximum) ≡ length refs
    → All (Within maximum) refs
unfolding filter_refs
Within-of_length refs maximum h =
    All-map (λ r k. leb→le _ _ k) refs
      (All-of_length-retain
        (λ r. leb (retrieval_class_rank r.retrieval_class) (retrieval_class_rank maximum)) refs h)
