-- ===== src/Platform.antt =====
-- crates/platform-windows/src: the records of directory changes, the scan of a scope, the clipboard and
-- the path form of events. Calls of Windows are parameters.
pub mod ChangeBuffer
pub mod Clipboard
pub mod Activity
use context_layer.Base.{
  ℕ, Bool, if◌then◌else◌, Text, text, strip_prefix, List, ◌++◌, Option, none, some,
}
use context_layer.Contracts.{FileIdentity}

pub data DirectoryAction : Type 0 where
  added removed modified renamed_from renamed_to : DirectoryAction
  unknown : ℕ → DirectoryAction

pub record DirectoryChange : Type 0 where
  pub action : DirectoryAction
  pub relative_path : Text
  pub identity : Option FileIdentity

pub record DirectoryBatch : Type 0 where
  pub changes : List DirectoryChange
  pub gap_detected : Bool

pub data WatchOutcome : Type 0 where
  batch : DirectoryBatch → WatchOutcome
  cancelled : WatchOutcome

pub record ReconciledFile : Type 0 where
  pub path : Text
  pub identity : FileIdentity

pub data ReconcileIssueKind : Type 0 where
  access_denied unavailable : ReconcileIssueKind

pub record ReconcileIssue : Type 0 where
  pub path : Text
  pub kind : ReconcileIssueKind
  pub message : Text

pub record ReconcileReport : Type 0 where
  pub files : List ReconciledFile
  pub issues : List ReconcileIssue

abbrev verbatim_unc : Option Text → Option Text → Text → Text
verbatim_unc (some rest) _ value = text "\\\\" ++ rest
verbatim_unc none (some rest) value = rest
verbatim_unc none none value = value

-- The text of a path in an event.
unfoldable pub contract_path : Text → Text
contract_path value =
    verbatim_unc (strip_prefix (text "\\\\?\\UNC\\") value) (strip_prefix (text "\\\\?\\") value)
      value
