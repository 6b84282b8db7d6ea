-- ===== src/Vault.antt =====
-- crates/content-vault/src/lib.rs: content addressed by its SHA-256, on a file system. The digest is
-- the crate's; a path is the list of its components under the root.
pub mod Integrity
use context_layer.Base.{
  ℕ, zero, suc, ◌+◌, ◌-◌, ◌/◌, ◌%◌, min, Bool, true, false, ◌&&◌, ◌||◌, ◌==◌, leb, ltb, not,
  if◌then◌else◌, Text, text, text_eq, byte_len, List, [], ◌∷◌, ◌++◌, length, take, drop, all, find,
  Option, none, some, Result, ok, err, ◌>>=◌, ensure, ◌>>◌,
}
use context_layer.Contracts.{Uuid}

pub record StoredContent : Type 0 where
  pub sha256 : Text
  pub byte_length : ℕ
  pub path : List Text
  pub duplicate : Bool

pub data VaultError : Type 0 where
  io : Text → VaultError
  invalid_digest not_regular_file integrity_mismatch : VaultError
  too_large : (limit : ℕ) → VaultError

-- What stands at a path.
pub data Entry : Type 0 where
  regular : List ℕ → Entry
  symlink directory : Entry

pub record File : Type 0 where
  pub path : List Text
  pub entry : Entry

abbrev pub path_eq : List Text → List Text → Bool
path_eq [] [] = true
path_eq (s ∷ p) (t ∷ q) = text_eq s t && path_eq p q
path_eq _ _ = false

abbrev pub lookup : List Text → List File → Option Entry
lookup path [] = none
lookup path (f ∷ files) = if path_eq path f.path then some f.entry else lookup path files

-- `Path::exists` follows a symbolic link, whose target is not modelled: `resolves` tells.
abbrev pub exists : Bool → List Text → List File → Bool
exists resolves path files = elim (lookup path files) [
  | none ↦ false
  | some e ↦ elim e [ regular _ ↦ true | directory ↦ true | symlink ↦ resolves ]
]

abbrev pub remove_file : List Text → List File → List File
remove_file path [] = []
remove_file path (f ∷ files) =
    let rest = remove_file path files in if path_eq path f.path then rest else f ∷ rest

abbrev pub is_hex_digit : ℕ → Bool
is_hex_digit c = (leb b'0' c && leb c b'9') || (leb b'a' c && leb c b'f')

unfoldable pub path_for_digest : Text → Result (List Text) VaultError
path_for_digest digest =
    if not (byte_len digest == 64) || not (all is_hex_digit digest)
    then err invalid_digest
    else ok (take 2 digest ∷ take 2 (drop 2 digest) ∷ digest ∷ [])

abbrev pub hex_digit : ℕ → ℕ
hex_digit n = if ltb n 10 then b'0' + n else b'a' + (n - 10)

-- `write!(&mut output, "{byte:02x}")` for every byte.
unfoldable pub hex : List ℕ → Text
hex [] = []
hex (b ∷ bytes) = hex_digit (b / 16) ∷ hex_digit (b % 16) ∷ hex bytes

-- `Sha256::digest`.
abbrev pub Sha256 : Type 0
Sha256 = List ℕ → List ℕ

unfoldable pub hex_sha256 : Sha256 → List ℕ → Text
unfolding hex
hex_sha256 sha256 bytes = hex (sha256 bytes)

-- What the system does to one `put_bytes`: the calls that fail, what a failed write leaves, and the
-- file that another process puts at the final path before the rename.
pub record Weather : Type 0 where
  pub create_dir_all : Option Text
  pub open_temp : Option Text
  pub write_all : Option Text
  pub partial : List ℕ
  pub appears : Option Entry
  pub rename : Option Text
  pub resolves : Bool
  pub resolves_later : Bool

abbrev pub stored : Text → List ℕ → List Text → Bool → StoredContent
stored sha256 bytes path duplicate = record {
  sha256 = sha256;
  byte_length = length bytes;
  path = path;
  duplicate = duplicate;
}

abbrev pub arrive : List Text → Option Entry → List File → List File
arrive path none files = files
arrive path (some e) files = record { path = path; entry = e } ∷ files

-- `.{sha256}.tmp-{uuid}` beside the final path; `unique` is the text of the fresh identifier.
abbrev pub temp_path : Text → Text → List Text
temp_path sha256 unique =
    take 2 sha256 ∷ take 2 (drop 2 sha256) ∷ (text "." ++ sha256 ++ text ".tmp-" ++ unique) ∷ []

-- The outcome of the rename.
unfoldable pub publish :
    Option Text
    → Bool
    → Text
    → List ℕ
    → List Text
    → List Text
    → List File
    → Result StoredContent VaultError × List File
publish none resolves sha256 bytes temp path files = (
  ok (stored sha256 bytes path false),
  record { path = path; entry = regular bytes } ∷ remove_file path (remove_file temp files),
)
publish (some e) resolves sha256 bytes temp path files =
    if exists resolves path files
    then (ok (stored sha256 bytes path true), remove_file temp files)
    else (err (io e), remove_file temp files)

abbrev pub or_else {ℓ} : {A : Type ℓ} → Option A → Option A → Option A
or_else none b = b
or_else (some a) b = some a

-- What stops the temporary file from being made: `create_new` fails on one that exists.
abbrev pub open_fault : Weather → Option Entry → Option Text
open_fault weather found =
    or_else weather.create_dir_all
      (or_else weather.open_temp (elim found [ none ↦ none | some _ ↦ some (text "File exists") ]))

-- The outcome of the write and the sync.
unfoldable pub written :
    Weather
    → Option Text
    → Text
    → List ℕ
    → List Text
    → List Text
    → List File
    → Result StoredContent VaultError × List File
unfolding publish
written weather (some e) sha256 bytes temp path files =
    (err (io e), record { path = temp; entry = regular weather.partial } ∷ files)
written weather none sha256 bytes temp path files =
    publish weather.rename weather.resolves_later sha256 bytes temp path
      (arrive path weather.appears (record { path = temp; entry = regular bytes } ∷ files))

unfoldable pub opened :
    Weather
    → Option Text
    → Text
    → List ℕ
    → List Text
    → List Text
    → List File
    → Result StoredContent VaultError × List File
unfolding written
opened weather (some e) sha256 bytes temp path files = (err (io e), files)
opened weather none sha256 bytes temp path files =
    written weather weather.write_all sha256 bytes temp path files

-- A path that exists already ends the call.
unfoldable pub put_unless :
    Bool
    → Weather
    → Text
    → List ℕ
    → List Text
    → List Text
    → List File
    → Result StoredContent VaultError × List File
unfolding opened
put_unless true weather sha256 bytes temp path files = (ok (stored sha256 bytes path true), files)
put_unless false weather sha256 bytes temp path files =
    opened weather (open_fault weather (lookup temp files)) sha256 bytes temp path files

unfoldable pub put_at :
    Weather
    → Text
    → Text
    → List ℕ
    → Result (List Text) VaultError
    → List File
    → Result StoredContent VaultError × List File
unfolding put_unless
put_at weather unique sha256 bytes (err e) files = (err e, files)
put_at weather unique sha256 bytes (ok path) files =
    put_unless (exists weather.resolves path files) weather sha256 bytes (temp_path sha256 unique)
      path files

unfoldable pub put_bytes :
    Sha256 → Weather → Text → List ℕ → List File → Result StoredContent VaultError × List File
unfolding hex_sha256 path_for_digest put_at
put_bytes digest weather unique bytes files =
    let sha256 = hex_sha256 digest bytes in
    put_at weather unique sha256 bytes (path_for_digest sha256) files

-- The checks on the metadata.
unfoldable pub check_metadata : ℕ → Option Entry → Result (Unit {0}) VaultError
check_metadata max_bytes none = err (io (text "No such file or directory"))
check_metadata max_bytes (some symlink) = err not_regular_file
check_metadata max_bytes (some directory) = err not_regular_file
check_metadata max_bytes (some (regular bytes)) =
    ensure (leb (length bytes) max_bytes) (too_large max_bytes)

-- Opening the file and reading at most one byte more than the limit; `target` is what a symbolic link
-- that has come to the path leads to.
unfoldable pub read_limited : ℕ → Option (List ℕ) → Option Entry → Result (List ℕ) VaultError
read_limited max_bytes target none = err (io (text "No such file or directory"))
read_limited max_bytes target (some directory) = err (io (text "Is a directory"))
read_limited max_bytes none (some symlink) = err (io (text "No such file or directory"))
read_limited max_bytes (some bytes) (some symlink) =
    ok (take (min (max_bytes + 1) 18446744073709551615) bytes)
read_limited max_bytes target (some (regular bytes)) =
    ok (take (min (max_bytes + 1) 18446744073709551615) bytes)

-- The file may change between the look at its metadata, in `files`, and the read, in `later`.
unfoldable pub read_verified_bytes :
    Sha256 → Text → ℕ → Option (List ℕ) → (files later : List File) → Result (List ℕ) VaultError
unfolding hex_sha256 path_for_digest check_metadata read_limited
read_verified_bytes sha256 digest max_bytes target files later = do
  path ← path_for_digest digest
  check_metadata max_bytes (lookup path files)
  bytes ← read_limited max_bytes target (lookup path later)
  ensure (leb (length bytes) max_bytes) (too_large max_bytes)
  ensure (text_eq (hex_sha256 sha256 bytes) digest) integrity_mismatch
  ok bytes
