-- ===== src/Store/File.antt =====
-- auth/storage/store-file.ts: the store as one file, read before and written after every update. The
-- lock makes the updates of a path follow each other. `parse_json`, `stringify` and `print` are JSON's,
-- `print` with two spaces of indentation. What an operating system refuses for other reasons than the
-- ones below is not modelled.
pub mod Kept
pub mod Ended
use Prim.Native.String
use encore_mcp_base.Base.{
  ℕ, ◌%◌, String, Bool, true, false, not, Option, none, some, List, [], ◌∷◌, Result, ok, err, ◌>>=◌,
  ◌>>◌, throw_if, or_throw, Thrown, other, nat_eq, if◌then◌else◌,
}
use encore_mcp_base.Mcp.Json.{Json}
use encore_mcp_base.Store.Records.{OAuthStoreState, Operation, empty_store_state}
use encore_mcp_base.Store.Rows.{malformed_error}
use encore_mcp_base.Store.Rows.File.{normalize_store, serialize_store}

-- What is found at the path, a regular file with its mode and its text.
pub data DiskFile : Type 0 where
  absent symlink irregular : DiskFile
  regular : ℕ → String → DiskFile

-- `(mode & 0o077) !== 0`
abbrev is_open_to_others : ℕ → Bool
is_open_to_others mode = not (nat_eq (mode % 64) 0)

unfoldable pub assert_secure_file_mode : ℕ → Result (Unit {0})
assert_secure_file_mode mode =
    throw_if (is_open_to_others mode) (other "store file permissions must be owner-only")

-- 0o600
abbrev pub owner_only : ℕ
owner_only = 384

-- A callback of `update`: what it returns and the state as it leaves it.
abbrev pub Change : Type 0 → Type 0
Change A = OAuthStoreState → Result (A × OAuthStoreState)

-- The callback of an operation that is one update.
abbrev pub callback : {A : Type 0} → Operation A → Change A
callback operation s = let (returned, t) = operation s in returned >>= λ a. ok (a, t)

-- A callback that throws, as a file that cannot be read or a state that cannot be written, leaves
-- the file as it was.
abbrev pub settled : {A : Type 0} → DiskFile → Result (A × DiskFile) → Result A × DiskFile
settled file (ok (result, file')) = (ok result, file')
settled file (err e) = (err e, file)

module _ (parse_json : String → Option Json) (stringify print : Json → String) where
  unfoldable pub parse_store_json : String → Result Json
  parse_store_json text = or_throw (parse_json text) malformed_error

  unfoldable pub read : DiskFile → Result OAuthStoreState
  read absent = ok empty_store_state
  read symlink = err (other "store file cannot be a symlink")
  read irregular = err (other "store path must be a regular file")
  read (regular mode text) = do
    assert_secure_file_mode mode
    value ← parse_store_json text
    normalize_store parse_json stringify value

  abbrev pub file_text : Json → String
  file_text value = String.◌++◌ (print value) "\n"

  unfoldable pub write : OAuthStoreState → Result DiskFile
  write s = do
    value ← serialize_store parse_json stringify s
    ok (regular owner_only (file_text value))

  unfoldable pub updated : {A : Type 0} → Change A → DiskFile → Result (A × DiskFile)
  updated fn file = do
    s ← read file
    returned ← fn s
    file' ← write returned.1
    ok (returned.0, file')

  unfoldable pub file_update : {A : Type 0} → Change A → DiskFile → Result A × DiskFile
  file_update fn file = settled file (updated fn file)
