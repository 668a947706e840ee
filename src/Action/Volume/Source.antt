-- ===== src/Action/Volume/Source.antt =====
-- RemoteSource of internal/action/volume.go: a volume's content from a URL, with a checksum. The HTTP
-- client, the temporary file, the hash functions and safecast are what the environment gives.
pub mod Checksum
use libvirt_operator.Prelude.{
  ℕ, String, ◌&&◌, List, [], ◌∷◌, map, Option, none, some, is_some, ◌+◌, ◌==◌, leb, if◌then◌else◌,
  ◌≡◌, inl, inr, arith, Option-cases,
}
use libvirt_operator.Outcome.{Outcome, ok, err, panic, message, ◌>>=◌, ◌>>◌}
use libvirt_operator.Action.Domain.TargetDev.{dev_eq, dev_eq_refl, dev_eq-true}
use libvirt_operator.Action.Volume.State.{VolumeAction, set_size}

abbrev pub err_unsupported_hash : String
err_unsupported_hash = "unsupported hash"

abbrev pub err_checksum_fail : String
err_checksum_fail = "download failed checksum verification"

-- A text as its code points.
abbrev pub Text : Type 0
Text = List ℕ

pub data Hash : Type 0 where
  sha256 sha512 : Hash

-- `content_length` is the header's value as safecast.ToUint64 casts it.
pub record Response : Type 0 where
  pub body : List ℕ
  pub content_length : ℕ

pub record Remote : Type 0 where
  pub new_request : String → Outcome (Unit {0})
  pub fetch : String → Outcome Response
  pub create_temp : Outcome (Unit {0})
  pub copy_body : Outcome (Unit {0})
  pub seek_start : Outcome (Unit {0})
  pub copy_to_hash : Outcome (Unit {0})
  pub hex_sum : Hash → List ℕ → Text

to_lower : ℕ → ℕ
to_lower c = if leb b'A' c && leb c b'Z' then c + 32 else c

-- strings.Split(text, ":"): always at least one part.
split_step : ℕ → List Text → List Text
split_step c [] = (c ∷ []) ∷ []
split_step c (p ∷ ps) = if c == b':' then [] ∷ p ∷ ps else (c ∷ p) ∷ ps

unfoldable pub split_colon : Text → List Text
unfolding split_step
split_colon [] = [] ∷ []
split_colon (c ∷ cs) = split_step c (split_colon cs)

abbrev name_sha256 : Text
name_sha256 = b's' ∷ b'h' ∷ b'a' ∷ b'2' ∷ b'5' ∷ b'6' ∷ []

abbrev name_sha512 : Text
name_sha512 = b's' ∷ b'h' ∷ b'a' ∷ b'5' ∷ b'1' ∷ b'2' ∷ []

-- The map `hashes`.
unfoldable pub find_hash : Text → Option Hash
find_hash t =
    if dev_eq t name_sha256 then some sha256 else if dev_eq t name_sha512 then some sha512 else none

unfoldable pub checksum_parts : Text → List Text
unfolding split_colon to_lower
checksum_parts checksum = split_colon (map to_lower checksum)

module _ (env : Remote) where
  -- c[1] is evaluated only once the sum is there; without it the index is out of range.
  compare_sum : Text → List Text → Outcome (Unit {0})
  compare_sum sum [] = panic
  compare_sum sum (expected ∷ _) =
      if dev_eq sum expected then ok tt else err (message err_checksum_fail)

  hash_and_compare : List ℕ → List Text → Option Hash → Outcome (Unit {0})
  hash_and_compare file rest none = err (message err_unsupported_hash)
  hash_and_compare file rest (some h) = do
    env.seek_start
    env.copy_to_hash
    compare_sum (env.hex_sum h file) rest

  verify_parts : List ℕ → List Text → Outcome (Unit {0})
  verify_parts file [] = panic
  verify_parts file (algorithm ∷ rest) = hash_and_compare file rest (find_hash algorithm)

  unfoldable pub verify_checksum : List ℕ → Option Text → Outcome (Unit {0})
  unfolding compare_sum hash_and_compare verify_parts
  verify_checksum file none = ok tt
  verify_checksum file (some checksum) = verify_parts file (checksum_parts checksum)

  unfoldable pub remote_source : String → Option Text → VolumeAction → Outcome VolumeAction
  remote_source url checksum a = do
    env.new_request url
    resp ← env.fetch url
    env.create_temp
    env.copy_body
    verify_checksum resp.body checksum
    env.seek_start
    let b = record a { source = some resp.body }
    if is_some a.def.capacity then ok b else ok (set_size "" resp.content_length b)

  -- A checksum without a colon that names a hash panics: the sum's index is out of range.
  pub verify_checksum_panics :
      (file : List ℕ) (checksum algorithm : Text) (h : Hash)
      → env.seek_start ≡ ok tt
      → env.copy_to_hash ≡ ok tt
      → checksum_parts checksum ≡ algorithm ∷ []
      → find_hash algorithm ≡ some h
      → verify_checksum file (some checksum) ≡ panic
  unfolding verify_checksum
  verify_checksum_panics file checksum algorithm h seek copy parts found = ground arith
