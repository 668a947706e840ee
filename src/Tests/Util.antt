-- ===== src/Tests/Util.antt =====
-- The theorems of Util, Store and the checksum at concrete inputs.
use libvirt_operator.Prelude.{inl, ◌++◌, arith, String, List, [], ◌∷◌, Option, some, ◌≡◌, refl}
use libvirt_operator.Outcome.{ok}
use libvirt_operator.Action.Volume.Source.{Text, Remote, sha256, verify_checksum}
use libvirt_operator.Action.Volume.Source.Checksum.{name_of, Lowers, verify_checksum_iff}

abbrev labels : Option (List (String × String))
labels = some (("app", "vm") ∷ [])

-- Every file has the sum "ab".
abbrev web : Remote
web = record {
  new_request = λ url. ok tt;
  fetch = λ url. ok (record { body = 1 ∷ 2 ∷ []; content_length = 2 });
  create_temp = ok tt;
  copy_body = ok tt;
  seek_start = ok tt;
  copy_to_hash = ok tt;
  hex_sum = λ h file. b'a' ∷ b'b' ∷ [];
}

abbrev named_sum : Text
named_sum = b'S' ∷ b'h' ∷ b'a' ∷ b'2' ∷ b'5' ∷ b'6' ∷ b':' ∷ b'A' ∷ b'b' ∷ []

-- The file's sum under its name, with nothing after it.
named_sum-Lowers :
    Lowers named_sum (name_of sha256 ++ b':' ∷ (web.hex_sum sha256 (1 ∷ 2 ∷ []) ++ []))
named_sum-Lowers = ground arith

verify_checksum_iff_example : verify_checksum web (1 ∷ 2 ∷ []) (some named_sum) ≡ ok tt
verify_checksum_iff_example =
    (verify_checksum_iff web (1 ∷ 2 ∷ []) named_sum refl refl (λ h. ground arith)).1
      (sha256, [], inl refl, named_sum-Lowers)
