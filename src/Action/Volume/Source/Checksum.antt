-- ===== src/Action/Volume/Source/Checksum.antt =====
-- The checksum of RemoteSource (internal/action/volume.go) as a text: algorithm:sum, in any case.
use libvirt_operator.Prelude.{
  ℕ, ◌≤◌, ◌<◌, ◌+◌, List, [], ◌∷◌, ◌++◌, map, some, ◌≡◌, ◌≢◌, ◌⊎◌, ◌↔◌, refl, inl, inr, arith,
  Option-cases, ◌∙◌,
}
use mathlib.Core.List.{append-nil}
use mathlib.Core.Path.{subst}
use libvirt_operator.Outcome.{ok}
use libvirt_operator.Action.Domain.TargetDev.{dev_eq, dev_eq_refl, dev_eq-true}
use libvirt_operator.Action.Volume.Source.{
  Text, Hash, sha256, sha512, Remote, to_lower, split_step, split_colon, find_hash, checksum_parts,
  verify_checksum, compare_sum, hash_and_compare, verify_parts,
}

-- The names the hashes go by.
abbrev pub name_of : Hash → Text
name_of sha256 = b's' ∷ b'h' ∷ b'a' ∷ b'2' ∷ b'5' ∷ b'6' ∷ []
name_of sha512 = b's' ∷ b'h' ∷ b'a' ∷ b'5' ∷ b'1' ∷ b'2' ∷ []

-- A character in lower case: A to Z are 65 to 90, and a to z come 32 later.
abbrev pub Lower : ℕ → ℕ → Type 0
Lower c d = ((65 ≤ c) × (c ≤ 90) × (d ≡ c + 32)) ⊎ (((c < 65) ⊎ (90 < c)) × (d ≡ c))

-- The second text is the first in lower case.
abbrev pub Lowers : Text → Text → Type 0
Lowers [] [] = Unit
Lowers [] (d ∷ ds) = ⊥
Lowers (c ∷ cs) [] = ⊥
Lowers (c ∷ cs) (d ∷ ds) = Lower c d × Lowers cs ds

-- Nothing follows the sum, or another colon and what is after it.
abbrev pub Ends : Text → Type 0
Ends tail = (tail ≡ []) ⊎ ((rest : Text) × (tail ≡ b':' ∷ rest))

abbrev pub IsPlain : Text → Type 0
IsPlain [] = Unit
IsPlain (c ∷ cs) = (c ≢ b':') × IsPlain cs

to_lower-Lower : (c : ℕ) → Lower c (to_lower c)
unfolding to_lower
to_lower-Lower c = ground arith

Lowers-to_lower : (t : Text) → Lowers t (map to_lower t)
Lowers-to_lower [] = tt
Lowers-to_lower (c ∷ cs) = (to_lower-Lower c, Lowers-to_lower cs)

to_lower-Lowers : (t u : Text) → Lowers t u → map to_lower t ≡ u
unfolding to_lower
to_lower-Lowers [] [] l = refl
to_lower-Lowers [] (d ∷ ds) l = absurd l
to_lower-Lowers (c ∷ cs) [] l = absurd l
to_lower-Lowers (c ∷ cs) (d ∷ ds) (inl h, l) = ground (arith, to_lower-Lowers cs ds l)
to_lower-Lowers (c ∷ cs) (d ∷ ds) (inr (inl h, e), l) = ground (arith, to_lower-Lowers cs ds l)
to_lower-Lowers (c ∷ cs) (d ∷ ds) (inr (inr h, e), l) = ground (arith, to_lower-Lowers cs ds l)

-- The parts with a colon between each two.
join : Text → List Text → Text
join p [] = p
join p (q ∷ qs) = p ++ b':' ∷ join q qs

join-cons : (c : ℕ) (p : Text) (ps : List Text) → join (c ∷ p) ps ≡ c ∷ join p ps
unfolding join
join-cons c p [] = refl
join-cons c p (q ∷ qs) = refl

join-split_step :
    (c : ℕ) (t : Text) (parts : List Text)
    → ((p : Text) (ps : List Text) → parts ≡ p ∷ ps → t ≡ join p ps)
    → parts ≢ []
    → (p : Text) (ps : List Text) → split_step c parts ≡ p ∷ ps
    → c ∷ t ≡ join p ps
unfolding split_step join
join-split_step c t [] rest some_part p ps h = absurd (some_part refl)
join-split_step c t (q ∷ qs) rest some_part p ps h =
    ground (arith, rest q qs refl, join-cons c q qs)

split_step-parts : (c : ℕ) (parts : List Text) → split_step c parts ≢ []
unfolding split_step
split_step-parts c [] h = cc
split_step-parts c (p ∷ ps) h = ground arith

split_colon-parts : (t : Text) → split_colon t ≢ []
unfolding split_colon
split_colon-parts [] h = cc
split_colon-parts (c ∷ cs) h = split_step-parts c (split_colon cs) h

join-split_colon : (t p : Text) (ps : List Text) → split_colon t ≡ p ∷ ps → t ≡ join p ps
unfolding split_colon join
join-split_colon [] p [] h = ground arith
join-split_colon [] p (q ∷ qs) h = absurd (ground arith)
join-split_colon (c ∷ cs) p ps h =
    join-split_step c cs (split_colon cs) (join-split_colon cs) (split_colon-parts cs) p ps h

split_colon-plain : (p : Text) → IsPlain p → split_colon p ≡ p ∷ []
unfolding split_colon split_step
split_colon-plain [] plain = refl
split_colon-plain (c ∷ cs) (other, plain) = ground (arith, split_colon-plain cs plain)

split_colon-append :
    (p rest : Text) → IsPlain p → split_colon (p ++ b':' ∷ rest) ≡ p ∷ split_colon rest
unfolding split_colon split_step
split_colon-append [] rest plain = first (split_colon rest) (split_colon-parts rest)
  where
    first : (parts : List Text) → parts ≢ [] → split_step b':' parts ≡ [] ∷ parts
    first [] h = absurd (h refl)
    first (q ∷ qs) h = refl
split_colon-append (c ∷ cs) rest (other, plain) = ground (arith, split_colon-append cs rest plain)

name_of-IsPlain : (h : Hash) → IsPlain (name_of h)
name_of-IsPlain sha256 = ground arith
name_of-IsPlain sha512 = ground arith

find_hash-name_of : (h : Hash) → find_hash (name_of h) ≡ some h
unfolding find_hash dev_eq
find_hash-name_of sha256 = refl
find_hash-name_of sha512 = refl

find_hash-some : (t : Text) (h : Hash) → find_hash t ≡ some h → t ≡ name_of h
unfolding find_hash
find_hash-some t sha256 e =
    ground (arith, dev_eq-true t (name_of sha256), dev_eq-true t (name_of sha512))
find_hash-some t sha512 e =
    ground (arith, dev_eq-true t (name_of sha256), dev_eq-true t (name_of sha512))

-- The parts with which a download is accepted.
module _ (env : Remote) (file : List ℕ) (seek : env.seek_start ≡ ok tt)
    (copy : env.copy_to_hash ≡ ok tt) where
  expected_accepted :
      (algorithm : Text) (h : Hash) (rest : List Text)
      → find_hash algorithm ≡ some h
      → compare_sum env (env.hex_sum h file) rest ≡ ok tt
      → (g : Hash) × (more : List Text) × (algorithm ∷ rest ≡ name_of g ∷ env.hex_sum g file ∷ more)
  unfolding compare_sum
  expected_accepted algorithm h [] e same = absurd (ground arith)
  expected_accepted algorithm h (expected ∷ more) e same = (
    h,
    more,
    cc (
      find_hash-some algorithm h e,
      dev_eq-true (env.hex_sum h file) expected (ground (arith, same)),
    ),
  )

  parts_accepted :
      (parts : List Text)
      → verify_parts env file parts ≡ ok tt
      → (h : Hash) × (rest : List Text) × (parts ≡ name_of h ∷ env.hex_sum h file ∷ rest)
  unfolding verify_parts hash_and_compare compare_sum
  parts_accepted [] done = absurd (ground arith)
  parts_accepted (algorithm ∷ rest) done = elim (Option-cases (find_hash algorithm)) [
    | inl e ↦ absurd (ground (arith, e))
    | inr (h, e) ↦ expected_accepted algorithm h rest e (ground (arith, e))
  ]

  accepts_parts :
      (h : Hash) (rest : List Text)
      → verify_parts env file (name_of h ∷ env.hex_sum h file ∷ rest) ≡ ok tt
  unfolding verify_parts hash_and_compare compare_sum
  accepts_parts h rest = ground (arith, find_hash-name_of h, dev_eq_refl (env.hex_sum h file))

Ends-join :
    (h sum : Text) (rest : List Text)
    → (tail : Text) × Ends tail × (join h (sum ∷ rest) ≡ h ++ b':' ∷ (sum ++ tail))
unfolding join
Ends-join h sum [] = ([], inl refl, rw (append-nil sum) refl)
Ends-join h sum (q ∷ qs) = (b':' ∷ join q qs, inr (join q qs, refl), refl)

split_colon-Ends :
    (sum tail : Text)
    → IsPlain sum
    → Ends tail
    → (rest : List Text) × (split_colon (sum ++ tail) ≡ sum ∷ rest)
split_colon-Ends sum tail plain (inl e) =
    ([], rw e (rw (append-nil sum) (split_colon-plain sum plain)))
split_colon-Ends sum tail plain (inr (r, e)) =
    (split_colon r, rw e (split_colon-append sum r plain))

module _ (env : Remote) where
  -- When the downloaded file can be read and the sums of the file, as hexadecimal text, have no
  -- colon, then a download with a checksum is accepted exactly if the checksum in lower case is
  -- the name of a hash, sha256 or sha512, a colon, and the sum of the file by that hash, followed
  -- by nothing, or by another colon and any text.
  pub verify_checksum_iff :
      (file : List ℕ) (checksum : Text)
      → env.seek_start ≡ ok tt
      → env.copy_to_hash ≡ ok tt
      → ((h : Hash) → IsPlain (env.hex_sum h file))
      → (verify_checksum env file (some checksum) ≡ ok tt) ↔ (
          (h : Hash) × (tail : Text) × Ends tail
          × Lowers checksum (name_of h ++ b':' ∷ (env.hex_sum h file ++ tail)))
  unfolding verify_checksum checksum_parts
  verify_checksum_iff file checksum seek copy plain = (
    λ accepted.
        let (h, rest, parts) =
          parts_accepted env file seek copy (split_colon (map to_lower checksum)) accepted in
        let (tail, ends, joined) = Ends-join (name_of h) (env.hex_sum h file) rest in
        let whole = join-split_colon (map to_lower checksum) _ _ parts ∙ joined in
        (h, tail, ends, subst (Lowers checksum) whole (Lowers-to_lower checksum)),
    λ (h, tail, ends, lowers).
        let (rest, parts) = split_colon-Ends (env.hex_sum h file) tail (plain h) ends in
        rw (to_lower-Lowers checksum _ lowers) (
          rw (split_colon-append (name_of h) _ (name_of-IsPlain h))
            (rw parts (accepts_parts env file seek copy h rest))),
  )
