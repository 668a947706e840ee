-- ===== src/Controller/CloudInit/Image/Room.antt =====
-- The files of the image and the room that they have in it.
use libvirt_operator.Prelude.{
  ℕ, ◌+◌, String, List, [], ◌∷◌, ◌++◌, Option, none, some, length, ◌≡◌, refl, arith, ap, ◌∙◌, map,
  ◌≤◌,
}
use mathlib.Core.List.{map-append, append-nil}
use libvirt_operator.Outcome.{Outcome, ok, ◌>>=◌, >>=-eq-ok, ok-injective}
use libvirt_operator.Api.CloudInit.{CloudInit}
use libvirt_operator.Controller.CloudInit.Image.{
  Bytes, Yaml, Sources, marshal, cloud_config, network_config, add_file, add_optional, source_files,
  image_size,
}

abbrev pub total : List (String × Bytes) → ℕ
total [] = 0
total ((name, content) ∷ fs) = length content + total fs

abbrev pub name_if : {A : Type 0} → String → Option A → List String
name_if name none = []
name_if name (some a) = name ∷ []

abbrev names : List (String × Bytes) → List String
names fs = map (λ f. f.0) fs

total-append : (xs ys : List (String × Bytes)) → total (xs ++ ys) ≡ total xs + total ys
total-append [] ys = omega arith
total-append ((name, content) ∷ xs) ys = omega (arith, total-append xs ys)

-- The files have these names, in this order, and the size is that of all together.
abbrev Holds : List String → Sources → Type 0
Holds ns s = (names s.files ≡ ns) × (s.size ≡ total s.files)

module _ (y : Yaml) where
  add_file-Holds :
      (name : String) (content : Bytes) (ns : List String) (s : Sources)
      → Holds ns s
      → Holds (ns ++ name ∷ []) (add_file y name content s)
  unfolding add_file
  add_file-Holds name content ns s (named, sized) = (
    map-append (λ f. f.0) s.files ((name, content) ∷ []) ∙ ap (λ l. l ++ name ∷ []) named,
    omega (arith, sized, total-append s.files ((name, content) ∷ [])),
  )

  add_optional-Holds :
      {A : Type 0} (name : String) (encode : A → Outcome Bytes) (o : Option A) (ns : List String)
      (s s' : Sources)
      → Holds ns s
      → add_optional y name encode o s ≡ ok s'
      → Holds (ns ++ name_if name o) s'
  unfolding add_optional
  add_optional-Holds name encode none ns s s' held done =
      let same = ok-injective done in (cc (held.0, same, append-nil ns), cc (held.1, same))
  add_optional-Holds name encode (some a) ns s s' held done =
      let (content, _, added) =
        >>=-eq-ok (encode a) (λ content. ok (add_file y name content s)) done in
      let (named, sized) = add_file-Holds name content ns s held in
      let same = ok-injective added in (cc (named, same), cc (sized, same))

  -- If the files of a cloud-init are made, then they are the meta-data and, for each part that the spec
  -- has, the user data, the vendor data and the network config, in this order; and the size that the
  -- image gets is at least 2048 and the size of all the files together.
  pub source_files_room :
      (ci : CloudInit) (s : Sources)
      → source_files y ci ≡ ok s
      → (map (λ f. f.0) s.files
          ≡ "meta-data" ∷ name_if "user-data" ci.spec.user_data
            ++ name_if "vendor-data" ci.spec.vendor_data
            ++ name_if "network-config" ci.spec.network_config)
        × (total s.files ≤ image_size s.size)
        × (2048 ≤ image_size s.size)
  unfolding source_files image_size
  source_files_room ci s made =
      let first : Bytes → Outcome Sources = λ metadata.
        add_optional y "user-data" (cloud_config y) ci.spec.user_data
          (add_file y "meta-data" metadata (record { files = []; size = 0 })) in
      let (s₂, made₂, last) =
        >>=-eq-ok
          (marshal y [] (y.encode_metadata ci.spec.metadata)
            >>= first
            >>= add_optional y "vendor-data" (cloud_config y) ci.spec.vendor_data)
          (add_optional y "network-config" (network_config y) ci.spec.network_config) made in
      let (s₁, made₁, second) =
        >>=-eq-ok (marshal y [] (y.encode_metadata ci.spec.metadata) >>= first)
          (add_optional y "vendor-data" (cloud_config y) ci.spec.vendor_data) made₂ in
      let (metadata, _, user) =
        >>=-eq-ok (marshal y [] (y.encode_metadata ci.spec.metadata)) first made₁ in
      let held =
        add_file-Holds "meta-data" metadata [] (record { files = []; size = 0 }) (refl, refl) in
      let held₁ =
        add_optional-Holds "user-data" (cloud_config y) ci.spec.user_data _ _ s₁ held user in
      let held₂ =
        add_optional-Holds "vendor-data" (cloud_config y) ci.spec.vendor_data _ s₁ s₂ held₁
          second in
      let (named, sized) =
        add_optional-Holds "network-config" (network_config y) ci.spec.network_config _ s₂ s held₂
          last in
      (named, ground (arith, sized), ground arith)
