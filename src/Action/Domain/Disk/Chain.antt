-- ===== src/Action/Domain/Disk/Chain.antt =====
-- The backing chain of a disk: what the loop of Disk finds, and when it ends.
use libvirt_operator.Prelude.{
  ℕ, zero, suc, ◌≤◌, String, List, [], ◌∷◌, Option, none, some, ◌≡◌, ◌↔◌, ◌⊎◌, inl, inr, refl,
  arith, length,
}
use mathlib.Core.Path.{subst}
use text.Mathlib.TextEquality.{eq_iff}
use libvirt_operator.Outcome.{ok, hang, deref, >>=-eq-ok, ok-injective}
use libvirt_operator.Libvirt.{
  StorageVol, StorageVolume, VolumeTarget, VolumeBackingStore, BackingEntry, DiskSource,
}
use libvirt_operator.Host.{Client}
use libvirt_operator.Action.Domain.Disk.{
  set_domain_disk_source, get_volume_source_description, backing_entry, backing_chain,
}

module _ {S : Type 0} (c : Client S) (s : S) where
  -- The host has a volume at this path, whose description gives the entry's format, the file or block
  -- device that the entry names, and what backs the volume.
  pub record IsVolumeAt (path : String) (e : BackingEntry) (next : Option VolumeBackingStore)
      : Type 0 where
    id : StorageVol
    xml : String
    desc : StorageVolume
    target : VolumeTarget
    is_found : c.storage_vol_lookup_by_key path s ≡ ok id
    is_described : c.storage_vol_get_xml_desc id s ≡ ok xml
    is_read : c.unmarshal_volume xml ≡ ok desc
    has_target : desc.target ≡ some target
    has_format : target.format ≡ some e.format
    has_source :
        ((desc.type_ ≡ "file")
          × (e.source ≡ record { file = some target.path; block = none; volume = none }))
        ⊎ ((desc.type_ ≡ "block")
            × (e.source ≡ record { file = none; block = some target.path; volume = none }))
    is_backed : desc.backing_store ≡ next

  -- The entries are those of the volumes that back one another, from the first to one that nothing
  -- backs.
  pub data Chain : Option VolumeBackingStore → List BackingEntry → Type 0 where
    last : Chain none []
    link :
        {b : VolumeBackingStore} {e : BackingEntry} {next : Option VolumeBackingStore}
        {es : List BackingEntry}
        → IsVolumeAt b.path e next
        → Chain next es
        → Chain (some b) (e ∷ es)

  set_source_ok :
      (type path : String) (source : DiskSource)
      → set_domain_disk_source type path ≡ ok source
      → ((type ≡ "file") × (source ≡ record { file = some path; block = none; volume = none }))
        ⊎ ((type ≡ "block") × (source ≡ record { file = none; block = some path; volume = none }))
  unfolding set_domain_disk_source
  set_source_ok type path source h = ground (arith, eq_iff type "file", eq_iff type "block")

  set_source :
      (type path : String) (source : DiskSource)
      → ((type ≡ "file") × (source ≡ record { file = some path; block = none; volume = none }))
        ⊎ ((type ≡ "block") × (source ≡ record { file = none; block = some path; volume = none }))
      → set_domain_disk_source type path ≡ ok source
  unfolding set_domain_disk_source
  set_source type path source (inl (t, e)) = rw (t, e) refl
  set_source type path source (inr (t, e)) = rw (t, e) refl

  backing_entry-IsVolumeAt :
      (path : String) (p : BackingEntry × Option VolumeBackingStore)
      → backing_entry c s path ≡ ok p
      → IsVolumeAt path p.0 p.1
  unfolding backing_entry get_volume_source_description
  backing_entry-IsVolumeAt path p h =
      let (id, found, h₁) = >>=-eq-ok (c.storage_vol_lookup_by_key path s) _ h in
      let (desc, described, h₂) = >>=-eq-ok (get_volume_source_description c s id) _ h₁ in
      let (xml, xml_known, read) = >>=-eq-ok (c.storage_vol_get_xml_desc id s) _ described in
      let (t, target, h₃) = >>=-eq-ok (deref desc.target) _ h₂ in
      let (format, known, h₄) = >>=-eq-ok (deref t.format) _ h₃ in
      let (source, made, h₅) = >>=-eq-ok (set_domain_disk_source desc.type_ t.path) _ h₄ in
      record {
        id = id;
        xml = xml;
        desc = desc;
        target = t;
        is_found = found;
        is_described = xml_known;
        is_read = read;
        has_target = ground arith;
        has_format = ground arith;
        has_source = ground (arith, set_source_ok desc.type_ t.path source made);
        is_backed = ground arith;
      }

  IsVolumeAt-backing_entry :
      (path : String) (e : BackingEntry) (next : Option VolumeBackingStore)
      → IsVolumeAt path e next
      → backing_entry c s path ≡ ok (e, next)
  unfolding backing_entry get_volume_source_description
  IsVolumeAt-backing_entry path e next v =
      rw
        (
          v.is_found,
          v.is_described,
          v.is_read,
          v.has_target,
          v.has_format,
          set_source v.desc.type_ v.target.path e.source v.has_source,
          v.is_backed,
        )
        refl

  -- What the loop returns is the chain.
  pub backing_chain-Chain :
      (rounds : ℕ) (b : Option VolumeBackingStore) (es : List BackingEntry)
      → backing_chain c s rounds b ≡ ok es
      → Chain b es
  unfolding backing_chain
  backing_chain-Chain rounds none es h = subst (Chain none) (ok-injective h) last
  backing_chain-Chain zero (some b) es h = cc
  backing_chain-Chain (suc rounds) (some b) es h =
      let (e, first, h') = >>=-eq-ok (backing_entry c s b.path) _ h in
      let (rest, others, same) = >>=-eq-ok (backing_chain c s rounds e.1) _ h' in
      subst (Chain (some b)) (ok-injective same) (
        link (backing_entry-IsVolumeAt b.path e first) (backing_chain-Chain rounds e.1 rest others))

  -- A chain is found whenever the rounds are at least as many as its volumes.
  pub Chain-backing_chain :
      {b : Option VolumeBackingStore} {es : List BackingEntry}
      → Chain b es
      → (rounds : ℕ) → length es ≤ rounds
      → backing_chain c s rounds b ≡ ok es
  unfolding backing_chain
  Chain-backing_chain last rounds h = refl
  Chain-backing_chain (link e rest) zero h = elim h [ ]
  Chain-backing_chain {b = some b} (link v rest) (suc rounds) h =
      rw (IsVolumeAt-backing_entry b.path _ _ v, backing_chain)
        (rw (Chain-backing_chain rest rounds (omega arith)))

  -- With at least as many rounds as a list has entries, the loop returns that list exactly when it
  -- is the chain of the volumes that back one another: the host has a volume at each path, whose
  -- description gives the entry's format and, by its type, the entry's file or block device, and
  -- names the path of the next volume; the description of the last one names none.
  pub backing_chain_iff :
      (rounds : ℕ) (b : Option VolumeBackingStore) (es : List BackingEntry)
      → length es ≤ rounds
      → (backing_chain c s rounds b ≡ ok es) ↔ Chain b es
  backing_chain_iff rounds b es enough =
      (backing_chain-Chain rounds b es, λ chain. Chain-backing_chain chain rounds enough)

  -- A volume that is its own backing store keeps the loop going for ever.
  pub backing_chain_self :
      (b : VolumeBackingStore) {e : BackingEntry}
      → backing_entry c s b.path ≡ ok (e, some b)
      → (rounds : ℕ) → backing_chain c s rounds (some b) ≡ hang
  unfolding backing_chain
  backing_chain_self b h zero = refl
  backing_chain_self b h (suc rounds) = rw h (rw (backing_chain_self b h rounds))
