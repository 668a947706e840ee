-- ===== src/Webhook/Names.antt =====
-- Names stay unique: an object that ValidateCreate admits differs from all those that were listed.
use libvirt_operator.Prelude.{false, List, [], ◌∷◌, ◌++◌, ◌≡◌, arith, any, All, All-append, eq_iff}
use libvirt_operator.Outcome.{ok}
use libvirt_operator.Api.Kinds.{Volume}
use libvirt_operator.Api.Domain.{Domain}
use libvirt_operator.Webhook.{
  volume_object, domain_object, is_volume_object, is_domain_object, same_volume, same_domain,
  create_volume_valid, create_domain_valid,
}

-- Any two elements of a list, at different places, are apart.
abbrev pub Pairwise : {A : Type 0} → (A → A → Type 0) → List A → Type 0
Pairwise Apart [] = Unit
Pairwise Apart (x ∷ xs) = All (Apart x) xs × Pairwise Apart xs

Pairwise-append :
    {A : Type 0} (Apart : A → A → Type 0) (xs : List A) (y : A)
    → All (λ x. Apart x y) xs
    → Pairwise Apart xs
    → Pairwise Apart (xs ++ y ∷ [])
Pairwise-append Apart [] y new old = (tt, tt)
Pairwise-append Apart (x ∷ xs) y (first, rest) (apart, old) =
    (All-append (Apart x) xs (y ∷ []) apart (first, tt), Pairwise-append Apart xs y rest old)

-- Two volumes do not have both the name and the pool in common.
abbrev pub VolumeApart : Volume → Volume → Type 0
VolumeApart u v = u.spec.name ≡ v.spec.name → u.spec.pool_ref ≡ v.spec.pool_ref → ⊥

abbrev pub DomainApart : Domain → Domain → Type 0
DomainApart d e = d.spec.name ≡ e.spec.name → d.spec.host_ref ≡ e.spec.host_ref → ⊥

volumes_apart :
    (us : List Volume) (v : Volume)
    → any (λ u. same_volume u v) us ≡ false
    → All (λ u. VolumeApart u v) us
unfolding same_volume
volumes_apart [] v h = tt
volumes_apart (u ∷ us) v h = (
  λ n p. ground (arith, eq_iff u.spec.name v.spec.name, eq_iff u.spec.pool_ref v.spec.pool_ref),
  volumes_apart us v (ground arith),
)

domains_apart :
    (ds : List Domain) (e : Domain)
    → any (λ d. same_domain d e) ds ≡ false
    → All (λ d. DomainApart d e) ds
unfolding same_domain
domains_apart [] e h = tt
domains_apart (d ∷ ds) e h = (
  λ n p. ground (arith, eq_iff d.spec.name e.spec.name, eq_iff d.spec.host_ref e.spec.host_ref),
  domains_apart ds e (ground arith),
)

-- When the listed volumes differ pairwise in name or pool and ValidateCreate admits one more, they
-- still do with it.
pub create_volume_valid-Pairwise :
    (us : List Volume) (v : Volume)
    → Pairwise VolumeApart us
    → create_volume_valid (ok us) (volume_object v) ≡ ok tt
    → Pairwise VolumeApart (us ++ v ∷ [])
unfolding create_volume_valid is_volume_object
create_volume_valid-Pairwise us v old h =
    Pairwise-append VolumeApart us v (volumes_apart us v (ground arith)) old

-- When the listed domains differ pairwise in name or host and ValidateCreate admits one more, they
-- still do with it.
pub create_domain_valid-Pairwise :
    (ds : List Domain) (e : Domain)
    → Pairwise DomainApart ds
    → create_domain_valid (ok ds) (domain_object e) ≡ ok tt
    → Pairwise DomainApart (ds ++ e ∷ [])
unfolding create_domain_valid is_domain_object
create_domain_valid-Pairwise ds e old h =
    Pairwise-append DomainApart ds e (domains_apart ds e (ground arith)) old
