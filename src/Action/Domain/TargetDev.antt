-- ===== src/Action/Domain/TargetDev.antt =====
-- getNextAvailableTargetDev of internal/action/domain.go: the first of sda, sdb, .., sdz, sdza, sdzb, ..
-- that no disk has. Names are lists of code points.
use libvirt_operator.Prelude.{
  ℕ, zero, suc, ◌+◌, ◌≤◌, ◌<◌, Bool, true, false, List, [], ◌∷◌, none, some, ◌≡◌, refl, arith,
  if◌then◌else◌, ◌==◌, leb, ◌&&◌, length, All, ◌⊎◌, inl, inr, ap, Option-cases,
}
use libvirt_operator.Outcome.{Outcome, ok, err, panic, hang}
use libvirt_operator.Libvirt.{Dev, DomainDisk, DiskTarget}

unfoldable pub dev_eq : Dev → Dev → Bool
dev_eq [] [] = true
dev_eq [] (d ∷ ds) = false
dev_eq (c ∷ cs) [] = false
dev_eq (c ∷ cs) (d ∷ ds) = c == d && dev_eq cs ds

-- The loop's step on `id`: the next letter, or one more letter after a z.
unfoldable pub advance : List ℕ → List ℕ
advance [] = []
advance (c ∷ []) = if c == b'z' then c ∷ b'a' ∷ [] else (c + 1) ∷ []
advance (c ∷ d ∷ r) = c ∷ advance (d ∷ r)

abbrev pub sd : List ℕ → Dev
sd id = b's' ∷ b'd' ∷ id

-- slices.IndexFunc with the test d.Target.Dev == dev: a disk with no target panics.
unfoldable pub target_taken : Dev → List DomainDisk → Outcome Bool
unfolding dev_eq
target_taken dev [] = ok false
target_taken dev (d ∷ ds) =
    let rest = target_taken dev ds in
    elim d.target [ none ↦ panic | some t ↦ if dev_eq t.dev dev then ok true else rest ]

search_loop : ℕ → List ℕ → List DomainDisk → Outcome Dev
search_loop zero id disks = hang
search_loop (suc fuel) id disks =
    let rest = search_loop fuel (advance id) disks in
    elim (target_taken (sd id) disks) [
      | ok true ↦ rest
      | ok false ↦ ok (sd id)
      | err e ↦ err e
      | panic ↦ panic
      | hang ↦ hang
    ]

-- One round more than there are disks.
unfoldable pub get_next_available_target_dev : List DomainDisk → Outcome Dev
unfolding search_loop
get_next_available_target_dev disks = search_loop (suc (length disks)) (b'a' ∷ []) disks

abbrev pub HasTarget : DomainDisk → Type 0
HasTarget d = (t : DiskTarget) × (d.target ≡ some t)

-- The number of a name in the order of the search, from its length and its last letter.
rank : Dev → ℕ
rank [] = 0
rank (c ∷ []) = c
rank (c ∷ d ∷ r) = 26 + rank (d ∷ r)

ends_in_letter : List ℕ → Bool
ends_in_letter [] = false
ends_in_letter (c ∷ []) = leb b'a' c && leb c b'z'
ends_in_letter (c ∷ d ∷ r) = ends_in_letter (d ∷ r)

rank-advance : (id : List ℕ) → ends_in_letter id ≡ true → rank (advance id) ≡ rank id + 1
unfolding rank advance ends_in_letter
rank-advance [] h = cc
rank-advance (c ∷ []) h = ground arith
rank-advance (c ∷ d ∷ []) h = ground arith
rank-advance (c ∷ d ∷ e ∷ r) h = omega (arith, rank-advance (d ∷ e ∷ r) h)

advance-letter : (id : List ℕ) → ends_in_letter id ≡ true → ends_in_letter (advance id) ≡ true
unfolding advance ends_in_letter
advance-letter [] h = cc
advance-letter (c ∷ []) h = ground arith
advance-letter (c ∷ d ∷ []) h = ground arith
advance-letter (c ∷ d ∷ e ∷ r) h = advance-letter (d ∷ e ∷ r) h

rank-sd : (id : List ℕ) → ends_in_letter id ≡ true → rank (sd (advance id)) ≡ rank (sd id) + 1
unfolding rank advance ends_in_letter
rank-sd [] h = cc
rank-sd (c ∷ []) h = ground arith
rank-sd (c ∷ d ∷ r) h = omega (arith, rank-advance (c ∷ d ∷ r) h)

pub dev_eq-true : (a b : Dev) → dev_eq a b ≡ true → a ≡ b
unfolding dev_eq
dev_eq-true [] [] h = refl
dev_eq-true [] (d ∷ ds) h = cc
dev_eq-true (c ∷ cs) [] h = cc
dev_eq-true (c ∷ cs) (d ∷ ds) h = ground (arith, dev_eq-true cs ds)

rank_of_eq : (a b : Dev) → dev_eq a b ≡ true → rank a ≡ rank b
rank_of_eq a b h = ap rank (dev_eq-true a b h)

-- The number of disks whose name comes at a place r or later in the search.
count_from : ℕ → List DomainDisk → ℕ
count_from r [] = 0
count_from r (d ∷ ds) =
    let rest = count_from r ds in
    elim d.target [ none ↦ rest | some t ↦ if leb r (rank t.dev) then suc rest else rest ]

count_from-le : (r : ℕ) (ds : List DomainDisk) → count_from r ds ≤ length ds
unfolding count_from
count_from-le r [] = omega arith
count_from-le r (d ∷ ds) = ground (arith, count_from-le r ds)

count_from_mono : (r : ℕ) (ds : List DomainDisk) → count_from (r + 1) ds ≤ count_from r ds
unfolding count_from
count_from_mono r [] = omega arith
count_from_mono r (d ∷ ds) = ground (arith, count_from_mono r ds)

taken_count :
    (dev : Dev) (ds : List DomainDisk)
    → target_taken dev ds ≡ ok true
    → count_from (rank dev + 1) ds < count_from (rank dev) ds
unfolding count_from target_taken
taken_count dev [] h = cc
taken_count dev (d ∷ ds) h = elim (Option-cases d.target) [
  | inl e ↦ ground (arith, e)
  | inr (t, e) ↦
      ground (arith, e, taken_count dev ds, count_from_mono (rank dev) ds, rank_of_eq t.dev dev)
]

taken_total :
    (dev : Dev) (ds : List DomainDisk)
    → All HasTarget ds
    → (target_taken dev ds ≡ ok true) ⊎ (target_taken dev ds ≡ ok false)
unfolding target_taken
taken_total dev [] h = inr refl
taken_total dev (d ∷ ds) (has, h) = ground (arith, has, taken_total dev ds h)

search_total :
    (fuel : ℕ) (id : List ℕ) (ds : List DomainDisk)
    → All HasTarget ds
    → ends_in_letter id ≡ true
    → count_from (rank (sd id)) ds < fuel
    → (dev : Dev) × (search_loop fuel id ds ≡ ok dev) × (target_taken dev ds ≡ ok false)
unfolding search_loop
search_total zero id ds has e h = elim h [ ]
search_total (suc fuel) id ds has e h = elim (taken_total (sd id) ds has) [
  | inl taken ↦
      rw (taken, search_loop)
        (search_total fuel (advance id) ds has (advance-letter id e)
          (rw (rank-sd id e) (omega (arith, taken_count (sd id) ds taken))))
  | inr free ↦ (sd id, rw (free, search_loop), free)
]

-- When every disk has a target, the search ends within one round more than there are disks, and
-- gives a name that no disk has.
pub get_next_available_target_dev_fresh :
    (ds : List DomainDisk)
    → All HasTarget ds
    → (dev : Dev) × (get_next_available_target_dev ds ≡ ok dev) × (target_taken dev ds ≡ ok false)
unfolding get_next_available_target_dev ends_in_letter
get_next_available_target_dev_fresh ds has =
    search_total (suc (length ds)) (b'a' ∷ []) ds has refl
      (omega (arith, count_from-le (rank (sd (b'a' ∷ []))) ds))

pub dev_eq_refl : (a : Dev) → dev_eq a a ≡ true
unfolding dev_eq
dev_eq_refl [] = refl
dev_eq_refl (c ∷ cs) = ground (arith, dev_eq_refl cs)
