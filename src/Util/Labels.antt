-- ===== src/Util/Labels.antt =====
-- SetLabel of internal/util/util.go, on the labels of an object: a Go map that may be nil.
use libvirt_operator.Prelude.{
  String, List, [], ◌∷◌, Option, none, some, Bool, true, false, ◌≡◌, refl, arith, if◌then◌else◌,
  lookup, insert, lookup-insert, str_eq, eq_iff, eq_refl, Option-cases, inl, inr, ◌↔◌, ap,
}

abbrev pub LabelMap : Type 0
LabelMap = List (String × String)

-- A read of the map; a nil map has no keys.
unfoldable pub get_label : String → Option LabelMap → Option String
get_label k none = none
get_label k (some m) = lookup k m

set_present : LabelMap → String → String → Option String → Option LabelMap × Bool
set_present m k value (some v) =
    if str_eq v value then (some m, false) else (some (insert k value m), true)
set_present m k value none = (some (insert k value m), true)

-- The new labels and the result `changed`.
unfoldable pub set_label : Option LabelMap → String → String → Option LabelMap × Bool
unfolding set_present
set_label none k value = (some ((k, value) ∷ []), true)
set_label (some m) k value = set_present m k value (lookup k m)

present_get :
    (m : LabelMap) (k v j w : String)
    → lookup k m ≡ some w
    → get_label j (set_present m k v (some w)).0 ≡ (if str_eq k j then some v else lookup j m)
unfolding get_label set_present
present_get m k v j w e = ground (
  arith,
  lookup-insert k j v m,
  eq_iff k j,
  eq_iff w v,
  ap (λ (t : String). lookup t m) {x = k} {y = j},
)

-- Reading a label after SetLabel gives the new value at the key and the old one at any other.
pub get_label-set_label :
    (m : Option LabelMap) (k v j : String)
    → get_label j (set_label m k v).0 ≡ (if str_eq k j then some v else get_label j m)
unfolding get_label set_label lookup
get_label-set_label none k v j = refl
get_label-set_label (some m) k v j = elim (Option-cases (lookup k m)) [
  | inl e ↦ rw (e, set_present) (lookup-insert k j v m)
  | inr (w, e) ↦ rw (e, set_present) (present_get m k v j w e)
]

-- SetLabel reports no change exactly when the label has the value already, and then it changes nothing.
pub set_label_unchanged :
    (m : Option LabelMap) (k v : String)
    → (((set_label m k v).1 ≡ false) ↔ (get_label k m ≡ some v))
      × ((set_label m k v).1 ≡ false → (set_label m k v).0 ≡ m)
unfolding get_label set_label
set_label_unchanged none k v = ground arith
set_label_unchanged (some m) k v = elim (Option-cases (lookup k m)) [
  | inl e ↦ ground (arith, e)
  | inr (w, e) ↦ ground (arith, e, eq_iff w v)
]

-- Reading a label after SetLabel gives the new value at the key and the old one at any other; SetLabel
-- reports no change exactly when the label has the value already, and then it changes nothing.
pub set_label_lem :
    (m : Option LabelMap) (k v j : String)
    → (get_label j (set_label m k v).0 ≡ (if str_eq k j then some v else get_label j m))
      × (((set_label m k v).1 ≡ false) ↔ (get_label k m ≡ some v))
      × ((set_label m k v).1 ≡ false → (set_label m k v).0 ≡ m)
set_label_lem m k v j =
    let (same, kept) = set_label_unchanged m k v in (get_label-set_label m k v j, same, kept)

-- A second SetLabel of the same label never reports a change.
pub set_label_idem :
    (m : Option LabelMap) (k v : String) → (set_label (set_label m k v).0 k v).1 ≡ false
set_label_idem m k v =
    (set_label_unchanged (set_label m k v).0 k v).0.1 (rw (get_label-set_label m k v k, eq_refl k))
