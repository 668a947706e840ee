-- ===== src/Host/Fake/RoundTrip.antt =====
-- What an action makes on the fake host, the next action finds there.
use libvirt_operator.Prelude.{
  String, Bool, true, List, [], ◌∷◌, ◌++◌, Option, none, some, ◌≡◌, refl, arith, find, eq_iff,
  eq_refl,
}
use libvirt_operator.Outcome.{Error, Code, ok, err, err_no_storage_pool, err_no_storage_vol}
use libvirt_operator.Host.Monad.{World}
use libvirt_operator.Action.Volume.State.{VolumeAction, new_volume_action}
use libvirt_operator.Action
use libvirt_operator.Host.Fake.State.{
  Fake, FakePool, KeyedVolume, Codec, pool_named, volume_named, get_pool_by_name,
  get_volume_by_name, update_first, set_pool, or_error, err_pool_not_exist, err_volume_not_exist,
}
use libvirt_operator.Host.Fake.Storage.{
  pool_lookup, vol_lookup, vol_xml, storage_vol_create_xml, create_vol, vol_by_name,
}
use libvirt_operator.Host.Fake.Connection.{fake_client}

module _ {A : Type 0} (p : A → Bool) where
  find-holds : (xs : List A) (y : A) → find p xs ≡ some y → p y ≡ true
  find-holds [] y h = cc
  find-holds (x ∷ xs) y h = ground (arith, find-holds xs y)

  find-update_first :
      (g : A → A) (xs : List A) (y : A)
      → find p xs ≡ some y
      → p (g y) ≡ true
      → find p (update_first p g xs) ≡ some (g y)
  find-update_first g [] y h t = cc
  find-update_first g (x ∷ xs) y h t = ground (arith, find-update_first g xs y, h, t)

  pub find-append :
      (xs : List A) (y : A) → find p xs ≡ none → p y ≡ true → find p (xs ++ y ∷ []) ≡ some y
  find-append [] y h t = ground (arith, t)
  find-append (x ∷ xs) y h t = ground (arith, find-append xs y, h, t)

or_error-ok :
    {A : Type 0} (c : Code) (text : String) (o : Option A) (a : A)
    → or_error c text o ≡ ok a
    → o ≡ some a
or_error-ok c text none a h = cc
or_error-ok c text (some b) a h = cc

pub or_error-err :
    {A : Type 0} (c : Code) (text : String) (o : Option A) (e : Error)
    → or_error c text o ≡ err e
    → o ≡ none
or_error-err c text none e h = refl
or_error-err c text (some b) e h = cc

-- The pool with one more volume.
abbrev with_volume : KeyedVolume → FakePool → FakePool
with_volume v p = record p { volumes = p.volumes ++ v ∷ [] }

module _ (x : Codec) where
  create_xml_lem :
      (pool xml : String) (f : Fake) (p : FakePool) (v : KeyedVolume) (e : Error)
      → get_pool_by_name pool f ≡ ok p
      → get_volume_by_name v.def.name p ≡ err e
      → x.unmarshal_volume xml ≡ ok v
      → (storage_vol_create_xml x (record { name = pool }) xml f ≡ (
        ok (record { pool = pool; name = v.def.name; key = v.key }),
        set_pool pool (with_volume v) f,
      ))
        × (get_pool_by_name pool (set_pool pool (with_volume v) f) ≡ ok (with_volume v p))
        × (get_volume_by_name v.def.name (with_volume v p) ≡ ok v)
        × (p.name ≡ pool)
  unfolding storage_vol_create_xml create_vol get_pool_by_name get_volume_by_name
  create_xml_lem pool xml f p v e found missing known =
      let at_pool =
        or_error-ok err_no_storage_pool err_pool_not_exist (find (pool_named pool) f.pools) p
          found in
      let none_named =
        or_error-err err_no_storage_vol err_volume_not_exist
          (find (volume_named v.def.name) p.volumes) e missing in
      let named = find-holds (pool_named pool) f.pools p at_pool in
      let same : p.name ≡ pool = ground (arith, named, eq_iff p.name pool) in
      (
        ground (arith, known, at_pool, none_named, same, eq_refl err_volume_not_exist),
        ground (arith, find-update_first (pool_named pool) (with_volume v) f.pools p at_pool named),
        ground (
          arith,
          find-append (volume_named v.def.name) p.volumes v none_named (eq_refl v.def.name),
        ),
        same,
      )

  -- The volume of an action, as the fake host gets it.
  abbrev pub volume_of : VolumeAction → KeyedVolume
  volume_of a = record { key = ""; def = a.def }

  -- The action that NewVolumeAction makes for it.
  abbrev pub found_action : String → VolumeAction → VolumeAction
  found_action pool a = record {
    name = a.def.name;
    pool_name = pool;
    pool = record { name = pool };
    id = some (record { pool = pool; name = a.def.name; key = "" });
    def = a.def;
    source = none;
  }

  new_action_lem :
      (pool xml : String) (p : FakePool) (a : VolumeAction) (f : Fake)
      → p.name ≡ pool
      → get_pool_by_name pool f ≡ ok p
      → get_volume_by_name a.def.name p ≡ ok (volume_of a)
      → x.marshal_volume (volume_of a) ≡ ok xml
      → x.unmarshal_volume xml ≡ ok (volume_of a)
      → new_volume_action (fake_client x) f a.def.name pool ≡ ok (found_action pool a)
  unfolding new_volume_action fake_client pool_lookup vol_lookup vol_xml vol_by_name
  new_action_lem pool xml p a f same found named written known =
      ground (arith, same, found, named, written, known)

  create_lem :
      {O : Type 0} (pool xml : String) (a : VolumeAction) (w : World Fake O) (f : Fake)
      → a.pool.name ≡ pool
      → a.source ≡ none
      → x.marshal_volume (volume_of a) ≡ ok xml
      → storage_vol_create_xml x (record { name = pool }) xml w.host
        ≡ (ok (record { pool = pool; name = a.def.name; key = "" }), f)
      → ((Action.Volume.State.create (fake_client x) a w).0 ≡ ok tt)
        × ((Action.Volume.State.create (fake_client x) a w).1.host ≡ f)
  unfolding Action.Volume.State.create fake_client
  create_lem pool xml a w f at_pool no_source written made = (
    ground (arith, at_pool, no_source, written, made),
    ground (arith, at_pool, no_source, written, made),
  )

  -- If the action has no source, its pool is on the fake host and no volume of its name is in that
  -- pool, and the description of its volume is read back as it was written, then Create succeeds,
  -- and the next action for the name finds the volume there, with the definition that was created.
  pub create-new_volume_action :
      {O : Type 0} (pool xml : String) (p : FakePool) (e : Error) (a : VolumeAction)
      (w : World Fake O)
      → a.pool.name ≡ pool
      → a.source ≡ none
      → get_pool_by_name pool w.host ≡ ok p
      → get_volume_by_name a.def.name p ≡ err e
      → x.marshal_volume (volume_of a) ≡ ok xml
      → x.unmarshal_volume xml ≡ ok (volume_of a)
      → ((Action.Volume.State.create (fake_client x) a w).0 ≡ ok tt)
        × (new_volume_action
              (fake_client x)
              (Action.Volume.State.create (fake_client x) a w).1.host
              a.def.name
              pool
            ≡ ok (found_action pool a))
  create-new_volume_action pool xml p e a w at_pool no_source found missing written known =
      let (made, found', named, same) =
        create_xml_lem pool xml w.host p (volume_of a) e found missing known in
      let (created, host) = create_lem pool xml a w _ at_pool no_source written made in
      (
        created,
        rw host (
            new_action_lem pool xml (with_volume (volume_of a) p) a _ same found' named written
              known),
      )
