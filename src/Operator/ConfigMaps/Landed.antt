-- ===== src/Operator/ConfigMaps/Landed.antt =====
-- What the writes to a domain's ConfigMap leave in it.
use Prim.Native.String.{String}
use opendps.Prelude.{
  ◌≡◌, ◌∙◌, ap, subst, inl, inr, false, Bool-cases, Option, none, some, [], ◌∷◌, arith,
}
use opendps.Dict.{Dict, string_key, get, set, update, keys, elem, Distinct, get-set, beq_symm}
use opendps.Result.{Result, Error, ok, raise, Result-cases}
use opendps.Op.{try, caught_by, return, throw}
use opendps.Operator.Api.{Api, ConfigMap, has_status}
use opendps.Operator.ConfigMaps.{create_or_patch, patch_or_create_cm}

-- What Kubernetes documents of the writes that it accepts: a merge patch lays its data over that of the
-- object, and a create stores the object.
pub record IsLawful {S : Type 0} (v1 : Api S) : Type 0 where
  pub data_of : S → String → String → Option (Dict String String)
  pub patched :
      (name namespace : String) (d : Dict String String) (s t : S)
      → v1.patch_data name namespace d s ≡ (t, ok tt)
      → (old : Dict String String) × (data_of s name namespace ≡ some old)
        × (data_of t name namespace ≡ some (update old d))
  pub created :
      (cm : ConfigMap) (s t : S)
      → v1.create_config_map cm s ≡ (t, ok tt)
      → data_of t cm.name cm.namespace ≡ some cm.entries

module _ (k v : String) where
  get-update_other :
      (old d : Dict String String)
      → elem k (keys d) ≡ false
      → get k old ≡ some v
      → get k (update old d) ≡ some v
  unfolding update elem
  get-update_other old [] absent h = h
  get-update_other old ((j, w) ∷ d) absent h =
      get-update_other (set j w old) d (ground (arith, beq_symm j k))
        (get-set k j w old ∙ ground (arith, h))

  get-update :
      (old d : Dict String String)
      → Distinct (keys d)
      → get k d ≡ some v
      → get k (update old d) ≡ some v
  unfolding update get
  get-update old [] distinct h = cc
  get-update old ((j, w) ∷ d) (new, distinct) h = elim (Bool-cases (string_key.beq j k)) [
    | inl same ↦
        get-update_other (set j w old) d
          (subst (λ i. elem i (keys d) ≡ false) ((string_key.beq_iff j k).0 same) new)
          (get-set k j w old ∙ rw same (rw same at h))
    | inr other ↦ get-update (set j w old) d distinct (rw other at h)
  ]

raised :
    {S P : Type 0} {s t : S} {e : Error}
    → ◌≡◌ {A = S × Result (Unit {0})} (s, raise e) (t, ok tt)
    → P
raised h = cc

module _ {S : Type 0} (v1 : Api S) (lawful : IsLawful v1) (namespace name : String)
    (d : Dict String String) (distinct : Distinct (keys d)) where
  -- The object is there, with the data of the call.
  abbrev pub IsLanded : S → Type 0
  IsLanded t =
      (e : Dict String String) × (lawful.data_of t name namespace ≡ some e)
      × ((k v : String) → get k d ≡ some v → get k e ≡ some v)

  patched-IsLanded : (s t : S) → v1.patch_data name namespace d s ≡ (t, ok tt) → IsLanded t
  patched-IsLanded s t h =
      let (old, _, now) = lawful.patched name namespace d s t h in
      (update old d, now, λ k v found. get-update k v old d distinct found)

  created-IsLanded :
      (s t : S)
      → v1.create_config_map
          (record { name = name; namespace = namespace; resource_version = none; entries = d })
          s
        ≡ (t, ok tt)
      → IsLanded t
  created-IsLanded s t h = (d, lawful.created _ s t h, λ k v found. found)

  create-IsLanded : (s t : S) → create_or_patch v1 namespace name d s ≡ (t, ok tt) → IsLanded t
  unfolding create_or_patch try caught_by return throw
  create-IsLanded s t h =
      let cm : ConfigMap = record {
        name = name;
        namespace = namespace;
        resource_version = none;
        entries = d;
      } in
      elim (Result-cases (v1.create_config_map cm s).1) [
        | inr (_, p) ↦
            created-IsLanded s t (ap (λ r. ((v1.create_config_map cm s).0, r)) p ∙ (rw p at h))
        | inl (ce, p) ↦ elim (Bool-cases (has_status 409 ce)) [
          | inl race ↦ patched-IsLanded (v1.create_config_map cm s).0 t (rw (p, race) at h)
          | inr other ↦ let bad = rw (p, other) at h in raised bad
        ]
      ]

  -- When the call returns, the object holds every key of the data with its value, also where
  -- another client created the object in between, for data with distinct keys and an API whose
  -- patch and create do what they document.
  pub patch_or_create_cm-IsLanded :
      (s t : S) → patch_or_create_cm v1 namespace name d s ≡ (t, ok tt) → IsLanded t
  unfolding patch_or_create_cm try caught_by return throw
  patch_or_create_cm-IsLanded s t h = elim (Result-cases (v1.patch_data name namespace d s).1) [
    | inr (_, p) ↦
        patched-IsLanded s t (ap (λ r. ((v1.patch_data name namespace d s).0, r)) p ∙ (rw p at h))
    | inl (e, p) ↦ elim (Bool-cases (has_status 404 e)) [
      | inl gone ↦ create-IsLanded (v1.patch_data name namespace d s).0 t (rw (p, gone) at h)
      | inr other ↦ let bad = rw (p, other) at h in raised bad
    ]
  ]
