-- ===== src/Buckets.antt =====
-- The storage targets over the web: backend/api/routers/s3_buckets.py with the models of
-- backend/api/models/storage.py. The fields of a target beside its id, name and provider are an untyped
-- dict. The look-up of the host of an endpoint is left out.
pub mod Unguarded
mod Tests
use dbmanager.Base.{
  ℕ, suc, String, Bool, true, false, Option, none, some, List, [], ◌∷◌, ◌++◌, map, ◌&&◌, ◌||◌, not,
  any, keep, is_some, or_else, str_eq, text_is_empty, ◌==◌, if◌then◌else◌,
}
use dbmanager.Base.Outcome.{Reply, ok, http}
use dbmanager.Json.{Json, str, dict, Fields, end, field}
use dbmanager.Config.{
  Target, Manager, next_id, target_ids, set_config, save_config, get_storage_config,
}
use dbmanager.Databases.{dict_get, dict_update, dict_pop}

pub record StorageCreate : Type 0 where
  pub name : String
  pub provider : String
  pub fields : Fields

-- The field is set to a text that is not empty.
unfoldable pub has_field : Fields → String → Bool
has_field fs k = elim (dict_get k fs) [ some (str s) ↦ not (text_is_empty s) | _ ↦ false ]

abbrev pub s3_providers : List String
s3_providers = "aws" ∷ "minio" ∷ "cloudflare" ∷ "garage" ∷ "s3" ∷ "other" ∷ []

abbrev pub all_of : Fields → List String → Bool
all_of fs ks = not (any (λ k. not (has_field fs k)) ks)

-- A name has two characters at least.
unfoldable pub is_short : String → Bool
is_short String.[] = true
is_short (String.◌∷◌ c s) = text_is_empty s

-- `validate_provider_fields`
unfoldable pub valid_fields : StorageCreate → Bool
valid_fields body =
    if any (str_eq body.provider) s3_providers
    then all_of body.fields ("bucket" ∷ "access_key" ∷ "secret_key" ∷ [])
    else if str_eq body.provider "smb"
    then all_of body.fields ("server" ∷ "share_name" ∷ "smb_username" ∷ "smb_password" ∷ [])
    else false

pub record StorageUpdate : Type 0 where
  pub name : Option String
  pub provider : Option String
  pub fields : Fields

pub record StorageResponse : Type 0 where
  pub id : ℕ
  pub name : String
  pub provider : String
  pub fields : Fields

abbrev pub fields_of : Json → Fields
fields_of (dict fs) = fs
fields_of other = end

-- The fields that the response has.
abbrev pub response_fields : List String
response_fields =
    "endpoint_url" ∷ "bucket" ∷ "region" ∷ "server" ∷ "share_name" ∷ "domain" ∷ "remote_path" ∷ []

unfoldable pub shown_fields : Fields → Fields
shown_fields end = end
shown_fields (field k v fs) =
    let rest = shown_fields fs in if any (str_eq k) response_fields then field k v rest else rest

-- `_to_response`
unfoldable pub to_response : Target → StorageResponse
to_response t = record {
  id = t.id;
  name = t.name;
  provider = t.provider;
  fields = shown_fields (
      dict_pop "access_key" (dict_pop "secret_key" (dict_pop "smb_password" (fields_of t.params))));
}

unfoldable pub list_storage : Manager → List StorageResponse
list_storage m = map to_response m.config.storage_targets

unfoldable pub get_storage : ℕ → Manager → Reply StorageResponse
get_storage i m = elim (get_storage_config i m) [ none ↦ http 404 | some t ↦ ok (to_response t) ]

-- A body that the model refuses is answered with 422.
unfoldable pub create_storage : StorageCreate → Manager → Reply StorageResponse × Manager
create_storage body m =
    let new : Target = record {
      id = next_id (target_ids m.config);
      name = body.name;
      provider = body.provider;
      params = dict body.fields;
    } in
    if not (valid_fields body) then (http 422, m) else (
      ok (to_response new),
      set_config m (record m.config { storage_targets = m.config.storage_targets ++ new ∷ [] }),
    )

abbrev pub updated_target : StorageUpdate → Target → Target
updated_target body t = record t {
  name = or_else body.name t.name;
  provider = or_else body.provider t.provider;
  params = dict (dict_update (fields_of t.params) body.fields);
}

-- The first target with the id is replaced.
unfoldable pub put_target : ℕ → Target → List Target → List Target
put_target i new [] = []
put_target i new (t ∷ ts) =
    let rest = put_target i new ts in if t.id == i then new ∷ ts else t ∷ rest

unfoldable pub update_storage : ℕ → StorageUpdate → Manager → Reply StorageResponse × Manager
update_storage i body m = elim (get_storage_config i m) [
  | none ↦ (http 404, m)
  | some t ↦
      let new = updated_target body t in
      (
        ok (to_response new),
        set_config m
            (record m.config { storage_targets = put_target i new m.config.storage_targets }),
      )
]

unfoldable pub delete_storage : ℕ → Manager → Reply (Unit {0}) × Manager
delete_storage i m =
    if not (any (λ (t : Target). t.id == i) m.config.storage_targets) then (http 404, m) else (
      ok tt,
      set_config m (record m.config {
        storage_targets = keep (λ (t : Target). not (t.id == i)) m.config.storage_targets;
      }),
    )
