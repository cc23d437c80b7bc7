-- ===== src/Worker/Mapping.antt =====
-- apps/worker/src/mapping.ts: a source's payload as a lead in the one shape. The ids of tenant and source
-- and the fields that are the same for every lead are left out, but for the two that dedup reads.
use insurnace_automations.Base.{
  String, Bool, true, false, not, ◌||◌, Option, none, some, List, [], ◌∷◌, Text, codes, str_eq,
  if◌then◌else◌,
}
use insurnace_automations.Base.Show.{show_ℤ}
use insurnace_automations.Core.Dedup.{Entries}
use insurnace_automations.Core.Normalize.{
  SplitName, split_name, normalize_email, normalize_phone, normalize_postal_code,
}
use insurnace_automations.Worker.Store.{Raw, null, text, number, flag, other, SourceMapping}

pub record NormalizedLead : Type 0 where
  pub first_name : Option Text
  pub last_name : Option Text
  pub email_normalized : Option String
  pub phone_e164 : Option String
  pub city : Option Text
  pub region : Option Text
  pub postal_code : Option Text
  pub service_requested : Option Text
  pub is_existing_customer : Bool
  pub external_ids : Entries

abbrev pub Payload : Type 0
Payload = List (String × Raw)

unfoldable pub field_of : String → Payload → Option Raw
field_of key [] = none
field_of key ((k, v) ∷ es) = let rest = field_of key es in if str_eq k key then some v else rest

-- `raw[key] != null ? String(raw[key]) : null`
abbrev pub show_raw : Option Raw → Option Text
show_raw none = none
show_raw (some null) = none
show_raw (some (text t)) = some t
show_raw (some (number z)) = some (codes (show_ℤ z))
show_raw (some (flag true)) = some (codes "true")
show_raw (some (flag false)) = some (codes "false")
show_raw (some (other shown)) = some shown

-- `get(key)`: a missing or empty key has no value.
unfoldable pub get : Payload → Option String → Option Text
unfolding field_of show_ℤ
get raw none = none
get raw (some key) = if str_eq key "" then none else show_raw (field_of key raw)

abbrev pub is_key : Option String → Bool
is_key none = false
is_key (some key) = not (str_eq key "")

unfoldable pub names_of : Payload → SourceMapping → SplitName
unfolding get split_name
names_of raw mapping =
    if is_key mapping.first_name || is_key mapping.last_name
    then record { first_name = get raw mapping.first_name; last_name = get raw mapping.last_name }
    else split_name (get raw mapping.name)

module _ (string_of : Text → String) (parse_phone : Text → Option String) where
  unfoldable pub map_raw_to_normalized : Payload → SourceMapping → NormalizedLead
  unfolding names_of get normalize_email normalize_phone normalize_postal_code
  map_raw_to_normalized raw mapping = record {
    first_name = (names_of raw mapping).first_name;
    last_name = (names_of raw mapping).last_name;
    email_normalized = normalize_email string_of (get raw mapping.email);
    phone_e164 = normalize_phone parse_phone (get raw mapping.phone);
    city = get raw mapping.city;
    region = get raw mapping.region;
    postal_code = normalize_postal_code (get raw mapping.postal_code);
    service_requested = get raw mapping.service;
    is_existing_customer = false;
    external_ids = [];
  }
