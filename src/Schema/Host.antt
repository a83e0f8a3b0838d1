-- ===== src/Schema/Host.antt =====
-- The Host Transparency Token of internal/schema/token.go.
pub mod Laws
use mathlib.Core.Option
use tessera_transparency.Base.{
  ℕ, Bool, true, false, [], Option, none, some, Bytes, Result, ok, err, codes, if◌then◌else◌,
}
use tessera_transparency.Json.Value.{Value, Members, boolean, string, object, member, print}
use tessera_transparency.Json.Parse.{parse}
use tessera_transparency.Schema.Fields.{
  JsonError, Blob, blob_value, uint_value, omit_empty, read_string, read_bool, read_uint, read_blob,
  names, read_struct,
}

pub record HostToken : Type 0 where
  pub token_id : Bytes
  pub host_id : Bytes
  pub attestation_service_id : Bytes
  pub boot_timestamp_utc : ℕ
  pub tpm_measurement_hash : Blob
  pub baseline_config_hash : Blob
  pub secure_boot_verified : Bool
  pub baseline_match : Bool
  pub signature : Blob

-- `var t HostTransparencyToken`
abbrev pub zero_token : HostToken
zero_token = record {
  token_id = [];
  host_id = [];
  attestation_service_id = [];
  boot_timestamp_utc = 0;
  tpm_measurement_hash = none;
  baseline_config_hash = none;
  secure_boot_verified = false;
  baseline_match = false;
  signature = none;
}

-- The fields of the struct as members of a JSON object, in their order.
abbrev to_members : HostToken → Members
to_members t = member (codes "token_id") (string t.token_id) (
    member (codes "host_id") (string t.host_id) (
      member (codes "attestation_service_id") (string t.attestation_service_id) (
        member (codes "boot_timestamp_utc") (uint_value t.boot_timestamp_utc) (
          member (codes "tpm_measurement_hash") (blob_value t.tpm_measurement_hash) (
            member (codes "baseline_config_hash") (blob_value t.baseline_config_hash) (
              member (codes "secure_boot_verified") (boolean t.secure_boot_verified) (
                member (codes "baseline_match") (boolean t.baseline_match)
                  (omit_empty (codes "signature") t.signature))))))))

abbrev to_value : HostToken → Value
to_value t = object (to_members t)

-- `(h *HostTransparencyToken) Marshal`: no field of this type can make `json.Marshal` fail.
unfoldable pub marshal : HostToken → Result JsonError Bytes
marshal t = ok (print (to_value t))

-- `(h *HostTransparencyToken) MarshalForSigning`, on a copy of the token.
unfoldable pub marshal_for_signing : HostToken → Result JsonError Bytes
unfolding marshal
marshal_for_signing t = marshal (record t { signature = none })

-- One key and its value, into the field that it names; an unknown key is passed over.
set_field : Bytes → Value → HostToken → Option HostToken
set_field key v t =
    if names key (codes "token_id")
    then Option.map (λ x. record t { token_id = x }) (read_string v t.token_id)
    else if names key (codes "host_id")
    then Option.map (λ x. record t { host_id = x }) (read_string v t.host_id)
    else if names key (codes "attestation_service_id")
    then Option.map (λ x. record t { attestation_service_id = x })
        (read_string v t.attestation_service_id)
    else if names key (codes "boot_timestamp_utc")
    then Option.map (λ x. record t { boot_timestamp_utc = x }) (read_uint v t.boot_timestamp_utc)
    else if names key (codes "tpm_measurement_hash")
    then Option.map (λ x. record t { tpm_measurement_hash = x })
        (read_blob v t.tpm_measurement_hash)
    else if names key (codes "baseline_config_hash")
    then Option.map (λ x. record t { baseline_config_hash = x })
        (read_blob v t.baseline_config_hash)
    else if names key (codes "secure_boot_verified")
    then Option.map (λ x. record t { secure_boot_verified = x })
        (read_bool v t.secure_boot_verified)
    else if names key (codes "baseline_match")
    then Option.map (λ x. record t { baseline_match = x }) (read_bool v t.baseline_match)
    else if names key (codes "signature")
    then Option.map (λ x. record t { signature = x }) (read_blob v t.signature)
    else some t

-- `UnmarshalHTT`
unfoldable pub unmarshal : Bytes → Result JsonError HostToken
unfolding set_field
unmarshal bytes = read_struct set_field zero_token (parse bytes)
