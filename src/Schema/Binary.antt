-- ===== src/Schema/Binary.antt =====
-- The Binary Transparency Token of internal/schema/token.go, and its event types.
pub mod Laws
use mathlib.Core.Option
use tessera_transparency.Base.{
  ℕ, zero, suc, [], ◌++◌, Option, none, some, Bytes, Result, ok, err, codes, if◌then◌else◌,
}
use tessera_transparency.Text.Decimal.{NumError}
use tessera_transparency.Text.Integer
use tessera_transparency.Text.Integer.{ℤ, pos, negsuc}
use tessera_transparency.Json.Value.{Value, Members, null, number, string, object, member, print}
use tessera_transparency.Json.Parse.{parse}
use tessera_transparency.Schema.Fields.{
  JsonError, Blob, blob_value, uint_value, omit_empty, read_string, read_uint, read_blob, names,
  read_struct,
}

-- `BinaryEventType` is an int; two of its values have names.
abbrev pub EventType : Type 0
EventType = ℤ

abbrev pub build : EventType
build = pos 0

abbrev pub deployment : EventType
deployment = pos 1

-- `(e BinaryEventType) String`
unfoldable pub to_string : EventType → Bytes
to_string (pos zero) = codes "BUILD"
to_string (pos (suc zero)) = codes "DEPLOYMENT"
to_string e = codes "UNKNOWN(" ++ Integer.format e ++ codes ")"

pub record BinaryToken : Type 0 where
  pub token_id : Bytes
  pub binary_hash : Blob
  pub event_type : EventType
  pub issuer_id : Bytes
  pub event_timestamp : ℕ
  pub source_commit_hash : Blob
  pub build_provenance_uri : Bytes
  pub verification_evidence_hash : Blob
  pub signature : Blob

-- `var t BinaryTransparencyToken`
abbrev pub zero_token : BinaryToken
zero_token = record {
  token_id = [];
  binary_hash = none;
  event_type = build;
  issuer_id = [];
  event_timestamp = 0;
  source_commit_hash = none;
  build_provenance_uri = [];
  verification_evidence_hash = none;
  signature = none;
}

-- The fields of the struct as members of a JSON object, in their order.
abbrev to_members : BinaryToken → Members
to_members t = member (codes "token_id") (string t.token_id) (
    member (codes "binary_hash") (blob_value t.binary_hash) (
      member (codes "event_type") (number (Integer.format t.event_type)) (
        member (codes "issuer_id") (string t.issuer_id) (
          member (codes "event_timestamp") (uint_value t.event_timestamp) (
            member (codes "source_commit_hash") (blob_value t.source_commit_hash) (
              member (codes "build_provenance_uri") (string t.build_provenance_uri) (
                member (codes "verification_evidence_hash")
                  (blob_value t.verification_evidence_hash)
                  (omit_empty (codes "signature") t.signature))))))))

abbrev to_value : BinaryToken → Value
to_value t = object (to_members t)

-- `(b *BinaryTransparencyToken) Marshal`: no field of this type can make `json.Marshal` fail.
unfoldable pub marshal : BinaryToken → Result JsonError Bytes
marshal t = ok (print (to_value t))

-- `(b *BinaryTransparencyToken) MarshalForSigning`, on a copy of the token.
unfoldable pub marshal_for_signing : BinaryToken → Result JsonError Bytes
unfolding marshal
marshal_for_signing t = marshal (record t { signature = none })

int_option : Result NumError ℤ → Option ℤ
int_option (ok n) = some n
int_option (err e) = none

read_event : Value → EventType → Option EventType
unfolding int_option
read_event (number n) old = int_option (Integer.parse n)
read_event null old = some old
read_event _ old = none

-- One key and its value, into the field that it names; an unknown key is passed over.
set_field : Bytes → Value → BinaryToken → Option BinaryToken
set_field key v t =
    if names key (codes "token_id")
    then Option.map (λ x. record t { token_id = x }) (read_string v t.token_id)
    else if names key (codes "binary_hash")
    then Option.map (λ x. record t { binary_hash = x }) (read_blob v t.binary_hash)
    else if names key (codes "event_type")
    then Option.map (λ x. record t { event_type = x }) (read_event v t.event_type)
    else if names key (codes "issuer_id")
    then Option.map (λ x. record t { issuer_id = x }) (read_string v t.issuer_id)
    else if names key (codes "event_timestamp")
    then Option.map (λ x. record t { event_timestamp = x }) (read_uint v t.event_timestamp)
    else if names key (codes "source_commit_hash")
    then Option.map (λ x. record t { source_commit_hash = x }) (read_blob v t.source_commit_hash)
    else if names key (codes "build_provenance_uri")
    then Option.map (λ x. record t { build_provenance_uri = x })
        (read_string v t.build_provenance_uri)
    else if names key (codes "verification_evidence_hash")
    then Option.map (λ x. record t { verification_evidence_hash = x })
        (read_blob v t.verification_evidence_hash)
    else if names key (codes "signature")
    then Option.map (λ x. record t { signature = x }) (read_blob v t.signature)
    else some t

-- `UnmarshalBTT`
unfoldable pub unmarshal : Bytes → Result JsonError BinaryToken
unfolding set_field read_event
unmarshal bytes = read_struct set_field zero_token (parse bytes)
