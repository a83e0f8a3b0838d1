-- ===== src/Schema/Host/Laws.antt =====
-- What a Host Transparency Token keeps through its encoding.
use mathlib.Core.Option
use tessera_transparency.Base.{
  ◌≤◌, ◌≡◌, refl, ap, sym, ok-injective, ◌∙◌, [], ◌∷◌, none, some, arith, IsBytes, ok, ◌>>=◌, codes,
}
use tessera_transparency.Text.Decimal.{max_u64}
use tessera_transparency.Json.Utf8.{IsUtf8}
use tessera_transparency.Json.Value.{Members, object}
use tessera_transparency.Json.Parse.Printable.{IsPrintable, HavePrintable}
use tessera_transparency.Json.Parse.RoundTrip.{parse-print}
use tessera_transparency.Schema.Fields.{
  Blob, bytes_of, omit_empty, read_string, read_bool, names, read_members, read_struct,
}
use tessera_transparency.Schema.Fields.Laws.{
  ascii-IsUtf8, read_uint-uint_value, read_blob-blob_value, blob_value-IsPrintable,
  uint_value-IsPrintable,
}
use tessera_transparency.Schema.Host.{
  HostToken, zero_token, to_value, marshal, marshal_for_signing, set_field, unmarshal, to_members,
}

-- What Go holds in the fields of a token, with text in UTF-8.
pub record IsWellFormed (t : HostToken) : Type 0 where
  pub token_text : IsUtf8 t.token_id
  pub host_text : IsUtf8 t.host_id
  pub service_text : IsUtf8 t.attestation_service_id
  pub timestamp_fits : t.boot_timestamp_utc ≤ max_u64
  pub tpm_bytes : IsBytes (bytes_of t.tpm_measurement_hash)
  pub baseline_bytes : IsBytes (bytes_of t.baseline_config_hash)
  pub signature_bytes : IsBytes (bytes_of t.signature)

-- An empty signature is not written, and reads as nil.
abbrev pub filled : Blob → Blob
filled none = none
filled (some []) = none
filled (some (c ∷ b)) = some (c ∷ b)

omit_empty-HavePrintable :
    (b : Blob) → IsBytes (bytes_of b) → HavePrintable (omit_empty (codes "signature") b)
unfolding HavePrintable
omit_empty-HavePrintable none h = tt
omit_empty-HavePrintable (some []) h = tt
omit_empty-HavePrintable (some (c ∷ b)) h =
    (ascii-IsUtf8 (codes "signature") (omega arith), (blob_value-IsPrintable (some (c ∷ b)) h, tt))

to_value-IsPrintable : (t : HostToken) → IsWellFormed t → IsPrintable (to_value t)
unfolding IsPrintable
to_value-IsPrintable t w = (
  ascii-IsUtf8 (codes "token_id") (omega arith),
  (
    w.token_text,
    (
      ascii-IsUtf8 (codes "host_id") (omega arith),
      (
        w.host_text,
        (
          ascii-IsUtf8 (codes "attestation_service_id") (omega arith),
          (
            w.service_text,
            (
              ascii-IsUtf8 (codes "boot_timestamp_utc") (omega arith),
              (
                uint_value-IsPrintable t.boot_timestamp_utc w.timestamp_fits,
                (
                  ascii-IsUtf8 (codes "tpm_measurement_hash") (omega arith),
                  (
                    blob_value-IsPrintable t.tpm_measurement_hash w.tpm_bytes,
                    (
                      ascii-IsUtf8 (codes "baseline_config_hash") (omega arith),
                      (
                        blob_value-IsPrintable t.baseline_config_hash w.baseline_bytes,
                        (
                          ascii-IsUtf8 (codes "secure_boot_verified") (omega arith),
                          (
                            tt,
                            (
                              ascii-IsUtf8 (codes "baseline_match") (omega arith),
                              (tt, omit_empty-HavePrintable t.signature w.signature_bytes),
                            ),
                          ),
                        ),
                      ),
                    ),
                  ),
                ),
              ),
            ),
          ),
        ),
      ),
    ),
  ),
)

read_signature :
    (b : Blob) (u : HostToken)
    → IsBytes (bytes_of b)
    → read_members set_field (omit_empty (codes "signature") b) (record u { signature = none })
      ≡ some (record u { signature = filled b })
unfolding read_members set_field names Option.bind
read_signature none u h = refl
read_signature (some []) u h = refl
read_signature (some (c ∷ b)) u h = rw (read_blob-blob_value (some (c ∷ b)) none h)

-- Every field is written under its name and read back into its place.
read_members-to_members :
    (t : HostToken)
    → IsWellFormed t
    → read_members set_field (to_members t) zero_token
      ≡ some (record t { signature = filled t.signature })
unfolding read_members set_field names read_string read_bool Option.bind
read_members-to_members t w = rw (read_uint-uint_value t.boot_timestamp_utc 0 w.timestamp_fits) (
    rw (read_blob-blob_value t.tpm_measurement_hash none w.tpm_bytes) (
      rw (read_blob-blob_value t.baseline_config_hash none w.baseline_bytes)
        (read_signature t.signature t w.signature_bytes)))

read_struct_object :
    (ms : Members) {t : HostToken}
    → read_members set_field ms zero_token ≡ some t
    → read_struct set_field zero_token (some (object ms)) ≡ ok t
unfolding read_struct
read_struct_object ms e = rw (e, read_struct)

-- `UnmarshalHTT` gives back the token that `Marshal` wrote: all fields of it, with an empty
-- signature read as nil, for a token whose text is UTF-8 and whose numbers fit their Go types.
pub unmarshal_htt-marshal :
    (t : HostToken)
    → IsWellFormed t
    → (marshal t >>= unmarshal) ≡ ok (record t { signature = filled t.signature })
unfolding marshal unmarshal
unmarshal_htt-marshal t w =
    rw (parse-print (to_value t) (to_value-IsPrintable t w))
      (read_struct_object (to_members t) (read_members-to_members t w))

pub with_signature-IsWellFormed :
    {t : HostToken} (b : Blob)
    → IsWellFormed t
    → IsBytes (bytes_of b)
    → IsWellFormed (record t { signature = b })
with_signature-IsWellFormed b w h = record {
  token_text = w.token_text;
  host_text = w.host_text;
  service_text = w.service_text;
  timestamp_fits = w.timestamp_fits;
  tpm_bytes = w.tpm_bytes;
  baseline_bytes = w.baseline_bytes;
  signature_bytes = h;
}

unmarshal-marshal_for_signing :
    (t : HostToken)
    → IsWellFormed t
    → (marshal_for_signing t >>= unmarshal) ≡ ok (record t { signature = none })
unfolding marshal_for_signing
unmarshal-marshal_for_signing t w =
    unmarshal_htt-marshal (record t { signature = none }) (with_signature-IsWellFormed none w tt)

-- Two well-formed tokens with the same signing text agree on fields 1 to 8: a signature speaks for
-- one content only.
pub marshal_for_signing_htt_injective :
    (t u : HostToken)
    → IsWellFormed t
    → IsWellFormed u
    → marshal_for_signing t ≡ marshal_for_signing u
    → ◌≡◌ {A = HostToken} (record t { signature = none }) (record u { signature = none })
marshal_for_signing_htt_injective t u wt wu e = ok-injective (
    sym (unmarshal-marshal_for_signing t wt)
    ∙ ap (λ m. m >>= unmarshal) e
    ∙ unmarshal-marshal_for_signing u wu)
