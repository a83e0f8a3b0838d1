-- ===== src/Schema/Binary/Laws.antt =====
-- What a Binary Transparency Token keeps through its encoding.
use mathlib.Core.Option
use tessera_transparency.Base.{
  ℕ, ◌^◌, ◌<◌, ◌≤◌, ◌≡◌, refl, ap, sym, ok-injective, ◌∙◌, [], ◌∷◌, none, some, arith, IsBytes, ok,
  ◌>>=◌, codes,
}
use tessera_transparency.Text.Decimal.{max_u64}
use tessera_transparency.Text.Integer
use tessera_transparency.Text.Integer.{pos}
use tessera_transparency.Json.Number.{IsNumeral, format-IsNumeral}
use tessera_transparency.Json.Utf8.{IsUtf8}
use tessera_transparency.Json.Value.{Members, object, number}
use tessera_transparency.Json.Parse.Printable.{IsPrintable, HavePrintable}
use tessera_transparency.Json.Parse.RoundTrip.{parse-print}
use tessera_transparency.Schema.Fields.{
  Blob, bytes_of, omit_empty, read_string, names, read_members, read_struct,
}
use tessera_transparency.Schema.Fields.Laws.{
  ascii-IsUtf8, read_uint-uint_value, read_blob-blob_value, blob_value-IsPrintable,
  uint_value-IsPrintable,
}
use tessera_transparency.Schema.Host.Laws.{filled}
use tessera_transparency.Schema.Binary.{
  BinaryToken, zero_token, to_value, marshal, marshal_for_signing, EventType, build, read_event,
  set_field, unmarshal, to_members,
}

-- What Go holds in the fields of a token, with text in UTF-8 and an event type that is not negative.
pub record IsWellFormed (t : BinaryToken) : Type 0 where
  pub token_text : IsUtf8 t.token_id
  pub binary_bytes : IsBytes (bytes_of t.binary_hash)
  pub event_number : ℕ
  pub event_fits : (t.event_type ≡ pos event_number) × (event_number < 2 ^ 63)
  pub issuer_text : IsUtf8 t.issuer_id
  pub timestamp_fits : t.event_timestamp ≤ max_u64
  pub commit_bytes : IsBytes (bytes_of t.source_commit_hash)
  pub uri_text : IsUtf8 t.build_provenance_uri
  pub evidence_bytes : IsBytes (bytes_of t.verification_evidence_hash)
  pub signature_bytes : IsBytes (bytes_of t.signature)

omit_empty-HavePrintable :
    (b : Blob) → IsBytes (bytes_of b) → HavePrintable (omit_empty (codes "signature") b)
unfolding HavePrintable
omit_empty-HavePrintable none h = tt
omit_empty-HavePrintable (some []) h = tt
omit_empty-HavePrintable (some (c ∷ b)) h =
    (ascii-IsUtf8 (codes "signature") (omega arith), (blob_value-IsPrintable (some (c ∷ b)) h, tt))

event-IsNumeral : (e : EventType) (n : ℕ) → e ≡ pos n → n < 2 ^ 63 → IsNumeral (Integer.format e)
unfolding Integer.format
event-IsNumeral e n same h = rw same (format-IsNumeral n (omega arith))

to_value-IsPrintable : (t : BinaryToken) → IsWellFormed t → IsPrintable (to_value t)
unfolding IsPrintable
to_value-IsPrintable t w = (
  ascii-IsUtf8 (codes "token_id") (omega arith),
  (
    w.token_text,
    (
      ascii-IsUtf8 (codes "binary_hash") (omega arith),
      (
        blob_value-IsPrintable t.binary_hash w.binary_bytes,
        (
          ascii-IsUtf8 (codes "event_type") (omega arith),
          (
            event-IsNumeral t.event_type w.event_number w.event_fits.0 w.event_fits.1,
            (
              ascii-IsUtf8 (codes "issuer_id") (omega arith),
              (
                w.issuer_text,
                (
                  ascii-IsUtf8 (codes "event_timestamp") (omega arith),
                  (
                    uint_value-IsPrintable t.event_timestamp w.timestamp_fits,
                    (
                      ascii-IsUtf8 (codes "source_commit_hash") (omega arith),
                      (
                        blob_value-IsPrintable t.source_commit_hash w.commit_bytes,
                        (
                          ascii-IsUtf8 (codes "build_provenance_uri") (omega arith),
                          (
                            w.uri_text,
                            (
                              ascii-IsUtf8 (codes "verification_evidence_hash") (omega arith),
                              (
                                blob_value-IsPrintable t.verification_evidence_hash
                                    w.evidence_bytes,
                                omit_empty-HavePrintable t.signature w.signature_bytes,
                              ),
                            ),
                          ),
                        ),
                      ),
                    ),
                  ),
                ),
              ),
            ),
          ),
        ),
      ),
    ),
  ),
)

read_event-format :
    (e old : EventType) (n : ℕ)
    → e ≡ pos n
    → n < 2 ^ 63
    → read_event (number (Integer.format e)) old ≡ some e
unfolding read_event
read_event-format e old n same h = rw (same, Integer.parse-format n h)

read_signature :
    (b : Blob) (u : BinaryToken)
    → IsBytes (bytes_of b)
    → read_members set_field (omit_empty (codes "signature") b) (record u { signature = none })
      ≡ some (record u { signature = filled b })
unfolding read_members set_field names Option.bind
read_signature none u h = refl
read_signature (some []) u h = refl
read_signature (some (c ∷ b)) u h = rw (read_blob-blob_value (some (c ∷ b)) none h)

-- Every field is written under its name and read back into its place.
read_members-to_members :
    (t : BinaryToken)
    → IsWellFormed t
    → read_members set_field (to_members t) zero_token
      ≡ some (record t { signature = filled t.signature })
unfolding read_members set_field names read_string Option.bind
read_members-to_members t w = rw (read_blob-blob_value t.binary_hash none w.binary_bytes) (
    rw (read_event-format t.event_type build w.event_number w.event_fits.0 w.event_fits.1) (
      rw (read_uint-uint_value t.event_timestamp 0 w.timestamp_fits) (
        rw (read_blob-blob_value t.source_commit_hash none w.commit_bytes) (
          rw (read_blob-blob_value t.verification_evidence_hash none w.evidence_bytes)
            (read_signature t.signature t w.signature_bytes)))))

read_struct_object :
    (ms : Members) {t : BinaryToken}
    → read_members set_field ms zero_token ≡ some t
    → read_struct set_field zero_token (some (object ms)) ≡ ok t
unfolding read_struct
read_struct_object ms e = rw (e, read_struct)

-- `UnmarshalBTT` gives back the token that `Marshal` wrote: all fields of it, with an empty
-- signature read as nil, for a token whose text is UTF-8, whose numbers fit their Go types, and
-- whose event type, a signed number in Go, is not negative.
pub unmarshal_btt-marshal :
    (t : BinaryToken)
    → IsWellFormed t
    → (marshal t >>= unmarshal) ≡ ok (record t { signature = filled t.signature })
unfolding marshal unmarshal
unmarshal_btt-marshal t w =
    rw (parse-print (to_value t) (to_value-IsPrintable t w))
      (read_struct_object (to_members t) (read_members-to_members t w))

pub with_signature-IsWellFormed :
    {t : BinaryToken} (b : Blob)
    → IsWellFormed t
    → IsBytes (bytes_of b)
    → IsWellFormed (record t { signature = b })
with_signature-IsWellFormed b w h = record {
  token_text = w.token_text;
  binary_bytes = w.binary_bytes;
  event_number = w.event_number;
  event_fits = w.event_fits;
  issuer_text = w.issuer_text;
  timestamp_fits = w.timestamp_fits;
  commit_bytes = w.commit_bytes;
  uri_text = w.uri_text;
  evidence_bytes = w.evidence_bytes;
  signature_bytes = h;
}

unmarshal-marshal_for_signing :
    (t : BinaryToken)
    → IsWellFormed t
    → (marshal_for_signing t >>= unmarshal) ≡ ok (record t { signature = none })
unfolding marshal_for_signing
unmarshal-marshal_for_signing t w =
    unmarshal_btt-marshal (record t { signature = none }) (with_signature-IsWellFormed none w tt)

-- Two well-formed tokens with the same signing text agree on fields 1 to 8: a signature speaks for
-- one content only.
pub marshal_for_signing_btt_injective :
    (t u : BinaryToken)
    → IsWellFormed t
    → IsWellFormed u
    → marshal_for_signing t ≡ marshal_for_signing u
    → ◌≡◌ {A = BinaryToken} (record t { signature = none }) (record u { signature = none })
marshal_for_signing_btt_injective t u wt wu e = ok-injective (
    sym (unmarshal-marshal_for_signing t wt)
    ∙ ap (λ m. m >>= unmarshal) e
    ∙ unmarshal-marshal_for_signing u wu)
