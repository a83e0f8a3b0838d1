-- ===== src/Schema/Fields/Laws.antt =====
-- Reading a field that was written.
use tessera_transparency.Base.{
  ℕ, ◌≤◌, ◌<◌, ◌≡◌, refl, [], ◌∷◌, none, some, arith, Bytes, IsBytes, All,
}
use tessera_transparency.Text.Base64
use tessera_transparency.Text.Decimal
use tessera_transparency.Json.Utf8.{IsUtf8, nil, ascii}
use tessera_transparency.Json.Parse.Printable.{IsPrintable}
use tessera_transparency.Json.Number.{format-IsNumeral}
use tessera_transparency.Schema.Fields.{
  Blob, bytes_of, blob_value, uint_value, read_uint, read_blob,
}

pub ascii-IsUtf8 : (s : Bytes) → All (λ c. c < 128) s → IsUtf8 s
ascii-IsUtf8 [] h = nil
ascii-IsUtf8 (c ∷ s) (hc, h) = ascii hc (ascii-IsUtf8 s h)

IsClean-IsUtf8 : (s : Bytes) → Base64.IsClean s → IsUtf8 s
IsClean-IsUtf8 [] h = nil
IsClean-IsUtf8 (c ∷ s) ((lo, hi), h) = ascii (omega arith) (IsClean-IsUtf8 s h)

pub read_uint-uint_value : (n old : ℕ) → n ≤ Decimal.max_u64 → read_uint (uint_value n) old ≡ some n
unfolding read_uint
read_uint-uint_value n old h = rw (Decimal.parse-format n h)

pub read_blob-blob_value :
    (b old : Blob) → IsBytes (bytes_of b) → read_blob (blob_value b) old ≡ some b
unfolding read_blob
read_blob-blob_value none old h = refl
read_blob-blob_value (some b) old h = rw (Base64.decode-encode b h)

pub blob_value-IsPrintable : (b : Blob) → IsBytes (bytes_of b) → IsPrintable (blob_value b)
unfolding IsPrintable
blob_value-IsPrintable none h = tt
blob_value-IsPrintable (some b) h = IsClean-IsUtf8 (Base64.encode b) (Base64.encode-IsClean b h)

pub uint_value-IsPrintable : (n : ℕ) → n ≤ Decimal.max_u64 → IsPrintable (uint_value n)
unfolding IsPrintable
uint_value-IsPrintable n h = format-IsNumeral n (omega arith)
