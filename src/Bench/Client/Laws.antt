-- ===== src/Bench/Client/Laws.antt =====
-- The client of the benchmark against `handleProve`.
use mathlib.Core.Option
use tessera_transparency.Base.{
  ℕ, ◌≤◌, ◌<◌, ◌≡◌, refl, List, [], ◌∷◌, ◌++◌, some, arith, Bytes, IsBytes, All, ok, codes,
}
use tessera_transparency.Text.Hex
use tessera_transparency.Text.Decimal.{max_u64}
use tessera_transparency.Json.Value.{Value, print, object, Members, end}
use tessera_transparency.Json.Parse.Printable.{IsPrintable, ArePrintable}
use tessera_transparency.Json.Parse.RoundTrip.{parse_first-append}
use tessera_transparency.Schema.Fields.{read_struct, read_members, names, read_string}
use tessera_transparency.Schema.Fields.Laws.{
  ascii-IsUtf8, read_uint-uint_value, uint_value-IsPrintable,
}
use tessera_transparency.Log.{Log, Merkle, Checkpoint}
use tessera_transparency.Api.Response.{Request, ok_status, write_json}
use tessera_transparency.Api.Handlers.{
  read_cp, parse_uint, handle_prove, prove_response, hex_slice, string_items,
}
use tessera_transparency.Bench.Client.{
  ProveResponse, zero_response, read_elements, read_strings, set_response, decode_response,
  decode_proof, accepts, verify_response, check_answer,
}

-- The text of an answer that `writeJSON` writes.
unfoldable pub json_text : Value → Bytes
json_text v = print v ++ b'\n' ∷ []

decode_proof-hex_slice :
    (proof : List Bytes) → All IsBytes proof → decode_proof (hex_slice proof) ≡ some proof
unfolding decode_proof hex_slice Option.bind
decode_proof-hex_slice [] h = refl
decode_proof-hex_slice (b ∷ proof) (hb, h) =
    rw (Hex.decode-encode b hb) (rw (decode_proof-hex_slice proof h))

read_elements-string_items : (ss : List Bytes) → read_elements (string_items ss) [] ≡ some ss
unfolding read_elements read_string Option.bind
read_elements-string_items [] = refl
read_elements-string_items (s ∷ ss) = rw (read_elements-string_items ss)

string_items-ArePrintable :
    (proof : List Bytes) → All IsBytes proof → ArePrintable (string_items (hex_slice proof))
unfolding hex_slice ArePrintable IsPrintable
string_items-ArePrintable [] h = tt
string_items-ArePrintable (b ∷ proof) (hb, h) =
    (ascii-IsUtf8 (Hex.encode b) (Hex.encode-IsAscii b hb), string_items-ArePrintable proof h)

prove_response-IsPrintable :
    (idx : ℕ) (cp : Checkpoint) (proof : List Bytes)
    → idx ≤ max_u64
    → cp.size ≤ max_u64
    → IsBytes cp.hash
    → All IsBytes proof
    → IsPrintable (prove_response idx cp (hex_slice proof))
unfolding IsPrintable
prove_response-IsPrintable idx cp proof hi hs hh hp = (
  ascii-IsUtf8 (codes "index") (omega arith),
  (
    uint_value-IsPrintable idx hi,
    (
      ascii-IsUtf8 (codes "tree_size") (omega arith),
      (
        uint_value-IsPrintable cp.size hs,
        (
          ascii-IsUtf8 (codes "root") (omega arith),
          (
            ascii-IsUtf8 (Hex.encode cp.hash) (Hex.encode-IsAscii cp.hash hh),
            (ascii-IsUtf8 (codes "proof") (omega arith), (string_items-ArePrintable proof hp, tt)),
          ),
        ),
      ),
    ),
  ),
)

abbrev members_of : Value → Members
members_of (object ms) = ms
members_of _ = end

read_members-prove_response :
    (idx : ℕ) (cp : Checkpoint) (proof : List Bytes)
    → idx ≤ max_u64
    → cp.size ≤ max_u64
    → read_members set_response (members_of (prove_response idx cp (hex_slice proof))) zero_response
      ≡ some (record {
        index = idx;
        tree_size = cp.size;
        root = Hex.encode cp.hash;
        proof = hex_slice proof;
      })
unfolding read_members set_response names read_string read_strings Option.bind
read_members-prove_response idx cp proof hi hs =
    rw (read_uint-uint_value idx 0 hi)
      (rw (read_uint-uint_value cp.size 0 hs) (rw (read_elements-string_items (hex_slice proof))))

read_struct_object :
    (ms : Members) {pr : ProveResponse}
    → read_members set_response ms zero_response ≡ some pr
    → read_struct set_response zero_response (some (object ms)) ≡ ok pr
unfolding read_struct
read_struct_object ms e = rw (e, read_struct)

-- The client reads the fields that the handler wrote.
decode_response-prove_response :
    (idx : ℕ) (cp : Checkpoint) (proof : List Bytes)
    → idx ≤ max_u64
    → cp.size ≤ max_u64
    → IsBytes cp.hash
    → All IsBytes proof
    → decode_response (json_text (prove_response idx cp (hex_slice proof)))
      ≡ ok (record {
        index = idx;
        tree_size = cp.size;
        root = Hex.encode cp.hash;
        proof = hex_slice proof;
      })
unfolding decode_response json_text
decode_response-prove_response idx cp proof hi hs hh hp =
    rw
      (parse_first-append (prove_response idx cp (hex_slice proof)) (b'\n' ∷ [])
        (prove_response-IsPrintable idx cp proof hi hs hh hp) (omega arith))
      (read_struct_object (members_of (prove_response idx cp (hex_slice proof)))
        (read_members-prove_response idx cp proof hi hs))

verify_response_lem :
    (m : Merkle) (idx : ℕ) (leaf : Bytes) (cp : Checkpoint) (proof : List Bytes)
    → IsBytes cp.hash
    → All IsBytes proof
    → verify_response m idx leaf (record {
      index = idx;
      tree_size = cp.size;
      root = Hex.encode cp.hash;
      proof = hex_slice proof;
    })
      ≡ accepts (m.verify_inclusion idx cp.size leaf proof cp.hash)
unfolding verify_response
verify_response_lem m idx leaf cp proof hh hp =
    rw (Hex.decode-encode cp.hash hh, verify_response, decode_proof-hex_slice proof hp)

module _ (log : Log) (m : Merkle) where
  -- Where the log gives a checkpoint that covers the index and a proof, GET /token/prove answers
  -- with them, and the client of the benchmark, which decodes that answer, counts the request as
  -- verified exactly if the library accepts that proof of its leaf hash against that checkpoint.
  -- The hashes are bytes and the numbers have 64 bits.
  pub check_answer-handle_prove :
      (r : Request) (st : log.State) (idx : ℕ) (cp : Checkpoint) (pb : log.Builder)
      (proof : List Bytes) (leaf : Bytes)
      → parse_uint r (codes "index") ≡ ok idx
      → read_cp log m st ≡ ok cp
      → idx < cp.size
      → cp.size ≤ max_u64
      → log.new_proof_builder st cp.size ≡ ok pb
      → log.inclusion_proof st pb idx ≡ ok proof
      → IsBytes cp.hash
      → All IsBytes proof
      → let answer = prove_response idx cp (hex_slice proof) in
        (handle_prove log m r st ≡ write_json answer)
        × (check_answer m idx leaf ok_status (json_text answer)
            ≡ accepts (m.verify_inclusion idx cp.size leaf proof cp.hash))
  unfolding handle_prove check_answer
  check_answer-handle_prove r st idx cp pb proof leaf parsed read inside fits built proved hh hp = (
    ground arith,
    rw (decode_response-prove_response idx cp proof (omega arith) fits hh hp, check_answer)
        (verify_response_lem m idx leaf cp proof hh hp),
  )
