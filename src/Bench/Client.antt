-- ===== src/Bench/Client.antt =====
-- The client of `runLatencyLevel`: it decodes the answer of GET /token/prove and verifies the proof.
pub mod Laws
use mathlib.Core.Option
use tessera_transparency.Base.{
  ℕ, List, [], ◌∷◌, ◌++◌, Option, none, some, Bytes, Result, ok, err, codes, ◌==◌, if◌then◌else◌,
  Bool, true, false,
}
use tessera_transparency.Text.Hex
use tessera_transparency.Json.Value.{Value, Items, null, string, array, nil, item, print}
use tessera_transparency.Json.Parse.{parse_first}
use tessera_transparency.Schema.Fields.{JsonError, names, read_string, read_uint, read_struct}
use tessera_transparency.Log.{Merkle}

-- `proveRespJSON`
pub record ProveResponse : Type 0 where
  pub index : ℕ
  pub tree_size : ℕ
  pub root : Bytes
  pub proof : List Bytes

-- `var pr proveRespJSON`
abbrev pub zero_response : ProveResponse
zero_response = record { index = 0; tree_size = 0; root = []; proof = [] }

head_or_empty : List Bytes → Bytes
head_or_empty [] = []
head_or_empty (s ∷ ss) = s

rest_of : List Bytes → List Bytes
rest_of [] = []
rest_of (s ∷ ss) = ss

-- The elements of a []string, over the elements that are there.
read_elements : Items → List Bytes → Option (List Bytes)
unfolding head_or_empty rest_of
read_elements nil old = some []
read_elements (item v vs) old =
    Option.bind (read_string v (head_or_empty old))
      λ s. Option.map (λ ss. s ∷ ss) (read_elements vs (rest_of old))

read_strings : Value → List Bytes → Option (List Bytes)
unfolding read_elements
read_strings (array vs) old = read_elements vs old
read_strings null old = some []
read_strings _ old = none

set_response : Bytes → Value → ProveResponse → Option ProveResponse
unfolding read_strings
set_response key v r =
    if names key (codes "index")
    then Option.map (λ x. record r { index = x }) (read_uint v r.index)
    else if names key (codes "tree_size")
    then Option.map (λ x. record r { tree_size = x }) (read_uint v r.tree_size)
    else if names key (codes "root")
    then Option.map (λ x. record r { root = x }) (read_string v r.root)
    else if names key (codes "proof")
    then Option.map (λ x. record r { proof = x }) (read_strings v r.proof)
    else some r

-- `json.NewDecoder(resp.Body).Decode(&pr)`
decode_response : Bytes → Result JsonError ProveResponse
unfolding set_response
decode_response body = read_struct set_response zero_response (parse_first body)

-- The loop over `pr.Proof`.
decode_proof : List Bytes → Option (List Bytes)
decode_proof [] = some []
decode_proof (h ∷ hs) = Option.bind (Hex.decode h) λ b. Option.map (λ bs. b ∷ bs) (decode_proof hs)

abbrev pub accepts {ℓ κ} : {E : Type ℓ} {A : Type κ} → Result E A → Bool
accepts (ok a) = true
accepts (err e) = false

verify_response : Merkle → ℕ → Bytes → ProveResponse → Bool
unfolding decode_proof
verify_response m idx leaf pr = elim (Hex.decode pr.root) [
  | none ↦ false
  | some root ↦ elim (decode_proof pr.proof) [
    | none ↦ false
    | some proof ↦ accepts (m.verify_inclusion idx pr.tree_size leaf proof root)
  ]
]

-- Whether the answer to a request for an index counts as a verified request.
unfoldable pub check_answer : Merkle → ℕ → Bytes → ℕ → Bytes → Bool
unfolding decode_response verify_response
check_answer m idx leaf status body = elim (decode_response body) [
  | err e ↦ false
  | ok pr ↦ if status == 200 then verify_response m idx leaf pr else false
]
