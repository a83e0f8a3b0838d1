-- ===== src/Tests/Instances.antt =====
-- The libraries behind the program, as functions that can be run.
use tessera_transparency.Base.{
  ℕ, ◌%◌, refl, List, [], ◌∷◌, ◌++◌, Option, none, some, arith, Bytes, ok, err, codes, length,
  bytes_eq, bytes_eq_refl, if◌then◌else◌, replicate, ap,
}
use mathlib.Core.Path.{subst}
use tessera_transparency.Text.Base64
use tessera_transparency.Signer.Keys.{Ed25519, IsLawful}
use tessera_transparency.Signer.Keys.Laws.{note_private, note_public}
use tessera_transparency.Signer.Lines.{IsLine}
use tessera_transparency.Signer.Store.{Os}
use tessera_transparency.Signer.Store.Laws as StoreLaws
use tessera_transparency.Log.{Log, Merkle, Checkpoint}

abbrev pub toy_signature : Bytes → Bytes
toy_signature msg = (length msg % 256) ∷ replicate 63 5

abbrev pub toy_ed25519 : Ed25519
toy_ed25519 = record {
  new_key_from_seed = λ seed. seed;
  public_of_seed = λ seed. (length seed % 256) ∷ replicate 31 7;
  sign = λ key msg. toy_signature msg;
  verify = λ key msg sig. bytes_eq sig (toy_signature msg);
}

pub toy_ed25519-IsLawful : IsLawful toy_ed25519
toy_ed25519-IsLawful = record {
  length-sign = λ key msg. refl;
  sign_bytes = λ key msg. omega arith;
  length-public = λ seed. refl;
  public_bytes = λ seed. omega arith;
  verify-sign = λ seed msg h. bytes_eq_refl (toy_signature msg);
}

abbrev pub toy_seed : Bytes
toy_seed = replicate 32 9

abbrev pub toy_skey : Bytes
toy_skey = note_private (codes "issuer") (codes "0a1b2c3d") (1 ∷ toy_seed)

abbrev pub toy_vkey : Bytes
toy_vkey = note_public (codes "issuer") (codes "0a1b2c3d") (1 ∷ toy_ed25519.public_of_seed toy_seed)

-- A file system of one file.
abbrev pub toy_os : Os
toy_os = record {
  State = Option (Bytes × Bytes);
  join = λ dir name. dir ++ b'/' ∷ name;
  read_file = λ st path. elim st [
    | none ↦ none
    | some (p, text) ↦ if bytes_eq p path then some text else none
  ];
  mkdir_all = λ st dir. (st, some tt);
  write_file = λ st path text. (some (path, text), some tt);
  generate_key = λ st name. (st, some (toy_skey, toy_vkey));
}

-- A log is the list of its entries, and its checkpoint is their number.
abbrev pub toy_checkpoint : ℕ → Checkpoint
toy_checkpoint n = record { size = n; hash = n ∷ [] }

abbrev pub toy_log : Log
toy_log = record {
  State = List Bytes;
  Builder = ℕ;
  append = λ st e. (st ++ e ∷ [], ok (length st, length (st ++ e ∷ []) ∷ []));
  read_checkpoint = λ st. ok (length st ∷ []);
  unmarshal_checkpoint =
      λ raw. elim raw [ n ∷ [] ↦ ok (toy_checkpoint n) | _ ↦ err (codes "malformed") ];
  new_proof_builder = λ st n. ok n;
  inclusion_proof = λ st pb idx. ok ((idx ∷ []) ∷ (pb ∷ []) ∷ []);
  consistency_proof = λ st pb from to. ok ((from ∷ to ∷ []) ∷ []);
}

abbrev pub toy_merkle : Merkle
toy_merkle = record {
  sha256 = λ s. (length s % 256) ∷ replicate 31 1;
  verify_inclusion = λ idx size leaf proof root.
      if bytes_eq root (size ∷ []) then ok tt else err (codes "wrong root");
  verify_consistency =
      λ from to proof old new. if bytes_eq new (to ∷ []) then ok tt else err (codes "wrong root");
}

toy_skey-IsLine : IsLine toy_skey
unfolding Base64.encode
toy_skey-IsLine = record {
  present = ground arith;
  front = omega arith;
  back = omega arith;
  one_line = omega arith;
}

toy_vkey-IsLine : IsLine toy_vkey
unfolding Base64.encode
toy_vkey-IsLine = record {
  present = ground arith;
  front = omega arith;
  back = omega arith;
  one_line = omega arith;
}

keys_of : toy_os.State × Option (Bytes × Bytes) → Bytes × Bytes
keys_of (st, some keys) = keys
keys_of (st, none) = ([], [])

pub toy_os-IsLawful : StoreLaws.IsLawful toy_os
unfolding keys_of
toy_os-IsLawful = record {
  read-write = λ st st' path text e. rw (← ap (λ p. p.0) e) (rw (bytes_eq_refl path));
  generated_lines = λ st st' name skey vkey word e.
      subst (λ k. IsLine k.0 × IsLine k.1) (ap keys_of e) (toy_skey-IsLine, toy_vkey-IsLine);
}
