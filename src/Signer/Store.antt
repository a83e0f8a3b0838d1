-- ===== src/Signer/Store.antt =====
-- `New` of internal/signer/signer.go: the key pair is loaded from its file or generated and saved.
pub mod Laws
use tessera_transparency.Base.{
  ℕ, List, [], ◌∷◌, ◌++◌, Option, none, some, Bytes, Result, ok, err, codes,
}
use tessera_transparency.Signer.Lines.{split_lines, newline}
use tessera_transparency.Signer.Keys.{
  Ed25519, Signer, SignerError, generate_key, create_dir, write_file, from_note_strings,
}

-- The file system and the key generator, which reads entropy: all that `New` calls outside.
-- An operation that changes the state returns the new one also where it fails.
pub record Os : Type 1 where
  pub State : Type 0
  pub join : Bytes → Bytes → Bytes
  pub read_file : State → Bytes → Option Bytes
  pub mkdir_all : State → Bytes → State × Option (Unit {0})
  pub write_file : State → Bytes → Bytes → State × Option (Unit {0})
  pub generate_key : State → Bytes → State × Option (Bytes × Bytes)

abbrev pub key_file_name : Bytes
key_file_name = codes "entry-signing-key.txt"

-- The text of a key file.
abbrev pub key_text : Bytes → Bytes → Bytes
key_text skey vkey = skey ++ newline ∷ (vkey ++ newline ∷ [])

module _ (c : Ed25519) where
  from_lines : List Bytes → Option Signer
  from_lines (skey ∷ vkey ∷ more) = elim (from_note_strings c skey vkey) [
    | ok s ↦ some s
    | err e ↦ none
  ]
  from_lines _ = none

  -- The saved signer, if the file can be read and its first two lines are keys.
  load : Option Bytes → Option Signer
  unfolding from_lines
  load none = none
  load (some text) = from_lines (split_lines text)

module _ (c : Ed25519) (os : Os) where
  -- Behind `os.WriteFile`.
  after_write : Bytes → Bytes → os.State × Option (Unit {0}) → os.State × Result SignerError Signer
  after_write skey vkey (st, none) = (st, err write_file)
  after_write skey vkey (st, some _) = (st, from_note_strings c skey vkey)

  after_mkdir :
      Bytes → Bytes → Bytes → os.State × Option (Unit {0}) → os.State × Result SignerError Signer
  unfolding after_write
  after_mkdir path skey vkey (st, none) = (st, err create_dir)
  after_mkdir path skey vkey (st, some _) =
      after_write skey vkey (os.write_file st path (key_text skey vkey))

  after_generate :
      Bytes → Bytes → os.State × Option (Bytes × Bytes) → os.State × Result SignerError Signer
  unfolding after_mkdir
  after_generate dir path (st, none) = (st, err generate_key)
  after_generate dir path (st, some (skey, vkey)) = after_mkdir path skey vkey (os.mkdir_all st dir)

  unfoldable pub new : Bytes → Bytes → os.State → os.State × Result SignerError Signer
  unfolding load after_generate
  new key_dir key_name st =
      let path = os.join key_dir key_file_name in
      elim (load c (os.read_file st path)) [
        | some s ↦ (st, ok s)
        | none ↦ after_generate key_dir path (os.generate_key st key_name)
      ]
