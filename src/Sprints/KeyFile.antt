-- ===== src/Sprints/KeyFile.antt =====
-- `loadOrGenKey` of cmd/sprint2, cmd/sprint3 and cmd/sprint4. The three copies differ in how they
-- split the file into lines, how they find the directory of a path, and in what is printed; two of
-- them end the program where the third returns an error of the file system.
pub mod Laws
use tessera_transparency.Base.{ℕ, List, [], ◌∷◌, ◌++◌, Option, none, some, Bytes, Result, ok, err}
use tessera_transparency.Signer.Keys.{SignerError, generate_key, create_dir, write_file}
use tessera_transparency.Signer.Lines.{split_lines}
use tessera_transparency.Signer.Store.{Os, key_text}
use tessera_transparency.Sprints.Split.{filled_lines, filled_lines_by, dir_of}

abbrev pub Lines : Type 0
Lines = Bytes → List Bytes

-- The first two lines of a file that can be read and has them.
first_lines : Lines → Option Bytes → Option (Bytes × Bytes)
first_lines lines none = none
first_lines lines (some text) = elim (lines text) [
  | skey ∷ vkey ∷ more ↦ some (skey, vkey)
  | _ ↦ none
]

module _ (os : Os) (lines : Lines) (dir : Bytes → Bytes) where
  after_write :
      Bytes × Bytes → os.State × Option (Unit {0}) → os.State × Result SignerError (Bytes × Bytes)
  after_write keys (st, none) = (st, err write_file)
  after_write keys (st, some _) = (st, ok keys)

  after_mkdir :
      Bytes
      → Bytes × Bytes
      → os.State × Option (Unit {0})
      → os.State × Result SignerError (Bytes × Bytes)
  unfolding after_write
  after_mkdir path keys (st, none) = (st, err create_dir)
  after_mkdir path keys (st, some _) =
      after_write keys (os.write_file st path (key_text keys.0 keys.1))

  after_generate :
      Bytes → os.State × Option (Bytes × Bytes) → os.State × Result SignerError (Bytes × Bytes)
  unfolding after_mkdir
  after_generate path (st, none) = (st, err generate_key)
  after_generate path (st, some keys) = after_mkdir path keys (os.mkdir_all st (dir path))

  unfoldable pub load_or_gen_key :
      Bytes → Bytes → os.State → os.State × Result SignerError (Bytes × Bytes)
  unfolding first_lines after_generate
  load_or_gen_key path name st = elim (first_lines lines (os.read_file st path)) [
    | some keys ↦ (st, ok keys)
    | none ↦ after_generate path (os.generate_key st name)
  ]

-- `filepath.Dir` is a parameter.
module _ (os : Os) (file_dir : Bytes → Bytes) where
  unfoldable pub load_or_gen_key_2 :
      Bytes → Bytes → os.State → os.State × Result SignerError (Bytes × Bytes)
  unfolding load_or_gen_key
  load_or_gen_key_2 = load_or_gen_key os filled_lines file_dir

  unfoldable pub load_or_gen_key_4 :
      Bytes → Bytes → os.State → os.State × Result SignerError (Bytes × Bytes)
  unfolding load_or_gen_key
  load_or_gen_key_4 = load_or_gen_key os split_lines file_dir

unfoldable pub load_or_gen_key_3 :
    (os : Os) → Bytes → Bytes → os.State → os.State × Result SignerError (Bytes × Bytes)
unfolding load_or_gen_key
load_or_gen_key_3 os = load_or_gen_key os filled_lines_by dir_of
