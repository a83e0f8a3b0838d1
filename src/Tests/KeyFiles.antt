-- ===== src/Tests/KeyFiles.antt =====
-- The key file of the commands, written and read again.
use tessera_transparency.Base.{arith, ◌≡◌, refl, [], ◌∷◌, Option, none, some, Bytes, ok, codes}
use tessera_transparency.Text.Split.{split}
use tessera_transparency.Signer.Store.{key_text}
use tessera_transparency.Sprints.Split.{split_by, dir_of}
use tessera_transparency.Sprints.Split.Laws.{split_by_lem}
use tessera_transparency.Sprints.KeyFile.{load_or_gen_key_3, load_or_gen_key_4}
use tessera_transparency.Sprints.KeyFile.Laws.{load_or_gen_key_3_again}
use tessera_transparency.Tests.Instances.{toy_os, toy_os-IsLawful, toy_skey, toy_vkey}

split_by_lem_example : split_by b',' (codes "a,,b") ≡ codes "a" ∷ [] ∷ codes "b" ∷ []
unfolding split
split_by_lem_example = split_by_lem b',' (codes "a,,b")

abbrev path : Bytes
path = codes "data/key.txt"

abbrev saved : Option (Bytes × Bytes)
saved = some (path, key_text toy_skey toy_vkey)

first_3 : load_or_gen_key_3 toy_os path (codes "log") none ≡ (saved, ok (toy_skey, toy_vkey))
unfolding load_or_gen_key_3
first_3 = refl

load_or_gen_key_3_again_example :
    load_or_gen_key_3 toy_os path (codes "other") saved ≡ (saved, ok (toy_skey, toy_vkey))
load_or_gen_key_3_again_example =
    load_or_gen_key_3_again toy_os toy_os-IsLawful path (codes "log") (codes "other") none saved
      (toy_skey, toy_vkey) (ground arith) first_3

first_4 : load_or_gen_key_4 toy_os dir_of path (codes "log") none ≡ (saved, ok (toy_skey, toy_vkey))
unfolding load_or_gen_key_4
first_4 = refl
