-- ===== src/Tests/Keys.antt =====
-- A key pair, written, read back and loaded again.
use tessera_transparency.Base.{◌≡◌, refl, [], ◌∷◌, ◌++◌, none, some, arith, ok, codes}
use tessera_transparency.Text.Base64
use tessera_transparency.Signer.Keys.{Signer, decode_payload, from_note_strings}
use tessera_transparency.Signer.Keys.Laws.{
  from_note_strings-note, seed_signer, decode_payload-encode,
}
use tessera_transparency.Signer.Store.{new}
use tessera_transparency.Signer.Store.Laws.{new-new}
use tessera_transparency.Tests.Instances.{
  toy_ed25519, toy_ed25519-IsLawful, toy_os, toy_os-IsLawful, toy_seed, toy_skey, toy_vkey,
}

abbrev issuer : Signer
issuer = seed_signer toy_ed25519 (codes "issuer") (codes "0a1b2c3d") toy_seed

from_note_strings-note_example : from_note_strings toy_ed25519 toy_skey toy_vkey ≡ ok issuer
from_note_strings-note_example =
    from_note_strings-note toy_ed25519 toy_ed25519-IsLawful (codes "issuer") (codes "0a1b2c3d")
      toy_seed (ground arith) (ground arith) (omega arith) refl

parsed : from_note_strings toy_ed25519 toy_skey toy_vkey ≡ ok issuer
parsed =
    from_note_strings-note toy_ed25519 toy_ed25519-IsLawful (codes "issuer") (codes "0a1b2c3d")
      toy_seed (ground arith) (ground arith) (omega arith) refl

first_run : new toy_ed25519 toy_os (codes "keys") (codes "issuer") none ≡ (
  some (codes "keys/entry-signing-key.txt", toy_skey ++ b'\n' ∷ (toy_vkey ++ b'\n' ∷ [])),
  ok issuer,
)
unfolding new
first_run = rw parsed

new-new_example :
    new toy_ed25519 toy_os
      (codes "keys")
      (codes "other")
      (some (codes "keys/entry-signing-key.txt", toy_skey ++ b'\n' ∷ (toy_vkey ++ b'\n' ∷ [])))
    ≡ (
      some (codes "keys/entry-signing-key.txt", toy_skey ++ b'\n' ∷ (toy_vkey ++ b'\n' ∷ [])),
      ok issuer,
    )
new-new_example =
    new-new toy_ed25519 toy_os toy_os-IsLawful (codes "keys") (codes "issuer") (codes "other") none
      (some (codes "keys/entry-signing-key.txt", toy_skey ++ b'\n' ∷ (toy_vkey ++ b'\n' ∷ [])))
      issuer (ground arith) first_run

payload_read : decode_payload (Base64.encode (1 ∷ toy_seed)) ≡ ok (1 ∷ toy_seed)
payload_read = decode_payload-encode (1 ∷ toy_seed) (omega arith) refl
