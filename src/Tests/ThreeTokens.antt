-- ===== src/Tests/ThreeTokens.antt =====
-- The run of cmd/sprint2 over a log that refuses what is not ASCII.
use tessera_transparency.Base.{
  ◌≡◌, refl, [], ◌∷◌, Bytes, Bool, ok, err, codes, ◌&&◌, true, ltb, if◌then◌else◌, IsBytes, arith,
  Result,
}
use tessera_transparency.Log.{Merkle, Failure}
use mathlib.Core.Option
use tessera_transparency.Text.Hex
use tessera_transparency.Text.Base64
use tessera_transparency.Text.Decimal
use tessera_transparency.Text.Integer
use tessera_transparency.Json.Value.{print}
use tessera_transparency.Json.Parse.{parse, read_value}
use tessera_transparency.Json.Quote.{escape, raw_string, unquote}
use tessera_transparency.Json.Number.{scan_number}
use tessera_transparency.Schema.Fields.{
  read_struct, read_members, read_string, read_blob, read_bool, read_uint, names,
}
use tessera_transparency.Schema.Host
use tessera_transparency.Schema.Binary
use tessera_transparency.Signer.Keys.{Signer}
use tessera_transparency.Signer.Tokens.{sign_token, verify_token, verify_htt}
use tessera_transparency.Signer.Tokens.Laws.{seeded}
use tessera_transparency.Sprints.ThreeTokens.{Times, Stop, fatal, short_hex, main}
use tessera_transparency.Sprints.ThreeTokens.Laws.{IsChecked, main-IsChecked}
use tessera_transparency.Sprints.ThreeTokens.Passing.{IsForeign}
use tessera_transparency.Sprints.ThreeTokens.Tokens.{main_tokens}
use tessera_transparency.Tests.Instances.{
  toy_log, toy_merkle, toy_ed25519, toy_ed25519-IsLawful, toy_seed, toy_vkey,
}

abbrev is_ascii : Bytes → Bool
is_ascii [] = true
is_ascii (c ∷ s) = ltb c 128 && is_ascii s

-- A leaf is its own hash, and every other hash is six numbers.
abbrev hash : Bytes → Bytes
hash [] = []
hash (c ∷ s) = if ltb c 1 then s else 1 ∷ 2 ∷ 3 ∷ 4 ∷ 5 ∷ 6 ∷ []

abbrev ascii_only : Merkle
ascii_only = record toy_merkle {
  sha256 = hash;
  verify_inclusion =
      λ idx size leaf proof root. if is_ascii leaf then ok tt else err (codes "wrong leaf");
}

abbrev times : Times
times = record { boot = 1700000000; built = 1700000001; deployed = 1700000002 }

abbrev signer : Signer
signer = seeded toy_ed25519 toy_ed25519-IsLawful toy_vkey toy_seed refl

abbrev close : toy_log.State → toy_log.State × Result Failure (Unit {0})
close st = (st, ok tt)

abbrev run : toy_log.State × Result Stop (Unit {0})
run = main toy_ed25519 toy_log ascii_only signer close times []

completed : run.1 ≡ ok tt
unfolding main sign_token verify_token verify_htt short_hex Host.marshal_for_signing Host.marshal
    Host.unmarshal Binary.marshal Binary.marshal_for_signing Binary.unmarshal read_struct
    read_members read_string read_blob read_bool read_uint names parse read_value print escape
    raw_string unquote scan_number Hex.encode Base64.encode Base64.decode Decimal.format
    Decimal.emit Decimal.parse Integer.format Integer.parse Option.bind
completed = refl

main-IsChecked_example : IsChecked toy_ed25519 toy_log ascii_only signer close times [] run.0
main-IsChecked_example =
    main-IsChecked toy_ed25519 toy_log ascii_only signer close times [] run.0
      (λ i. (run.0, completed i))

-- A log that cannot be closed.
abbrev jam : toy_log.State → toy_log.State × Result Failure (Unit {0})
jam st = (st, err (codes "disk full"))

abbrev jammed : toy_log.State × Result Stop (Unit {0})
jammed = main toy_ed25519 toy_log toy_merkle signer jam times []

stopped : jammed.1 ≡ err (fatal (codes "disk full"))
unfolding main sign_token verify_token verify_htt short_hex Host.marshal_for_signing Host.marshal
    Host.unmarshal Binary.marshal Binary.marshal_for_signing Binary.unmarshal read_struct
    read_members read_string read_blob read_bool read_uint names parse read_value print escape
    raw_string unquote scan_number Hex.encode Base64.encode Base64.decode Decimal.format
    Decimal.emit Decimal.parse Integer.format Integer.parse Option.bind
stopped = refl

hash_bytes : (s : Bytes) → IsBytes (toy_merkle.sha256 s)
hash_bytes s = omega arith

main_tokens_example : IsForeign (fatal (codes "disk full"))
main_tokens_example =
    main_tokens toy_ed25519 toy_ed25519-IsLawful toy_log toy_merkle hash_bytes toy_vkey toy_seed
      refl jam times [] jammed.0 (fatal (codes "disk full")) (omega arith) (omega arith)
      (omega arith) (λ i. (jammed.0, stopped i))
