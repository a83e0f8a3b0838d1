-- ===== src/Tests/Verifying.antt =====
-- The verifier against a log of two entries.
use tessera_transparency.Base.{inl, arith, ◌≡◌, refl, [], ◌∷◌, Bytes, ok, codes}
use tessera_transparency.Text.Hex
use tessera_transparency.Text.Integer.{pos, negsuc}
use tessera_transparency.Verify.{
  Flags, Fetchers, exit_code, main, and_then, of_result, is_nonneg, open_log, read_head, local_log,
  tree_head, inclusion_verified, printed,
}
use tessera_transparency.Verify.Complete.{main_complete}
use tessera_transparency.Verify.Laws.{
  Head, IsIncluded, IsConsistent, main-IsIncluded, main-IsConsistent,
}
use tessera_transparency.Tests.Instances.{toy_log, toy_merkle, toy_checkpoint}

abbrev fetchers : Fetchers toy_log
fetchers = record {
  Url = Bytes;
  local = λ dir. codes "one" ∷ codes "two" ∷ [];
  parse_url = λ u. ok u;
  remote = λ u. ok (codes "one" ∷ codes "two" ∷ []);
}

abbrev flags : Flags
flags = record {
  log_dir = codes "./log";
  log_url = [];
  index = pos 1;
  leaf_hex = codes "00ff";
  from = pos 1;
  to = pos 2;
  old_root = codes "01";
}

accepted : exit_code (main toy_log toy_merkle fetchers flags) ≡ 0
unfolding exit_code main and_then of_result Hex.decode is_nonneg
accepted = refl

main-IsIncluded_example :
    (h : Head toy_log toy_merkle fetchers flags) × IsIncluded toy_log toy_merkle flags h.cp h.st 1
main-IsIncluded_example = main-IsIncluded toy_log toy_merkle fetchers flags 1 refl accepted

main-IsConsistent_example :
    (h : Head toy_log toy_merkle fetchers flags) × IsConsistent toy_log toy_merkle flags h.cp h.st 1
      2
main-IsConsistent_example =
    main-IsConsistent toy_log toy_merkle fetchers flags 1 2 refl refl accepted

abbrev inclusion_only : Flags
inclusion_only = record flags { from = negsuc 0 }

abbrev head : Head toy_log toy_merkle fetchers inclusion_only
unfolding open_log read_head
head = record {
  line = local_log (codes "./log");
  st = codes "one" ∷ codes "two" ∷ [];
  cp = toy_checkpoint 2;
  opened = refl;
  head = refl;
}

abbrev included :
    IsIncluded toy_log toy_merkle inclusion_only
      (toy_checkpoint 2)
      (codes "one" ∷ codes "two" ∷ [])
      1
unfolding Hex.decode
included = record {
  leaf = 0 ∷ 255 ∷ [];
  builder = 2;
  proof = (1 ∷ []) ∷ (2 ∷ []) ∷ [];
  leaf_decoded = refl;
  covered = omega arith;
  built = refl;
  proved = refl;
  verified = refl;
}

main_complete_example :
    main toy_log toy_merkle fetchers inclusion_only
    ≡ printed (local_log (codes "./log") ∷ tree_head 2 (2 ∷ []) ∷ inclusion_verified 1 2 2 ∷ [])
unfolding head included
main_complete_example =
    main_complete toy_log toy_merkle fetchers inclusion_only 1 head refl (inl (0, refl))
      (ground arith) included
