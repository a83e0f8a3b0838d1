-- ===== src/Tests/Batches.antt =====
-- The runs of cmd/sprint1 and cmd/sprint1b over a log that rejects a forged root.
use tessera_transparency.Base.{
  ℕ, ap, sym, ok-injective, ◌≡◌, refl, [], ◌∷◌, ◌++◌, ok, err, codes, length, bytes_eq,
  if◌then◌else◌,
}
use tessera_transparency.Log.{Merkle, Appender}
use tessera_transparency.Log.Indexes.{IsSequential}
use tessera_transparency.Sprints.TwoBatches.{main}
use tessera_transparency.Sprints.TwoBatches.Laws.{IsComplete, main-IsComplete}
use tessera_transparency.Sprints.FirstLeaf
use tessera_transparency.Sprints.FirstLeaf.{leaf_data}
use tessera_transparency.Sprints.FirstLeaf.Laws.{IsProved, main-IsProved}
use tessera_transparency.Tests.Instances.{toy_log, toy_merkle}

-- A future is the index that its entry was given; a checkpoint is the size of the log.
abbrev toy_appender : Appender toy_log
toy_appender = record {
  Future = ℕ;
  add = λ st e. (st ++ e ∷ [], length st);
  await = λ st f. (st, ok (f, length st ∷ []));
  shutdown = λ st. (st, ok tt);
}

toy_appender-IsSequential : IsSequential toy_log toy_appender
toy_appender-IsSequential = record {
  entries = λ st. st;
  index = λ f. f;
  entries-add = λ st e. refl;
  index-add = λ st e. refl;
  entries-await = λ st f. refl;
  await_index = λ st f idx raw h. ap (λ p. p.0) (ok-injective (sym h));
}

-- The root of a tree is its size; a consistency proof is checked against both.
abbrev strict : Merkle
strict = record toy_merkle {
  verify_consistency =
      λ from to proof old new. if bytes_eq old (from ∷ []) then ok tt else err (codes "wrong root");
}

completed : main toy_log strict toy_appender [] ≡ ok tt
unfolding main
completed = refl

main-IsComplete_example : IsComplete toy_log strict toy_appender toy_appender-IsSequential []
main-IsComplete_example =
    main-IsComplete toy_log strict toy_appender toy_appender-IsSequential [] completed

-- A leaf hash is the leaf behind its prefix, and only that of the first leaf is in the tree.
abbrev exact : Merkle
exact = record toy_merkle {
  sha256 = λ s. s;
  verify_inclusion = λ idx size leaf proof root.
      if bytes_eq leaf (0 ∷ leaf_data) then ok tt else err (codes "wrong leaf");
}

proved : FirstLeaf.main toy_log exact toy_appender.shutdown [] ≡ ok tt
unfolding FirstLeaf.main
proved = refl

main-IsProved_example : IsProved toy_log exact toy_appender.shutdown []
main-IsProved_example = main-IsProved toy_log exact toy_appender.shutdown [] proved
