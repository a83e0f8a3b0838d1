-- ===== src/Verify.antt =====
-- cmd/verify/main.go: the command line verifier. The flags are a record, and what `main` prints on
-- the standard output and how it ends is a value. The fetchers of the Tessera client are parameters.
pub mod Laws
pub mod Complete
use tessera_transparency.Base.{
  ℕ, List, [], ◌∷◌, ◌++◌, Option, none, some, Bytes, Result, ok, err, ◌>>=◌, wrap, codes, length,
  bytes_eq, leb, ltb, ◌==◌, if◌then◌else◌, Bool, true, false, ◌&&◌, ◌||◌,
}
use tessera_transparency.Text.Hex
use tessera_transparency.Text.Integer.{ℤ, pos, negsuc}
use tessera_transparency.Log.{Log, Merkle, Checkpoint, Failure}

pub record Flags : Type 0 where
  pub log_dir : Bytes
  pub log_url : Bytes
  pub index : ℤ
  pub leaf_hex : Bytes
  pub from : ℤ
  pub to : ℤ
  pub old_root : Bytes

-- The fetchers of a local directory and of a remote server; a fetcher is the log that it reads.
pub record Fetchers (log : Log) : Type 1 where
  pub Url : Type 0
  pub local : Bytes → log.State
  pub parse_url : Bytes → Result Failure Url
  pub remote : Url → Result Failure log.State

-- What `fatalf` says.
pub data Fault : Type 0 where
  exactly_one leaf_hex_required old_root_required bad_leaf_hex bad_old_root : Fault
  url_failed fetcher_failed checkpoint_unread checkpoint_unparsed : Failure → Fault
  builder_failed proof_failed : Failure → Fault
  index_out_of_range to_exceeds : ℕ → ℕ → Fault
  to_not_current : ℕ → Fault

-- Both ways to stop exit with 1.
pub data Stop : Type 0 where
  fatal : Fault → Stop
  rejected : Failure → Stop

pub data Line : Type 0 where
  local_log remote_log : Bytes → Line
  tree_head : ℕ → Bytes → Line
  inclusion_verified : ℕ → ℕ → ℕ → Line
  consistency_verified : ℕ → ℕ → ℕ → Line
  no_operation : Line

-- The lines printed so far, and what stopped the program.
pub record Run : Type 0 where
  pub lines : List Line
  pub stop : Option Stop

unfoldable pub exit_code : Run → ℕ
exit_code r = elim r.stop [ none ↦ 0 | some s ↦ 1 ]

abbrev pub stopped : Stop → Run
stopped s = record { lines = []; stop = some s }

abbrev pub printed : List Line → Run
printed ls = record { lines = ls; stop = none }

unfoldable pub of_result : Result Stop (List Line) → Run
of_result (ok ls) = printed ls
of_result (err s) = stopped s

-- The first part, and the second one unless the first has stopped.
unfoldable pub and_then : Run → Run → Run
and_then r s = elim r.stop [
  | none ↦ record { lines = r.lines ++ s.lines; stop = s.stop }
  | some e ↦ r
]

unfoldable pub is_nonneg : ℤ → Bool
is_nonneg (pos n) = true
is_nonneg (negsuc n) = false

required : Fault → Fault → Bytes → Result Stop Bytes
required absent bad s =
    if bytes_eq s []
    then err (fatal absent)
    else elim (Hex.decode s) [ some raw ↦ ok raw | none ↦ err (fatal bad) ]

module _ (log : Log) (m : Merkle) (fetchers : Fetchers log) where
  unfoldable pub open_log : Flags → Result Stop (Line × log.State)
  open_log f =
      let both_or_neither = is_same (bytes_eq f.log_dir []) (bytes_eq f.log_url []) in
      if both_or_neither
      then err (fatal exactly_one)
      else if bytes_eq f.log_dir []
      then (wrap (λ e. fatal (url_failed e)) (fetchers.parse_url (f.log_url ++ codes "/")) >>= λ u.
          wrap (λ e. fatal (fetcher_failed e)) (fetchers.remote u) >>= λ st.
          ok (remote_log f.log_url, st))
      else ok (local_log f.log_dir, fetchers.local f.log_dir)
    where
      is_same : Bool → Bool → Bool
      is_same true b = b
      is_same false true = false
      is_same false false = true

  -- The block `if *index >= 0`.
  check_inclusion : Flags → Checkpoint → log.State → ℕ → Result Stop (List Line)
  unfolding required
  check_inclusion f cp st idx = required leaf_hex_required bad_leaf_hex f.leaf_hex >>= λ leaf.
      if leb cp.size idx
      then err (fatal (index_out_of_range idx cp.size))
      else (wrap (λ e. fatal (builder_failed e)) (log.new_proof_builder st cp.size) >>= λ pb.
          wrap (λ e. fatal (proof_failed e)) (log.inclusion_proof st pb idx) >>= λ proof.
          wrap rejected (m.verify_inclusion idx cp.size leaf proof cp.hash) >>= λ _.
          ok (inclusion_verified idx cp.size (length proof) ∷ []))

  -- The block `if *from >= 0 && *to >= 0`.
  check_consistency : Flags → Checkpoint → log.State → ℕ → ℕ → Result Stop (List Line)
  unfolding required
  check_consistency f cp st from to =
      required old_root_required bad_old_root f.old_root >>= λ old_root.
      if ltb cp.size to
      then err (fatal (to_exceeds to cp.size))
      else if to == cp.size
      then (wrap (λ e. fatal (builder_failed e)) (log.new_proof_builder st cp.size) >>= λ pb.
          wrap (λ e. fatal (proof_failed e)) (log.consistency_proof st pb from to) >>= λ proof.
          wrap rejected (m.verify_consistency from to proof old_root cp.hash) >>= λ _.
          ok (consistency_verified from to (length proof) ∷ []))
      else err (fatal (to_not_current cp.size))

  inclusion_part : Flags → Checkpoint → log.State → ℤ → Result Stop (List Line)
  unfolding check_inclusion
  inclusion_part f cp st (pos idx) = check_inclusion f cp st idx
  inclusion_part f cp st (negsuc n) = ok []

  consistency_part : Flags → Checkpoint → log.State → ℤ → ℤ → Result Stop (List Line)
  unfolding check_consistency
  consistency_part f cp st (pos from) (pos to) = check_consistency f cp st from to
  consistency_part f cp st (pos from) (negsuc n) = ok []
  consistency_part f cp st (negsuc n) to = ok []

  hint : Flags → Run
  hint f =
      if is_nonneg f.index || (is_nonneg f.from && is_nonneg f.to)
      then printed []
      else printed (no_operation ∷ [])

  pub checks : Flags → Checkpoint → log.State → Run
  unfolding inclusion_part consistency_part hint
  checks f cp st =
      and_then (of_result (inclusion_part f cp st f.index))
        (and_then (of_result (consistency_part f cp st f.from f.to)) (hint f))

  unfoldable pub read_head : log.State → Result Stop Checkpoint
  read_head st = wrap (λ e. fatal (checkpoint_unread e)) (log.read_checkpoint st) >>= λ raw.
      wrap (λ e. fatal (checkpoint_unparsed e)) (log.unmarshal_checkpoint raw)

  -- Behind the parsing of the checkpoint.
  after_head : Flags → log.State → Result Stop Checkpoint → Run
  unfolding checks
  after_head f st (err s) = stopped s
  after_head f st (ok cp) = and_then (printed (tree_head cp.size cp.hash ∷ [])) (checks f cp st)

  after_open : Flags → Result Stop (Line × log.State) → Run
  unfolding after_head read_head
  after_open f (err s) = stopped s
  after_open f (ok (line, st)) = and_then (printed (line ∷ [])) (after_head f st (read_head st))

  unfoldable pub main : Flags → Run
  unfolding after_open open_log
  main f = after_open f (open_log f)
