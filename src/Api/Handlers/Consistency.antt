-- ===== src/Api/Handlers/Consistency.antt =====
-- `handleConsistency`: which ranges it serves, and the root that it answers with.
use tessera_transparency.Base.{
  ℕ, ◌≤◌, ◌<◌, ◌≡◌, ◌≢◌, List, arith, Bytes, Result, ok, err, codes, leb, ltb, Result-cases,
  Bool-cases, inl, inr,
}
use tessera_transparency.Log.{Log, Merkle, Checkpoint}
use tessera_transparency.Api.Response.{Request, Response, Message, ok_status, write_json}
use tessera_transparency.Api.Handlers.{
  read_cp, parse_uint, both, range_of, handle_consistency, consistency_response, hex_slice,
}

both-status : (a b : Result Message ℕ) (e : Response) → both a b ≡ err e → e.status ≢ ok_status
unfolding both
both-status (ok x) (ok y) e bad h = cc
both-status (ok x) (err e') e bad h = ground arith
both-status (err e') b e bad h = ground arith

module _ (log : Log) (m : Merkle) where
  -- What a served request has been given.
  pub record IsServed (r : Request) (st : log.State) : Type 0 where
    pub from : ℕ
    pub to : ℕ
    pub cp : Checkpoint
    pub builder : log.Builder
    pub proof : List Bytes
    pub from_parsed : parse_uint r (codes "from") ≡ ok from
    pub to_parsed : parse_uint r (codes "to") ≡ ok to
    pub increasing : from < to
    pub checkpoint_read : read_cp log m st ≡ ok cp
    pub covered : to ≤ cp.size
    pub built : log.new_proof_builder st cp.size ≡ ok builder
    pub proved : log.consistency_proof st builder from to ≡ ok proof
    pub answer :
        handle_consistency log m r st
        ≡ write_json (consistency_response from to cp.hash (hex_slice proof))

  both_ok : (a b : Result Message ℕ) (p : ℕ × ℕ) → both a b ≡ ok p → (a ≡ ok p.0) × (b ≡ ok p.1)
  unfolding both
  both_ok (ok x) (ok y) p e = ground arith
  both_ok (ok x) (err e') p e = cc
  both_ok (err e') b p e = cc

  range_of-status : (r : Request) (e : Response) → range_of r ≡ err e → e.status ≢ ok_status
  unfolding range_of
  range_of-status r e bad =
      both-status (parse_uint r (codes "from")) (parse_uint r (codes "to")) e bad

  -- A request is answered with 200 only for two numbers in increasing order that the current
  -- checkpoint covers. The answer then holds the two numbers, the proof between them that the log
  -- gave, and the root hash of the current checkpoint, whatever the second number is.
  pub handle_consistency-IsServed :
      (r : Request) (st : log.State)
      → (handle_consistency log m r st).status ≡ ok_status
      → IsServed r st
  unfolding handle_consistency range_of
  handle_consistency-IsServed r st h = elim (Result-cases (range_of r)) [
    | inr (e, bad) ↦ absurd (range_of-status r e bad (rw (bad, handle_consistency) at h))
    | inl ((from, to), parsed) ↦ elim (Bool-cases (leb to from)) [
      | inl reversed ↦ absurd (ground arith)
      | inr rising ↦ elim (Result-cases (read_cp log m st)) [
        | inr (e, unread) ↦ absurd (ground arith)
        | inl (cp, read) ↦ elim (Bool-cases (ltb cp.size to)) [
          | inl beyond ↦ absurd (ground arith)
          | inr inside ↦ elim (Result-cases (log.new_proof_builder st cp.size)) [
            | inr (e, unbuilt) ↦ absurd (ground arith)
            | inl (pb, built) ↦ elim (Result-cases (log.consistency_proof st pb from to)) [
              | inr (e, unproved) ↦ absurd (ground arith)
              | inl (proof, proved) ↦ record {
                from = from;
                to = to;
                cp = cp;
                builder = pb;
                proof = proof;
                from_parsed = (both_ok _ _ (from, to) parsed).0;
                to_parsed = (both_ok _ _ (from, to) parsed).1;
                increasing = ground arith;
                checkpoint_read = read;
                covered = ground arith;
                built = built;
                proved = proved;
                answer = ground arith;
              }
            ]
          ]
        ]
      ]
    ]
  ]
