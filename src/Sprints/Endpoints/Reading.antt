-- ===== src/Sprints/Endpoints/Reading.antt =====
-- What `main` of cmd/sprint3 has read from the maps that `doSubmit` and `doGet` return.
use tessera_transparency.Base.{
  ℕ, ◌≡◌, refl, ap, sym, ◌∙◌, Option, none, some, Bytes, ok, ◌>>=◌, bind_ok, ok-injective,
  err-ne-ok, Bool-cases, inl, inr, codes, wrap, [], ◌==◌, ==_iff, wrap_ok, ltb, length,
  Option-cases,
}
use mathlib.Core.Path.{subst}
use tessera_transparency.Text.Hex
use tessera_transparency.Json.Value.{Value, Members, null, boolean, number, string, array, object}
use tessera_transparency.Base.Programs.{Program, continue, lift, continue_ok, lift_ok, call_ok}
use tessera_transparency.Api.Response.{Request}
use tessera_transparency.Api.Handlers.Submit.{submit_body}
use tessera_transparency.Log.{Log, Merkle, Failure, hash_leaf}
use tessera_transparency.Sprints.Endpoints.{
  bad_json, Answer, Numbers, decode_map, accept, get, as_text, as_uint, long_text, fatal,
  post_request, get_request, do_submit, do_get,
}
use tessera_transparency.Sprints.Endpoints.Steps.{
  Entry, host_entry, build_entry, old_head, tree_head,
}

-- The member is this text.
abbrev pub IsText : Members → Bytes → Bytes → Type 0
IsText ms name s = get name ms ≡ some (string s)

-- The member is the hexadecimal text of these bytes, up to its first bad pair.
abbrev pub IsHex : Members → Bytes → Bytes → Type 0
IsHex ms name b = (s : Bytes) × IsText ms name s × (b ≡ Hex.decode_front s)

-- The member is a number with this whole part.
abbrev pub IsNumber : Numbers → Members → Bytes → ℕ → Type 0
IsNumber nm ms name k =
    (n : Bytes) × (f : nm.Float) × (get name ms ≡ some (number n))
    × (nm.parse_float n ≡ some f)
    × (nm.to_uint f ≡ k)

as_text_sound : (v : Option Value) (s : Bytes) → as_text v ≡ ok s → v ≡ some (string s)
unfolding as_text
as_text_sound none s h = absurd (err-ne-ok h)
as_text_sound (some null) s h = absurd (err-ne-ok h)
as_text_sound (some (boolean b)) s h = absurd (err-ne-ok h)
as_text_sound (some (number n)) s h = absurd (err-ne-ok h)
as_text_sound (some (string t)) s h = ap (λ x. some (string x)) (ok-injective h)
as_text_sound (some (array vs)) s h = absurd (err-ne-ok h)
as_text_sound (some (object ms)) s h = absurd (err-ne-ok h)

pub long_text_sound : (v : Option Value) (s : Bytes) → long_text v ≡ ok s → v ≡ some (string s)
unfolding long_text
long_text_sound v s h =
    let (t, read, h1) = bind_ok (as_text v) _ h in
    elim (Bool-cases (ltb (length t) 16)) [
      | inl short ↦ absurd (err-ne-ok (rw short at h1))
      | inr long ↦ as_text_sound v s (read ∙ (rw long at h1))
    ]

module _ (nm : Numbers) where
  as_uint_sound :
      (v : Option Value) (k : ℕ)
      → as_uint nm v ≡ ok k
      → (n : Bytes) × (f : nm.Float) × (v ≡ some (number n))
        × (nm.parse_float n ≡ some f)
        × (nm.to_uint f ≡ k)
  unfolding as_uint
  as_uint_sound none k h = absurd (err-ne-ok h)
  as_uint_sound (some null) k h = absurd (err-ne-ok h)
  as_uint_sound (some (boolean b)) k h = absurd (err-ne-ok h)
  as_uint_sound (some (number n)) k h = elim (Option-cases (nm.parse_float n)) [
    | inl bad ↦ absurd (err-ne-ok (rw (bad, as_uint) at h))
    | inr (f, parsed) ↦ (n, f, refl, parsed, ok-injective (rw (parsed, as_uint) at h))
  ]
  as_uint_sound (some (string t)) k h = absurd (err-ne-ok h)
  as_uint_sound (some (array vs)) k h = absurd (err-ne-ok h)
  as_uint_sound (some (object ms)) k h = absurd (err-ne-ok h)

  -- An answer with 200, whose body is decoded to this map.
  pub accept_sound :
      (a : Answer) (ms : Members)
      → accept nm a ≡ ok ms
      → (a.status ≡ 200) × (decode_map nm a.body ≡ ok ms)
  unfolding accept
  accept_sound a ms h = elim (Bool-cases (a.status == 200)) [
    | inl good ↦ ((==_iff _ _).0 good, wrap_ok bad_json (decode_map nm a.body) (rw good at h))
    | inr bad ↦ absurd (err-ne-ok (rw bad at h))
  ]

  -- The first token is looked up at the index and with the leaf hash of the answer.
  pub host_entry_sound :
      (ms : Members) (e : Entry)
      → host_entry nm ms ≡ ok e
      → IsNumber nm ms (codes "index") e.index × IsHex ms (codes "leaf_hash") e.leaf_hash
  unfolding host_entry
  host_entry_sound ms e h =
      let (leaf, text, h1) = bind_ok (long_text (get (codes "leaf_hash") ms)) _ h in
      let (index, found, h2) = bind_ok (as_uint nm (get (codes "index") ms)) _ h1 in
      let same = ok-injective h2 in
      (
        subst (λ (x : Entry). IsNumber nm ms (codes "index") x.index) same
            (as_uint_sound (get (codes "index") ms) index found),
        (
          leaf,
          long_text_sound (get (codes "leaf_hash") ms) leaf text,
          ap (λ (x : Entry). x.leaf_hash) (sym same),
        ),
      )

  -- The second one is looked up at the index of the answer and with its own leaf hash.
  pub build_entry_sound :
      (m : Merkle) (token : Bytes) (ms : Members) (e : Entry)
      → build_entry nm m token ms ≡ ok e
      → IsNumber nm ms (codes "index") e.index × (e.leaf_hash ≡ hash_leaf m token)
  unfolding build_entry
  build_entry_sound m token ms e h =
      let (index, found, h1) = bind_ok (as_uint nm (get (codes "index") ms)) _ h in
      let same = ok-injective h1 in
      (
        subst (λ (x : Entry). IsNumber nm ms (codes "index") x.index) same
            (as_uint_sound (get (codes "index") ms) index found),
        ap (λ (x : Entry). x.leaf_hash) (sym same),
      )

  -- A size and a root, of a map that has them under these names.
  abbrev pub IsHead : Members → Bytes → ℕ × Bytes → Type 0
  IsHead ms size head = IsNumber nm ms size head.0 × IsHex ms (codes "root") head.1

  pub old_head_sound :
      (ms : Members) (head : ℕ × Bytes)
      → old_head nm ms ≡ ok head
      → IsHead ms (codes "tree_size") head
  unfolding old_head
  old_head_sound ms head h =
      let (root, text, h1) = bind_ok (as_text (get (codes "root") ms)) _ h in
      let (size, found, h2) = bind_ok (as_uint nm (get (codes "tree_size") ms)) _ h1 in
      subst (IsHead ms (codes "tree_size")) (ok-injective h2) (
        as_uint_sound (get (codes "tree_size") ms) size found,
        (root, as_text_sound (get (codes "root") ms) root text, refl),
      )

  pub IsHead-sound :
      (ms : Members) (head : ℕ × Bytes)
      → (as_uint nm (get (codes "size") ms) >>= λ size.
          long_text (get (codes "root") ms) >>= λ root. ok (size, Hex.decode_front root))
        ≡ ok head
      → IsHead ms (codes "size") head
  IsHead-sound ms head h =
      let (size, found, h1) = bind_ok (as_uint nm (get (codes "size") ms)) _ h in
      let (root, text, h2) = bind_ok (long_text (get (codes "root") ms)) _ h1 in
      subst (IsHead ms (codes "size")) (ok-injective h2) (
        as_uint_sound (get (codes "size") ms) size found,
        (root, long_text_sound (get (codes "root") ms) root text, refl),
      )

module _ (log : Log) (nm : Numbers) (http : Request → Program log.State Failure Answer) where
  -- The request was answered with 200 and this map.
  abbrev pub IsAnswered : Request → log.State → log.State → Members → Type 0
  IsAnswered r st st' ms =
      (a : Answer) × (http r st ≡ (st', ok a)) × (a.status ≡ 200) × (decode_map nm a.body ≡ ok ms)

  IsAnswered-sound :
      (r : Request) (st st' : log.State) (ms : Members)
      → continue ((http r st).0, wrap fatal (http r st).1) (λ a. lift (accept nm a)) ≡ (st', ok ms)
      → IsAnswered r st st' ms
  IsAnswered-sound r st st' ms h =
      let one = http r st in
      let (a, sent, h1) = continue_ok (one.0, wrap fatal one.1) _ h in
      let (accepted, same) = lift_ok (accept nm a) h1 in
      let (status, decoded) = accept_sound nm a ms accepted in
      (a, subst (λ y. one ≡ (y, ok a)) same (call_ok fatal one sent), status, decoded)

  pub do_submit_sound :
      (token : Bytes) (st st' : log.State) (ms : Members)
      → do_submit log nm http token st ≡ (st', ok ms)
      → IsAnswered (post_request (codes "/token/submit") (submit_body token)) st st' ms
  unfolding do_submit
  do_submit_sound token st st' ms h = IsAnswered-sound _ st st' ms h

  pub tree_head_sound :
      (m : Merkle) (st st' : log.State) (head : ℕ × Bytes)
      → tree_head log m nm http st ≡ (st', ok head)
      → (ms : Members) × IsAnswered (get_request (codes "/log/sth") []) st st' ms
        × IsHead nm ms (codes "size") head
  unfolding tree_head do_get
  tree_head_sound m st st' head h =
      let r = get_request (codes "/log/sth") [] in
      let one = do_get log nm http r st in
      let (ms, got, h1) = continue_ok one _ h in
      let (read, same) = lift_ok _ h1 in
      (
        ms,
        IsAnswered-sound r st st' ms (subst (λ y. one ≡ (y, ok ms)) same got),
        IsHead-sound nm ms head read,
      )
