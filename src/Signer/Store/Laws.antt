-- ===== src/Signer/Store/Laws.antt =====
-- One key for all runs: what `New` saved, it loads.
use tessera_transparency.Base.{
  ◌≡◌, refl, ap, ◌∙◌, Option, none, some, Bytes, Result, ok, Option-cases, inl, inr, err-ne-ok,
  ok-injective,
}
use tessera_transparency.Signer.Lines.{IsLine, split_lines_pair}
use tessera_transparency.Signer.Keys.Laws.{IsWord}
use tessera_transparency.Signer.Keys.{Ed25519, Signer, SignerError, from_note_strings}
use tessera_transparency.Signer.Store.{
  Os, key_file_name, key_text, from_lines, load, after_write, after_mkdir, after_generate, new,
}

-- What the operating system and the key generator promise: a file that was written is read back,
-- and a key that was generated for a name without blanks and plus signs is a line of text.
pub record IsLawful (os : Os) : Type 0 where
  pub read-write :
      (st st' : os.State) (path text : Bytes)
      → os.write_file st path text ≡ (st', some tt)
      → os.read_file st' path ≡ some text
  pub generated_lines :
      (st st' : os.State) (name skey vkey : Bytes)
      → IsWord name
      → os.generate_key st name ≡ (st', some (skey, vkey))
      → IsLine skey × IsLine vkey

module _ (c : Ed25519) (os : Os) (lawful : IsLawful os) where
  -- The pair that a run saved is the pair that the next run loads.
  load-key_text :
      (skey vkey : Bytes) (s : Signer)
      → IsLine skey
      → IsLine vkey
      → from_note_strings c skey vkey ≡ ok s
      → load c (some (key_text skey vkey)) ≡ some s
  unfolding load
  load-key_text skey vkey s hs hv e = rw (split_lines_pair skey vkey hs hv, from_lines, e)

  after_write-load :
      (path skey vkey : Bytes) (w : os.State × Option (Unit {0})) (st' : os.State) (s : Signer)
      → ((st : os.State) → w ≡ (st, some tt) → os.read_file st path ≡ some (key_text skey vkey))
      → IsLine skey
      → IsLine vkey
      → after_write c os skey vkey w ≡ (st', ok s)
      → load c (os.read_file st' path) ≡ some s
  unfolding after_write
  after_write-load path skey vkey (st, none) st' s reads hs hv e = cc
  after_write-load path skey vkey (st, some u) st' s reads hs hv e =
      let same : st ≡ st' = ap (λ p. p.0) e in
      let parsed : from_note_strings c skey vkey ≡ ok s = ap (λ p. p.1) e in
      rw (← same) (rw (reads st refl) (load-key_text skey vkey s hs hv parsed))

  after_mkdir-load :
      (path skey vkey : Bytes) (m : os.State × Option (Unit {0})) (st' : os.State) (s : Signer)
      → IsLine skey
      → IsLine vkey
      → after_mkdir c os path skey vkey m ≡ (st', ok s)
      → load c (os.read_file st' path) ≡ some s
  unfolding after_mkdir
  after_mkdir-load path skey vkey (st, none) st' s hs hv e = absurd (err-ne-ok (ap (λ p. p.1) e))
  after_mkdir-load path skey vkey (st, some u) st' s hs hv e =
      after_write-load path skey vkey (os.write_file st path (key_text skey vkey)) st' s
        (λ t w. lawful.read-write st t path (key_text skey vkey) w) hs hv e

  after_generate-load :
      (dir path : Bytes) (g : os.State × Option (Bytes × Bytes)) (st' : os.State) (s : Signer)
      → ((st : os.State) (skey vkey : Bytes)
          → g ≡ (st, some (skey, vkey))
          → IsLine skey × IsLine vkey)
      → after_generate c os dir path g ≡ (st', ok s)
      → load c (os.read_file st' path) ≡ some s
  unfolding after_generate
  after_generate-load dir path (st, none) st' s lines e = absurd (err-ne-ok (ap (λ p. p.1) e))
  after_generate-load dir path (st, some (skey, vkey)) st' s lines e =
      let (hs, hv) = lines st skey vkey refl in
      after_mkdir-load path skey vkey (os.mkdir_all st dir) st' s hs hv e

  -- After a successful `New` the key file holds the signer that it returned.
  load-new :
      (dir name : Bytes) (st st' : os.State) (s : Signer)
      → IsWord name
      → new c os dir name st ≡ (st', ok s)
      → load c (os.read_file st' (os.join dir key_file_name)) ≡ some s
  unfolding new
  load-new dir name st st' s word e =
      let path = os.join dir key_file_name in
      elim (Option-cases (load c (os.read_file st path))) [
        | inl missing ↦
            after_generate-load dir path (os.generate_key st name) st' s
              (λ t skey vkey g. lawful.generated_lines st t name skey vkey word g)
              (rw (missing, new) at e)
        | inr (found, loaded) ↦
            let at_hand : ◌≡◌ {A = os.State × Result SignerError Signer} (st, ok found)
                (st', ok s) =
              rw (loaded, new) at e in
            let same : st ≡ st' = ap (λ p. p.0) at_hand in
            let equal : found ≡ s = ok-injective (ap (λ p. p.1) at_hand) in
            rw (← same) (loaded ∙ ap (λ x. some x) equal)
      ]

  -- Whatever name a later run gives, `New` returns the signer that an earlier run returned for the
  -- directory, and changes nothing: the key is created once and kept. The name of the earlier run is
  -- made of ASCII characters that are no blanks or plus signs, a key that is generated for such a name
  -- is a line of text, and a file that was written is read back.
  pub new-new :
      (dir name name' : Bytes) (st st' : os.State) (s : Signer)
      → IsWord name
      → new c os dir name st ≡ (st', ok s)
      → new c os dir name' st' ≡ (st', ok s)
  unfolding new
  new-new dir name name' st st' s word e = rw (load-new dir name st st' s word e, new)
