-- ===== src/Sprints/KeyFile/Laws.antt =====
-- The key of the checkpoint signer is created once, by any copy of `loadOrGenKey`, and kept.
use tessera_transparency.Base.{
  ◌≡◌, refl, ap, sym, ◌∙◌, [], ◌∷◌, ◌++◌, Option, none, some, Bytes, Result, ok, Option-cases, inl,
  inr, err-ne-ok, ok-injective,
}
use tessera_transparency.Signer.Keys.{SignerError}
use tessera_transparency.Signer.Keys.Laws.{IsWord}
use tessera_transparency.Signer.Lines.{split_lines, newline, IsLine, split_lines_pair}
use tessera_transparency.Signer.Store.{Os, key_text}
use tessera_transparency.Signer.Store.Laws.{IsLawful}
use tessera_transparency.Sprints.Split.{filled_lines_by, dir_of}
use tessera_transparency.Sprints.Split.Laws.{filled_lines_by_lem, filled_lines_pair}
use tessera_transparency.Sprints.KeyFile.{
  Lines, first_lines, after_write, after_mkdir, after_generate, load_or_gen_key, load_or_gen_key_3,
  load_or_gen_key_4,
}

-- A splitter reads two lines that were written as two lines.
abbrev SplitsPairs : Lines → Type 0
SplitsPairs lines =
    (l m : Bytes) → IsLine l → IsLine m → lines (l ++ newline ∷ (m ++ newline ∷ [])) ≡ l ∷ m ∷ []

module _ (os : Os) (lawful : IsLawful os) (lines : Lines) (splits : SplitsPairs lines)
    (dir : Bytes → Bytes) where
  first_lines-key_text :
      (skey vkey : Bytes)
      → IsLine skey
      → IsLine vkey
      → first_lines lines (some (key_text skey vkey)) ≡ some (skey, vkey)
  unfolding first_lines
  first_lines-key_text skey vkey hs hv = rw (splits skey vkey hs hv, first_lines)

  after_write-read :
      (path skey vkey : Bytes) (w : os.State × Option (Unit {0})) (st' : os.State)
      (keys : Bytes × Bytes)
      → ((st : os.State) → w ≡ (st, some tt) → os.read_file st path ≡ some (key_text skey vkey))
      → IsLine skey
      → IsLine vkey
      → after_write os lines dir (skey, vkey) w ≡ (st', ok keys)
      → first_lines lines (os.read_file st' path) ≡ some keys
  unfolding after_write
  after_write-read path skey vkey (st, none) st' keys reads hs hv e =
      absurd (err-ne-ok (ap (λ p. p.1) e))
  after_write-read path skey vkey (st, some u) st' keys reads hs hv e =
      ap (λ t. first_lines lines (os.read_file t path)) (sym (ap (λ p. p.0) e))
      ∙ ap (first_lines lines) (reads st refl)
      ∙ first_lines-key_text skey vkey hs hv
      ∙ ap (λ k. some k) (ok-injective (ap (λ p. p.1) e))

  after_mkdir-read :
      (path skey vkey : Bytes) (d : os.State × Option (Unit {0})) (st' : os.State)
      (keys : Bytes × Bytes)
      → IsLine skey
      → IsLine vkey
      → after_mkdir os lines dir path (skey, vkey) d ≡ (st', ok keys)
      → first_lines lines (os.read_file st' path) ≡ some keys
  unfolding after_mkdir
  after_mkdir-read path skey vkey (st, none) st' keys hs hv e = absurd (err-ne-ok (ap (λ p. p.1) e))
  after_mkdir-read path skey vkey (st, some u) st' keys hs hv e =
      after_write-read path skey vkey (os.write_file st path (key_text skey vkey)) st' keys
        (λ t w. lawful.read-write st t path (key_text skey vkey) w) hs hv e

  after_generate-read :
      (path : Bytes) (g : os.State × Option (Bytes × Bytes)) (st' : os.State) (keys : Bytes × Bytes)
      → ((st : os.State) (skey vkey : Bytes)
          → g ≡ (st, some (skey, vkey))
          → IsLine skey × IsLine vkey)
      → after_generate os lines dir path g ≡ (st', ok keys)
      → first_lines lines (os.read_file st' path) ≡ some keys
  unfolding after_generate
  after_generate-read path (st, none) st' keys made e = absurd (err-ne-ok (ap (λ p. p.1) e))
  after_generate-read path (st, some (skey, vkey)) st' keys made e =
      let (hs, hv) = made st skey vkey refl in
      after_mkdir-read path skey vkey (os.mkdir_all st (dir path)) st' keys hs hv e

  -- After a successful call the file holds the pair that was returned.
  first_lines-load_or_gen_key :
      (path name : Bytes) (st st' : os.State) (keys : Bytes × Bytes)
      → IsWord name
      → load_or_gen_key os lines dir path name st ≡ (st', ok keys)
      → first_lines lines (os.read_file st' path) ≡ some keys
  unfolding load_or_gen_key
  first_lines-load_or_gen_key path name st st' keys word e =
      elim (Option-cases (first_lines lines (os.read_file st path))) [
        | inl missing ↦
            after_generate-read path (os.generate_key st name) st' keys
              (λ t skey vkey g. lawful.generated_lines st t name skey vkey word g)
              (rw (missing, load_or_gen_key) at e)
        | inr (found, loaded) ↦
            let at_hand : ◌≡◌ {A = os.State × Result SignerError (Bytes × Bytes)} (st, ok found)
                (st', ok keys) =
              rw (loaded, load_or_gen_key) at e in
            ap (λ t. first_lines lines (os.read_file t path)) (sym (ap (λ p. p.0) at_hand))
            ∙ loaded
            ∙ ap (λ k. some k) (ok-injective (ap (λ p. p.1) at_hand))
      ]

  load_or_gen_key_again :
      (path name name' : Bytes) (st st' : os.State) (keys : Bytes × Bytes)
      → IsWord name
      → load_or_gen_key os lines dir path name st ≡ (st', ok keys)
      → load_or_gen_key os lines dir path name' st' ≡ (st', ok keys)
  unfolding load_or_gen_key
  load_or_gen_key_again path name name' st st' keys word e =
      rw (first_lines-load_or_gen_key path name st st' keys word e, load_or_gen_key)

filled_lines_by_pair : SplitsPairs filled_lines_by
filled_lines_by_pair l m hl hm =
    filled_lines_by_lem (l ++ newline ∷ (m ++ newline ∷ [])) ∙ filled_lines_pair l m hl hm

module _ (os : Os) (lawful : IsLawful os) where
  -- A pair of keys that `loadOrGenKey` of cmd/sprint3 returned is returned again by every later
  -- call for the path, whatever name it gives, and nothing is changed by it. The name of the first
  -- call is made of ASCII characters that are no blanks or plus signs, a key that is generated for
  -- such a name is a line of text, and a file that was written is read back.
  pub load_or_gen_key_3_again :
      (path name name' : Bytes) (st st' : os.State) (keys : Bytes × Bytes)
      → IsWord name
      → load_or_gen_key_3 os path name st ≡ (st', ok keys)
      → load_or_gen_key_3 os path name' st' ≡ (st', ok keys)
  unfolding load_or_gen_key_3
  load_or_gen_key_3_again =
      load_or_gen_key_again os lawful filled_lines_by filled_lines_by_pair dir_of

module _ (os : Os) (lawful : IsLawful os) (file_dir : Bytes → Bytes) where
  -- A pair of keys that `loadOrGenKey` of cmd/sprint4 returned is returned again by every later
  -- call for the path, whatever name it gives, and nothing is changed by it. The name of the first
  -- call is made of ASCII characters that are no blanks or plus signs, a key that is generated for
  -- such a name is a line of text, and a file that was written is read back.
  pub load_or_gen_key_4_again :
      (path name name' : Bytes) (st st' : os.State) (keys : Bytes × Bytes)
      → IsWord name
      → load_or_gen_key_4 os file_dir path name st ≡ (st', ok keys)
      → load_or_gen_key_4 os file_dir path name' st' ≡ (st', ok keys)
  unfolding load_or_gen_key_4
  load_or_gen_key_4_again = load_or_gen_key_again os lawful split_lines split_lines_pair file_dir
