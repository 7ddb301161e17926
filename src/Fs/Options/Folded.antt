-- ===== src/Fs/Options/Folded.antt =====
-- What the loop of `parse_arguments` of cloudfs/main.c makes of options that it knows and whose
-- arguments fit.
use cloudfs.Base.{ℕ, ◌≡◌, refl, arith, ap, ◌∙◌, Bool, true, false, ◌==◌, ltb, ◌||◌, if◌then◌else◌}
use cloudfs.Base.{List, [], ◌∷◌, ◌++◌, length, All}
use cloudfs.Fs.Options.{
  CloudfsState, Parsed, unknown_option, overrun, parsed, copied, apply_option, apply_options,
}

-- An option of the table, of which -s, -f and -h have arguments that fit into their arrays.
abbrev pub accepts : ℕ → List ℕ → Bool
accepts c optarg =
    if c == b's' || c == b'f'
    then ltb (length optarg) 4096
    else if c == b'h'
    then ltb (length optarg) 1024
    else c == b'a' || c == b't' || c == b'd' || c == b'S' || c == b'w'

abbrev pub Accepted : List (ℕ × List ℕ) → Type 0
Accepted = All (λ option. accepts option.0 option.1 ≡ true)

-- A letter that is none of the table's.
abbrev pub is_unknown : ℕ → Bool
is_unknown c =
    if c == b's'
      || c == b'f'
      || c == b'h'
      || c == b'a'
      || c == b't'
      || c == b'd'
      || c == b'S'
      || c == b'w'
    then false
    else true

-- The argument of the last option with this letter, or `text` if there is none.
abbrev pub last_given : ℕ → List (ℕ × List ℕ) → List ℕ → List ℕ
last_given letter [] text = text
last_given letter ((c, optarg) ∷ options) text =
    last_given letter options (if c == letter then optarg else text)

module _ (atoi : List ℕ → ℕ) where
  module _ (c : ℕ) (optarg : List ℕ) (st : CloudfsState) where
    known : accepts c optarg ≡ true → apply_option atoi c optarg st ≡ unknown_option → ⊥
    unfolding apply_option copied
    known h e = ground arith

    fitting : accepts c optarg ≡ true → apply_option atoi c optarg st ≡ overrun → ⊥
    unfolding apply_option copied
    fitting h e = ground arith

    taken-ssd_path :
        {st' : CloudfsState}
        → apply_option atoi c optarg st ≡ parsed st'
        → st'.ssd_path ≡ (if c == b's' then optarg else st.ssd_path)
    unfolding apply_option copied
    taken-ssd_path e = ground arith

    taken-fuse_path :
        {st' : CloudfsState}
        → apply_option atoi c optarg st ≡ parsed st'
        → st'.fuse_path ≡ (if c == b'f' then optarg else st.fuse_path)
    unfolding apply_option copied
    taken-fuse_path e = ground arith

    taken-metadata_path :
        {st' : CloudfsState}
        → apply_option atoi c optarg st ≡ parsed st'
        → st'.metadata_path ≡ st.metadata_path
    unfolding apply_option copied
    taken-metadata_path e = ground arith

    refused : is_unknown c ≡ true → apply_option atoi c optarg st ≡ unknown_option
    unfolding apply_option copied
    refused u = ground arith

    after :
        (p : Parsed)
        → accepts c optarg ≡ true
        → apply_option atoi c optarg st ≡ p
        → (st' : CloudfsState) × (apply_option atoi c optarg st ≡ parsed st')
          × (st'.ssd_path ≡ (if c == b's' then optarg else st.ssd_path))
          × (st'.fuse_path ≡ (if c == b'f' then optarg else st.fuse_path))
          × (st'.metadata_path ≡ st.metadata_path)
    after unknown_option h e = absurd (known h e)
    after overrun h e = absurd (fitting h e)
    after (parsed st') h e = (st', e, taken-ssd_path e, taken-fuse_path e, taken-metadata_path e)

  going_on :
      (c : ℕ) (optarg : List ℕ) (options : List (ℕ × List ℕ)) (st st' : CloudfsState)
      → apply_option atoi c optarg st ≡ parsed st'
      → apply_options atoi ((c, optarg) ∷ options) st ≡ apply_options atoi options st'
  unfolding apply_options
  going_on c optarg options st st' e = rw e refl

  stopping :
      (c : ℕ) (optarg : List ℕ) (options : List (ℕ × List ℕ)) (st : CloudfsState)
      → apply_option atoi c optarg st ≡ unknown_option
      → apply_options atoi ((c, optarg) ∷ options) st ≡ unknown_option
  unfolding apply_options
  stopping c optarg options st e = rw e refl

  -- Where the options leave the paths.
  pub apply_options_lem :
      (options : List (ℕ × List ℕ)) (st : CloudfsState)
      → Accepted options
      → (st' : CloudfsState) × (apply_options atoi options st ≡ parsed st')
        × (st'.ssd_path ≡ last_given b's' options st.ssd_path)
        × (st'.fuse_path ≡ last_given b'f' options st.fuse_path)
        × (st'.metadata_path ≡ st.metadata_path)
  unfolding apply_options
  apply_options_lem [] st h = (st, refl, refl, refl, refl)
  apply_options_lem ((c, optarg) ∷ options) st h =
      let (st1, e1, ssd1, fuse1, metadata1) =
        after c optarg st (apply_option atoi c optarg st) h.0 refl in
      let (st2, e2, ssd2, fuse2, metadata2) = apply_options_lem options st1 h.1 in
      (
        st2,
        going_on c optarg options st st1 e1 ∙ e2,
        ssd2 ∙ ap (last_given b's' options) ssd1,
        fuse2 ∙ ap (last_given b'f' options) fuse1,
        metadata2 ∙ metadata1,
      )

  pub apply_options_unknown :
      (options : List (ℕ × List ℕ)) (c : ℕ) (optarg : List ℕ) (more : List (ℕ × List ℕ))
      (st : CloudfsState)
      → Accepted options
      → is_unknown c ≡ true
      → apply_options atoi (options ++ ((c, optarg) ∷ more)) st ≡ unknown_option
  unfolding apply_options
  apply_options_unknown [] c optarg more st h u = stopping c optarg more st (refused c optarg st u)
  apply_options_unknown ((c', optarg') ∷ options) c optarg more st h u =
      let (st1, e1, ssd1, fuse1, metadata1) =
        after c' optarg' st (apply_option atoi c' optarg' st) h.0 refl in
      going_on c' optarg' (options ++ ((c, optarg) ∷ more)) st st1 e1
      ∙ apply_options_unknown options c optarg more st1 h.1 u
