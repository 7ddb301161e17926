-- ===== src/Rabin/Example/Options.antt =====
-- What the options of dedup-lib/rabin-example.c set.
use cloudfs.Base.{ℕ, ◌≡◌, ◌<◌, ◌^◌, refl, ◌∙◌, arith, ◌==◌, ◌&&◌, ◌||◌, if◌then◌else◌}
use cloudfs.Base.{Bool, true, false, Bool-cases, inl, inr, none, some, List, [], ◌∷◌, take}
use cloudfs.Rabin.Example.{Settings, default_settings, take_option, take_options}

-- The letters that the usage text gives.
abbrev pub is_letter : ℕ → Bool
is_letter c = c == b'f' || c == b'w' || c == b'a' || c == b'i' || c == b'x'

abbrev pub all_known : List (ℕ × List ℕ) → Bool
all_known [] = true
all_known ((c, optarg) ∷ options) = is_letter c && all_known options

-- What is read from the argument of the last option with this letter, or `a` if there is none.
abbrev pub last_of : {A : Type 0} → (List ℕ → A) → ℕ → List (ℕ × List ℕ) → A → A
last_of read letter [] a = a
last_of read letter ((c, optarg) ∷ options) a =
    last_of read letter options (if c == letter then read optarg else a)

last_of_below :
    (read : List ℕ → ℕ) (letter bound : ℕ) (options : List (ℕ × List ℕ)) (n : ℕ)
    → ((text : List ℕ) → read text < bound)
    → n < bound
    → last_of read letter options n < bound
last_of_below read letter bound [] n small h = h
last_of_below read letter bound ((c, optarg) ∷ options) n small h =
    last_of_below read letter bound options (if c == letter then read optarg else n) small
      (ground (arith, small optarg))

module _ (atoi : List ℕ → ℕ) where
  abbrev after_options : List (ℕ × List ℕ) → Settings → Settings
  after_options options st = record {
    fname = last_of (take 4096) b'f' options st.fname;
    window_size = last_of atoi b'w' options st.window_size;
    avg_seg_size = last_of atoi b'a' options st.avg_seg_size;
    min_seg_size = last_of atoi b'i' options st.min_seg_size;
    max_seg_size = last_of atoi b'x' options st.max_seg_size;
  }

  -- The name of the last -f, and the numbers of the last -w, -a, -i and -x, or else the defaults:
  -- no name, and 48, 4096, 2048 and 8192.
  abbrev pub settings_of : List (ℕ × List ℕ) → Settings
  settings_of options = record {
    fname = last_of (take 4096) b'f' options [];
    window_size = last_of atoi b'w' options 48;
    avg_seg_size = last_of atoi b'a' options 4096;
    min_seg_size = last_of atoi b'i' options 2048;
    max_seg_size = last_of atoi b'x' options 8192;
  }

  pub settings_of_small :
      (options : List (ℕ × List ℕ))
      → ((text : List ℕ) → atoi text < 2 ^ 31)
      → (settings_of options).max_seg_size < 2 ^ 31
  settings_of_small options small =
      last_of_below atoi b'x' (2 ^ 31) options 8192 small (omega arith)

  module _ (c : ℕ) (optarg : List ℕ) (options : List (ℕ × List ℕ)) (st : Settings) where
    knowing :
        is_letter c ≡ true
        → take_options atoi ((c, optarg) ∷ options) st
          ≡ take_options atoi options (after_options ((c, optarg) ∷ []) st)
    unfolding take_options take_option
    knowing h = ground arith

    refusing : is_letter c ≡ false → take_options atoi ((c, optarg) ∷ options) st ≡ none
    unfolding take_options take_option
    refusing h = ground arith

  after_known :
      (options : List (ℕ × List ℕ)) (st : Settings)
      → all_known options ≡ true
      → take_options atoi options st ≡ some (after_options options st)
  unfolding take_options
  after_known [] st h = refl
  after_known ((c, optarg) ∷ options) st h =
      knowing c optarg options st (ground arith)
      ∙ after_known options (after_options ((c, optarg) ∷ []) st) (ground arith)

  after_unknown :
      (options : List (ℕ × List ℕ)) (st : Settings)
      → all_known options ≡ false
      → take_options atoi options st ≡ none
  after_unknown [] st h = absurd (ground arith)
  after_unknown ((c, optarg) ∷ options) st h = elim (Bool-cases (is_letter c)) [
    | inl e ↦
        knowing c optarg options st e
        ∙ after_unknown options (after_options ((c, optarg) ∷ []) st) (ground arith)
    | inr e ↦ refusing c optarg options st e
  ]

  pub take_options_known :
      (options : List (ℕ × List ℕ))
      → all_known options ≡ true
      → take_options atoi options default_settings ≡ some (settings_of options)
  take_options_known options h = after_known options default_settings h

  pub take_options_unknown :
      (options : List (ℕ × List ℕ))
      → all_known options ≡ false
      → take_options atoi options default_settings ≡ none
  take_options_unknown options h = after_unknown options default_settings h
