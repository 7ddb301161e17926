-- ===== src/Fs/Options/Metadata.antt =====
-- Where `parse_arguments` of cloudfs/main.c puts the metadata.
use cloudfs.Base.{ℕ, ◌≡◌, List}
use cloudfs.Fs.Options.{CloudfsState, parsed, default_state, parse_arguments}
use cloudfs.Fs.Options.Folded.{Accepted, last_given, apply_options_lem}

module _ (atoi : List ℕ → ℕ) where
  -- If all options are of the table and the arguments of -s and -f are shorter than 4096 bytes and
  -- those of -h than 1024 (Accepted), `parse_arguments` overruns no array and returns, the local
  -- directory is the argument of the last -s (or the default), and the metadata path is the
  -- default one all the same.
  pub parse_arguments-metadata_path :
      (options : List (ℕ × List ℕ))
      → Accepted options
      → (st : CloudfsState) × (parse_arguments atoi options ≡ parsed st)
        × (st.ssd_path ≡ last_given b's' options default_state.ssd_path)
        × (st.metadata_path ≡ default_state.metadata_path)
  unfolding parse_arguments
  parse_arguments-metadata_path options h =
      let (st, e, ssd, fuse, metadata) = apply_options_lem atoi options default_state h in
      (st, e, ssd, metadata)
