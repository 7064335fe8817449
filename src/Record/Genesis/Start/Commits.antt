-- ===== src/Record/Genesis/Start/Commits.antt =====
-- internal/fetch/record/genesis.go: when the genesis is committed, and what then has been done.
use Prim.Native.String.{String}
use midgard.Base.{
  ◌≡◌, ◌≢◌, refl, Bool, true, false, not, inl, inr, ◌⊎◌, if◌then◌else◌, Option, none, some,
}
use midgard.Base.Bytes.{Bytes}
use midgard.Base.Int.{ℤ, pos, sub64, ltb_ℤ, int_beq}
use midgard.Record.Monad.{Env, Recorder, Action, pure, ◌>>=◌}
use midgard.Record.Postings.{post}
use midgard.Record.Genesis.State.{GenesisData}
use midgard.Record.Genesis.Depths.{genesis_postings, record_genesis-totals}
use midgard.Record.Genesis.Start.{
  GenesisStore, AtStart, Loaded, left_alone, committed_at, fatal, or_fatal, unless_fatal,
  genesis_metadata, record_genesis, write_genesis, load_genesis,
}

-- Some operation on the store returned an error.
abbrev pub Failed : {S : Type 0} → GenesisStore S → Type 0
Failed {S} store =
    (st : S) × (((store.start_block st).0 ≢ none)
      ⊎ (((h : ℤ) × ((store.set_genesis_constant h st).0 ≢ none))
          ⊎ (((store.end_block st).0 ≢ none) ⊎ ((store.flush st).0 ≢ none))))

-- The state is what a flush left that returned no error, of what the end of a block left, of what the
-- setting of the constant for the genesis left, which returned none either.
abbrev pub IsFlushed : {S : Type 0} → GenesisStore S → ℤ → S → Type 0
IsFlushed {S} store height final =
    (written constant ended : S) × (store.set_genesis_constant height written ≡ (none, constant))
    × (store.end_block constant ≡ (none, ended))
    × (store.flush ended ≡ (none, final))

-- What an outcome says of the recorder before and after.
abbrev pub Says :
    {S : Type 0}
    → GenesisStore S
    → AtStart
    → GenesisData
    → Recorder S
    → Loaded × Recorder S
    → Type 0
Says store start g s (left_alone, s') = s' ≡ s
Says store start g s (fatal line, s') = Failed store
Says store start g s (committed_at height, s') =
    (height ≡ sub64 start.genesis_block_height (pos 1))
    × (((s' ≡ s) × (start.genesis_exists ≡ true) × (int_beq start.last_committed (pos 0) ≡ true))
        ⊎ (IsFlushed store start.genesis_block_height s'.store
            × (s'.totals ≡ post (genesis_postings g) s.totals)
            × (start.genesis_exists ≡ false)
            × (ltb_ℤ start.genesis_block_height start.last_committed ≡ false)))

module _ {S : Type 0} (env : Env S) where
  or_fatal-Says :
      (store : GenesisStore S) (start : AtStart) (g : GenesisData) (s : Recorder S) (line : String)
      (answer : Option Bytes × S) (s' : Recorder S) (rest : Action S Loaded)
      → (answer.0 ≢ none → Failed store)
      → ((st : S) → answer ≡ (none, st) → Says store start g s (rest (record s' { store = st })))
      → Says store start g s (or_fatal env line answer s' rest)
  or_fatal-Says store start g s line (none, st) s' rest failed h = h st refl
  or_fatal-Says store start g s line (some err, st) s' rest failed h = failed (λ e. cc)

  abbrev before_genesis : AtStart → ℤ
  before_genesis start = sub64 start.genesis_block_height (pos 1)

  abbrev flushed : GenesisStore S → AtStart → Action S Loaded
  flushed store start =
      unless_fatal env "Failed to Flush" store.flush (pure (committed_at (before_genesis start)))

  abbrev end_of_block : GenesisStore S → AtStart → Action S Loaded
  end_of_block store start =
      unless_fatal env "Failed to EndBlock" store.end_block (flushed store start)

  write_genesis-Says :
      (store : GenesisStore S) (start : AtStart) (g : GenesisData) (s : Recorder S)
      → start.genesis_exists ≡ false
      → ltb_ℤ start.genesis_block_height start.last_committed ≡ false
      → Says store start g s (write_genesis env store start g s)
  unfolding write_genesis
  write_genesis-Says store start g s fresh later =
      or_fatal-Says store start g s "Failed to StartBlock" (store.start_block s.store) s
        (record_genesis env start.case_insensitive_chains g
            (genesis_metadata (before_genesis start) g)
          >>= λ m.
              unless_fatal env "Failed to Insert into constants"
                (store.set_genesis_constant start.genesis_block_height) (end_of_block store start))
        (λ f. (s.store, inl f))
        (λ begun e₁.
          let written =
            (record_genesis env start.case_insensitive_chains g
              (genesis_metadata (before_genesis start) g) (record s { store = begun })).1 in
          or_fatal-Says store start g s "Failed to Insert into constants"
            (store.set_genesis_constant start.genesis_block_height written.store) written
            (end_of_block store start)
            (λ f. (written.store, inr (inl (start.genesis_block_height, f))))
            (λ constant e₂.
              or_fatal-Says store start g s "Failed to EndBlock" (store.end_block constant)
                (record written { store = constant }) (flushed store start)
                (λ f. (constant, inr (inr (inl f))))
                (λ ended e₃.
                  or_fatal-Says store start g s "Failed to Flush" (store.flush ended)
                    (record written { store = ended }) (pure (committed_at (before_genesis start)))
                    (λ f. (ended, inr (inr (inr f))))
                    (λ final e₄. (
                      refl,
                      inr (
                        (written.store, constant, ended, e₂, e₃, e₄),
                        record_genesis-totals env start.case_insensitive_chains g
                            (genesis_metadata (before_genesis start) g)
                            (record s { store = begun }),
                        fresh,
                        later,
                      ),
                    )))))

  if-Says :
      (store : GenesisStore S) (start : AtStart) (g : GenesisData) (s : Recorder S) (b : Bool)
      (x y : Action S Loaded)
      → (b ≡ true → Says store start g s (x s))
      → (b ≡ false → Says store start g s (y s))
      → Says store start g s ((if b then x else y) s)
  if-Says store start g s true x y h k = h refl
  if-Says store start g s false x y h k = k refl

  -- Whatever the store does: LoadGenesis leaves everything as it is, or ends the program, and then an
  -- operation on the store returned an error, or has the height before the first block of the genesis
  -- for the last committed one. Then either the genesis was recorded before, with no block behind it,
  -- and nothing changed, or it was not, nor is any later block committed, and the constant was set,
  -- the block ended and the rows were flushed last, all with no error, and the depths are those of
  -- the ledger for the genesis.
  pub load_genesis-Says :
      (store : GenesisStore S) (start : AtStart) (g : GenesisData) (s : Recorder S)
      → Says store start g s (load_genesis env store start g s)
  unfolding load_genesis
  load_genesis-Says store start g s =
      if-Says store start g s (not start.config_has_genesis) _ _ (λ none_given. refl)
        (λ given.
          if-Says store start g s start.genesis_exists _ _
            (λ exists.
              if-Says store start g s (int_beq start.last_committed (pos 0)) _ _
                (λ first. (refl, inl (refl, exists, first))) (λ later. refl))
            (λ fresh.
              if-Says store start g s (ltb_ℤ start.genesis_block_height start.last_committed) _ _
                (λ behind. refl) (λ ahead. write_genesis-Says store start g s fresh ahead)))
