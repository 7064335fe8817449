-- ===== src/Record/Blocks/Ids.antt =====
-- The ids that the events of a block are given.
use midgard.Base.{
  ◌≡◌, refl, sym, ◌∙◌, ℕ, suc, ◌+◌, ◌*◌, ◌^◌, ◌≤◌, ◌<◌, Bool, true, false, not, ◌||◌, List, [], ◌∷◌,
  ◌++◌, length, arith, if◌then◌else◌, Bool-cases, inl, inr,
}
use midgard.Base.Int.{ℤ, pos}
use midgard.Db.EventId.{begin_block_events, txs_results, end_block_events, as_bigint, as_bigint_at}
use midgard.Db.EventId.RoundTrip.{event_id, as_bigint-encoded}
use midgard.Record.Blocks.{
  Attribute, AbciEvent, Transaction, Block, Handlers, at, run, run_in_tx, begin_events, tx_events,
  transactions, end_attributes, end_events, tx_count, process_block, is_begin_block, has_mode,
  is_end_block,
}
use midgard.Record.Blocks.Increasing.{Extends, Extends-same, Extends-one, Extends-more, add_zero}
use midgard.Record.Monad.{Recorder, skip, when, log_event_parse_error, ◌>>◌}

-- Handlers that keep the ids of the events in the order in which they are given them.
abbrev pub observer : {Tx : Type 0} → (Tx → AbciEvent → AbciEvent × Bool) → Handlers (List ℤ) Tx
observer parent = record {
  process_event =
      λ event meta s. (false, record s { store = s.store ++ as_bigint meta.event_id ∷ [] });
  process_tx = λ tx meta s. (false, s);
  process_parent_tx = parent;
  missing_events = λ meta. skip;
}

-- No transaction has more events than its ids have room for.
abbrev pub AllShort : {Tx : Type 0} → List (Transaction Tx) → Type 0
AllShort [] = Unit
AllShort (tx ∷ rest) = (length tx.events < 10_000) × AllShort rest

-- The index of a transaction does not count at the end of a block.
end_id :
    (h t e : ℕ)
    → as_bigint (event_id end_block_events h t e)
      ≡ as_bigint (event_id end_block_events h 999_999 e)
unfolding as_bigint_at
end_id h t e = refl

module _ {Tx : Type 0} (parent : Tx → AbciEvent → AbciEvent × Bool) (block : Block Tx) (h : ℕ)
    (at_h : block.height ≡ pos h) (low : h * 10_000_000_000 + 10_000_000_000 ≤ 2 ^ 63) where
  begin_step :
      (c : Bool) (event : AbciEvent) (j : ℕ) (s : Recorder (List ℤ))
      → j + 1 < 1_000_000_000
      → Extends s.store
          (when c
            (run (observer parent) block event (at block begin_block_events 0 (suc j)))
            s).1.store
          (h * 10_000_000_000 + j)
          (h * 10_000_000_000 + suc j)
  begin_step false event j s b = Extends-same s.store _ _ (omega arith)
  begin_step true event j s b =
      rw
        (
          at_h,
          as_bigint-encoded begin_block_events h 0 (suc j) (omega (arith, low), refl, omega arith),
        )
        (Extends-one s.store _ _ _ (omega arith) (omega arith))

  begin_events-Extends :
      (j hi : ℕ) (events : List AbciEvent) (s : Recorder (List ℤ))
      → j + length events < 1_000_000_000
      → h * 10_000_000_000 + (j + length events) ≤ hi
      → Extends s.store
          (begin_events (observer parent) block (suc j) events s).1.store
          (h * 10_000_000_000 + j)
          hi
  unfolding begin_events
  begin_events-Extends j hi [] s b k = Extends-same s.store _ _ (omega (arith, k))
  begin_events-Extends j hi (event ∷ rest) s b k =
      let c = is_begin_block event.attributes || not (has_mode event.attributes) in
      let s' =
        (when c (run (observer parent) block event (at block begin_block_events 0 (suc j))) s).1 in
      Extends-more s.store s'.store _ _ (h * 10_000_000_000 + suc j) _
        (begin_step c event j s (omega (arith, b)))
        (begin_events-Extends (suc j) hi rest s' (omega (arith, b)) (omega (arith, k)))

  failed_parent :
      (c : Bool) (event : AbciEvent) (t j : ℕ) (s : Recorder (List ℤ))
      → t < 800_000
      → j + 1 < 10_000
      → Extends s.store
          ((when c (log_event_parse_error "can't process parent")
              >> run (observer parent) block event (at block txs_results t (suc j)))
            s).1.store
          (h * 10_000_000_000 + 1_000_000_000 + t * 10_000 + j)
          (h * 10_000_000_000 + 1_000_000_000 + t * 10_000 + suc j)
  failed_parent false event t j s u b =
      rw (at_h, as_bigint-encoded txs_results h t (suc j) (omega (arith, low), u, omega (arith, b)))
        (Extends-one s.store _ _ _ (omega arith) (omega arith))
  failed_parent true event t j s u b =
      rw (at_h, as_bigint-encoded txs_results h t (suc j) (omega (arith, low), u, omega (arith, b)))
        (Extends-one s.store _ _ _ (omega arith) (omega arith))

  tx_events-Extends :
      (tx : Tx) (t j hi : ℕ) (events : List AbciEvent) (s : Recorder (List ℤ))
      → t < 800_000
      → j + length events < 10_000
      → h * 10_000_000_000 + 1_000_000_000 + t * 10_000 + (j + length events) ≤ hi
      → Extends s.store
          (tx_events (observer parent) block tx t (suc j) events s).1.store
          (h * 10_000_000_000 + 1_000_000_000 + t * 10_000 + j)
          hi
  unfolding tx_events
  tx_events-Extends tx t j hi [] s u b k = Extends-same s.store _ _ (omega (arith, k))
  tx_events-Extends tx t j hi (event ∷ rest) s u b k =
      let s' = (run_in_tx (observer parent) block tx event (at block txs_results t (suc j)) s).1 in
      Extends-more s.store s'.store _ _ (h * 10_000_000_000 + 1_000_000_000 + t * 10_000 + suc j) _
        (failed_parent (parent tx event).1 (parent tx event).0 t j s u (omega (arith, b)))
        (tx_events-Extends tx t (suc j) hi rest s' u (omega (arith, b)) (omega (arith, k)))

  transactions-Extends :
      (t hi : ℕ) (txs : List (Transaction Tx)) (s : Recorder (List ℤ))
      → t + tx_count (observer parent) block txs ≤ 800_000
      → AllShort txs
      → h * 10_000_000_000 + 1_000_000_000 + (t + tx_count (observer parent) block txs) * 10_000
        ≤ hi
      → Extends s.store
          (transactions (observer parent) block t txs s).1.store
          (h * 10_000_000_000 + 1_000_000_000 + t * 10_000)
          hi
  unfolding transactions
  transactions-Extends t hi [] s b short k = Extends-same s.store _ _ (omega (arith, k))
  transactions-Extends t hi (tx ∷ rest) s b short k =
      let s' = (tx_events (observer parent) block tx.tx t 1 tx.events s).1 in
      Extends-more s.store s'.store _ _ (h * 10_000_000_000 + 1_000_000_000 + suc t * 10_000) _
        (rw (sym (add_zero (h * 10_000_000_000 + 1_000_000_000 + t * 10_000))) (
          tx_events-Extends tx.tx t 0 _ tx.events s (omega (arith, b)) (omega (arith, short.0))
            (omega (arith, short.0))))
        (transactions-Extends (suc t) hi rest s' (omega (arith, b)) short.1 (omega (arith, k)))

abbrev pub end_count : List Attribute → ℕ
end_count [] = 0
end_count (a ∷ rest) = if is_end_block a then suc (end_count rest) else end_count rest

-- How often an event runs at the end of the block.
abbrev pub end_counts : List AbciEvent → ℕ
end_counts [] = 0
end_counts (event ∷ rest) = end_count event.attributes + end_counts rest

module _ {Tx : Type 0} (parent : Tx → AbciEvent → AbciEvent × Bool) (block : Block Tx) (h : ℕ)
    (at_h : block.height ≡ pos h) (low : h * 10_000_000_000 + 10_000_000_000 ≤ 2 ^ 63) where
  end_attributes-Extends :
      (event : AbciEvent) (t i hi : ℕ) (attributes : List Attribute) (s : Recorder (List ℤ))
      → i + end_count attributes < 1_000_000_000
      → h * 10_000_000_000 + 9_000_000_000 + (i + end_count attributes) ≤ hi
      → ((end_attributes (observer parent) block event t (suc i) attributes s).0
          ≡ suc (i + end_count attributes))
        × Extends s.store
            (end_attributes (observer parent) block event t (suc i) attributes s).1.store
            (h * 10_000_000_000 + 9_000_000_000 + i)
            hi
  unfolding end_attributes
  end_attributes-Extends event t i hi [] s b k =
      (omega arith, Extends-same s.store _ _ (omega (arith, k)))
  end_attributes-Extends event t i hi (a ∷ rest) s b k = elim (Bool-cases (is_end_block a)) [
    | inr e ↦ rw e (end_attributes-Extends event t i hi rest s (rw e at b) (rw e at k))
    | inl e ↦
        let b' : i + suc (end_count rest) < 1_000_000_000 = rw e at b in
        let k' : h * 10_000_000_000 + 9_000_000_000 + (i + suc (end_count rest)) ≤ hi = rw e at k in
        let s' = (run (observer parent) block event (at block end_block_events t (suc i)) s).1 in
        let (index, more) =
          end_attributes-Extends event t (suc i) hi rest s' (omega (arith, b'))
            (omega (arith, k')) in
        rw e (
          index ∙ omega arith,
          Extends-more s.store s'.store _ _ (h * 10_000_000_000 + 9_000_000_000 + suc i) _
              (rw
                (
                  at_h,
                  end_id h t (suc i),
                  as_bigint-encoded end_block_events h 999_999 (suc i)
                      (omega (arith, low, b'), refl, omega (arith, b')),
                )
                (Extends-one s.store _ _ _ (omega arith) (omega arith)))
              more,
        )
  ]

  end_events-Extends :
      (t i hi : ℕ) (events : List AbciEvent) (s : Recorder (List ℤ))
      → i + end_counts events < 1_000_000_000
      → h * 10_000_000_000 + 9_000_000_000 + (i + end_counts events) ≤ hi
      → Extends s.store
          (end_events (observer parent) block t (suc i) events s).1.store
          (h * 10_000_000_000 + 9_000_000_000 + i)
          hi
  unfolding end_events
  end_events-Extends t i hi [] s b k = Extends-same s.store _ _ (omega (arith, k))
  end_events-Extends t i hi (event ∷ rest) s b k =
      let n = end_count event.attributes in
      let (j, s') = end_attributes (observer parent) block event t (suc i) event.attributes s in
      let (index, first) =
        end_attributes-Extends event t i (h * 10_000_000_000 + 9_000_000_000 + (i + n))
          event.attributes s (omega (arith, b)) (omega arith) in
      Extends-more s.store s'.store _ _ _ _ first (
        continued j s' index
          (end_events-Extends t (i + n) hi rest s' (omega (arith, b)) (omega (arith, k))))
    where
      continued :
          (j : ℕ) (s' : Recorder (List ℤ))
          → j ≡ suc (i + end_count event.attributes)
          → Extends s'.store
              (end_events
                (observer parent)
                block
                t
                (suc (i + end_count event.attributes))
                rest
                s').1.store
              (h * 10_000_000_000 + 9_000_000_000 + (i + end_count event.attributes))
              hi
          → Extends s'.store
              (end_events (observer parent) block t j rest s').1.store
              (h * 10_000_000_000 + 9_000_000_000 + (i + end_count event.attributes))
              hi
      continued j s' e x = rw e x

  -- The events of a block are given ids that strictly increase in the order in which they are
  -- processed, and that lie between the ids of its height: at the begin of the block, in its
  -- transactions, and at its end, whatever is done to an event for its transaction. The block has
  -- no more events than the format of ids has room for, and its height is within it. The handlers
  -- keep the ids that they are given.
  pub process_block-Between :
      (s : Recorder (List ℤ))
      → length block.finalize_block_events < 1_000_000_000
      → tx_count (observer parent) block block.txs_results < 800_000
      → AllShort block.txs_results
      → end_counts block.finalize_block_events < 1_000_000_000
      → Extends s.store
          (process_block (observer parent) block s).1.store
          (h * 10_000_000_000)
          (h * 10_000_000_000 + 9_999_999_999)
  unfolding process_block
  process_block-Between s begin_fits txs_fit short end_fits =
      let events = block.finalize_block_events in
      let txs = block.txs_results in
      let n = tx_count (observer parent) block txs in
      let s₁ = (begin_events (observer parent) block 1 events s).1 in
      let s₂ = (transactions (observer parent) block 1 txs s₁).1 in
      let s₃ = (end_events (observer parent) block (suc n) 1 events s₂).1 in
      Extends-more s.store s₂.store s₃.store _ (h * 10_000_000_000 + 9_000_000_000 + 0) _
        (Extends-more s.store s₁.store s₂.store _ (h * 10_000_000_000 + 1_000_000_000 + 1 * 10_000)
          _
          (rw (sym (add_zero (h * 10_000_000_000))) (
            begin_events-Extends parent block h at_h low 0 _ events s (omega (arith, begin_fits))
              (omega (arith, begin_fits))))
          (transactions-Extends parent block h at_h low 1 _ txs s₁ (omega (arith, txs_fit)) short
            (omega (arith, txs_fit))))
        (end_events-Extends (suc n) 0 _ events s₂ (omega (arith, end_fits))
          (omega (arith, end_fits)))
