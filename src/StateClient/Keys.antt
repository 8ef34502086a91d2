-- ===== src/StateClient/Keys.antt =====
-- common/src/ingestion/state_client.rs: the keys, as bytes.
use starkstream_dna.Base.{ℕ, List, [], ◌∷◌}

-- "ingestion/recent"
abbrev pub recent_key : List ℕ
recent_key =
    105 ∷ 110 ∷ 103 ∷ 101 ∷ 115 ∷ 116 ∷ 105 ∷ 111 ∷ 110 ∷ 47 ∷ 114 ∷ 101 ∷ 99 ∷ 101 ∷ 110 ∷ 116 ∷ []

-- "ingestion/ingested"
abbrev pub legacy_ingested_key : List ℕ
legacy_ingested_key =
    105 ∷ 110 ∷ 103 ∷ 101 ∷ 115 ∷ 116 ∷ 105 ∷ 111 ∷ 110 ∷ 47 ∷ 105 ∷ 110 ∷ 103 ∷ 101 ∷ 115 ∷ 116
    ∷ 101 ∷ 100 ∷ []

-- "ingestion/pending"
abbrev pub pending_key : List ℕ
pending_key =
    105 ∷ 110 ∷ 103 ∷ 101 ∷ 115 ∷ 116 ∷ 105 ∷ 111 ∷ 110 ∷ 47 ∷ 112 ∷ 101 ∷ 110 ∷ 100 ∷ 105 ∷ 110
    ∷ 103 ∷ []

-- "ingestion/starting_block"
abbrev pub starting_block_key : List ℕ
starting_block_key =
    105 ∷ 110 ∷ 103 ∷ 101 ∷ 115 ∷ 116 ∷ 105 ∷ 111 ∷ 110 ∷ 47 ∷ 115 ∷ 116 ∷ 97 ∷ 114 ∷ 116 ∷ 105
    ∷ 110 ∷ 103 ∷ 95 ∷ 98 ∷ 108 ∷ 111 ∷ 99 ∷ 107 ∷ []

-- "ingestion/finalized"
abbrev pub finalized_key : List ℕ
finalized_key =
    105 ∷ 110 ∷ 103 ∷ 101 ∷ 115 ∷ 116 ∷ 105 ∷ 111 ∷ 110 ∷ 47 ∷ 102 ∷ 105 ∷ 110 ∷ 97 ∷ 108 ∷ 105
    ∷ 122 ∷ 101 ∷ 100 ∷ []

-- "ingestion/segmented"
abbrev pub segmented_key : List ℕ
segmented_key =
    105 ∷ 110 ∷ 103 ∷ 101 ∷ 115 ∷ 116 ∷ 105 ∷ 111 ∷ 110 ∷ 47 ∷ 115 ∷ 101 ∷ 103 ∷ 109 ∷ 101 ∷ 110
    ∷ 116 ∷ 101 ∷ 100 ∷ []

-- "ingestion/grouped"
abbrev pub grouped_key : List ℕ
grouped_key =
    105 ∷ 110 ∷ 103 ∷ 101 ∷ 115 ∷ 116 ∷ 105 ∷ 111 ∷ 110 ∷ 47 ∷ 103 ∷ 114 ∷ 111 ∷ 117 ∷ 112 ∷ 101
    ∷ 100 ∷ []

-- "compaction/pruned"
abbrev pub pruned_key : List ℕ
pruned_key =
    99 ∷ 111 ∷ 109 ∷ 112 ∷ 97 ∷ 99 ∷ 116 ∷ 105 ∷ 111 ∷ 110 ∷ 47 ∷ 112 ∷ 114 ∷ 117 ∷ 110 ∷ 101 ∷ 100
    ∷ []
