-- ===== src/Compaction/Blocks.antt =====
-- common/src/fragment.rs: the data of a block.
use starkstream_dna.Base.{ℕ, List}
use starkstream_dna.Join.{JoinTo}
use starkstream_dna.Compaction.{IndexGroupFragment}

pub record HeaderFragment : Type 0 where
  pub content : List ℕ

pub record BodyFragment : Type 0 where
  pub fragment_id : ℕ
  pub name : List ℕ
  pub content : List (List ℕ)

-- `fragment::Join`
pub record FragmentJoin : Type 0 where
  pub to_fragment_id : ℕ
  pub index : JoinTo

pub record JoinFragment : Type 0 where
  pub fragment_id : ℕ
  pub joins : List FragmentJoin

abbrev pub JoinGroupFragment : Type 0
JoinGroupFragment = List JoinFragment

pub record Block : Type 0 where
  pub header : HeaderFragment
  pub index : IndexGroupFragment
  pub join : JoinGroupFragment
  pub body : List BodyFragment
