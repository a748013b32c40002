-- ===== src/Contracts/Common.antt =====
-- contracts/common.py: the literals that several contracts share.
pub data Strategy : Type 0 where
  apply adapt scratch portfolio decomposition abstain : Strategy

pub data Arm : Type 0 where
  treatment control shadow practice : Arm

pub data Terminal : Type 0 where
  solved unsolved abstained rejected error : Terminal

pub data Isolation : Type 0 where
  fresh_context inherits_context : Isolation

pub data Lens : Type 0 where
  correctness currency provenance scope safety : Lens
