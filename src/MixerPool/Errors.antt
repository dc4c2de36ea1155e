-- ===== src/MixerPool/Errors.antt =====
-- contracts/mixer_pool/src/errors.rs.
pub data MixerError : Type 0 where
  already_initialized wrong_amount duplicate_commitment tree_full invalid_root : MixerError
  nullifier_spent invalid_proof fee_too_high invalid_denomination : MixerError
  invalid_tree_depth invalid_root_history_size unauthorized : MixerError
