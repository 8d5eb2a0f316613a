-- ===== src/Sfu/Cache.antt =====
-- `cache_command` of sfu_server.rs: the answers of the last commands, by request id. `order` is the
-- queue of ids, oldest first. The capacity is a parameter here; the code's is below.
use apprtc.Prelude.{ℕ, List, [], ◌∷◌, ◌++◌, ℕ_discrete, ltb, length, if◌then◌else◌}
use apprtc.Prelude.HashMap.{HashMap}
use apprtc.Prelude.HashMap
use apprtc.Proto.{SfuCommandResult}
use apprtc.Sfu.Sync.{contains_key}
pub mod Bounded

-- COMMAND_CACHE_CAPACITY
abbrev pub command_cache_capacity : ℕ
command_cache_capacity = 4096

pub record CommandCache : Type 0 where
  pub entries : HashMap ℕ SfuCommandResult
  pub order : List ℕ

abbrev pub empty_cache : CommandCache
empty_cache = record { entries = []; order = [] }

module _ (capacity : ℕ) where
  -- The eviction loop: it stops once the queue fits.
  unfoldable pub evict : HashMap ℕ SfuCommandResult → List ℕ → CommandCache
  unfolding HashMap.remove
  evict entries [] = record { entries = entries; order = [] }
  evict entries (oldest ∷ order) =
      let rest = evict (HashMap.remove ℕ_discrete entries oldest) order in
      if ltb capacity (length (oldest ∷ order))
      then rest
      else record { entries = entries; order = oldest ∷ order }

  unfoldable pub cache_command : SfuCommandResult → CommandCache → CommandCache
  unfolding evict HashMap.insert contains_key
  cache_command result c = evict (HashMap.insert ℕ_discrete c.entries result.request_id result) (
      if contains_key ℕ_discrete c.entries result.request_id
      then c.order
      else c.order ++ result.request_id ∷ [])
