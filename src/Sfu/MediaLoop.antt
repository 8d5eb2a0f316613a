-- ===== src/Sfu/MediaLoop.antt =====
-- The command branch of `media_loop` of sfu_server.rs, with what the shard keeps between commands.
use apprtc.Prelude.{ℕ, ◌≡◌, Option, some, none, List, [], ◌∷◌, ℕ_discrete}
use apprtc.Prelude.HashMap
use apprtc.Proto.{SfuCommand, SfuCommandResult}
use apprtc.Sfu.Engine.{External}
use apprtc.Sfu.Shard.{Shard}
use apprtc.Sfu.Commands.{apply_command}
use apprtc.Sfu.Cache.{CommandCache, cache_command, command_cache_capacity}
use apprtc.Sfu.Metrics.{Metrics, Contribution, update_metrics}
pub mod Replay
pub mod Run
pub mod Balance

pub record MediaLoop (E : Type 0) : Type 0 where
  pub shard : Shard E
  pub cache : CommandCache
  pub contribution : Contribution

module _ {E V S : Type 0} (x : External E V S) where
  -- A command whose id is not cached.
  unfoldable pub run_command :
      SfuCommand → MediaLoop E → Metrics → (MediaLoop E × Metrics) × SfuCommandResult
  run_command c l metrics =
      let (shard', result) = apply_command x c l.shard in
      let (metrics', contribution') = update_metrics shard'.projection metrics l.contribution in
      (
        (
          record {
            shard = shard';
            cache = cache_command command_cache_capacity result l.cache;
            contribution = contribution';
          },
          metrics',
        ),
        result,
      )

  unfoldable pub handle_media_command :
      SfuCommand → MediaLoop E → Metrics → (MediaLoop E × Metrics) × SfuCommandResult
  unfolding run_command
  handle_media_command c l metrics = elim (HashMap.get ℕ_discrete l.cache.entries c.request_id) [
    | some cached ↦ ((l, metrics), cached)
    | none ↦ run_command c l metrics
  ]
