-- ===== src/Sfu/MediaLoop/Replay.antt =====
-- Commands are carried out at most once while their answers are cached.
use apprtc.Prelude.{◌≡◌, subst, some, ℕ_discrete, inl, inr, Option-cases, arith}
use apprtc.Prelude.HashMap
use apprtc.Proto.{SfuCommand, SfuCommandResult}
use apprtc.Sfu.Engine.{External}
use apprtc.Sfu.Shard.{Shard}
use apprtc.Sfu.Commands.{apply_command}
use apprtc.Sfu.Cache.{cache_command, command_cache_capacity}
use apprtc.Sfu.Cache.Bounded.{IsCache, cache_command-IsCache, get-cache_command_self}
use apprtc.Sfu.Metrics.{Metrics}
use apprtc.Sfu.MediaLoop.{MediaLoop, handle_media_command}

module _ {E V S : Type 0} (x : External E V S) where
  -- Every answer carries the request id of its command.
  pub request_id-apply_command :
      (c : SfuCommand) (s : Shard E) → (apply_command x c s).1.request_id ≡ c.request_id
  unfolding apply_command
  request_id-apply_command c s = ground arith

  -- Every command leaves a cache that is in order and within its capacity.
  pub handle_media_command-IsCache :
      (c : SfuCommand) (l : MediaLoop E) (metrics : Metrics)
      → IsCache command_cache_capacity l.cache
      → IsCache command_cache_capacity (handle_media_command x c l metrics).0.0.cache
  unfolding handle_media_command
  handle_media_command-IsCache c l metrics v =
      elim (Option-cases (HashMap.get ℕ_discrete l.cache.entries c.request_id)) [
        | inl e ↦
            rw (e, handle_media_command)
              (cache_command-IsCache command_cache_capacity (apply_command x c l.shard).1 l.cache v)
        | inr (r, e) ↦ rw (e, handle_media_command) v
      ]

  -- Where the answer is cached, it is given and nothing is done.
  handle_media_command_cached :
      (c : SfuCommand) (l : MediaLoop E) (metrics : Metrics) (r : SfuCommandResult)
      → HashMap.get ℕ_discrete l.cache.entries c.request_id ≡ some r
      → handle_media_command x c l metrics ≡ ((l, metrics), r)
  unfolding handle_media_command
  handle_media_command_cached c l metrics r e = rw (e, handle_media_command)

  get-handle_media_command :
      (c : SfuCommand) (l : MediaLoop E) (metrics : Metrics)
      → IsCache command_cache_capacity l.cache
      → HashMap.get ℕ_discrete (handle_media_command x c l metrics).0.0.cache.entries c.request_id
        ≡ some (handle_media_command x c l metrics).1
  unfolding handle_media_command
  get-handle_media_command c l metrics v =
      elim (Option-cases (HashMap.get ℕ_discrete l.cache.entries c.request_id)) [
        | inl e ↦
            rw (e, handle_media_command)
              (subst
                (λ i.
                  HashMap.get ℕ_discrete
                    (cache_command command_cache_capacity (apply_command x c l.shard).1
                      l.cache).entries
                    i
                  ≡ some (apply_command x c l.shard).1)
                (request_id-apply_command c l.shard)
                (get-cache_command_self command_cache_capacity (apply_command x c l.shard).1 l.cache
                  (omega arith) v))
        | inr (r, e) ↦ rw (e, handle_media_command) e
      ]

  -- Where the cache is in order, a command that comes again under the same request id at once is
  -- given the first answer, and nothing changes: not the engine, the projection, the cache or the
  -- metrics. This holds for any second command under that id.
  pub handle_media_command-twice :
      (c again : SfuCommand) (l : MediaLoop E) (metrics : Metrics)
      → IsCache command_cache_capacity l.cache
      → again.request_id ≡ c.request_id
      → handle_media_command x again
          (handle_media_command x c l metrics).0.0
          (handle_media_command x c l metrics).0.1
        ≡ handle_media_command x c l metrics
  handle_media_command-twice c again l metrics v same =
      handle_media_command_cached again (handle_media_command x c l metrics).0.0
        (handle_media_command x c l metrics).0.1 (handle_media_command x c l metrics).1
        (rw same (get-handle_media_command c l metrics v))
