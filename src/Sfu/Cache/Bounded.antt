-- ===== src/Sfu/Cache/Bounded.antt =====
-- The command cache stays within its capacity, and its queue lists the cached ids.
use apprtc.Prelude.{
  ℕ, ◌≤◌, ◌<◌, ◌≡◌, refl, sym, ap, subst, ◌∙◌, ◌⊎◌, true, false, ◌≢◌, List, [], ◌∷◌, ◌++◌, some,
  none, inl, inr, Option-cases, ℕ_discrete, dec_lt, ltb, length, length-append, arith, NotIn,
  Distinct, Distinct-snoc, Bool-cases,
}
use apprtc.Prelude.HashMap.{
  HashMap, keys, get-insert_self, get-insert_ne, get-remove_ne, keys-insert_new, keys-insert_old,
  NotIn-keys, remove_absent,
}
use apprtc.Prelude.HashMap
use apprtc.Proto.{SfuCommandResult}
use apprtc.Sfu.Sync.{contains_key}
use apprtc.Sfu.Cache.{CommandCache, evict, cache_command}

-- The queue lists the cached ids, each once, and fits.
pub record IsCache (capacity : ℕ) (c : CommandCache) : Type 0 where
  pub listed : keys c.entries ≡ c.order
  pub distinct : Distinct c.order
  pub bounded : length c.order ≤ capacity

-- Removing the oldest id takes the first entry away.
keys-remove_head :
    (entries : HashMap ℕ SfuCommandResult) (k : ℕ) (ks : List ℕ)
    → keys entries ≡ k ∷ ks
    → NotIn k ks
    → keys (HashMap.remove ℕ_discrete entries k) ≡ ks
unfolding HashMap.remove
keys-remove_head [] k ks e n = cc
keys-remove_head ((j, v) ∷ m) k ks e n =
    let same : keys m ≡ ks = ground arith in
    let gone : HashMap.remove ℕ_discrete m k ≡ m =
      remove_absent ℕ_discrete m k (subst (NotIn k) (sym same) n) in
    ground (arith, gone)

module _ (capacity : ℕ) where
  evict-IsCache :
      (entries : HashMap ℕ SfuCommandResult) (order : List ℕ)
      → keys entries ≡ order
      → Distinct order
      → IsCache capacity (evict capacity entries order)
  unfolding evict
  evict-IsCache entries [] e d = record { listed = e; distinct = tt; bounded = omega arith }
  evict-IsCache entries (k ∷ ks) e d = elim (Bool-cases (ltb capacity (length (k ∷ ks)))) [
    | inl over ↦ rw over (
        evict-IsCache (HashMap.remove ℕ_discrete entries k) ks (keys-remove_head entries k ks e d.0)
          d.1)
    | inr fits ↦ rw fits (record { listed = e; distinct = d; bounded = ground arith })
  ]

  evict_fits :
      (entries : HashMap ℕ SfuCommandResult) (order : List ℕ)
      → length order ≤ capacity
      → evict capacity entries order ≡ record { entries = entries; order = order }
  unfolding evict
  evict_fits entries [] h = refl
  evict_fits entries (k ∷ ks) h = ground arith

  keys-insert_known :
      (c : CommandCache) (r : SfuCommandResult)
      → contains_key ℕ_discrete c.entries r.request_id ≡ true
      → keys (HashMap.insert ℕ_discrete c.entries r.request_id r) ≡ keys c.entries
  unfolding contains_key
  keys-insert_known c r h = elim (Option-cases (HashMap.get ℕ_discrete c.entries r.request_id)) [
    | inl e ↦ absurd (ground arith)
    | inr (w, e) ↦ keys-insert_old ℕ_discrete c.entries r.request_id r w e
  ]

  get_unknown :
      (c : CommandCache) (k : ℕ)
      → contains_key ℕ_discrete c.entries k ≡ false
      → HashMap.get ℕ_discrete c.entries k ≡ none
  unfolding contains_key
  get_unknown c k h = ground arith

  -- Where the queue of a cache lists the cached ids without repetition and the cache is within its
  -- capacity, it is so too after an answer is cached.
  pub cache_command-IsCache :
      (r : SfuCommandResult) (c : CommandCache)
      → IsCache capacity c
      → IsCache capacity (cache_command capacity r c)
  unfolding cache_command
  cache_command-IsCache r c v = elim (Bool-cases (contains_key ℕ_discrete c.entries r.request_id)) [
    | inl known ↦
        rw known (evict-IsCache _ c.order (keys-insert_known c r known ∙ v.listed) v.distinct)
    | inr new ↦
        let absent = get_unknown c r.request_id new in
        rw new (
          evict-IsCache _ (c.order ++ r.request_id ∷ [])
            (keys-insert_new ℕ_discrete c.entries r.request_id r absent
              ∙ ap (λ ks. ks ++ r.request_id ∷ []) v.listed)
            (Distinct-snoc c.order r.request_id
              (subst (NotIn r.request_id) v.listed
                (NotIn-keys ℕ_discrete c.entries r.request_id absent))
              v.distinct))
  ]

  evict_push_fits :
      (entries : HashMap ℕ SfuCommandResult) (order : List ℕ) (k : ℕ)
      → length order < capacity
      → evict capacity entries (order ++ k ∷ [])
        ≡ record { entries = entries; order = order ++ k ∷ [] }
  evict_push_fits entries order k h =
      evict_fits entries (order ++ k ∷ []) (omega (arith, length-append order (k ∷ [])))

  evict_push_full :
      (entries : HashMap ℕ SfuCommandResult) (o : ℕ) (os : List ℕ) (k : ℕ)
      → length (o ∷ os) ≡ capacity
      → evict capacity entries (o ∷ (os ++ k ∷ []))
        ≡ record { entries = HashMap.remove ℕ_discrete entries o; order = os ++ k ∷ [] }
  unfolding evict
  evict_push_full entries o os k h =
      ground (
        arith,
        length-append os (k ∷ []),
        evict_push_fits (HashMap.remove ℕ_discrete entries o) os k,
      )

  -- Pushing `k` out at the back loses at most the head of a full queue.
  get-evict_push :
      (entries : HashMap ℕ SfuCommandResult) (order : List ℕ) (k j : ℕ)
      → 0 < capacity
      → length order ≤ capacity
      → (HashMap.get ℕ_discrete (evict capacity entries (order ++ k ∷ [])).entries j
          ≡ HashMap.get ℕ_discrete entries j)
        ⊎ ((rest : List ℕ) × (order ≡ j ∷ rest) × (length order ≡ capacity))
  get-evict_push entries [] k j p h = inl (rw (evict_push_fits entries [] k p))
  get-evict_push entries (o ∷ os) k j p h = elim (dec_lt (length (o ∷ os)) capacity) [
    | yes room ↦ inl (rw (evict_push_fits entries (o ∷ os) k room))
    | no full ↦ elim (ℕ_discrete o j) [
      | yes e ↦ inr (os, ap (λ i. i ∷ os) e, omega arith)
      | no ne ↦ inl (
          rw (evict_push_full entries o os k (omega arith))
            (get-remove_ne ℕ_discrete entries o (λ e. ne (sym e))))
    ]
  ]

  NotIn-order :
      (c : CommandCache) (k : ℕ)
      → IsCache capacity c
      → contains_key ℕ_discrete c.entries k ≡ false
      → NotIn k c.order
  NotIn-order c k v new =
      subst (NotIn k) v.listed (NotIn-keys ℕ_discrete c.entries k (get_unknown c k new))

  -- Where the oldest id stands when a new one pushes it out.
  abbrev pub Evicts : SfuCommandResult → CommandCache → ℕ → Type 0
  Evicts r c j =
      (rest : List ℕ) × (c.order ≡ j ∷ rest)
      × (length c.order ≡ capacity)
      × (HashMap.get ℕ_discrete c.entries r.request_id ≡ none)

  -- The answer just cached is found under its id, if there is room for one answer at least.
  pub get-cache_command_self :
      (r : SfuCommandResult) (c : CommandCache)
      → 0 < capacity
      → IsCache capacity c
      → HashMap.get ℕ_discrete (cache_command capacity r c).entries r.request_id ≡ some r
  unfolding cache_command
  get-cache_command_self r c p v =
      let written = get-insert_self ℕ_discrete c.entries r.request_id r in
      elim (Bool-cases (contains_key ℕ_discrete c.entries r.request_id)) [
        | inl known ↦ rw (known, evict_fits _ c.order v.bounded) written
        | inr new ↦
            rw new
              (elim (get-evict_push (HashMap.insert ℕ_discrete c.entries r.request_id r) c.order
                r.request_id r.request_id p v.bounded) [
                  | inl same ↦ same ∙ written
                  | inr (rest, e, full) ↦
                      absurd
                        ((subst (NotIn r.request_id) e (NotIn-order c r.request_id v new)).0 refl)
                ])
      ]

  -- With a capacity of at least one and a cache in order, every id other than that of an answer
  -- being cached is answered as before, unless it was the oldest of a full cache and the answer's
  -- own id was new.
  pub get-cache_command_ne :
      (r : SfuCommandResult) (c : CommandCache) (j : ℕ)
      → 0 < capacity
      → IsCache capacity c
      → j ≢ r.request_id
      → (HashMap.get ℕ_discrete (cache_command capacity r c).entries j
          ≡ HashMap.get ℕ_discrete c.entries j)
        ⊎ Evicts r c j
  unfolding cache_command
  get-cache_command_ne r c j p v ne =
      let kept = get-insert_ne ℕ_discrete c.entries r.request_id r ne in
      elim (Bool-cases (contains_key ℕ_discrete c.entries r.request_id)) [
        | inl known ↦ rw (known, evict_fits _ c.order v.bounded) (inl kept)
        | inr new ↦
            rw new
              (elim (get-evict_push (HashMap.insert ℕ_discrete c.entries r.request_id r) c.order
                r.request_id j p v.bounded) [
                  | inl same ↦ inl (same ∙ kept)
                  | inr (rest, e, full) ↦ inr (rest, e, full, get_unknown c r.request_id new)
                ])
      ]
