-- ===== src/Grpc/RequestCache/Bounded.antt =====
-- The request cache stays in order and within its capacity, and its eviction loop stops.
use apprtc.Prelude.{
  ℕ, ◌<◌, ◌≤◌, ◌≡◌, ◌≢◌, ◌⊎◌, inl, inr, refl, sym, ap, subst, some, none, List, [], ◌∷◌, ◌++◌,
  Result, ok, err, arith, length, length-append, NotIn, Distinct, Distinct-snoc, dec_lt, All-append,
  ite, if_pos, if_neg,
}
use apprtc.Prelude.HashMap.{
  HashMap, keys, NotIn-keys, get_of_NotIn, remove_absent, keys-insert_new, get-insert, get-remove,
  get-remove_self,
}
use apprtc.Prelude.HashMap
use apprtc.Grpc.Operations.{AuthorityResult, GrpcStatus}
use apprtc.Grpc.RequestCache.{
  RequestKey, RequestKey-discrete, CachedResult, RequestCache, evict, queue, insert, finish,
}

abbrev Entries : Type 0
Entries = HashMap RequestKey CachedResult

-- The queue lists the cached keys without repetition, the cache is within its capacity, and no key is
-- at once cached and in flight.
pub record IsCache (capacity : ℕ) (c : RequestCache) : Type 0 where
  pub listed : keys c.entries ≡ c.order
  pub distinct : Distinct (keys c.entries)
  pub bounded : length c.entries ≤ capacity
  pub disjoint :
      (k : RequestKey)
      → (HashMap.get RequestKey-discrete c.entries k ≡ none)
        ⊎ (HashMap.get RequestKey-discrete c.in_flight k ≡ none)

insert_new :
    (m : Entries) (k : RequestKey) (v : CachedResult)
    → HashMap.get RequestKey-discrete m k ≡ none
    → HashMap.insert RequestKey-discrete m k v ≡ m ++ (k, v) ∷ []
unfolding HashMap.get HashMap.insert
insert_new [] k v h = refl
insert_new ((j, w) ∷ m) k v h = ground (arith, insert_new m k v)

-- The entries after one at the front made way, where there were too many.
pub pushed : ℕ → Entries → RequestKey → CachedResult → Entries
pushed capacity [] k v = (k, v) ∷ []
pushed capacity ((j, w) ∷ m) k v =
    ite (dec_lt (length ((j, w) ∷ m)) capacity) ((j, w) ∷ (m ++ (k, v) ∷ [])) (m ++ (k, v) ∷ [])

NotIn-push : (j k : RequestKey) (ks : List RequestKey) → NotIn j ks → j ≢ k → NotIn j (ks ++ k ∷ [])
NotIn-push j k ks n ne = All-append (λ i. j ≢ i) ks (k ∷ []) n (ne, tt)

module _ (capacity : ℕ) where
  evict_fits :
      (entries : Entries) (order : List RequestKey)
      → length entries ≤ capacity
      → evict capacity entries order ≡ some (entries, order)
  unfolding evict
  evict_fits entries [] h = ground arith
  evict_fits entries (o ∷ os) h = ground arith

  remove_head :
      (o : RequestKey) (v : CachedResult) (m : Entries)
      → NotIn o (keys m)
      → HashMap.remove RequestKey-discrete ((o, v) ∷ m) o ≡ m
  unfolding HashMap.remove
  remove_head o v m n = rw (if_pos _ refl) (remove_absent RequestKey-discrete m o n)

  -- One entry too many: the oldest goes, and the loop stops.
  evict_full :
      (o : RequestKey) (v : CachedResult) (m : Entries) (os : List RequestKey)
      → NotIn o (keys m)
      → length m ≡ capacity
      → evict capacity ((o, v) ∷ m) (o ∷ os) ≡ some (m, os)
  unfolding evict
  evict_full o v m os n h = ground (arith, remove_head o v m n, evict_fits m os)

  keys-push :
      (m : Entries) (k : RequestKey) (v : CachedResult) → keys (m ++ (k, v) ∷ []) ≡ keys m ++ k ∷ []
  keys-push [] k v = refl
  keys-push ((j, w) ∷ m) k v = ap (◌∷◌ j) (keys-push m k v)

  evict-pushed :
      (m : Entries) (k : RequestKey) (v : CachedResult)
      → 0 < capacity
      → Distinct (keys m)
      → NotIn k (keys m)
      → length m ≤ capacity
      → evict capacity (m ++ (k, v) ∷ []) (keys m ++ k ∷ [])
        ≡ some (pushed capacity m k v, keys (pushed capacity m k v))
  unfolding pushed
  evict-pushed [] k v p d n h = evict_fits ((k, v) ∷ []) (k ∷ []) (omega arith)
  evict-pushed ((j, w) ∷ m) k v p d n h = elim (dec_lt (length ((j, w) ∷ m)) capacity) [
    | yes room ↦ ground (
      arith,
      keys-push m k v,
      length-append m ((k, v) ∷ []),
      evict_fits ((j, w) ∷ (m ++ (k, v) ∷ [])) (j ∷ (keys m ++ k ∷ [])),
    )
    | no full ↦ ground (
      arith,
      keys-push m k v,
      length-append m ((k, v) ∷ []),
      evict_full j w (m ++ (k, v) ∷ []) (keys m ++ k ∷ [])
          (rw (keys-push m k v) (NotIn-push j k (keys m) d.0 (λ e. n.0 (sym e)))),
    )
  ]

  length-pushed :
      (m : Entries) (k : RequestKey) (v : CachedResult)
      → 0 < capacity
      → length m ≤ capacity
      → length (pushed capacity m k v) ≤ capacity
  unfolding pushed
  length-pushed [] k v p h = omega arith
  length-pushed ((j, w) ∷ m) k v p h = ground (arith, length-append m ((k, v) ∷ []))

  Distinct-pushed :
      (m : Entries) (k : RequestKey) (v : CachedResult)
      → Distinct (keys m)
      → NotIn k (keys m)
      → Distinct (keys (pushed capacity m k v))
  unfolding pushed
  Distinct-pushed [] k v d n = (tt, tt)
  Distinct-pushed ((j, w) ∷ m) k v d n = elim (dec_lt (length ((j, w) ∷ m)) capacity) [
    | yes room ↦ rw (if_pos _ room) (rw (keys-push m k v) (Distinct-snoc (j ∷ keys m) k n d))
    | no full ↦ rw (if_neg _ full) (rw (keys-push m k v) (Distinct-snoc (keys m) k n.1 d.1))
  ]

  get-push :
      (m : Entries) (k j : RequestKey) (v : CachedResult)
      → HashMap.get RequestKey-discrete (m ++ (k, v) ∷ []) j
        ≡ elim (HashMap.get RequestKey-discrete m j) [
          | some w ↦ some w
          | none ↦ ite (RequestKey-discrete k j) (some v) none
        ]
  unfolding HashMap.get
  get-push [] k j v = refl
  get-push ((i, w) ∷ m) k j v = ground (arith, get-push m k j v)

  -- The new key is found, and any other key as before, unless it was the oldest of a full cache.
  pub get-pushed_self :
      (m : Entries) (k : RequestKey) (v : CachedResult)
      → HashMap.get RequestKey-discrete m k ≡ none
      → HashMap.get RequestKey-discrete (pushed capacity m k v) k ≡ some v
  unfolding pushed HashMap.get
  get-pushed_self [] k v h = ground arith
  get-pushed_self ((j, w) ∷ m) k v h = ground (arith, get-push m k k v)

  get-pushed_ne :
      (m : Entries) (k j : RequestKey) (v : CachedResult)
      → j ≢ k
      → (HashMap.get RequestKey-discrete (pushed capacity m k v) j
          ≡ HashMap.get RequestKey-discrete m j)
        ⊎ ((w : CachedResult) × (rest : Entries) × (m ≡ (j, w) ∷ rest) × (capacity ≤ length m))
  unfolding pushed HashMap.get
  get-pushed_ne [] k j v ne = inl (ground arith)
  get-pushed_ne ((i, w) ∷ m) k j v ne = elim (dec_lt (length ((i, w) ∷ m)) capacity) [
    | yes room ↦ inl (ground (arith, get-push m k j v))
    | no full ↦ elim (RequestKey-discrete i j) [
      | yes e ↦ inr (w, m, ap (λ i. (i, w) ∷ m) e, omega arith)
      | no differs ↦ inl (ground (arith, get-push m k j v))
    ]
  ]

  pub get-pushed-none :
      (m : Entries) (k j : RequestKey) (v : CachedResult)
      → j ≢ k
      → HashMap.get RequestKey-discrete m j ≡ none
      → HashMap.get RequestKey-discrete (pushed capacity m k v) j ≡ none
  unfolding pushed HashMap.get
  get-pushed-none [] k j v ne h = ground arith
  get-pushed-none ((i, w) ∷ m) k j v ne h = ground (arith, get-push m k j v)

  pub IsCache-remove :
      (c : RequestCache) (key : RequestKey)
      → IsCache capacity c
      → IsCache capacity
          (record c { in_flight = HashMap.remove RequestKey-discrete c.in_flight key })
  IsCache-remove c key valid = record {
    listed = valid.listed;
    distinct = valid.distinct;
    bounded = valid.bounded;
    disjoint = λ k. elim (valid.disjoint k) [
      | inl a ↦ inl a
      | inr b ↦ inr (ground (arith, get-remove RequestKey-discrete c.in_flight key k))
    ];
  }

  -- A result under a new key goes to the back, and the loop stops.
  pub insert-pushed :
      (c : RequestCache) (k : RequestKey) (v : CachedResult)
      → 0 < capacity
      → IsCache capacity c
      → HashMap.get RequestKey-discrete c.entries k ≡ none
      → insert capacity k v c
        ≡ some (record c {
          entries = pushed capacity c.entries k v;
          order = keys (pushed capacity c.entries k v);
        })
  unfolding insert queue
  insert-pushed c k v p valid h = ground (
    arith,
    h,
    insert_new c.entries k v h,
    valid.listed,
    evict-pushed c.entries k v p valid.distinct (NotIn-keys RequestKey-discrete c.entries k h)
        valid.bounded,
  )

  -- With a capacity of at least one and a cache in order, the end of a call under a key that is not
  -- remembered always comes to its end, keeps the cache in order and within its capacity, and takes
  -- the key out of the requests in flight.
  pub finish-IsCache :
      (c : RequestCache) (key : RequestKey) (fingerprint : ℕ)
      (outcome : Result AuthorityResult GrpcStatus)
      → 0 < capacity
      → IsCache capacity c
      → HashMap.get RequestKey-discrete c.entries key ≡ none
      → (c' : RequestCache) × (finish capacity key fingerprint outcome c ≡ some c')
        × IsCache capacity c'
        × (c'.in_flight ≡ HashMap.remove RequestKey-discrete c.in_flight key)
  unfolding finish
  finish-IsCache c key fingerprint (err _) p valid h = (
    record c { in_flight = HashMap.remove RequestKey-discrete c.in_flight key },
    refl,
    IsCache-remove c key valid,
    refl,
  )
  finish-IsCache c key fingerprint (ok result) p valid h =
      let v : CachedResult = record { operation_fingerprint = fingerprint; result = result } in
      let c' : RequestCache = record c {
        in_flight = HashMap.remove RequestKey-discrete c.in_flight key;
      } in
      (
        record c' {
          entries = pushed capacity c.entries key v;
          order = keys (pushed capacity c.entries key v);
        },
        insert-pushed c' key v p (IsCache-remove c key valid) h,
        record {
          listed = refl;
          distinct =
              Distinct-pushed c.entries key v valid.distinct
                (NotIn-keys RequestKey-discrete c.entries key h);
          bounded = length-pushed c.entries key v p valid.bounded;
          disjoint = λ k. elim (RequestKey-discrete key k) [
            | yes e ↦ inr (
                subst (λ i. HashMap.get RequestKey-discrete c'.in_flight i ≡ none) e
                  (get-remove_self RequestKey-discrete c.in_flight key))
            | no ne ↦ elim ((IsCache-remove c key valid).disjoint k) [
              | inl a ↦ inl (get-pushed-none c.entries key k v (λ e. ne (sym e)) a)
              | inr b ↦ inr b
            ]
          ];
        },
        refl,
      )
