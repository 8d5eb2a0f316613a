-- ===== src/Grpc/Service/Carried.antt =====
-- A call of GrpcAuthority of grpc_client.rs that the service of grpc_server.rs carries to the authority.
use apprtc.Prelude.{
  ℕ, String, ◌+◌, ◌<◌, ◌≤◌, ◌≡◌, ◌≢◌, refl, ap, ◌∙◌, Option, some, List, Result, ok, err, arith,
  eq_iff,
}
use apprtc.Std.Parse.{u64_mod}
use apprtc.Proto.{RequestContext, app_id_apprtc}
use apprtc.Grpc.Operations.{AuthorityOperation, AuthorityResult, GrpcStatus, Hashed}
use apprtc.Grpc.RequestCache.{RequestKey, enter, request_cache_capacity}
use apprtc.Grpc.RequestCache.Bounded.{IsCache}
use apprtc.Grpc.Wire.{RpcResult, RpcResponse}
use apprtc.Grpc.Handlers.{app_context, is_apprtc}
use apprtc.Grpc.Execute.{settle, request_key}
use apprtc.Grpc.Execute.Once.{IsFree, answer, execute-free, execute-others}
use apprtc.Grpc.Unary.{respond, unary}
use apprtc.Grpc.Client.{Texts, GrpcAuthority, draw, context, receive, method}
use apprtc.Grpc.Service.{Authority, World, reply, performed, serve}

-- The context of a client's call under a number.
abbrev pub numbered : GrpcAuthority → ℕ → RequestContext
numbered g n = record { app_id = app_id_apprtc; instance_id = g.instance_id; request_id = n }

-- The client has a name, has drawn no number from its next one on, and has at least `left` left before
-- its counter comes round. The cache is in order, and the authority is in the state `a`.
pub record IsReady {A : Type 0} (left : ℕ) (s : GrpcAuthority × World A) (a : A) : Type 0 where
  pub named : s.0.instance_id ≢ ""
  pub started : 0 < s.0.next_request_id
  pub ahead : s.0.next_request_id + left < u64_mod
  pub cache : IsCache request_cache_capacity s.1.service.request_cache
  pub unused : (n : ℕ) → s.0.next_request_id ≤ n → IsFree (numbered s.0 n) s.1.service
  pub authority : s.1.authority ≡ a

draw-next : (n : ℕ) → 0 < n → n + 1 < u64_mod → draw 2 n ≡ some (n, n + 1)
unfolding draw
draw-next n h i = ground arith

-- A counter that is neither 0 nor at its end is drawn as it is.
pub context-next :
    (g : GrpcAuthority)
    → 0 < g.next_request_id
    → g.next_request_id + 1 < u64_mod
    → context g
      ≡ (record g { next_request_id = g.next_request_id + 1 }, numbered g g.next_request_id)
unfolding context
context-next g h i = rw (draw-next g.next_request_id h i, context) refl

app_context-numbered :
    (g : GrpcAuthority) (n : ℕ)
    → g.instance_id ≢ ""
    → 0 < n
    → app_context (some (numbered g n)) ≡ ok (numbered g n)
unfolding app_context is_apprtc
app_context-numbered g n named h = ground (arith, named, (eq_iff g.instance_id "").0)

module _ (texts : Texts) where
  -- What a caller sees of what a method tells.
  unfoldable pub seen :
      {B V : Type 0}
      → String
      → (Option (RpcResult B) → Result V String)
      → Result (RpcResult B) GrpcStatus
      → Result V String
  seen operation read (ok result) = read (some result)
  seen operation read (err status) = err (texts.grpc_error operation status)

  receive-respond :
      {B V : Type 0} (operation : String) (id : ℕ) (read : Option (RpcResult B) → Result V String)
      (told : Result (RpcResult B) GrpcStatus)
      → receive texts operation id read (respond id told) ≡ seen operation read told
  unfolding receive respond seen
  receive-respond operation id read (ok result) = ground arith
  receive-respond operation id read (err status) = refl

  method-sent :
      {R B V W : Type 0} (name : String) (request : RequestContext → R)
      (read : Option (RpcResult B) → Result V String)
      (rpc : R → W → W × Result (RpcResponse B) GrpcStatus) (g g' : GrpcAuthority) (w w' : W)
      (c : RequestContext) (response : Result (RpcResponse B) GrpcStatus)
      → context g ≡ (g', c)
      → rpc (request c) w ≡ (w', response)
      → method texts name request read rpc (g, w)
        ≡ ((g', w'), receive texts name c.request_id read response)
  unfolding method
  method-sent name request read rpc g g' w w' c response e f =
      ap
        (λ p.
          let (w'', told) = rpc (request p.1) w in
          ((p.0, w''), receive texts name p.1.request_id read told))
        e
      ∙ ap (λ p. ((g', p.0), receive texts name c.request_id read p.1)) f

-- The client has drawn a number, and what is behind it is in order.
IsReady-next :
    {A : Type 0} (left : ℕ) (g : GrpcAuthority) (w w' : World A) (a a' : A)
    → IsReady (left + 1) (g, w) a
    → IsCache request_cache_capacity w'.service.request_cache
    → ((n : ℕ) → g.next_request_id + 1 ≤ n → IsFree (numbered g n) w'.service)
    → w'.authority ≡ a'
    → IsReady left (record g { next_request_id = g.next_request_id + 1 }, w') a'
IsReady-next left g w w' a a' r kept unused same = record {
  named = r.named;
  started = omega arith;
  ahead = omega (arith, r.ahead);
  cache = kept;
  unused = unused;
  authority = same;
}

-- The key of a later number is another.
later :
    (g : GrpcAuthority) (n m : ℕ)
    → n + 1 ≤ m
    → request_key (numbered g m) ≢ request_key (numbered g n)
unfolding request_key
later g n m h e = let same = ap (λ (k : RequestKey). k.request_id) e in omega (arith, same, h)

module _ {A : Type 0} (x : Authority A) (hash : List Hashed → ℕ) (expired : GrpcStatus) where
  performed_carried :
      (c : RequestContext) (operation : AuthorityOperation) (w : World A)
      → IsFree c w.service
      → performed x hash expired (ok (c, operation)) w ≡ (x.perform operation w.authority).0
  unfolding performed enter
  performed_carried c operation w free =
      rw (free.uncached, performed, enter) (rw (free.idle, performed, enter) refl)

  answer-reply :
      (operation : AuthorityOperation) (w : World A)
      → answer hash (reply x hash expired w) operation w.service
        ≡ ok (x.perform operation w.authority).1
  unfolding answer settle reply
  answer-reply operation w = ground arith

  -- A call under a free key reaches the authority and its result comes back; the service is in order
  -- afterwards, and other free keys are free.
  pub serve_carried :
      {B : Type 0} (c : RequestContext) (operation : AuthorityOperation)
      (tell : AuthorityResult → Result (RpcResult B) GrpcStatus) (w : World A)
      → IsCache request_cache_capacity w.service.request_cache
      → IsFree c w.service
      → (w' : World A) × (serve x hash expired (ok (c, operation)) tell w
          ≡ (w', respond c.request_id (tell (x.perform operation w.authority).1)))
        × (w'.authority ≡ (x.perform operation w.authority).0)
        × IsCache request_cache_capacity w'.service.request_cache
        × ((other : RequestContext)
            → IsFree other w.service
            → request_key other ≢ request_key c
            → IsFree other w'.service)
  unfolding serve unary
  serve_carried c operation tell w valid free =
      let driver = reply x hash expired w in
      let (s', done, kept) = execute-free hash driver c operation w.service valid free in
      (
        record { service = s'; authority = performed x hash expired (ok (c, operation)) w },
        rw (done, serve) (rw (answer-reply operation w) refl),
        performed_carried c operation w free,
        kept,
        λ other unused differs.
            execute-others hash driver c other operation w.service s' _ valid free unused differs
              done,
      )

  module _ (texts : Texts) where
    -- A method whose request asks for an operation is carried out by the authority once, and its
    -- caller sees what the authority's result tells; the client and the service are ready for the
    -- next.
    pub method-asked :
        {R B V : Type 0} (name : String) (request : RequestContext → R)
        (read : Option (RpcResult B) → Result V String)
        (rpc : R → World A → World A × Result (RpcResponse B) GrpcStatus)
        (operation : AuthorityOperation) (tell : AuthorityResult → Result (RpcResult B) GrpcStatus)
        (left : ℕ) (s : GrpcAuthority × World A) (a : A)
        → ((c : RequestContext)
            → app_context (some c) ≡ ok c
            → rpc (request c) s.1 ≡ serve x hash expired (ok (c, operation)) tell s.1)
        → IsReady (left + 1) s a
        → (s' : GrpcAuthority × World A) × (method texts name request read rpc s
            ≡ (s', seen texts name read (tell (x.perform operation a).1)))
          × IsReady left s' (x.perform operation a).0
    method-asked name request read rpc operation tell left (g, w) a asks r =
        let n = g.next_request_id in
        let c = numbered g n in
        let (w', done, after, kept, others) =
          serve_carried c operation tell w r.cache (r.unused n (omega arith)) in
        let sent = asks c (app_context-numbered g n r.named r.started) ∙ done in
        let same = ap (λ b. x.perform operation b) r.authority in
        (
          (record g { next_request_id = n + 1 }, w'),
          method-sent texts name request read rpc g (record g { next_request_id = n + 1 }) w w' c
                (respond c.request_id (tell (x.perform operation w.authority).1))
                (context-next g r.started (omega (arith, r.ahead))) sent
              ∙ (ap (λ v. ((record g { next_request_id = n + 1 }, w'), v))
                  (receive-respond texts name c.request_id read
                      (tell (x.perform operation w.authority).1)
                    ∙ ap (λ b. seen texts name read (tell b.1)) same)),
          IsReady-next left g w w' a _ r kept
              (λ m h. others (numbered g m) (r.unused m (omega (arith, h))) (later g n m h))
              (after ∙ ap (λ b. b.0) same),
        )

    -- A method whose request is refused fails with the status of the refusal, and the authority and
    -- the service are as before.
    pub method-refused :
        {R B V : Type 0} (name : String) (request : RequestContext → R)
        (read : Option (RpcResult B) → Result V String)
        (rpc : R → World A → World A × Result (RpcResponse B) GrpcStatus) (status : GrpcStatus)
        (tell : AuthorityResult → Result (RpcResult B) GrpcStatus) (left : ℕ)
        (s : GrpcAuthority × World A) (a : A)
        → ((c : RequestContext)
            → app_context (some c) ≡ ok c
            → rpc (request c) s.1 ≡ serve x hash expired (err status) tell s.1)
        → IsReady (left + 1) s a
        → (s' : GrpcAuthority × World A) × (method texts name request read rpc s
            ≡ (s', err (texts.grpc_error name status)))
          × IsReady left s' a
    unfolding serve unary performed receive
    method-refused name request read rpc status tell left (g, w) a asks r =
        let n = g.next_request_id in
        let c = numbered g n in
        (
          (record g { next_request_id = n + 1 }, w),
          method-sent texts name request read rpc g (record g { next_request_id = n + 1 }) w w c
              (err status) (context-next g r.started (omega (arith, r.ahead)))
              (asks c (app_context-numbered g n r.named r.started)),
          IsReady-next left g w w a a r r.cache (λ m h. r.unused m (omega (arith, h))) r.authority,
        )
