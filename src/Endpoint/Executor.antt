-- ===== src/Endpoint/Executor.antt =====
-- The test `num_topologies() < num_workers()` of `Endpoint::operator()` and the call of `silent_async`
-- behind it, made by the threads of restinio's pool with no lock in between.
use tentris.Base.{ℕ, zero, suc, ◌+◌, ◌-◌, ◌≤◌, ◌<◌, ◌≡◌, subst, arith}
use tentris.Endpoint.Requests.{EndpointCfg}
use tentris.Endpoint.HttpServer.{pool_size, server_settings}

-- The requests that run, the threads of the pool that stand between the test and the call, and the
-- connections on which a request waits for its response.
pub record Load : Type 0 where
  pub topologies : ℕ
  pub admitted : ℕ
  pub connections : ℕ

abbrev pub idle : Load
idle = record { topologies = 0; admitted = 0; connections = 0 }

-- One step of a thread of the pool, or the end of a request. The executor has a worker for each of
-- `cfg.threads`, and restinio accepts as many connections (`max_parallel_connections`) with one
-- request at a time on each (`max_pipelined_requests`). A connection is free again after its response
-- or when it is closed, by the client or at a time limit, and that does not end the task of its
-- request; it stays while a thread of the pool handles its request.
pub data LoadStep (cfg : EndpointCfg) : Load → Load → Type 0 where
  admit :
      (t a k : ℕ)
      → t < cfg.threads
      → a < pool_size cfg
      → k < (server_settings cfg).max_parallel_connections
      → LoadStep cfg
          (record { topologies = t; admitted = a; connections = k })
          (record { topologies = t; admitted = suc a; connections = suc k })
  reject :
      (t a k : ℕ)
      → cfg.threads ≤ t
      → a < pool_size cfg
      → k < (server_settings cfg).max_parallel_connections
      → LoadStep cfg
          (record { topologies = t; admitted = a; connections = k })
          (record { topologies = t; admitted = a; connections = k })
  silent_async :
      (t a k : ℕ)
      → LoadStep cfg
          (record { topologies = t; admitted = suc a; connections = k })
          (record { topologies = suc t; admitted = a; connections = k })
  finish :
      (t a k : ℕ)
      → LoadStep cfg
          (record { topologies = suc t; admitted = a; connections = k })
          (record { topologies = t; admitted = a; connections = k })
  free :
      (t a k : ℕ)
      → a ≤ k
      → LoadStep cfg
          (record { topologies = t; admitted = a; connections = suc k })
          (record { topologies = t; admitted = a; connections = k })

pub data LoadSteps (cfg : EndpointCfg) : Load → Load → Type 0 where
  none : (s : Load) → LoadSteps cfg s s
  next : (s t u : Load) → LoadSteps cfg s t → LoadStep cfg t u → LoadSteps cfg s u

module _ (cfg : EndpointCfg) where
  abbrev Bounded : Load → Type 0
  Bounded s = s.topologies + s.admitted < cfg.threads + pool_size cfg

  LoadStep-Bounded : (s t : Load) → LoadStep cfg s t → Bounded s → Bounded t
  LoadStep-Bounded _ _ (admit t a k below room _) h = omega arith
  LoadStep-Bounded _ _ (reject t a k busy room _) h = h
  LoadStep-Bounded _ _ (silent_async t a k) h = omega arith
  LoadStep-Bounded _ _ (finish t a k) h = omega arith
  LoadStep-Bounded _ _ (free t a k _) h = h

  LoadSteps-Bounded : (s t : Load) → LoadSteps cfg s t → Bounded s → Bounded t
  LoadSteps-Bounded _ _ (none s) h = h
  LoadSteps-Bounded _ _ (next s t u steps step) h =
      LoadStep-Bounded t u step (LoadSteps-Bounded s t steps h)

  pool_size-positive : 0 < pool_size cfg
  unfolding pool_size
  pool_size-positive = ground arith

  -- From an idle executor, the requests that run at one time are fewer than the threads of the endpoint
  -- and those of the pool together.
  pub LoadSteps-topologies :
      (s : Load) → LoadSteps cfg idle s → s.topologies < cfg.threads + pool_size cfg
  LoadSteps-topologies s steps =
      let positive = pool_size-positive in
      let h = LoadSteps-Bounded idle s steps (omega arith) in omega (arith, h)

  abbrev load : ℕ → ℕ → ℕ → Load
  load t a k = record { topologies = t; admitted = a; connections = k }

  -- Requests that run on while their connections are closed.
  started : (t : ℕ) → t ≤ cfg.threads → LoadSteps cfg idle (load t 0 0)
  unfolding server_settings
  started zero few = none idle
  started (suc t) few =
      let positive = pool_size-positive in
      next _ _ _
        (next _ _ _
          (next _ _ _ (started t (omega arith)) (admit t 0 0 (omega arith) positive (omega arith)))
          (silent_async t 0 1))
        (free (suc t) 0 0 (omega arith))

  all_admitted :
      (t a : ℕ)
      → t < cfg.threads
      → a ≤ pool_size cfg
      → a ≤ cfg.threads
      → LoadSteps cfg idle (load t a a)
  unfolding server_settings
  all_admitted t zero few room connected = started t (omega arith)
  all_admitted t (suc a) few room connected =
      next _ _ _ (all_admitted t a few (omega arith) (omega arith))
        (admit t a a few (omega arith) (omega arith))

  all_started :
      (a t k : ℕ) → LoadSteps cfg idle (load t a k) → LoadSteps cfg idle (load (t + a) 0 k)
  all_started zero t k steps =
      let same : t ≡ t + 0 = omega arith in subst (λ n. LoadSteps cfg idle (load n 0 k)) same steps
  all_started (suc a) t k steps =
      let shift : suc t + a ≡ t + suc a = omega arith in
      subst (λ n. LoadSteps cfg idle (load n 0 k)) shift
        (all_started a (suc t) k (next _ _ _ steps (silent_async t a k)))

  -- With a thread of the endpoint for each thread of the pool, the bound is met once connections have
  -- been closed while their requests run on: threads of the pool that pass the test together start as
  -- many requests as the pool has threads, beyond all but one of the workers.
  pub overload :
      pool_size cfg ≤ cfg.threads
      → LoadSteps cfg idle (record {
        topologies = cfg.threads - 1 + pool_size cfg;
        admitted = 0;
        connections = pool_size cfg;
      })
  overload connected =
      let positive = pool_size-positive in
      all_started (pool_size cfg) (cfg.threads - 1) (pool_size cfg)
        (all_admitted (cfg.threads - 1) (pool_size cfg) (omega arith) (omega arith) connected)
