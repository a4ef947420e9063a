-- ===== src/Api/Slots/Held.antt =====
-- Over every run of requests to /api/v2/ask: who holds the slots.
use zglab_rag.Prelude.{
  ℕ, ◌+◌, ◌≡◌, refl, Bool, true, false, Option, none, some, List, [], ◌∷◌, ◌++◌, arith, leb, inl,
  inr, ◌-◌, if-cases, Option-cases, ap,
}
use zglab_rag.Prelude.Lists.{count_if}
use zglab_rag.Api.Slots.{
  ConcurrencyGuard, guard, acquire, release, Capability, personal, agent, web, Guards, Course,
  over_quota, conversation_gone, executor_shut_down, submitted, tables_raise, Response, generating,
  raised, release_held, proceed, with_agent, with_research, with_slot, ask_v2,
}

-- The guards, the tasks that run, and the requests that an exception ended with their slots held.
pub record Service : Type 0 where
  pub guards : Guards
  pub running : List Capability
  pub lost : List Capability

abbrev every : Capability → Bool
every c = true

abbrev is_agent : Capability → Bool
is_agent agent = true
is_agent _ = false

abbrev is_web : Capability → Bool
is_web web = true
is_web _ = false

-- A request that generates runs; one that raised has lost its slots, if it had any.
unfoldable pub recorded : Capability → Service → Response × Guards → Service
recorded c s (generating, gs) = record s { guards = gs; running = c ∷ s.running }
recorded c s (raised, gs) = record s { guards = gs; lost = c ∷ s.lost }
recorded c s (_, gs) = record s { guards = gs }

abbrev pub serve : Capability → Course → Service → Service
serve c e s = recorded c s (ask_v2 c e s.guards)

abbrev pub started : ℕ → ℕ → ℕ → Service
started n a w = record {
  guards = record { concurrency_guard = guard n; agent_guard = guard a; research_guard = guard w };
  running = [];
  lost = [];
}

-- What requests lead to, and tasks that complete in any order: the done callbacks release the slots.
pub data Reach (n a w : ℕ) : Service → Type 0 where
  begun : Reach n a w (started n a w)
  asked : (c : Capability) (e : Course) (s : Service) → Reach n a w s → Reach n a w (serve c e s)
  completed :
      (c : Capability) (xs ys lost : List Capability) (gs : Guards)
      → Reach n a w (record { guards = gs; running = xs ++ c ∷ ys; lost = lost })
      → Reach n a w (record { guards = release_held c gs; running = xs ++ ys; lost = lost })

-- Each slot is free, held by a task that runs, or lost.
abbrev Balanced : ℕ → ConcurrencyGuard → (Capability → Bool) → Service → Type 0
Balanced n g p s = g.semaphore + count_if p s.running + count_if p s.lost ≡ n

pub record IsBalanced (n a w : ℕ) (s : Service) : Type 0 where
  pub requests : Balanced n s.guards.concurrency_guard every s
  pub agents : Balanced a s.guards.agent_guard is_agent s
  pub researches : Balanced w s.guards.research_guard is_web s

count_if-middle :
    (p : Capability → Bool) (c : Capability) (xs ys : List Capability)
    → count_if p (xs ++ c ∷ ys) ≡ count_if p (c ∷ xs ++ ys)
count_if-middle p c [] ys = refl
count_if-middle p c (x ∷ xs) ys = omega (arith, count_if-middle p c xs ys)

abbrev counter : ℕ → Option ConcurrencyGuard → ℕ
counter d none = d
counter d (some g) = g.semaphore

acquire-some : (g h : ConcurrencyGuard) → acquire g ≡ some h → h.semaphore + 1 ≡ g.semaphore
unfolding acquire
acquire-some g h e =
    if-cases (λ x. x ≡ some h → h.semaphore + 1 ≡ g.semaphore) (leb g.semaphore 0) none
      (some (record g { semaphore = g.semaphore - 1 })) (λ b e. cc)
      (λ b e.
        let r : g.semaphore - 1 ≡ h.semaphore = ap (counter (g.semaphore - 1)) e in ground arith)
      e

module _ (n a w : ℕ) where
  release_held-IsBalanced :
      (c : Capability) (gs : Guards) (r lost : List Capability)
      → IsBalanced n a w (record { guards = gs; running = c ∷ r; lost = lost })
      → IsBalanced n a w (record { guards = release_held c gs; running = r; lost = lost })
  unfolding release_held release
  release_held-IsBalanced personal gs r lost k = record {
    requests = omega (arith, k.requests);
    agents = omega (arith, k.agents);
    researches = omega (arith, k.researches);
  }
  release_held-IsBalanced agent gs r lost k = record {
    requests = omega (arith, k.requests);
    agents = omega (arith, k.agents);
    researches = omega (arith, k.researches);
  }
  release_held-IsBalanced web gs r lost k = record {
    requests = omega (arith, k.requests);
    agents = omega (arith, k.agents);
    researches = omega (arith, k.researches);
  }

  lose-IsBalanced :
      (c : Capability) (gs : Guards) (r lost : List Capability)
      → IsBalanced n a w (record { guards = gs; running = c ∷ r; lost = lost })
      → IsBalanced n a w (record { guards = gs; running = r; lost = c ∷ lost })
  lose-IsBalanced c gs r lost k = record {
    requests = omega (arith, k.requests);
    agents = omega (arith, k.agents);
    researches = omega (arith, k.researches);
  }

  proceed-IsBalanced :
      (c : Capability) (e : Course) (gs : Guards) (s : Service)
      → IsBalanced n a w (record s { guards = gs; running = c ∷ s.running })
      → IsBalanced n a w (recorded c s (proceed c e gs))
  unfolding proceed recorded
  proceed-IsBalanced c over_quota gs s k = release_held-IsBalanced c gs s.running s.lost k
  proceed-IsBalanced c conversation_gone gs s k = release_held-IsBalanced c gs s.running s.lost k
  proceed-IsBalanced c executor_shut_down gs s k = release_held-IsBalanced c gs s.running s.lost k
  proceed-IsBalanced c submitted gs s k = k
  proceed-IsBalanced c tables_raise gs s k = lose-IsBalanced c gs s.running s.lost k

  with_agent-IsBalanced :
      (e : Course) (gs : Guards) (s : Service)
      → IsBalanced n a w (record s { guards = gs; running = personal ∷ s.running })
      → IsBalanced n a w (recorded agent s (with_agent e gs (acquire gs.agent_guard)))
  unfolding with_agent recorded release_held
  with_agent-IsBalanced e gs s k = elim (Option-cases (acquire gs.agent_guard)) [
    | inl f ↦ rw f (release_held-IsBalanced personal gs s.running s.lost k)
    | inr (g, f) ↦
        let t = acquire-some gs.agent_guard g f in
        rw f (
          proceed-IsBalanced agent e (record gs { agent_guard = g }) s
            (record {
              requests = omega (arith, k.requests);
              agents = omega (arith, k.agents);
              researches = omega (arith, k.researches);
            }))
  ]

  with_research-IsBalanced :
      (e : Course) (gs : Guards) (s : Service)
      → IsBalanced n a w (record s { guards = gs; running = personal ∷ s.running })
      → IsBalanced n a w (recorded web s (with_research e gs (acquire gs.research_guard)))
  unfolding with_research recorded release_held
  with_research-IsBalanced e gs s k = elim (Option-cases (acquire gs.research_guard)) [
    | inl f ↦ rw f (release_held-IsBalanced personal gs s.running s.lost k)
    | inr (g, f) ↦
        let t = acquire-some gs.research_guard g f in
        rw f (
          proceed-IsBalanced web e (record gs { research_guard = g }) s
            (record {
              requests = omega (arith, k.requests);
              agents = omega (arith, k.agents);
              researches = omega (arith, k.researches);
            }))
  ]

  with_slot-IsBalanced :
      (c : Capability) (e : Course) (g : ConcurrencyGuard) (s : Service)
      → g.semaphore + 1 ≡ s.guards.concurrency_guard.semaphore
      → IsBalanced n a w s
      → IsBalanced n a w (recorded c s (with_slot c e s.guards (some g)))
  unfolding with_slot
  with_slot-IsBalanced c e g s t k =
      let taken : IsBalanced n a w (record s {
        guards = record s.guards { concurrency_guard = g };
        running = personal ∷ s.running;
      }) =
        record {
          requests = omega (arith, k.requests);
          agents = omega (arith, k.agents);
          researches = omega (arith, k.researches);
        } in
      let gs = record s.guards { concurrency_guard = g } in
      elim c as (λ x. IsBalanced n a w (recorded x s (with_slot x e s.guards (some g)))) [
        | personal ↦ proceed-IsBalanced personal e gs s taken
        | agent ↦ with_agent-IsBalanced e gs s taken
        | web ↦ with_research-IsBalanced e gs s taken
      ]

  serve-IsBalanced :
      (c : Capability) (e : Course) (s : Service)
      → IsBalanced n a w s
      → IsBalanced n a w (serve c e s)
  unfolding ask_v2 with_slot recorded
  serve-IsBalanced c e s k = elim (Option-cases (acquire s.guards.concurrency_guard)) [
    | inl f ↦ rw f k
    | inr (g, f) ↦
        rw f (with_slot-IsBalanced c e g s (acquire-some s.guards.concurrency_guard g f) k)
  ]

  -- Whatever requests to /api/v2/ask come, however they go on, and in whatever order their tasks
  -- complete: of each of the three guards, the slots that are free, those that the running tasks of its
  -- kind hold and those of requests that an exception ended make up `max_concurrent`.
  pub Reach-IsBalanced : (s : Service) → Reach n a w s → IsBalanced n a w s
  Reach-IsBalanced _ begun = record {
    requests = omega arith;
    agents = omega arith;
    researches = omega arith;
  }
  Reach-IsBalanced _ (asked c e s r) = serve-IsBalanced c e s (Reach-IsBalanced s r)
  Reach-IsBalanced _ (completed c xs ys lost gs r) =
      let k = Reach-IsBalanced (record { guards = gs; running = xs ++ c ∷ ys; lost = lost }) r in
      release_held-IsBalanced c gs (xs ++ ys) lost (record {
        requests = omega (arith, k.requests, count_if-middle every c xs ys);
        agents = omega (arith, k.agents, count_if-middle is_agent c xs ys);
        researches = omega (arith, k.researches, count_if-middle is_web c xs ys);
      })
