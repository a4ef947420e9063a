-- ===== src/Api/Slots.antt =====
-- `ConcurrencyGuard` of src/zglab_rag/api/concurrency.py, and how `ask_v2` of
-- src/zglab_rag/api/main.py takes and gives back its slots.
use zglab_rag.Prelude.{
  ℕ, ◌+◌, ◌-◌, Bool, true, false, Option, none, some, List, [], ◌∷◌, leb, if◌then◌else◌,
}
pub mod Held

-- A `Semaphore` is its counter.
pub record ConcurrencyGuard : Type 0 where
  pub max_concurrent : ℕ
  pub semaphore : ℕ

abbrev pub guard : ℕ → ConcurrencyGuard
guard n = record { max_concurrent = n; semaphore = n }

-- none is the `ServiceBusyError`.
unfoldable pub acquire : ConcurrencyGuard → Option ConcurrencyGuard
acquire g = if leb g.semaphore 0 then none else some (record g { semaphore = g.semaphore - 1 })

unfoldable pub release : ConcurrencyGuard → ConcurrencyGuard
release g = record g { semaphore = g.semaphore + 1 }

-- What a request was found to be: `is_agent`, `is_web`, or neither of the two.
pub data Capability : Type 0 where
  personal agent web : Capability

pub record Guards : Type 0 where
  pub concurrency_guard : ConcurrencyGuard
  pub agent_guard : ConcurrencyGuard
  pub research_guard : ConcurrencyGuard

-- What happens once the slots are held: the quota is exceeded, the conversation is gone, the executor
-- is shut down, it takes the task, or the tables of the quota or of the conversation raise.
pub data Course : Type 0 where
  over_quota conversation_gone executor_shut_down submitted tables_raise : Course

-- `raised` is an exception that leaves the handler.
pub data Response : Type 0 where
  service_busy quota_exceeded not_found shutting_down generating raised : Response

-- `for held in held_guards: held.release()`
unfoldable pub release_held : Capability → Guards → Guards
release_held personal gs = record gs { concurrency_guard = release gs.concurrency_guard }
release_held agent gs = record gs {
  concurrency_guard = release gs.concurrency_guard;
  agent_guard = release gs.agent_guard;
}
release_held web gs = record gs {
  concurrency_guard = release gs.concurrency_guard;
  research_guard = release gs.research_guard;
}

-- From the quota on.
unfoldable pub proceed : Capability → Course → Guards → Response × Guards
proceed c over_quota gs = (quota_exceeded, release_held c gs)
proceed c conversation_gone gs = (not_found, release_held c gs)
proceed c executor_shut_down gs = (shutting_down, release_held c gs)
proceed c submitted gs = (generating, gs)
proceed c tables_raise gs = (raised, gs)

unfoldable pub with_agent : Course → Guards → Option ConcurrencyGuard → Response × Guards
with_agent e gs none =
    (service_busy, record gs { concurrency_guard = release gs.concurrency_guard })
with_agent e gs (some g) = proceed agent e (record gs { agent_guard = g })

unfoldable pub with_research : Course → Guards → Option ConcurrencyGuard → Response × Guards
with_research e gs none =
    (service_busy, record gs { concurrency_guard = release gs.concurrency_guard })
with_research e gs (some g) = proceed web e (record gs { research_guard = g })

unfoldable pub with_slot :
    Capability → Course → Guards → Option ConcurrencyGuard → Response × Guards
with_slot c e gs none = (service_busy, gs)
with_slot personal e gs (some g) = proceed personal e (record gs { concurrency_guard = g })
with_slot agent e gs (some g) =
    with_agent e (record gs { concurrency_guard = g }) (acquire gs.agent_guard)
with_slot web e gs (some g) =
    with_research e (record gs { concurrency_guard = g }) (acquire gs.research_guard)

unfoldable pub ask_v2 : Capability → Course → Guards → Response × Guards
ask_v2 c e gs = with_slot c e gs (acquire gs.concurrency_guard)
