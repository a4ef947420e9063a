-- ===== src/Api/Examples.antt =====
-- The slots of /api/v2/ask at two requests of which one is an agent's.
use zglab_rag.Prelude.{◌≡◌, refl, [], ◌∷◌}
use zglab_rag.Api.Slots.{
  agent, web, submitted, tables_raise, service_busy, acquire, release, release_held, proceed,
  with_agent, with_research, with_slot, ask_v2,
}
use zglab_rag.Api.Slots.Held.{
  Service, IsBalanced, Reach, begun, asked, completed, recorded, serve, started, Reach-IsBalanced,
}

-- The only slot for agents is taken: the second agent gives its first slot back.
second_agent :
    (ask_v2 agent submitted (serve agent submitted (started 2 1 1)).guards).0 ≡ service_busy
unfolding ask_v2 with_slot with_agent proceed acquire release recorded
second_agent = refl

second_agent_slots :
    (serve agent submitted (serve agent submitted (started 2 1 1))).guards
    ≡ (serve agent submitted (started 2 1 1)).guards
unfolding ask_v2 with_slot with_agent proceed acquire release recorded
second_agent_slots = refl

abbrev two_asked : Service
two_asked = serve web tables_raise (serve agent submitted (started 2 1 1))

-- One agent, which completes, after a request of the web that an exception ended.
abbrev after_agent : Service
unfolding release_held release
after_agent = record { guards = release_held agent two_asked.guards; running = []; lost = web ∷ [] }

after_agent-Reach : Reach 2 1 1 after_agent
unfolding ask_v2 with_slot with_agent with_research proceed acquire release release_held recorded
after_agent-Reach = completed agent [] [] (web ∷ []) two_asked.guards (
    asked web tables_raise (serve agent submitted (started 2 1 1))
      (asked agent submitted (started 2 1 1) begun))

Reach-IsBalanced_example : IsBalanced 2 1 1 after_agent
Reach-IsBalanced_example = Reach-IsBalanced 2 1 1 after_agent after_agent-Reach
