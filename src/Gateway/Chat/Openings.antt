-- ===== src/Gateway/Chat/Openings.antt =====
-- How the opening of a streamed answer ends, with failover (gateway/app/main.py, `_stream_response`).
use polygate.Prelude.{
  ℕ, zero, suc, ◌+◌, ◌<◌, ◌≡◌, refl, inl, inr, List, [], ◌∷◌, ◌++◌, String, arith, length,
  Bool-cases, Option-cases,
}
use polygate.Prelude.Floats.{Floats}
use polygate.Gateway.Breaker.Registry.{Registry}
use polygate.Gateway.Router.{Provider, RoutingPolicy}
use polygate.Gateway.Retry.{Config, Run}
use polygate.Gateway.Retry.Streams.{open_provider_stream_with_resilience}
use polygate.Gateway.Failover.{Request, Round, untried, request_budget_exhausted}
use polygate.Gateway.Failover.Untried.{untried-lt, untried-le}
use polygate.Gateway.Failover.Ends.{next, next-IsNext, outcome_cases}
use polygate.Gateway.Failover.Guards.{AreSound, IsAllowed, first-AreSound, next-AreSound}
use polygate.Gateway.Chat.{Opened, opened, not_opened, still_opening, open_failover, open_stream}

module _ (fl : Floats) (providers : List (Provider fl)) (req : Request fl) (cfg : Config)
    (deadline : ℕ) (policy : RoutingPolicy fl) (rounds : ℕ → Round fl providers) where
  -- How an opening ends: the names tried are distinct and of allowed providers; the stream is of the
  -- provider that was tried last.
  abbrev pub EndsSoundly : Opened fl providers → Type 0
  EndsSoundly (opened s reg) =
      AreSound fl providers req cfg deadline policy rounds s.tried_names
      × ((before : List String) × (s.tried_names ≡ before ++ s.chosen.name ∷ []))
  EndsSoundly (not_opened e names) = AreSound fl providers req cfg deadline policy rounds names
  EndsSoundly still_opening = ⊥

  abbrev loop : ℕ → ℕ → List String → Provider fl → ℕ → Registry → Opened fl providers
  loop = open_failover fl providers req cfg deadline policy rounds

  abbrev called : ℕ → Provider fl → Registry → Run × Registry
  called round p reg =
      open_provider_stream_with_resilience cfg (rounds round).env p.name (rounds round).wall reg

  loop-EndsSoundly :
      (fuel round : ℕ) (tried : List String) (p : Provider fl) (f : ℕ) (reg : Registry)
      → length (untried fl providers (tried ++ p.name ∷ [])) < fuel
      → AreSound fl providers req cfg deadline policy rounds (tried ++ p.name ∷ [])
      → EndsSoundly (loop fuel round tried p f reg)
  unfolding open_failover
  loop-EndsSoundly zero round tried p f reg l h = elim l [ ]
  loop-EndsSoundly (suc fuel) round tried p f reg l h =
      elim (outcome_cases fl providers req cfg deadline policy rounds
        (called round p reg).0.outcome) [
          | inl (n, o) ↦ rw (o, open_failover) (h, (tried, refl))
          | inr (e, n, o) ↦
              elim (Bool-cases (request_budget_exhausted e deadline (rounds round).clock)) [
                | inl late ↦ rw (o, open_failover) (rw (late, open_failover) h)
                | inr ontime ↦
                    elim (Option-cases (
                      next fl providers req cfg deadline policy rounds (tried ++ p.name ∷ [])
                        (called round p reg).1)) [
                          | inl nobody ↦
                              rw (o, open_failover)
                                (rw (ontime, open_failover) (rw (nobody, open_failover) h))
                          | inr (q, e') ↦
                              let (m, i, g) =
                                next-IsNext fl providers req cfg deadline policy rounds
                                  (tried ++ p.name ∷ []) (called round p reg).1 q e' in
                              rw (o, open_failover)
                                (rw (ontime, open_failover)
                                  (rw (e', open_failover)
                                    (loop-EndsSoundly fuel (round + 1) (tried ++ p.name ∷ []) q
                                      (f + n) (called round p reg).1
                                      (omega
                                        (arith, untried-lt fl providers q (tried ++ p.name ∷ []) i))
                                      (next-AreSound fl providers req cfg deadline policy rounds
                                        (tried ++ p.name ∷ []) q (called round p reg).1 h e'))))
                        ]
              ]
        ]

  -- If the first provider is one that privacy and the required capabilities allow, then the opening of
  -- a streamed answer comes to an end, whatever the providers answer. Either a stream is opened, of the
  -- provider that was tried last, or the client gets an error; and only allowed providers are tried,
  -- none of their names twice.
  pub open_stream-EndsSoundly :
      (p : Provider fl) (reg : Registry)
      → IsAllowed fl providers req cfg deadline policy rounds p
      → EndsSoundly (open_stream fl providers req cfg deadline policy rounds p reg)
  unfolding open_stream
  open_stream-EndsSoundly p reg a =
      loop-EndsSoundly (length providers + 1) 0 [] p 0 reg
        (omega (arith, untried-le fl providers (p.name ∷ [])))
        (first-AreSound fl providers req cfg deadline policy rounds p a)
