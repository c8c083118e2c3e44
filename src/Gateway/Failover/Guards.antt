-- ===== src/Gateway/Failover/Guards.antt =====
-- What failover promises of the providers it tries.
use polygate.Prelude.{
  ℕ, ◌+◌, ◌≡◌, refl, subst, sym, ◌∙◌, ◌⊎◌, inl, inr, true, false, not, some, List, [], ◌∷◌, ◌++◌,
  String, arith, length, In, In-keep, str_eq_iff, mem_text, lookup,
}
use polygate.Prelude.Floats.{Floats}
use polygate.Gateway.Breaker.Registry.{Registry}
use polygate.Gateway.Router.{Provider, RoutingPolicy, Privacy}
use polygate.Gateway.Retry.{Config}
use polygate.Gateway.Failover.{
  auto, named, Request, Round, Ending, served, failed_with, out_of_fuel, untried, call_non_stream,
}
use polygate.Gateway.Failover.Untried.{mem_text-snoc, untried-le}
use polygate.Gateway.Failover.Ends.{next, next-IsNext, loop-EndsIn, EndsIn}

-- No name comes twice.
abbrev pub AllDistinct : List String → Type 0
AllDistinct [] = Unit
AllDistinct (x ∷ xs) = (mem_text x xs ≡ false) × AllDistinct xs

AllDistinct-snoc :
    (y : String) (xs : List String)
    → AllDistinct xs
    → mem_text y xs ≡ false
    → AllDistinct (xs ++ y ∷ [])
AllDistinct-snoc y [] h k = (refl, tt)
AllDistinct-snoc y (x ∷ xs) (a, b) k = (
  ground (arith, mem_text-snoc x y xs, str_eq_iff x y, str_eq_iff y x),
  AllDistinct-snoc y xs b (ground arith),
)

In-snoc : (x y : String) (xs : List String) → In x (xs ++ y ∷ []) → In x xs ⊎ (x ≡ y)
In-snoc x y [] (inl e) = inr e
In-snoc x y [] (inr e) = absurd e
In-snoc x y (z ∷ zs) (inl e) = inl (inl e)
In-snoc x y (z ∷ zs) (inr i) = elim (In-snoc x y zs i) [ inl j ↦ inl (inr j) | inr e ↦ inr e ]

module _ (fl : Floats) (providers : List (Provider fl)) (req : Request fl) (cfg : Config)
    (deadline : ℕ) (policy : RoutingPolicy fl) (rounds : ℕ → Round fl providers) where
  -- The names tried, of a request that has ended.
  abbrev pub Tries : (List String → Type 0) → Ending fl providers → Type 0
  Tries P (served s) = P s.tried_names
  Tries P (failed_with e names) = P names
  Tries P out_of_fuel = ⊥

  abbrev run : Provider fl → Registry → Ending fl providers
  run = call_non_stream fl providers req cfg deadline policy rounds

  module _ (Inv : List String → Provider fl → Type 0) (P : List String → Type 0)
      (good : (t : List String) (c : Provider fl) → Inv t c → P (t ++ c.name ∷ [])) where
    EndsIn-Tries :
        (step : (tried : List String) (p q : Provider fl) (reg : Registry)
          → Inv tried p
          → next fl providers req cfg deadline policy rounds (tried ++ p.name ∷ []) reg ≡ some q
          → Inv (tried ++ p.name ∷ []) q)
        (e : Ending fl providers)
        → EndsIn fl providers req cfg deadline policy rounds Inv step e
        → Tries P e
    EndsIn-Tries step (served s) (t, i, e) = subst P (sym e) (good t s.chosen i)
    EndsIn-Tries step (failed_with x names) (t, c, i, e) = subst P (sym e) (good t c i)
    EndsIn-Tries step out_of_fuel h = absurd h

    run-Tries :
        (step : (tried : List String) (p q : Provider fl) (reg : Registry)
          → Inv tried p
          → next fl providers req cfg deadline policy rounds (tried ++ p.name ∷ []) reg ≡ some q
          → Inv (tried ++ p.name ∷ []) q)
        (p : Provider fl) (reg : Registry)
        → Inv [] p
        → Tries P (run p reg)
    unfolding call_non_stream
    run-Tries step p reg i = EndsIn-Tries step _ (
        loop-EndsIn fl providers req cfg deadline policy rounds Inv step (length providers + 1) 0 []
          p 0 reg (omega (arith, untried-le fl providers (p.name ∷ []))) i)

  untried_name :
      (q : Provider fl) (tried : List String)
      → In q (untried fl providers tried)
      → In q providers × (mem_text q.name tried ≡ false)
  untried_name q tried i =
      let (j, h) = In-keep (λ (x : Provider fl). not (mem_text x.name tried)) q providers i in
      (j, ground arith)

  -- The request ends, with an answer or an error, and tries no provider's name twice, whatever the
  -- providers answer.
  pub tried_once : (p : Provider fl) (reg : Registry) → Tries AllDistinct (run p reg)
  tried_once p reg =
      run-Tries (λ t c. AllDistinct (t ++ c.name ∷ [])) AllDistinct (λ t c i. i)
        (λ t c q reg i e.
          AllDistinct-snoc q.name (t ++ c.name ∷ []) i
            (untried_name q (t ++ c.name ∷ [])
              (next-IsNext fl providers req cfg deadline policy rounds _ reg q e).1).1)
        p reg (refl, tt)

  -- A provider of the list that privacy and the required capabilities allow.
  abbrev pub IsAllowed : Provider fl → Type 0
  IsAllowed q =
      In q providers
      × (req.constraints.privacy ≡ Privacy.high → q.privacy ≡ some "internal")
      × ((n : String) → In n req.required_capabilities → lookup n q.capabilities ≡ some true)

  -- Every name is that of an allowed provider.
  abbrev pub AllAllowed : List String → Type 0
  AllAllowed names = (n : String) → In n names → (q : Provider fl) × (q.name ≡ n) × IsAllowed q

  AllAllowed-snoc :
      (q : Provider fl) (names : List String)
      → AllAllowed names
      → IsAllowed q
      → AllAllowed (names ++ q.name ∷ [])
  AllAllowed-snoc q names a (b, c, d) n i = elim (In-snoc n q.name names i) [
    | inl j ↦ a n j
    | inr e ↦ (q, sym e, (b, c, d))
  ]

  -- If the first provider is one that privacy and the required capabilities allow, as any that the
  -- router chose is, then the request is sent only to such providers, and it ends, with whatever
  -- health and answers.
  pub tried_allowed :
      (reg : Registry) (p : Provider fl) → IsAllowed p → Tries AllAllowed (run p reg)
  tried_allowed reg p a =
      run-Tries (λ t c. AllAllowed (t ++ c.name ∷ [])) AllAllowed (λ t c i. i)
        (λ t c q reg i e.
          let (m, j, g) = next-IsNext fl providers req cfg deadline policy rounds _ reg q e in
          AllAllowed-snoc q (t ++ c.name ∷ []) i
            ((untried_name q (t ++ c.name ∷ []) j).0, g.private, g.capable))
        p reg (AllAllowed-snoc p [] (λ n i. absurd i) a)

  -- Distinct names of allowed providers.
  abbrev pub AreSound : List String → Type 0
  AreSound names = AllDistinct names × AllAllowed names

  pub first-AreSound : (p : Provider fl) → IsAllowed p → AreSound (p.name ∷ [])
  first-AreSound p a = ((refl, tt), AllAllowed-snoc p [] (λ n i. absurd i) a)

  -- The next provider keeps them so.
  pub next-AreSound :
      (names : List String) (q : Provider fl) (reg : Registry)
      → AreSound names
      → next fl providers req cfg deadline policy rounds names reg ≡ some q
      → AreSound (names ++ q.name ∷ [])
  next-AreSound names q reg (d, a) e =
      let (m, j, g) = next-IsNext fl providers req cfg deadline policy rounds names reg q e in
      let (i, n) = untried_name q names j in
      (AllDistinct-snoc q.name names d n, AllAllowed-snoc q names a (i, g.private, g.capable))

  -- A request that names its provider is sent to that provider only.
  pub named_alone :
      (n : String) (p : Provider fl) (reg : Registry)
      → req.model ≡ named n
      → Tries (λ names. names ≡ p.name ∷ []) (run p reg)
  named_alone n p reg m =
      run-Tries (λ t c. (t ≡ []) × (c ≡ p)) (λ names. names ≡ p.name ∷ [])
        (λ t c (e, f). rw (e, f) refl)
        (λ t c q reg i e.
          let (a, _, _) = next-IsNext fl providers req cfg deadline policy rounds _ reg q e in
          let no : auto ≡ named n = sym a ∙ m in cc)
        p reg (refl, refl)
